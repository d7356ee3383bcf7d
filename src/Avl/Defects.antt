-- ===== src/Avl/Defects.antt =====
-- kernel/klib/avltree.c: what removal does not do.
use stanix.Base.{◌≡◌, refl, true, false, some, arith}
use stanix.Avl.{
  Tree, leaf, Ops, less, equal, compute_height, rebalance, rebalance_by, rotate_left, with_child,
}
use stanix.Avl.Balance.{IsAvl}
use stanix.Avl.Removal.{remove, on_return, unlink}

module _ {A : Type 0} {B : Type 0} {K : Type 0} (ops : Ops A B K) where
  abbrev pub single : A → Tree A B
  single x = compute_height ops leaf x leaf

  -- A balanced tree of four nodes, its right child leaning left.
  abbrev pub four : A → A → A → A → Tree A B
  four a b c d = compute_height ops (single a) b (compute_height ops (single c) d leaf)

  abbrev pub Unbalances : A → Tree A B → Type 0
  Unbalances n before = (t : Tree A B) × (remove ops n before ≡ some (true, t)) × (IsAvl ops t → ⊥)

  -- When `a` is less than `b`: removing `a` from the balanced tree with `a` to the left of the root `b`
  -- and to the right of it `d`, whose left child is `c`, gives a tree that is not balanced.
  pub remove-Unbalances :
      (a b c d : A)
      → ops.compare_nodes a b ≡ less
      → ops.compare_nodes a a ≡ equal
      → ops.same a a ≡ true
      → IsAvl ops (four a b c d) × Unbalances a (four a b c d)
  unfolding remove on_return unlink rebalance rebalance_by rotate_left with_child
  remove-Unbalances a b c d h k s = (
    (
      (refl, refl, refl, ground arith, ground arith),
      ((refl, refl, refl, ground arith, ground arith), refl, refl, ground arith, ground arith),
      refl,
      ground arith,
      ground arith,
    ),
    (
      compute_height ops (compute_height ops leaf b (single c)) d leaf,
      rw (h, k, s) refl,
      λ v. absurd (omega (arith, v.3)),
    ),
  )

  -- Of three distinct nodes that compare as equal, the one that stands to the left of the root is not
  -- found: removing it changes nothing and reports that it is not in the tree.
  pub remove-equal :
      (a b c : A)
      → ops.compare_nodes a b ≡ equal
      → ops.compare_nodes a c ≡ equal
      → ops.same a b ≡ false
      → ops.same a c ≡ false
      → remove ops a (compute_height ops (single a) b (single c))
        ≡ some (false, compute_height ops (single a) b (single c))
  unfolding remove on_return
  remove-equal a b c h k s s' = rw (h, s, k, s') refl
