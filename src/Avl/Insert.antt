-- ===== src/Avl/Insert.antt =====
-- Insertion: the new node comes into its place and the tree stays balanced.
use stanix.Base.{ℕ, ◌+◌, ◌≤◌, ◌≡◌, refl, sym, ap, ◌∙◌, false, Option, some, arith}
use stanix.Avl.{
  Tree, leaf, node, Ops, height, Sign, less, equal, greater, on_left, on_right, and_then, rebalance,
  insert,
}
use stanix.Avl.Order.{
  is_less, IsOrder, IsSorted, place, place_front, place_back, front-IsSorted, back-IsSorted,
  place-IsSorted,
}
use stanix.Avl.Balance.{inorder, IsAvl, grown_left, grown_right}

module _ {A : Type 0} {B : Type 0} {K : Type 0} (ops : Ops A B K) where
  -- A tree: balanced, at most one higher than before, with the new node in its place.
  abbrev pub Inserted : A → Tree A B → Option (Tree A B) → Type 0
  Inserted n before out =
      (t : Tree A B) × (out ≡ some t)
      × IsAvl ops t
      × (inorder ops t ≡ place ops.compare_nodes n (inorder ops before))
      × (height before ≤ height t)
      × (height t ≤ height before + 1)

  insert_left :
      (n : A) (left right : Tree A B) (x : A) (h : ℕ) (old : B) (out : Option (Tree A B))
      → IsAvl ops (node left x right h old)
      → ops.compare_nodes n x ≡ less
      → Inserted n left out
      → Inserted n
          (node left x right h old)
          (and_then out λ left'. rebalance ops on_left left' x right)
  insert_left n left right x h old out (vl, vr, e, lo, hi) c (t, et, vt, same, low, high) =
      let (t', et', vt', same', low', high') =
        grown_left ops t right x (height left) vt vr low high lo hi in
      (
        t',
        rw et et',
        vt',
        same'
            ∙ rw same
                (sym (place_front ops.compare_nodes n x (inorder ops left) (inorder ops right) c)),
        omega arith,
        omega arith,
      )

  insert_right :
      (n : A) (left right : Tree A B) (x : A) (h : ℕ) (old : B) (out : Option (Tree A B))
      → IsAvl ops (node left x right h old)
      → IsOrder ops.compare_nodes
      → IsSorted ops.compare_nodes (inorder ops (node left x right h old))
      → is_less (ops.compare_nodes n x) ≡ false
      → Inserted n right out
      → Inserted n
          (node left x right h old)
          (and_then out λ right'. rebalance ops on_right left x right')
  insert_right n left right x h old out (vl, vr, e, lo, hi) o v c (t, et, vt, same, low, high) =
      let (t', et', vt', same', low', high') =
        grown_right ops left t x (height right) vl vt low high lo hi in
      (
        t',
        rw et et',
        vt',
        same'
            ∙ rw same (
                sym
                  (place_back ops.compare_nodes n x (inorder ops left) (inorder ops right) o v c)),
        omega arith,
        omega arith,
      )

  -- Into a balanced tree whose nodes are in order, under a comparison that is an order: insertion
  -- never reaches undefined behaviour; the result is a balanced tree, as high as before or one higher;
  -- and its nodes, from left to right, are those of the old tree with the new one in its place,
  -- behind the nodes that it is equal to.
  pub insert-Inserted :
      (n : A) (kept : B) (t : Tree A B)
      → IsOrder ops.compare_nodes
      → IsAvl ops t
      → IsSorted ops.compare_nodes (inorder ops t)
      → Inserted n t (insert ops n kept t)
  unfolding insert place
  insert-Inserted n kept leaf o v w = (
    node leaf n leaf 1 kept,
    refl,
    (refl, refl, omega arith, omega arith, omega arith),
    refl,
    omega arith,
    omega arith,
  )
  insert-Inserted n kept (node left x right h old) o v w =
      go (ops.compare_nodes n x) refl
        (insert-Inserted n kept left o v.0
          (front-IsSorted ops.compare_nodes x (inorder ops left) (inorder ops right) w))
        (insert-Inserted n kept right o v.1
          (back-IsSorted ops.compare_nodes x (inorder ops left) (inorder ops right) w))
    where
      go :
          (s : Sign)
          → ops.compare_nodes n x ≡ s
          → Inserted n left (insert ops n kept left)
          → Inserted n right (insert ops n kept right)
          → Inserted n (node left x right h old) (insert ops n kept (node left x right h old))
      go less e i j =
          rw (e, insert) (insert_left n left right x h old (insert ops n kept left) v e i)
      go equal e i j =
          rw (e, insert)
            (insert_right n left right x h old (insert ops n kept right) v o w (ap is_less e) j)
      go greater e i j =
          rw (e, insert)
            (insert_right n left right x h old (insert ops n kept right) v o w (ap is_less e) j)

  -- Into a balanced tree whose nodes are in order, under a comparison that is an order: the nodes of
  -- the tree that insertion makes are in order.
  pub insert-IsSorted :
      (n : A) (kept : B) (t : Tree A B)
      → IsOrder ops.compare_nodes
      → IsAvl ops t
      → IsSorted ops.compare_nodes (inorder ops t)
      → (t' : Tree A B) × (insert ops n kept t ≡ some t')
        × IsSorted ops.compare_nodes (inorder ops t')
  insert-IsSorted n kept t o v w =
      let (t', e, v', same, lo, hi) = insert-Inserted n kept t o v w in
      (t', e, rw same (place-IsSorted ops.compare_nodes n (inorder ops t) o w))
