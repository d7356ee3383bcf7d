-- ===== src/Avl/Search.antt =====
-- kernel/klib/avltree.c: the lookups, which never change the tree.
use stanix.Base.{
  ◌≡◌, refl, sym, ap, ◌∙◌, Bool, true, false, Option, none, some, List, [], ◌∷◌, ◌++◌,
}
use mathlib.Core.Bool.{true≢false}
use stanix.Avl.{Tree, leaf, node, Ops, Sign, less, equal, greater}
use stanix.Avl.Balance.{inorder}
use stanix.Avl.Removal.{leftest_from}

-- `avltree_lookup`
pub lookup : {A : Type 0} {B : Type 0} {K : Type 0} → Ops A B K → K → Tree A B → Option A
lookup ops key leaf = none
lookup ops key (node left x right h kept) =
    let on_left = lookup ops key left in
    let on_right = lookup ops key right in
    elim (ops.compare_key key (node left x right h kept)) [
      | less ↦ on_left
      | greater ↦ on_right
      | equal ↦ some x
    ]

-- The loop of `avltree_first_superior_or_equal`, with the best node so far.
unfoldable pub superior_from :
    {A : Type 0} {B : Type 0} {K : Type 0} → Ops A B K → K → Tree A B → (best : Option A) → Option A
superior_from ops key leaf best = best
superior_from ops key (node left x right h kept) best =
    let on_left = superior_from ops key left (some x) in
    let on_right = superior_from ops key right best in
    elim (ops.compare_key key (node left x right h kept)) [
      | less ↦ on_left
      | equal ↦ on_left
      | greater ↦ on_right
    ]

-- `avltree_first_superior_or_equal`
unfoldable pub first_superior_or_equal :
    {A : Type 0} {B : Type 0} {K : Type 0} → Ops A B K → K → Tree A B → Option A
first_superior_or_equal ops key t = superior_from ops key t none

-- `avltree_first`
pub first : {A : Type 0} {B : Type 0} → Tree A B → Option A
first leaf = none
first (node left x right h kept) = some (leftest_from x left)

abbrev pub is_greater : Sign → Bool
is_greater less = false
is_greater equal = false
is_greater greater = true

module _ {A : Type 0} {B : Type 0} {K : Type 0} (ops : Ops A B K) (key : K) (side : A → Sign) where
  -- The key is compared with the element alone.
  abbrev pub LooksAt : Tree A B → Type 0
  LooksAt leaf = Path Bool true true
  LooksAt (node left x right h kept) =
      LooksAt left × (ops.compare_key key (node left x right h kept) ≡ side x) × LooksAt right

  -- The first element that the key is not greater than, or another one when there is none.
  abbrev pub first_in : List A → Option A → Option A
  first_in [] other = other
  first_in (x ∷ xs) other = elim (side x) [
    | less ↦ some x
    | equal ↦ some x
    | greater ↦ first_in xs other
  ]

  -- The key is greater than some elements at the front of the list, and than no other.
  abbrev NonePassed : List A → Type 0
  NonePassed [] = Path Bool true true
  NonePassed (x ∷ xs) = (is_greater (side x) ≡ false) × NonePassed xs

  abbrev pub IsSplit : List A → Type 0
  IsSplit [] = Path Bool true true
  IsSplit (x ∷ xs) = (is_greater (side x) ≡ false → NonePassed xs) × IsSplit xs

  first_in-append :
      (xs ys : List A) (other : Option A)
      → first_in (xs ++ ys) other ≡ first_in xs (first_in ys other)
  first_in-append [] ys other = refl
  first_in-append (x ∷ xs) ys other = go (side x) (first_in-append xs ys other)
    where
      go :
          (s : Sign) {a : Option A} {b : Option A}
          → a ≡ b
          → Path
              (Option A)
              (elim s [ less ↦ some x | equal ↦ some x | greater ↦ a ])
              (elim s [ less ↦ some x | equal ↦ some x | greater ↦ b ])
      go less h = refl
      go equal h = refl
      go greater h = h

  NonePassed-at :
      (x : A) (front back : List A) → NonePassed (front ++ (x ∷ back)) → is_greater (side x) ≡ false
  NonePassed-at x [] back h = h.0
  NonePassed-at x (y ∷ front) back h = NonePassed-at x front back h.1

  -- In front of an element that the key is greater than, it is greater than all.
  first_in-passed :
      (x : A) (front back : List A) (other : Option A)
      → IsSplit (front ++ (x ∷ back))
      → side x ≡ greater
      → first_in (front ++ (x ∷ back)) other ≡ first_in (x ∷ back) other
  first_in-passed x [] back other v h = refl
  first_in-passed x (y ∷ front) back other v h =
      go (side y) (λ small. NonePassed-at x front back (v.0 small))
        (first_in-passed x front back other v.1 h)
    where
      go :
          (s : Sign) {a : Option A} {b : Option A}
          → (is_greater s ≡ false → is_greater (side x) ≡ false)
          → a ≡ b
          → Path (Option A) (elim s [ less ↦ some y | equal ↦ some y | greater ↦ a ]) b
      go less small same = absurd (true≢false (sym (ap is_greater h) ∙ small refl))
      go equal small same = absurd (true≢false (sym (ap is_greater h) ∙ small refl))
      go greater small same = same

  IsSplit-back : (x : A) (front back : List A) → IsSplit (front ++ (x ∷ back)) → IsSplit back
  IsSplit-back x [] back v = v.1
  IsSplit-back x (y ∷ front) back v = IsSplit-back x front back v.1

  IsSplit-front : (x : A) (front back : List A) → IsSplit (front ++ (x ∷ back)) → IsSplit front
  IsSplit-front x [] back v = refl
  IsSplit-front x (y ∷ front) back v =
      (λ small. shorter x front back (v.0 small), IsSplit-front x front back v.1)
    where
      shorter : (x : A) (front back : List A) → NonePassed (front ++ (x ∷ back)) → NonePassed front
      shorter x [] back h = refl
      shorter x (y ∷ front) back h = (h.0, shorter x front back h.1)

  superior_from_lem :
      (t : Tree A B) (best : Option A)
      → LooksAt t
      → IsSplit (inorder ops t)
      → superior_from ops key t best ≡ first_in (inorder ops t) best
  unfolding superior_from
  superior_from_lem leaf best v w = refl
  superior_from_lem (node left x right h kept) best (vl, c, vr) w =
      go (side x) refl
        (superior_from_lem left (some x) vl
          (IsSplit-front x (inorder ops left) (inorder ops right) w))
        (superior_from_lem right best vr (IsSplit-back x (inorder ops left) (inorder ops right) w))
    where
      passed :
          side x ≡ greater
          → first_in (inorder ops left ++ (x ∷ inorder ops right)) best
            ≡ first_in (inorder ops right) best
      passed e =
          first_in-passed x (inorder ops left) (inorder ops right) best w e ∙ rw (e, first_in) refl

      found :
          {s : Sign}
          → side x ≡ s
          → is_greater s ≡ false
          → first_in (inorder ops left ++ (x ∷ inorder ops right)) best
            ≡ first_in (inorder ops left) (some x)
      found {s = less} e k =
          first_in-append (inorder ops left) (x ∷ inorder ops right) best ∙ rw (e, first_in) refl
      found {s = equal} e k =
          first_in-append (inorder ops left) (x ∷ inorder ops right) best ∙ rw (e, first_in) refl
      found {s = greater} e k = absurd (true≢false k)

      go :
          (s : Sign)
          → side x ≡ s
          → superior_from ops key left (some x) ≡ first_in (inorder ops left) (some x)
          → superior_from ops key right best ≡ first_in (inorder ops right) best
          → superior_from ops key (node left x right h kept) best
            ≡ first_in (inorder ops (node left x right h kept)) best
      go less e i j = rw (c, e, superior_from) (i ∙ sym (found e refl))
      go equal e i j = rw (c, e, superior_from) (i ∙ sym (found e refl))
      go greater e i j = rw (c, e, superior_from) (j ∙ sym (passed e))

  -- When the key is compared with each element alone, and is greater than a part of the elements at
  -- the left and no other: the search finds the leftmost element that the key is not greater than,
  -- and nothing when there is none.
  pub first_superior_or_equal_lem :
      (t : Tree A B)
      → LooksAt t
      → IsSplit (inorder ops t)
      → first_superior_or_equal ops key t ≡ first_in (inorder ops t) none
  unfolding first_superior_or_equal
  first_superior_or_equal_lem t v w = superior_from_lem t none v w
