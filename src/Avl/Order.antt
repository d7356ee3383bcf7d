-- ===== src/Avl/Order.antt =====
-- The order that a comparison puts on the nodes of a tree, and insertion into a sorted list.
use stanix.Base.{◌≡◌, refl, ap, Bool, true, false, List, [], ◌∷◌, ◌++◌, ◌∙◌}
use mathlib.Core.Bool.{true≢false}
use stanix.Avl.{Sign, less, equal, greater}

abbrev pub is_less : Sign → Bool
is_less less = true
is_less equal = false
is_less greater = false

module _ {A : Type 0} (compare : A → A → Sign) where
  -- What a tree wants of its comparison: it never prefers both of two nodes, and "not less" goes
  -- through.
  pub record IsOrder : Type 0 where
    pub asym : (a b : A) → compare a b ≡ less → is_less (compare b a) ≡ false
    pub trans :
        (a b c : A)
        → is_less (compare a b) ≡ false
        → is_less (compare b c) ≡ false
        → is_less (compare a c) ≡ false

  -- No element of the list is less than `x`.
  abbrev pub NotBelow : A → List A → Type 0
  NotBelow x [] = Path Bool true true
  NotBelow x (y ∷ ys) = (is_less (compare y x) ≡ false) × NotBelow x ys

  abbrev pub IsSorted : List A → Type 0
  IsSorted [] = Path Bool true true
  IsSorted (x ∷ xs) = NotBelow x xs × IsSorted xs

  -- Into its place in a sorted list, behind the elements that it is equal to.
  unfoldable pub place : A → List A → List A
  place n [] = n ∷ []
  place n (x ∷ xs) =
      let rest = place n xs in
      elim (compare n x) [ less ↦ n ∷ x ∷ xs | equal ↦ x ∷ rest | greater ↦ x ∷ rest ]

  NotBelow-at :
      (x y : A) (front back : List A)
      → NotBelow x (front ++ (y ∷ back))
      → is_less (compare y x) ≡ false
  NotBelow-at x y [] back h = h.0
  NotBelow-at x y (z ∷ front) back h = NotBelow-at x y front back h.1

  NotBelow-back :
      (x y : A) (front back : List A) → NotBelow x (front ++ (y ∷ back)) → NotBelow x back
  NotBelow-back x y [] back h = h.1
  NotBelow-back x y (z ∷ front) back h = NotBelow-back x y front back h.1

  NotBelow-front :
      (x y : A) (front back : List A) → NotBelow x (front ++ (y ∷ back)) → NotBelow x front
  NotBelow-front x y [] back h = refl
  NotBelow-front x y (z ∷ front) back h = (h.0, NotBelow-front x y front back h.1)

  pub front-IsSorted :
      (y : A) (front back : List A) → IsSorted (front ++ (y ∷ back)) → IsSorted front
  front-IsSorted y [] back h = refl
  front-IsSorted y (z ∷ front) back h =
      (NotBelow-front z y front back h.0, front-IsSorted y front back h.1)

  pub back-IsSorted : (y : A) (front back : List A) → IsSorted (front ++ (y ∷ back)) → IsSorted back
  back-IsSorted y [] back h = h.1
  back-IsSorted y (z ∷ front) back h = back-IsSorted y front back h.1

  not_less :
      (a b : A) (s : Sign) → compare a b ≡ s → is_less s ≡ false → is_less (compare a b) ≡ false
  not_less a b s h k = ap is_less h ∙ k

  -- Where an element less than `x` goes, and one that is not.
  pub place_front :
      (n x : A) (front back : List A)
      → compare n x ≡ less
      → place n (front ++ (x ∷ back)) ≡ place n front ++ (x ∷ back)
  unfolding place
  place_front n x [] back h = rw (h, place) refl
  place_front n x (y ∷ front) back h =
      go (compare n y) refl (ap (λ l. y ∷ l) (place_front n x front back h))
    where
      go :
          (s : Sign)
          → compare n y ≡ s
          → Path (List A) (y ∷ place n (front ++ (x ∷ back))) (y ∷ (place n front ++ (x ∷ back)))
          → place n (y ∷ (front ++ (x ∷ back))) ≡ place n (y ∷ front) ++ (x ∷ back)
      go less e rest = rw (e, place) refl
      go equal e rest = rw (e, place) rest
      go greater e rest = rw (e, place) rest

  place_here :
      (n x : A) (xs : List A) → is_less (compare n x) ≡ false → place n (x ∷ xs) ≡ x ∷ place n xs
  unfolding place
  place_here n x xs h = go (compare n x) h
    where
      go :
          (s : Sign)
          → is_less s ≡ false
          → (elim s [ less ↦ n ∷ x ∷ xs | equal ↦ x ∷ place n xs | greater ↦ x ∷ place n xs ])
            ≡ x ∷ place n xs
      go less e = absurd (true≢false e)
      go equal e = refl
      go greater e = refl

  pub place_back :
      (n x : A) (front back : List A)
      → IsOrder
      → IsSorted (front ++ (x ∷ back))
      → is_less (compare n x) ≡ false
      → place n (front ++ (x ∷ back)) ≡ front ++ (x ∷ place n back)
  place_back n x [] back o v h = place_here n x back h
  place_back n x (y ∷ front) back o v h =
      place_here n y (front ++ (x ∷ back)) (o.trans n x y h (NotBelow-at y x front back v.0))
      ∙ ap (λ l. y ∷ l) (place_back n x front back o v.1 h)

  place-NotBelow :
      (x n : A) (xs : List A)
      → is_less (compare n x) ≡ false
      → NotBelow x xs
      → NotBelow x (place n xs)
  unfolding place
  place-NotBelow x n [] h v = (h, refl)
  place-NotBelow x n (y ∷ ys) h v = go (compare n y) (place-NotBelow x n ys h v.1)
    where
      go :
          (s : Sign)
          → NotBelow x (place n ys)
          → NotBelow x
              (elim s [ less ↦ n ∷ y ∷ ys | equal ↦ y ∷ place n ys | greater ↦ y ∷ place n ys ])
      go less rest = (h, v)
      go equal rest = (v.0, rest)
      go greater rest = (v.0, rest)

  NotBelow-trans :
      (n x : A) (xs : List A)
      → IsOrder
      → is_less (compare x n) ≡ false
      → NotBelow x xs
      → NotBelow n xs
  NotBelow-trans n x [] o h v = refl
  NotBelow-trans n x (y ∷ ys) o h v = (o.trans y x n v.0 h, NotBelow-trans n x ys o h v.1)

  pub place-IsSorted : (n : A) (xs : List A) → IsOrder → IsSorted xs → IsSorted (place n xs)
  unfolding place
  place-IsSorted n [] o v = (refl, refl)
  place-IsSorted n (x ∷ xs) o v = go (compare n x) refl (place-IsSorted n xs o v.1)
    where
      go :
          (s : Sign)
          → compare n x ≡ s
          → IsSorted (place n xs)
          → IsSorted
              (elim s [ less ↦ n ∷ x ∷ xs | equal ↦ x ∷ place n xs | greater ↦ x ∷ place n xs ])
      go less e rest = ((o.asym n x e, NotBelow-trans n x xs o (o.asym n x e) v.0), v)
      go equal e rest = (place-NotBelow x n xs (ap is_less e) v.0, rest)
      go greater e rest = (place-NotBelow x n xs (ap is_less e) v.0, rest)
