-- ===== src/Rman/Region.antt =====
-- Adding a region to a resource manager.
use stanix.Base.{
  ℕ, ◌+◌, ◌<◌, ◌≤◌, ◌^◌, ◌≡◌, refl, ◌∙◌, Bool, true, false, Option, none, List, [], ◌∷◌, leb,
  Bool-cases, inl, inr, ◌⊎◌, arith,
}
use stanix.Rman.{
  Seg, free_seg, put_back, merge, overlaps_before, overlaps_after, Added, added, refused,
  add_between, add_walk, add_region,
}
use stanix.Rman.Cover.{within, counted, cover, Fits, cover-put_back, merge_lem}

-- The region is free, and every other address belongs to whom it belonged.
abbrev pub Grown : List Seg → (start size : ℕ) → Added → Type 0
Grown segs start size (refused e) = Path ℕ 0 0
Grown segs start size (added new) =
    Fits new
    × ((p : Option ℕ → Bool) (a : ℕ)
        → cover p new a ≡ counted (p none) (within start size a) + cover p segs a)

add_middle : (front back new : ℕ) → front + (new + back) ≡ new + (front + back)
add_middle front back new = omega arith

merged-Grown :
    (front back : List Seg) (start size : ℕ)
    → Fits front
    → Fits back
    → start + size < 2 ^ 64
    → Grown (put_back front back) start size (added (merge front (free_seg start size) back))
merged-Grown front back start size v w r = (
  (merge_lem (λ _. true) front back (free_seg start size) 0 refl v (r, w)).0,
  λ p a.
      (merge_lem p front back (free_seg start size) a refl v (r, w)).1
      ∙ rw (cover-put_back p front back a)
          (add_middle (cover p front a) (cover p back a) (counted (p none) (within start size a))),
)

add_between-Grown :
    (memory : Bool) (front back : List Seg) (start size : ℕ)
    → Fits front
    → Fits back
    → start + size < 2 ^ 64
    → Grown (put_back front back) start size (add_between memory front back start size)
unfolding add_between
add_between-Grown memory front back start size v w r =
    elim (Bool-cases (overlaps_before front start)) [
      | inl e ↦ rw e refl
      | inr e ↦ rw e (elim (Bool-cases (overlaps_after back start size)) [
        | inl e' ↦ rw e' refl
        | inr e' ↦ rw e' (elim (Bool-cases memory) [
          | inl m ↦ rw m (merged-Grown front back start size v w r)
          | inr m ↦ rw m refl
        ])
      ])
    ]

add_walk-Grown :
    (memory : Bool) (front back : List Seg) (start size : ℕ)
    → Fits front
    → Fits back
    → start + size < 2 ^ 64
    → Grown (put_back front back) start size (add_walk memory front back start size)
unfolding add_walk
add_walk-Grown memory front [] start size v w r = add_between-Grown memory front [] start size v w r
add_walk-Grown memory front (s ∷ back) start size v w r = elim (Bool-cases (leb start s.start)) [
  | inl e ↦ rw e (add_between-Grown memory front (s ∷ back) start size v w r)
  | inr e ↦ rw e (add_walk-Grown memory (s ∷ front) back start size (w.0, v) w.1 r)
]

-- Of a region that ends within the address space, added to segments that do: when the call succeeds,
-- the new segments do as well, each address of the region is held once more, by nobody, and every
-- address is otherwise held as often, by the same owners, as before.
pub add_region-Grown :
    (memory : Bool) (segs : List Seg) (start size : ℕ)
    → Fits segs
    → start + size < 2 ^ 64
    → Grown segs start size (add_region memory segs start size)
unfolding add_region
add_region-Grown memory segs start size v r = add_walk-Grown memory [] segs start size refl v r

-- No segment is empty or overlaps the range.
abbrev pub Apart : List Seg → (start size : ℕ) → Type 0
Apart [] start size = Path ℕ 0 0
Apart (s ∷ segs) start size =
    (0 < s.size) × ((s.start + s.size ≤ start) ⊎ (start + size ≤ s.start)) × Apart segs start size

abbrev pub succeeds : Added → Bool
succeeds (added segs) = true
succeeds (refused e) = false

abbrev StartsBelow : List Seg → ℕ → Type 0
StartsBelow [] start = Path ℕ 0 0
StartsBelow (s ∷ front) start = s.start < start

no_overlap_before :
    (front : List Seg) (start size : ℕ)
    → Fits front
    → Apart front start size
    → StartsBelow front start
    → overlaps_before front start ≡ false
no_overlap_before [] start size v h b = refl
no_overlap_before (s ∷ front) start size v h b = elim h.1 [
  | inl l ↦ ground arith
  | inr l ↦ ground arith
]

abbrev StartsFrom : List Seg → ℕ → Type 0
StartsFrom [] start = Path ℕ 0 0
StartsFrom (s ∷ back) start = start ≤ s.start

no_overlap_after :
    (back : List Seg) (start size : ℕ)
    → start + size < 2 ^ 64
    → Apart back start size
    → StartsFrom back start
    → overlaps_after back start size ≡ false
no_overlap_after [] start size v h b = refl
no_overlap_after (s ∷ back) start size v h b = elim h.1 [
  | inl l ↦ ground arith
  | inr l ↦ ground arith
]

between-succeeds :
    (front back : List Seg) (start size : ℕ)
    → start + size < 2 ^ 64
    → Fits front
    → Apart front start size
    → StartsBelow front start
    → Apart back start size
    → StartsFrom back start
    → succeeds (add_between true front back start size) ≡ true
unfolding add_between
between-succeeds front back start size r v h b h' b' =
    rw (no_overlap_before front start size v h b, no_overlap_after back start size r h' b') refl

walk-succeeds :
    (front back : List Seg) (start size : ℕ)
    → start + size < 2 ^ 64
    → Fits front
    → Apart front start size
    → StartsBelow front start
    → Fits back
    → Apart back start size
    → succeeds (add_walk true front back start size) ≡ true
unfolding add_walk
walk-succeeds front [] start size r v h b w h' =
    between-succeeds front [] start size r v h b h' refl
walk-succeeds front (s ∷ back) start size r v h b w h' = elim (Bool-cases (leb start s.start)) [
  | inl e ↦ rw e (between-succeeds front (s ∷ back) start size r v h b h' (ground arith))
  | inr e ↦
      rw e (
        walk-succeeds (s ∷ front) back start size r (w.0, v) (h'.0, h'.1, h) (ground arith) w.1
          h'.2)
]

-- A region that ends within the address space and overlaps no segment is added, if there is memory
-- for its segment, to segments that are not empty and end within the address space.
pub add_region-succeeds :
    (segs : List Seg) (start size : ℕ)
    → Fits segs
    → start + size < 2 ^ 64
    → Apart segs start size
    → succeeds (add_region true segs start size) ≡ true
unfolding add_region
add_region-succeeds segs start size v r h = walk-succeeds [] segs start size r refl refl refl v h
