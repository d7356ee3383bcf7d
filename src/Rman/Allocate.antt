-- ===== src/Rman/Allocate.antt =====
-- Allocating a resource, and giving it back.
use stanix.Base.{
  ℕ, ◌+◌, ◌<◌, ◌≤◌, ◌%◌, ◌^◌, ◌≡◌, refl, sym, ap, ◌∙◌, Bool, false, Option, none, some, List, [],
  ◌∷◌, ltb, leb, ◌==◌, Bool-cases, inl, inr, arith,
}
use stanix.Word.{add_size, sub_size}
use stanix.Rman.{
  Seg, Request, Memory, seg_end, is_allocated, free_seg, or_one, fit, give, split_behind, split,
  split_or, allocate_walk, allocate, Allocated, granted, denied, free,
}
use stanix.Rman.Cover.{
  within, cut-cover, counted, cover, Fits, cover-put_back, put_back-Fits, merge_lem,
}
use stanix.Rman.Fit.{Placed, fit-Placed}

-- How often an address is held, by owners in a set.
abbrev Count : Type 0
Count = (Option ℕ → Bool) → ℕ → ℕ

-- The resource is one segment of the device, and without it every address is held as `total` says,
-- when its own addresses are free. After a failure all addresses are held as `total` says.
abbrev Given : (device start size : ℕ) → Count → Allocated → Type 0
Given device start size total (denied e new) =
    Fits new × ((p : Option ℕ → Bool) (a : ℕ) → cover p new a ≡ total p a)
Given device start size total (granted front s back) =
    (s.start ≡ start)
    × (s.size ≡ size)
    × (s.devnode ≡ some device)
    × Fits front
    × Fits (s ∷ back)
    × ((p : Option ℕ → Bool) (a : ℕ)
        → cover p front a + (counted (p none) (within start size a) + cover p back a) ≡ total p a)

give-Given :
    (m : Memory) (device : ℕ) (front back : List Seg) (s : Seg) (total : Count)
    → s.devnode ≡ none
    → Fits front
    → Fits (s ∷ back)
    → ((p : Option ℕ → Bool) (a : ℕ) → cover p front a + cover p (s ∷ back) a ≡ total p a)
    → Given device s.start s.size total (give m device front s back)
unfolding give
give-Given m device front back s total h v w same = elim (Bool-cases m.resource) [
  | inl e ↦ simp e (refl, refl, refl, v, w, λ p a. rw (sym (ap p h)) (same p a))
  | inr e ↦
      simp e
        (put_back-Fits front (s ∷ back) v w, λ p a. cover-put_back p front (s ∷ back) a ∙ same p a)
]

regroup_behind :
    (whole near far front back total : ℕ)
    → whole ≡ near + far
    → front + (whole + back) ≡ total
    → front + (near + (far + back)) ≡ total
regroup_behind whole near far front back total h k = omega arith

regroup_front :
    (whole near far front back total : ℕ)
    → whole ≡ near + far
    → front + (whole + back) ≡ total
    → near + front + (far + back) ≡ total
regroup_front whole near far front back total h k = omega arith

split_behind-Given :
    (m : Memory) (device size : ℕ) (front back : List Seg) (s : Seg) (total : Count)
    → s.devnode ≡ none
    → Fits front
    → Fits (s ∷ back)
    → size ≤ s.size
    → ((p : Option ℕ → Bool) (a : ℕ) → cover p front a + cover p (s ∷ back) a ≡ total p a)
    → Given device s.start size total (split_behind m device s.start size front s back)
unfolding split_behind
split_behind-Given m device size front back s total h v w room same =
    elim (Bool-cases (ltb size s.size)) [
      | inl e ↦ rw e (elim (Bool-cases m.behind) [
        | inl e' ↦
            let rest = sub_size s.size size in
            let kept : sub_size s.size rest ≡ size = ground arith in
            simp (e', kept)
              (give-Given m device front (free_seg (add_size s.start size) rest ∷ back)
                (record s { size = size }) total h v (ground arith, (ground arith, w.1))
                (λ p a. rw (ap p h) (
                  regroup_behind _ _ _ (cover p front a) (cover p back a) _
                    (cut-cover (p none) s.start s.size size a w.0 room)
                    (simp (ap p h) at (same p a)))))
        | inr e' ↦ simp e' (
          put_back-Fits front (s ∷ back) v w,
          λ p a. cover-put_back p front (s ∷ back) a ∙ same p a,
        )
      ])
      | inr e ↦ rw e (
          let whole : s.size ≡ size = ground arith in
          simp whole at (give-Given m device front back s total h v w same))
    ]

split-Given :
    (m : Memory) (device start size : ℕ) (front back : List Seg) (s : Seg) (total : Count)
    → s.devnode ≡ none
    → Fits front
    → Fits (s ∷ back)
    → s.start ≤ start
    → start + size ≤ s.start + s.size
    → ((p : Option ℕ → Bool) (a : ℕ) → cover p front a + cover p (s ∷ back) a ≡ total p a)
    → Given device start size total (split m device start size front s back)
unfolding split
split-Given m device start size front back s total h v w lo room same =
    elim (Bool-cases (ltb s.start start)) [
      | inl e ↦ rw e (elim (Bool-cases m.front) [
        | inl e' ↦
            let before = sub_size start s.start in
            let at : add_size s.start before ≡ start = ground arith in
            simp (e', at)
              (split_behind-Given m device size (free_seg s.start before ∷ front) back
                (record s { start = start; size = sub_size s.size before }) total h
                (ground arith, v) (ground arith, w.1) (ground arith)
                (λ p a. rw (ap p h) (
                  regroup_front _ _ _ (cover p front a) (cover p back a) _
                    (simp at at (cut-cover (p none) s.start s.size before a w.0 (ground arith)))
                    (simp (ap p h) at (same p a)))))
        | inr e' ↦ simp e' (
          put_back-Fits front (s ∷ back) v w,
          λ p a. cover-put_back p front (s ∷ back) a ∙ same p a,
        )
      ])
      | inr e ↦ rw e (
          let here : s.start ≡ start = ground arith in
          simp here at
            (split_behind-Given m device size front back s total h v w (ground arith) same))
    ]

-- The resource lies inside the request, is aligned and as large as asked for, and belongs to the
-- device; when its addresses are free, every address is held as `total` says. After a failure every
-- address is.
abbrev pub Allocates : Request → (device : ℕ) → Count → Allocated → Type 0
Allocates r device total (denied e new) =
    Fits new × ((p : Option ℕ → Bool) (a : ℕ) → cover p new a ≡ total p a)
Allocates r device total (granted front s back) =
    (r.start ≤ s.start)
    × (s.start + s.size ≤ r.end)
    × (s.start % or_one r.align ≡ 0)
    × (s.size ≡ or_one r.size)
    × (s.devnode ≡ some device)
    × Fits front
    × Fits (s ∷ back)
    × ((p : Option ℕ → Bool) (a : ℕ)
        → cover p front a + (counted (p none) (within s.start s.size a) + cover p back a)
          ≡ total p a)

Given-Allocates :
    (r : Request) (device : ℕ) (s : Seg) (start : ℕ) (total : Count) (out : Allocated)
    → Placed r s start
    → Given device start (or_one r.size) total out
    → Allocates r device total out
Given-Allocates r device s start total (denied e new) h g = g
Given-Allocates r device s start total (granted front t back) h (at, size, own, v, w, same) = (
  rw at h.above,
  rw (at, size) h.below,
  rw at h.aligned,
  size,
  own,
  v,
  w,
  λ p a. rw (at, size) (same p a),
)

free_owner : (owner : Option ℕ) → is_allocated owner ≡ false → owner ≡ none
free_owner none h = refl
free_owner (some d) h = absurd (ground (arith, h))

split_or-Allocates :
    (m : Memory) (device : ℕ) (r : Request) (front back : List Seg) (s : Seg) (total : Count)
    (found : Option ℕ) (further : Allocated)
    → s.devnode ≡ none
    → Fits front
    → Fits (s ∷ back)
    → ((p : Option ℕ → Bool) (a : ℕ) → cover p front a + cover p (s ∷ back) a ≡ total p a)
    → ((start : ℕ) → found ≡ some start → Placed r s start)
    → Allocates r device total further
    → Allocates r device total (split_or found m device (or_one r.size) front s back further)
unfolding split_or
split_or-Allocates m device r front back s total none further h v w same placed rest = rest
split_or-Allocates m device r front back s total (some start) further h v w same placed rest =
    let place = placed start refl in
    Given-Allocates r device s start total (split m device start (or_one r.size) front s back) place
      (split-Given m device start (or_one r.size) front back s total h v w place.inside place.room
        same)

shift : (front seg back total : ℕ) → front + (seg + back) ≡ total → seg + front + back ≡ total
shift front seg back total h = omega arith

walk-Allocates :
    (m : Memory) (device : ℕ) (r : Request) (front back : List Seg) (total : Count)
    → r.start ≤ r.end
    → r.end < 2 ^ 64
    → Fits front
    → Fits back
    → ((p : Option ℕ → Bool) (a : ℕ) → cover p front a + cover p back a ≡ total p a)
    → Allocates r device total (allocate_walk m device r front back)
unfolding allocate_walk
walk-Allocates m device r front [] total lo hi v w same =
    (put_back-Fits front [] v w, λ p a. cover-put_back p front [] a ∙ same p a)
walk-Allocates m device r front (s ∷ back) total lo hi v w same =
    let further =
      walk-Allocates m device r (s ∷ front) back total lo hi (w.0, v) w.1
        (λ p a. shift _ _ (cover p back a) _ (same p a)) in
    elim (Bool-cases (leb (seg_end s) r.start)) [
      | inl e ↦ rw e further
      | inr e ↦ rw e (elim (Bool-cases (leb r.end s.start)) [
        | inl e' ↦ rw e' (
          put_back-Fits front (s ∷ back) v w,
          λ p a. cover-put_back p front (s ∷ back) a ∙ same p a,
        )
        | inr e' ↦ rw e' (elim (Bool-cases (is_allocated s.devnode)) [
          | inl e'' ↦ rw e'' further
          | inr e'' ↦ rw e'' (
              split_or-Allocates m device r front back s total (fit r s)
                (allocate_walk m device r (s ∷ front) back) (free_owner s.devnode e'') v w same
                (λ start. fit-Placed r s start w.0 hi e e' lo) further)
        ])
      ])
    ]

-- Of a request whose bounds are in order, made to segments that end within the address space: the
-- resource lies within the bounds, is aligned as asked and exactly as large as asked (RESOURCE_ANY
-- counting as 1), and its segment belongs to the device. All segments still end within the address
-- space. If the addresses of the resource are taken as free, every address is held as often, by the
-- same owners, as before the call. When the call fails, whatever the error, every address is, though
-- segments may have been split.
pub allocate-Allocates :
    (m : Memory) (device : ℕ) (r : Request) (segs : List Seg)
    → r.start ≤ r.end
    → r.end < 2 ^ 64
    → Fits segs
    → Allocates r device (λ p a. cover p segs a) (allocate m device r segs)
unfolding allocate
allocate-Allocates m device r segs lo hi v = elim (Bool-cases (r.start % or_one r.align == 0)) [
  | inl e ↦
      rw e (
        walk-Allocates m device r [] segs (λ p a. cover p segs a) lo hi refl v (λ p a. omega arith))
  | inr e ↦ rw e (v, λ p a. refl)
]

-- Freeing a segment, with those in front of it and behind: its addresses belong to nobody, and every
-- other address to whom it belonged.
pub free_lem :
    (p : Option ℕ → Bool) (front back : List Seg) (s : Seg) (a : ℕ)
    → Fits front
    → Fits (s ∷ back)
    → Fits (free front s back)
      × (cover p (free front s back) a
          ≡ cover p front a + (counted (p none) (within s.start s.size a) + cover p back a))
unfolding free
free_lem p front back s a v w = merge_lem p front back (record s { devnode = none }) a refl v w

abbrev pub Restores : List Seg → Allocated → Type 0
Restores segs (denied e new) = (p : Option ℕ → Bool) (a : ℕ) → cover p new a ≡ cover p segs a
Restores segs (granted front s back) =
    (p : Option ℕ → Bool) (a : ℕ) → cover p (free front s back) a ≡ cover p segs a

restores :
    (r : Request) (device : ℕ) (segs : List Seg) (out : Allocated)
    → Allocates r device (λ p a. cover p segs a) out
    → Restores segs out
restores r device segs (denied e new) h = h.1
restores r device segs (granted front s back) (lo, hi, aligned, size, own, v, w, same) =
    λ p a. (free_lem p front back s a v w).1 ∙ same p a

-- Of a request whose bounds are in order, made to segments that end within the address space: after
-- a resource is allocated and freed, every address is held as often, by the same owners, as before;
-- and it is when the allocation fails.
pub free-allocate :
    (m : Memory) (device : ℕ) (r : Request) (segs : List Seg)
    → r.start ≤ r.end
    → r.end < 2 ^ 64
    → Fits segs
    → Restores segs (allocate m device r segs)
free-allocate m device r segs lo hi v =
    restores r device segs (allocate m device r segs) (allocate-Allocates m device r segs lo hi v)
