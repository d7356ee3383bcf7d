-- ===== src/Kheap/Layout.antt =====
-- The segments of the heap of kernel/mem/kheap.c in memory: without gaps, and no two free ones side by
-- side.
use stanix.Base.{
  ℕ, ◌+◌, ◌%◌, ◌^◌, ◌≤◌, ◌<◌, ◌≡◌, refl, sym, ◌∙◌, Bool, false, ◌&&◌, List, [], ◌∷◌, if◌then◌else◌,
  Bool-cases, inl, inr, arith,
}
use stanix.Kheap.{HeapSegment, Heap, put_back}

-- The address behind a segment.
abbrev pub seg_end : HeapSegment → ℕ
seg_end s = s.address + 32 + s.length

-- Segments from an address to an end, behind one that is free or not.
abbrev pub Behind : (address : ℕ) → (free : Bool) → List HeapSegment → (end : ℕ) → Type 0
Behind address free [] end = address ≡ end
Behind address free (s ∷ back) end =
    (s.address ≡ address)
    × (s.length % 16 ≡ 0)
    × ((free && s.free) ≡ false)
    × Behind (seg_end s) s.free back end

-- Segments in front of an address, the nearest first, from a start, in front of one that is free or not.
abbrev pub InFront : (start : ℕ) → List HeapSegment → (address : ℕ) → (free : Bool) → Type 0
InFront start [] address free = start ≡ address
InFront start (s ∷ front) address free =
    (seg_end s ≡ address)
    × (s.length % 16 ≡ 0)
    × ((s.free && free) ≡ false)
    × InFront start front s.address s.free

-- The segments lie one behind another from the start of the heap to its end, their lengths multiples of
-- 16, and no two free ones are side by side.
pub record IsHeap (h : Heap) : Type 0 where
  pub layout : Behind h.start false h.segs (h.start + h.length)
  pub aligned : h.start % 16 ≡ 0
  pub filled : 0 < h.length
  pub bounded : h.start + h.length < 2 ^ 64

-- The allocated segments.
abbrev pub blocks : List HeapSegment → List HeapSegment
blocks [] = []
blocks (s ∷ ss) = if s.free then blocks ss else s ∷ blocks ss

pub blocks-used :
    (s : HeapSegment) (back : List HeapSegment)
    → s.free ≡ false
    → blocks (s ∷ back) ≡ s ∷ blocks back
blocks-used s back h = rw h refl

pub blocks-put_back :
    (front back : List HeapSegment)
    → blocks (put_back front back) ≡ put_back (blocks front) (blocks back)
blocks-put_back [] back = refl
blocks-put_back (s ∷ front) back =
    blocks-put_back front (s ∷ back)
    ∙ elim (Bool-cases s.free) [ inl e ↦ rw e refl | inr e ↦ rw e refl ]

pub put_back-Behind :
    (start end : ℕ) (front : List HeapSegment) (s : HeapSegment) (back : List HeapSegment)
    → InFront start front s.address s.free
    → s.length % 16 ≡ 0
    → Behind (seg_end s) s.free back end
    → Behind start false (put_back front (s ∷ back)) end
put_back-Behind start end [] s back h k b = (sym h, k, refl, b)
put_back-Behind start end (f ∷ front) s back (at, whole, apart, more) k b =
    put_back-Behind start end front f (s ∷ back) more whole (sym at, k, apart, b)

-- A place in the list.
pub split-Behind :
    (start end : ℕ) (front : List HeapSegment) (s : HeapSegment) (back : List HeapSegment)
    → Behind start false (put_back front (s ∷ back)) end
    → InFront start front s.address s.free
      × (s.length % 16 ≡ 0)
      × Behind (seg_end s) s.free back end
split-Behind start end [] s back (at, whole, apart, more) = (sym at, whole, more)
split-Behind start end (f ∷ front) s back h =
    let ih = split-Behind start end front f (s ∷ back) h in
    let (before, whole, (at, whole', apart, more)) = ih in
    ((sym at, whole, apart, before), whole', more)

-- In front of an allocated segment anything may be.
pub InFront-allocated :
    (start : ℕ) (front : List HeapSegment) (address : ℕ) (free : Bool)
    → InFront start front address free
    → InFront start front address false
InFront-allocated start [] address free h = h
InFront-allocated start (s ∷ front) address free (at, whole, apart, more) =
    (at, whole, elim (Bool-cases s.free) [ inl e ↦ rw e refl | inr e ↦ rw e refl ], more)

pub Behind-allocated :
    (address : ℕ) (free : Bool) (back : List HeapSegment) (end : ℕ)
    → Behind address free back end
    → Behind address false back end
Behind-allocated address free [] end h = h
Behind-allocated address free (s ∷ back) end (at, whole, apart, more) = (at, whole, refl, more)

-- The segments in front lie below the address, those behind above it.
pub InFront-above :
    (start : ℕ) (front : List HeapSegment) (address : ℕ) (free : Bool)
    → InFront start front address free
    → start ≤ address
InFront-above start [] address free h = omega arith
InFront-above start (s ∷ front) address free (at, whole, apart, more) =
    let b = InFront-above start front s.address s.free more in omega arith

pub Behind-below :
    (address : ℕ) (free : Bool) (back : List HeapSegment) (end : ℕ)
    → Behind address free back end
    → address ≤ end
Behind-below address free [] end h = omega arith
Behind-below address free (s ∷ back) end (at, whole, apart, more) =
    let b = Behind-below (seg_end s) s.free back end more in omega arith

-- All segments start at multiples of 16.
pub InFront-aligned :
    (start : ℕ) (front : List HeapSegment) (address : ℕ) (free : Bool)
    → start % 16 ≡ 0
    → InFront start front address free
    → address % 16 ≡ 0
InFront-aligned start [] address free h k = omega arith
InFront-aligned start (s ∷ front) address free h (at, whole, apart, more) =
    let b = InFront-aligned start front s.address s.free h more in omega arith
