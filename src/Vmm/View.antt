-- ===== src/Vmm/View.antt =====
-- What the segments of kernel/mem/vmm.c say of each address, and their order.
use stanix.Base.{
  ℕ, ◌%◌, ◌^◌, ◌≤◌, ◌<◌, ◌≡◌, refl, ap, Bool, true, false, not, ◌&&◌, Option, none, some, List, [],
  ◌∷◌, ◌++◌, leb, ltb, if◌then◌else◌, Bool-cases, inl, inr, arith,
}
use stanix.Word.{add_size, sub_size}
use stanix.Vmm.{VmmSegment, VmmFlags, seek}

-- What is mapped at an address: the protection, the flags, the file, and the place in it.
pub record Mapping : Type 0 where
  pub prot : ℕ
  pub flags : VmmFlags
  pub fd : Option ℕ
  pub place : ℕ

abbrev pub contains : VmmSegment → ℕ → Bool
contains s a = leb s.start a && ltb a s.end

abbrev pub in_range : (start end a : ℕ) → Bool
in_range start end a = leb start a && ltb a end

abbrev pub mapping : VmmSegment → ℕ → Mapping
mapping s a = record {
  prot = s.prot;
  flags = s.flags;
  fd = s.fd;
  place = add_size s.offset (sub_size a s.start);
}

abbrev pub view : List VmmSegment → ℕ → Option Mapping
view [] a = none
view (s ∷ rest) a = if contains s a then some (mapping s a) else view rest a

-- Segments in order, from an address on, none of them empty, each of whole pages.
abbrev pub IsSorted : (lo : ℕ) → List VmmSegment → Type 0
IsSorted lo [] = Unit
IsSorted lo (s ∷ rest) =
    (lo ≤ s.start)
    × (s.start < s.end)
    × (s.end < 2 ^ 64)
    × (s.start % 4096 ≡ 0)
    × (s.end % 4096 ≡ 0)
    × IsSorted s.end rest

pub IsSorted-from :
    (lo lo' : ℕ) (segs : List VmmSegment) → lo' ≤ lo → IsSorted lo segs → IsSorted lo' segs
IsSorted-from lo lo' [] h s = tt
IsSorted-from lo lo' (s ∷ rest) h (a, some_size, small, page, page', more) =
    (omega arith, some_size, small, page, page', more)

-- Whether no segment has the address.
abbrev pub misses : List VmmSegment → ℕ → Bool
misses [] a = true
misses (s ∷ rest) a = not (contains s a) && misses rest a

pub not-true : (b : Bool) → not b ≡ true → b ≡ false
not-true true h = absurd (ground (arith, h))
not-true false h = refl

pub both_true : (b c : Bool) → (b && c) ≡ true → (b ≡ true) × (c ≡ true)
both_true true c h = (refl, h)
both_true false c h = absurd (ground (arith, h))

pub view-skip :
    (front back : List VmmSegment) (a : ℕ)
    → misses front a ≡ true
    → view (front ++ back) a ≡ view back a
view-skip [] back a h = refl
view-skip (s ∷ front) back a h =
    let (here, more) = both_true (not (contains s a)) (misses front a) h in
    rw (not-true (contains s a) here) (view-skip front back a more)

pub view-front :
    (front back back' : List VmmSegment) (a : ℕ)
    → view back a ≡ view back' a
    → view (front ++ back) a ≡ view (front ++ back') a
view-front [] back back' a h = h
view-front (s ∷ front) back back' a h =
    ap (λ v. if contains s a then some (mapping s a) else v) (view-front front back back' a h)

-- Of segments from an address on, none has an address below it.
pub view-below :
    (lo : ℕ) (segs : List VmmSegment) (a : ℕ) → IsSorted lo segs → a < lo → view segs a ≡ none
view-below lo [] a s h = refl
view-below lo (s ∷ rest) a (at, some_size, small, page, page', more) h =
    let far : contains s a ≡ false = ground arith in
    rw far (view-below s.end rest a more (omega arith))

-- The nodes in front of the place that is looked for end at or below its start.
pub record IsSought (lo start : ℕ) (segs : List VmmSegment)
    (found : List VmmSegment × List VmmSegment) : Type 0 where
  pub split : segs ≡ found.0 ++ found.1
  pub clear : (a : ℕ) → start ≤ a → misses found.0 a ≡ true
  pub sorted :
      (behind : List VmmSegment)
      → ((at : ℕ) → IsSorted at found.1 → IsSorted at behind)
      → IsSorted lo (found.0 ++ behind)

pub seek-IsSought :
    (lo start : ℕ) (segs : List VmmSegment)
    → IsSorted lo segs
    → IsSought lo start segs (seek start segs)
unfolding seek
seek-IsSought lo start [] h = record {
  split = refl;
  clear = λ a k. refl;
  sorted = λ behind k. k lo tt;
}
seek-IsSought lo start (s ∷ rest) h = elim (Bool-cases (leb s.end start)) [
  | inl e ↦
      let (at, some_size, small, page, page', more) = h in
      let further = seek-IsSought s.end start rest more in
      rw e (record {
        split = ap (λ l. s ∷ l) further.split;
        clear = λ a k. let far : contains s a ≡ false = ground arith in rw far (further.clear a k);
        sorted = λ behind k. (at, some_size, small, page, page', further.sorted behind k);
      })
  | inr e ↦ rw e (record { split = refl; clear = λ a k. refl; sorted = λ behind k. k lo h })
]

pub tail-IsSorted :
    (lo : ℕ) (front back : List VmmSegment)
    → IsSorted lo (front ++ back)
    → (at : ℕ) × IsSorted at back
tail-IsSorted lo [] back h = (lo, h)
tail-IsSorted lo (s ∷ front) back (at, some_size, small, aligned, aligned', more) =
    tail-IsSorted s.end front back more
