-- ===== src/Rman/Cover.antt =====
-- Which address belongs to whom, counted over the segments, and that `rman_merge` keeps it.
use stanix.Base.{
  ◌∙◌, ℕ, ◌+◌, ◌<◌, ◌≤◌, ◌^◌, ◌≡◌, refl, ap, Bool, true, false, not, ◌&&◌, Option, none, some, List,
  [], ◌∷◌, ltb, leb, ◌==◌, if◌then◌else◌, Bool-cases, inl, inr, arith,
}
use stanix.Word.{add_size, sub_size}
use stanix.Rman.{Seg, is_allocated, seg_end, put_back, merge_next, merge}

-- 1 for an address in a range, 0 for another.
abbrev pub within : (start size address : ℕ) → ℕ
within start size a = if leb start a && ltb a (start + size) then 1 else 0

abbrev pub counted : Bool → ℕ → ℕ
counted true n = n
counted false n = 0

-- How many segments whose owner is in `p` hold an address.
abbrev pub cover : (p : Option ℕ → Bool) → List Seg → ℕ → ℕ
cover p [] a = 0
cover p (s ∷ segs) a = counted (p s.devnode) (within s.start s.size a) + cover p segs a

-- No segment goes past the end of the address space.
abbrev pub Fits : List Seg → Type 0
Fits [] = Path ℕ 0 0
Fits (s ∷ segs) = (s.start + s.size < 2 ^ 64) × Fits segs

pub cover-put_back :
    (p : Option ℕ → Bool) (front back : List Seg) (a : ℕ)
    → cover p (put_back front back) a ≡ cover p front a + cover p back a
cover-put_back p [] back a = omega arith
cover-put_back p (s ∷ front) back a = let rest = cover-put_back p front (s ∷ back) a in omega arith

pub put_back-Fits : (front back : List Seg) → Fits front → Fits back → Fits (put_back front back)
put_back-Fits [] back v w = w
put_back-Fits (s ∷ front) back v w = put_back-Fits front (s ∷ back) v.1 (v.0, w)

pub within-joined :
    (start size next_start next_size total a : ℕ)
    → start + size < 2 ^ 64
    → next_start + next_size < 2 ^ 64
    → add_size start size ≡ next_start
    → total ≡ size + next_size
    → within start total a ≡ within start size a + within next_start next_size a
within-joined start size next_start next_size total a v w h sum = ground arith

counted_add : (b : Bool) (m n : ℕ) → counted b (m + n) ≡ counted b m + counted b n
counted_add true m n = refl
counted_add false m n = refl

-- Whether a segment is followed by a free one, so that they are merged.
abbrev pub meets : Seg → Seg → Bool
meets s next = (seg_end s == next.start) && not (is_allocated next.devnode)

free_owner : (owner : Option ℕ) (b : Bool) → (b && not (is_allocated owner)) ≡ true → owner ≡ none
free_owner none b h = refl
free_owner (some d) true h = ground (arith, h)
free_owner (some d) false h = ground (arith, h)

met : (a b : ℕ) (c : Bool) → ((a == b) && c) ≡ true → a ≡ b
met a b c h = ground arith

-- Two free segments that meet cover what the joined one covers.
joined-cover :
    (p : Option ℕ → Bool) (s t : Seg) (owner_s owner_t : Option ℕ) (total a : ℕ)
    → owner_s ≡ none
    → owner_t ≡ none
    → s.start + s.size < 2 ^ 64
    → t.start + t.size < 2 ^ 64
    → seg_end s ≡ t.start
    → total ≡ s.size + t.size
    → (p owner_s ≡ p none)
      × (p owner_t ≡ p none)
      × (counted (p none) (within s.start total a)
          ≡ counted (p none) (within s.start s.size a) + counted (p none) (within t.start t.size a))
joined-cover p s t owner_s owner_t total a hs ht v w h sum = (
  ap p hs,
  ap p ht,
  rw (within-joined s.start s.size t.start t.size total a v w h sum)
      (counted_add (p none) (within s.start s.size a) (within t.start t.size a)),
)

add_three : (a b c d : ℕ) → a ≡ b + c → a + d ≡ b + (c + d)
add_three a b c d h = omega arith

add_around :
    (front total prev seg back merged : ℕ)
    → total ≡ prev + seg
    → merged ≡ total + back
    → front + merged ≡ prev + front + (seg + back)
add_around front total prev seg back merged h k = omega arith

pub merge_next_lem :
    (p : Option ℕ → Bool) (s : Seg) (back : List Seg) (a : ℕ)
    → s.devnode ≡ none
    → Fits (s ∷ back)
    → Fits (merge_next s back) × (cover p (merge_next s back) a ≡ cover p (s ∷ back) a)
unfolding merge_next
merge_next_lem p s [] a h v = (v, refl)
merge_next_lem p s (next ∷ back) a h v = elim (Bool-cases (meets s next)) [
  | inl e ↦ rw e (
      let end = met (seg_end s) next.start (not (is_allocated next.devnode)) e in
      let free = free_owner next.devnode (seg_end s == next.start) e in
      let total : add_size s.size next.size ≡ s.size + next.size = omega arith in
      let (hs, ht, sum) =
        joined-cover p s next s.devnode next.devnode (add_size s.size next.size) a h free v.0 v.1.0
          end total in
      ((omega arith, v.1.1), rw (hs, ht) (add_three _ _ _ (cover p back a) sum)))
  | inr e ↦ rw e (v, refl)
]

pub merge_lem :
    (p : Option ℕ → Bool) (front back : List Seg) (s : Seg) (a : ℕ)
    → s.devnode ≡ none
    → Fits front
    → Fits (s ∷ back)
    → Fits (merge front s back)
      × (cover p (merge front s back) a ≡ cover p front a + cover p (s ∷ back) a)
unfolding merge
merge_lem p [] back s a h v w =
    let (fits, same) = merge_next_lem p s back a h w in (fits, omega arith)
merge_lem p (prev ∷ front) back s a h v w =
    let new : Seg = record s { start = prev.start; size = add_size s.size prev.size } in
    elim (Bool-cases ((seg_end prev == s.start) && not (is_allocated prev.devnode))) [
      | inl e ↦ rw e (
          let end = met (seg_end prev) s.start (not (is_allocated prev.devnode)) e in
          let free = free_owner prev.devnode (seg_end prev == s.start) e in
          let total : add_size s.size prev.size ≡ prev.size + s.size = omega arith in
          let (hs, ht, sum) =
            joined-cover p prev s prev.devnode s.devnode (add_size s.size prev.size) a free h v.0
              w.0 end total in
          let (fits, same) = merge_next_lem p new back a h (omega arith, w.1) in
          (
            put_back-Fits front (merge_next new back) v.1 fits,
            cover-put_back p front (merge_next new back) a
                ∙ rw (hs, ht) (add_around _ _ _ _ (cover p back a) _ sum (simp ht at same)),
          ))
      | inr e ↦ rw e (
          let (fits, same) = merge_next_lem p s back a h w in
          (
            put_back-Fits (prev ∷ front) (merge_next s back) v fits,
            cover-put_back p (prev ∷ front) (merge_next s back) a
                ∙ ap (λ n. cover p (prev ∷ front) a + n) same,
          ))
    ]

-- A segment cut in two.
pub cut-cover :
    (b : Bool) (start size front a : ℕ)
    → start + size < 2 ^ 64
    → front ≤ size
    → counted b (within start size a)
      ≡ counted b (within start front a)
        + counted b (within (add_size start front) (sub_size size front) a)
cut-cover b start size front a v h =
    rw (cut start size front a v h)
      (counted_add b (within start front a) (within (add_size start front) (sub_size size front) a))
  where
    cut :
        (start size front a : ℕ)
        → start + size < 2 ^ 64
        → front ≤ size
        → within start size a
          ≡ within start front a + within (add_size start front) (sub_size size front) a
    cut start size front a v h = ground arith
