-- ===== src/Vmm/Split.antt =====
-- A segment of kernel/mem/vmm.c and its two parts.
use stanix.Base.{
  ℕ, ◌%◌, ◌^◌, ◌≤◌, ◌<◌, ◌≡◌, refl, sym, ap, subst, true, false, Option, none, some, List, ◌∷◌, leb,
  ltb, Bool-cases, inl, inr, arith,
}
use stanix.Word.{add_size, sub_size}
use stanix.Errno.{Errno, Result, done, fail}
use stanix.Vmm.{VmmSegment, Refuse, split_unless, split_segment}
use stanix.Vmm.View.{Mapping, contains, view, IsSorted}

-- A segment of whole pages, not empty.
pub record IsSegment (s : VmmSegment) : Type 0 where
  pub some_size : s.start < s.end
  pub small : s.end < 2 ^ 64
  pub page : s.start % 4096 ≡ 0
  pub end_page : s.end % 4096 ≡ 0

-- Two parts that say of each address what the whole does, and meet at the cut.
pub record IsSplit (s : VmmSegment) (cut : ℕ) (low high : VmmSegment) : Type 0 where
  pub low_start : low.start ≡ s.start
  pub low_end : low.end ≡ cut
  pub high_start : high.start ≡ cut
  pub high_end : high.end ≡ s.end
  pub above : s.start < cut
  pub below : cut < s.end
  pub same : (rest : List VmmSegment) (a : ℕ) → view (low ∷ (high ∷ rest)) a ≡ view (s ∷ rest) a

abbrev pub Splits : VmmSegment → (cut : ℕ) → Result (VmmSegment × VmmSegment) → Type 0
Splits s cut (fail e) = Unit
Splits s cut (done (low, high)) = IsSplit s cut low high

moved_place :
    (offset start cut a : ℕ)
    → start ≤ cut
    → cut ≤ a
    → a < 2 ^ 64
    → add_size (add_size offset (sub_size cut start)) (sub_size a cut)
      ≡ add_size offset (sub_size a start)
moved_place offset start cut a h k b = ground arith

abbrev low_part : VmmSegment → ℕ → VmmSegment
low_part s cut = record s { end = cut }

abbrev high_part : VmmSegment → ℕ → VmmSegment
high_part s cut = record s { start = cut; offset = add_size s.offset (sub_size cut s.start) }

split-view :
    (s : VmmSegment) (cut : ℕ) (rest : List VmmSegment) (a : ℕ)
    → s.start < cut
    → cut < s.end
    → s.end < 2 ^ 64
    → view (low_part s cut ∷ (high_part s cut ∷ rest)) a ≡ view (s ∷ rest) a
split-view s cut rest a h k b = elim (Bool-cases (ltb a cut)) [
  | inl e ↦
      let same : contains (low_part s cut) a ≡ contains s a = ground arith in
      let miss : contains (high_part s cut) a ≡ false = ground arith in rw (same, miss) refl
  | inr e ↦
      let miss : contains (low_part s cut) a ≡ false = ground arith in
      elim (Bool-cases (contains s a)) [
        | inl c ↦
            let inside : a < s.end = ground (arith, c) in
            let hit : contains (high_part s cut) a ≡ true = ground arith in
            let make : ℕ → Option Mapping =
              λ p. some (record { prot = s.prot; flags = s.flags; fd = s.fd; place = p }) in
            rw (miss, hit, c)
              (ap make
                (moved_place s.offset s.start cut a (omega arith) (ground arith) (omega arith)))
        | inr c ↦
            let out : contains (high_part s cut) a ≡ false = ground (arith, c) in
            rw (miss, out, c) refl
      ]
]

split_unless-Splits :
    (s : VmmSegment) (cut : ℕ) (refused : Option Errno)
    → s.start < cut
    → cut < s.end
    → s.end < 2 ^ 64
    → Splits s cut (split_unless s cut refused)
split_unless-Splits s cut (some e) h k b = tt
split_unless-Splits s cut none h k b = record {
  low_start = refl;
  low_end = refl;
  high_start = refl;
  high_end = refl;
  above = h;
  below = k;
  same = λ rest a. split-view s cut rest a h k b;
}

pub split_segment-Splits :
    (refuse : Refuse) (s : VmmSegment) (cut : ℕ)
    → s.end < 2 ^ 64
    → Splits s cut (split_segment refuse s cut)
unfolding split_segment
split_segment-Splits refuse s cut b = elim (Bool-cases (leb cut s.start)) [
  | inl e ↦ rw e tt
  | inr e ↦ rw e (elim (Bool-cases (leb s.end cut)) [
    | inl f ↦ rw f tt
    | inr f ↦ rw f (split_unless-Splits s cut (refuse s cut) (ground arith) (ground arith) b)
  ])
]

pub mid-IsSorted :
    (s mid : VmmSegment) (rest : List VmmSegment)
    → IsSegment mid
    → mid.end ≡ s.end
    → IsSorted s.end rest
    → IsSorted mid.start (mid ∷ rest)
mid-IsSorted s mid rest g e h =
    (omega arith, g.some_size, g.small, g.page, g.end_page, subst (λ x. IsSorted x rest) (sym e) h)
