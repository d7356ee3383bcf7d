-- ===== src/Vmm/Protect.antt =====
-- `vmm_space_raw_chprot_range` of kernel/mem/vmm.c.
use stanix.Base.{
  ℕ, ◌≤◌, ◌≡◌, ◌⊎◌, refl, sym, ap, ◌∙◌, true, false, Option, none, some, List, ◌∷◌, ◌++◌,
  if◌then◌else◌, Bool-cases, inl, inr, arith,
}
use stanix.Errno.{Errno}
use stanix.Vmm.{VmmSegment, Ranged}
use stanix.Vmm.View.{
  Mapping, contains, in_range, mapping, view, IsSorted, view-skip, view-front, view-below,
}
use stanix.Vmm.Cuts.{IsFront, IsBack}

-- What is mapped, with another protection.
abbrev pub protected : ℕ → Option Mapping → Option Mapping
protected prot none = none
protected prot (some m) = some (record m { prot = prot })

-- Without an error what is mapped in the range has the protection, and all else is as before; after an
-- error each address has what it had, or is in the range and has the protection.
abbrev pub ProtectedView :
    (start end prot : ℕ) → List VmmSegment → List VmmSegment → Option Errno → Type 0
ProtectedView start end prot old new none =
    (a : ℕ)
    → view new a ≡ (if in_range start end a then protected prot (view old a) else view old a)
ProtectedView start end prot old new (some e) =
    (a : ℕ)
    → (view new a ≡ view old a)
      ⊎ ((in_range start end a ≡ true) × (view new a ≡ protected prot (view old a)))

pub record IsProtected (lo start end prot : ℕ) (old : List VmmSegment) (r : Ranged) : Type 0 where
  pub sorted : IsSorted lo r.segs
  pub changed : ProtectedView start end prot old r.segs r.error

pub untouched-IsProtected :
    (lo start end prot : ℕ) (old new : List VmmSegment) (e : Errno)
    → IsSorted lo new
    → ((a : ℕ) → view new a ≡ view old a)
    → IsProtected lo start end prot old (record { error = some e; segs = new })
untouched-IsProtected lo start end prot old new e h k = record {
  sorted = h;
  changed = λ a. inl (k a);
}

-- Nothing of the range is in what is left of the segments.
pub beyond-ProtectedView :
    (lo start end prot : ℕ) (segs : List VmmSegment)
    → end ≤ lo
    → IsSorted lo segs
    → ProtectedView start end prot segs segs none
beyond-ProtectedView lo start end prot segs h k = λ a. elim (Bool-cases (in_range start end a)) [
  | inl c ↦
      let empty = view-below lo segs a k (ground (arith, c)) in
      rw c (empty ∙ ap (protected prot) (sym empty))
  | inr c ↦ rw c refl
]

module _ (lo start end prot : ℕ) (s mid seg : VmmSegment) (low high rest new : List VmmSegment)
    (f : IsFront lo start s low mid) (b : IsBack end mid seg high) where
  abbrev changed_seg : VmmSegment
  changed_seg = record seg { prot = prot }

  pub before_change : (a : ℕ) → view (low ++ (seg ∷ (high ++ rest))) a ≡ view (s ∷ rest) a
  before_change a =
      view-front low (seg ∷ (high ++ rest)) (mid ∷ rest) a (b.same rest a) ∙ f.same rest a

  hit_range : (a : ℕ) → contains seg a ≡ true → in_range start end a ≡ true
  hit_range a h = let c = f.above in let d = b.below in let e = b.same_start in ground (arith, h)

  -- In the segment.
  hit :
      (a : ℕ)
      → contains seg a ≡ true
      → view (low ++ (changed_seg ∷ (high ++ new))) a ≡ protected prot (view (s ∷ rest) a)
  hit a h =
      let e = hit_range a h in
      let clear = f.clear a (ground (arith, e)) in
      let old : view (s ∷ rest) a ≡ some (mapping seg a) =
        sym (before_change a) ∙ view-skip low (seg ∷ (high ++ rest)) a clear ∙ rw h refl in
      view-skip low (changed_seg ∷ (high ++ new)) a clear
      ∙ rw h refl
      ∙ ap (protected prot) (sym old)

  -- Elsewhere.
  miss :
      (a : ℕ)
      → contains seg a ≡ false
      → view (low ++ (changed_seg ∷ (high ++ new))) a ≡ view (low ++ (high ++ new)) a
  miss a h = view-front low (changed_seg ∷ (high ++ new)) (high ++ new) a (rw h refl)

  miss_old : (a : ℕ) → contains seg a ≡ false → view (low ++ (high ++ rest)) a ≡ view (s ∷ rest) a
  miss_old a h =
      view-front low (high ++ rest) (seg ∷ (high ++ rest)) a (sym (rw h refl)) ∙ before_change a

  skip_both :
      (a : ℕ) (segs : List VmmSegment)
      → in_range start end a ≡ true
      → view (low ++ (high ++ segs)) a ≡ view segs a
  skip_both a segs h =
      view-skip low (high ++ segs) a (f.clear a (ground (arith, h)))
      ∙ view-skip high segs a (b.clear a (ground (arith, h)))

  same_rest :
      (a : ℕ)
      → contains seg a ≡ false
      → view new a ≡ view rest a
      → view (low ++ (changed_seg ∷ (high ++ new))) a ≡ view (s ∷ rest) a
  same_rest a h same =
      miss a h
      ∙ view-front low (high ++ new) (high ++ rest) a (view-front high new rest a same)
      ∙ miss_old a h

  other_rest :
      (a : ℕ)
      → contains seg a ≡ false
      → in_range start end a ≡ true
      → view new a ≡ protected prot (view rest a)
      → view (low ++ (changed_seg ∷ (high ++ new))) a ≡ protected prot (view (s ∷ rest) a)
  other_rest a h e same =
      miss a h
      ∙ skip_both a new e
      ∙ same
      ∙ ap (protected prot) (sym (skip_both a rest e) ∙ miss_old a h)

  pub on-ProtectedView :
      (error : Option Errno)
      → ProtectedView start end prot rest new error
      → ProtectedView start end prot (s ∷ rest) (low ++ (changed_seg ∷ (high ++ new))) error
  on-ProtectedView none h = λ a. elim (Bool-cases (contains seg a)) [
    | inl c ↦ rw (hit_range a c) (hit a c)
    | inr c ↦ elim (Bool-cases (in_range start end a)) [
      | inl e ↦ rw e (other_rest a c e (h a ∙ rw e refl))
      | inr e ↦ rw e (same_rest a c (h a ∙ rw e refl))
    ]
  ]
  on-ProtectedView (some error) h = λ a. elim (Bool-cases (contains seg a)) [
    | inl c ↦ inr (hit_range a c, hit a c)
    | inr c ↦ elim (h a) [
      | inl same ↦ inl (same_rest a c same)
      | inr out ↦ inr (out.0, other_rest a c out.0 out.1)
    ]
  ]
