-- ===== src/Rman/Fit.antt =====
-- Where an allocation places a resource in a segment.
use native.Mathlib.Nat.{add-zero, mod-add-mod, mod_self, mod-lt}
use stanix.Base.{
  ℕ, ◌+◌, ◌-◌, ◌<◌, ◌≤◌, ◌%◌, ◌^◌, ◌≡◌, sym, ◌∙◌, false, none, some, ltb, leb, ◌==◌, if◌then◌else◌,
  Bool-cases, inl, inr, arith, ==_iff,
}
use stanix.Word.{add_size, sub_size}
use stanix.Rman.{Seg, Request, seg_end, or_one, strip_start, strip_count, padding, fit}

pub or_one-pos : (n : ℕ) → 0 < or_one n
or_one-pos n = ground arith

-- The added padding aligns.
padded : (start align : ℕ) → 0 < align → (start + padding start align) % align ≡ 0
padded start align pos = elim (Bool-cases (start % align == 0)) [
  | inl e ↦ rw e (rw (add-zero start) ((==_iff (start % align) 0).0 e))
  | inr e ↦ rw e (
      sym (mod-add-mod start align (align - start % align))
      ∙ rw (up (mod-lt start pos)) (mod_self align))
]
  where
    up : {m : ℕ} → m < align → m + (align - m) ≡ align
    up h = omega arith

-- Where a resource is placed in a segment.
pub record Placed (r : Request) (s : Seg) (start : ℕ) : Type 0 where
  pub above : r.start ≤ start
  pub inside : s.start ≤ start
  pub below : start + or_one r.size ≤ r.end
  pub room : start + or_one r.size ≤ s.start + s.size
  pub aligned : start % or_one r.align ≡ 0

-- What is left of the segment between the bounds of the request.
stripped :
    (r : Request) (s : Seg)
    → s.start + s.size < 2 ^ 64
    → r.end < 2 ^ 64
    → leb (seg_end s) r.start ≡ false
    → leb r.end s.start ≡ false
    → r.start ≤ r.end
    → (r.start ≤ strip_start r s)
      × (s.start ≤ strip_start r s)
      × (strip_start r s + strip_count r s ≤ r.end)
      × (strip_start r s + strip_count r s ≤ s.start + s.size)
stripped r s v w h h' lo = ground arith

pub fit-Placed :
    (r : Request) (s : Seg) (start : ℕ)
    → s.start + s.size < 2 ^ 64
    → r.end < 2 ^ 64
    → leb (seg_end s) r.start ≡ false
    → leb r.end s.start ≡ false
    → r.start ≤ r.end
    → fit r s ≡ some start
    → Placed r s start
unfolding fit
fit-Placed r s start v w h h' lo e =
    let (a, b, c, d) = stripped r s v w h h' lo in
    let at = strip_start r s in
    let count = strip_count r s in
    let pad = padding at (or_one r.align) in
    let (enough, same) = fitted at count pad (or_one r.size) start (omega arith) e in
    record {
      above = omega arith;
      inside = omega arith;
      below = omega arith;
      room = omega arith;
      aligned = rw (sym same) (padded at (or_one r.align) (or_one-pos r.align));
    }
  where
    fitted :
        (at count pad size start : ℕ)
        → at + count < 2 ^ 64
        → (if ltb count pad
            then none
            else if ltb (sub_size count pad) size
            then none
            else some (add_size at pad))
          ≡ some start
        → (pad + size ≤ count) × (at + pad ≡ start)
    fitted at count pad size start v h = ground arith
