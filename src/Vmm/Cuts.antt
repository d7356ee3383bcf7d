-- ===== src/Vmm/Cuts.antt =====
-- The cuts at the ends of a range of kernel/mem/vmm.c.
use stanix.Base.{
  ℕ, ◌%◌, ◌≤◌, ◌<◌, ◌≡◌, refl, true, false, List, [], ◌∷◌, ◌++◌, ltb, Bool-cases, inl, inr, ◌⊎◌,
  arith,
}
use stanix.Errno.{Result, done, fail}
use stanix.Vmm.{VmmSegment, Refuse, split_segment, front_of, cut_front, back_of, cut_back}
use stanix.Vmm.View.{contains, view, IsSorted, IsSorted-from, misses}
use stanix.Vmm.Split.{IsSegment, Splits, split_segment-Splits}

-- What the cut at the start of a range leaves in front, and the segment.
pub record IsFront (lo start : ℕ) (s : VmmSegment) (low : List VmmSegment) (mid : VmmSegment)
    : Type 0 where
  pub above : start ≤ mid.start
  pub same_end : mid.end ≡ s.end
  pub good : IsSegment mid
  pub same : (rest : List VmmSegment) (a : ℕ) → view (low ++ (mid ∷ rest)) a ≡ view (s ∷ rest) a
  pub clear : (a : ℕ) → start ≤ a → misses low a ≡ true
  pub sorted : (behind : List VmmSegment) → IsSorted mid.start behind → IsSorted lo (low ++ behind)

abbrev pub Fronts : (lo start : ℕ) → VmmSegment → Result (List VmmSegment × VmmSegment) → Type 0
Fronts lo start s (fail e) = Unit
Fronts lo start s (done (low, mid)) = IsFront lo start s low mid

front_of-Fronts :
    (lo start : ℕ) (s : VmmSegment) (out : Result (VmmSegment × VmmSegment))
    → lo ≤ s.start
    → IsSegment s
    → start % 4096 ≡ 0
    → Splits s start out
    → Fronts lo start s (front_of out)
front_of-Fronts lo start s (fail e) h g page p = tt
front_of-Fronts lo start s (done (low, high)) h g page p =
    let a = p.low_start in
    let b = p.low_end in
    let c = p.high_start in
    let d = p.high_end in
    let e = p.above in
    let f = p.below in
    let small = g.small in
    let page' = g.page in
    let page'' = g.end_page in
    record {
      above = omega arith;
      same_end = d;
      good = record {
        some_size = omega arith;
        small = omega arith;
        page = rw c page;
        end_page = rw d page'';
      };
      same = p.same;
      clear = λ x k. let far : contains low x ≡ false = ground arith in rw far refl;
      sorted = λ behind k. (
        omega arith,
        omega arith,
        omega arith,
        rw a page',
        rw b page,
        IsSorted-from high.start low.end behind (omega arith) k,
      );
    }

pub cut_front-Fronts :
    (refuse : Refuse) (lo start : ℕ) (s : VmmSegment)
    → lo ≤ s.start
    → IsSegment s
    → start % 4096 ≡ 0
    → Fronts lo start s (cut_front refuse start s)
unfolding cut_front
cut_front-Fronts refuse lo start s h g page = elim (Bool-cases (ltb s.start start)) [
  | inl e ↦ rw e (
      front_of-Fronts lo start s (split_segment refuse s start) h g page
        (split_segment-Splits refuse s start g.small))
  | inr e ↦ rw e (record {
    above = ground arith;
    same_end = refl;
    good = g;
    same = λ rest a. refl;
    clear = λ a k. refl;
    sorted = λ behind k. IsSorted-from s.start lo behind h k;
  })
]

-- What the cut at the end of a range leaves: the segment, and what is behind it.
pub record IsBack (end : ℕ) (s : VmmSegment) (mid : VmmSegment) (high : List VmmSegment)
    : Type 0 where
  pub below : mid.end ≤ end
  pub shorter : mid.end ≤ s.end
  pub reach : (high ≡ []) ⊎ (end ≤ s.end)
  pub same_start : mid.start ≡ s.start
  pub good : IsSegment mid
  pub same : (rest : List VmmSegment) (a : ℕ) → view (mid ∷ (high ++ rest)) a ≡ view (s ∷ rest) a
  pub clear : (a : ℕ) → a < end → misses high a ≡ true
  pub sorted :
      (behind : List VmmSegment) → IsSorted s.end behind → IsSorted mid.end (high ++ behind)

abbrev pub Backs : (end : ℕ) → VmmSegment → Result (VmmSegment × List VmmSegment) → Type 0
Backs end s (fail e) = Unit
Backs end s (done (mid, high)) = IsBack end s mid high

back_of-Backs :
    (end : ℕ) (s : VmmSegment) (out : Result (VmmSegment × VmmSegment))
    → IsSegment s
    → end % 4096 ≡ 0
    → Splits s end out
    → Backs end s (back_of out)
back_of-Backs end s (fail e) g page p = tt
back_of-Backs end s (done (low, high)) g page p =
    let a = p.low_start in
    let b = p.low_end in
    let c = p.high_start in
    let d = p.high_end in
    let e = p.above in
    let f = p.below in
    let small = g.small in
    let page' = g.page in
    let page'' = g.end_page in
    record {
      below = omega arith;
      shorter = omega arith;
      reach = inr (omega arith);
      same_start = a;
      good = record {
        some_size = omega arith;
        small = omega arith;
        page = rw a page';
        end_page = rw b page;
      };
      same = p.same;
      clear = λ x k. let far : contains high x ≡ false = ground arith in rw far refl;
      sorted = λ behind k. (
        omega arith,
        omega arith,
        omega arith,
        rw c page,
        rw d page'',
        IsSorted-from s.end high.end behind (omega arith) k,
      );
    }

pub cut_back-Backs :
    (refuse : Refuse) (end : ℕ) (s : VmmSegment)
    → IsSegment s
    → end % 4096 ≡ 0
    → Backs end s (cut_back refuse end s)
unfolding cut_back
cut_back-Backs refuse end s g page = elim (Bool-cases (ltb end s.end)) [
  | inl e ↦ rw e (
      back_of-Backs end s (split_segment refuse s end) g page
        (split_segment-Splits refuse s end g.small))
  | inr e ↦ rw e (record {
    below = ground arith;
    shorter = omega arith;
    reach = inl refl;
    same_start = refl;
    good = g;
    same = λ rest a. refl;
    clear = λ a k. refl;
    sorted = λ behind k. k;
  })
]
