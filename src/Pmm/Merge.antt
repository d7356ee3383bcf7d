-- ===== src/Pmm/Merge.antt =====
-- kernel/mem/pmm.c: merging a freed block with its buddies. A page that is free, next to the freed block, and
-- noted with its order, is the first of a block on the list of that order.
use stanix.Base.{
  ℕ, zero, suc, ◌+◌, ◌-◌, ◌*◌, ◌/◌, ◌^◌, ◌≤◌, ◌≡◌, refl, sym, subst, ap, ◌∙◌, ◌≢◌, inl, inr, Bool,
  true, Option, none, some, eq_cases, lt_or_le, Bool-cases, arith, length,
}
use native.Mathlib.Nat.{mul-div_cancel}
use stanix.Pmm.{Entries, remove_at, buddy, merge_loop}
use stanix.Pmm.Cover.{inside, cover, cover-remove_at}
use stanix.Pmm.Buddy.{Pair, pair, lower_half}
use stanix.Pmm.Blocks.{Blocks-remove_at, find_block}
use stanix.Pmm.Quotient.{
  Aligned, bit, bit_le, IsZone, pow-positive, inside-quotient, quotient-inside, quotient_up,
  Aligned-down, inside_le, inside_self,
}

-- The buddy, when it is free and noted with the order, is the first page of a listed block of the order.
module _ (is_free : ℕ → Bool) (noted : ℕ → ℕ) (order k other : ℕ) (entries : Entries)
    (z : IsZone is_free noted order (k * 2 ^ order) entries) (pr : Pair order k other)
    (free : is_free (other * 2 ^ order) ≡ true) (note : noted (other * 2 ^ order) ≡ order) where
  apart : inside (other * 2 ^ order) (k * 2 ^ order) (2 ^ order) ≡ 0
  apart =
      let w = pr.whole (other * 2 ^ order) in
      let i = inside_self other order in
      let l = inside_le (other * 2 ^ order) (k / 2 * 2 ^ (order + 1)) (2 ^ (order + 1)) in
      omega arith

  buddy_covered : cover (other * 2 ^ order) 0 entries ≢ 0
  buddy_covered =
      let a = apart in
      let c =
        subst
          (λ b.
            cover (other * 2 ^ order) 0 entries
              + inside (other * 2 ^ order) (k * 2 ^ order) (2 ^ order)
            ≡ bit b)
          free (z.covered (other * 2 ^ order)) in
      λ e. absurd (omega arith)

  -- No larger block holds the buddy: it would hold the freed block.
  not_larger :
      (d p : ℕ) (entries' : Entries)
      → Aligned (order + 1 + d) p
      → inside (other * 2 ^ order) p (2 ^ (order + 1 + d)) ≢ 0
      → remove_at (order + 1 + d) p entries ≡ some entries'
      → ⊥
  not_larger d p entries' (n, e) i r =
      let o : ℕ = order + 1 + d in
      let q : other * 2 ^ order / 2 ^ o ≡ n =
        inside-quotient (other * 2 ^ order) n o
          (subst (λ p. inside (other * 2 ^ order) p (2 ^ o) ≢ 0) e i) in
      let here : k * 2 ^ order / 2 ^ o ≡ n =
        quotient_up k order d
        ∙ ap (λ h. h / 2 ^ d) (sym pr.half)
        ∙ sym (quotient_up other order d)
        ∙ q in
      let one : inside (k * 2 ^ order) p (2 ^ o) ≡ 1 =
        subst (λ p. inside (k * 2 ^ order) p (2 ^ o) ≡ 1) (sym e)
          (quotient-inside (k * 2 ^ order) n o here) in
      let sum = cover-remove_at (k * 2 ^ order) o p entries entries' r in
      let c = z.covered (k * 2 ^ order) in
      let own = inside_self k order in let l = bit_le (is_free (k * 2 ^ order)) in omega arith

  -- A block of at most the order that holds the buddy starts there.
  starts_there :
      (d j p : ℕ)
      → j + d ≡ order
      → Aligned j p
      → inside (other * 2 ^ order) p (2 ^ j) ≢ 0
      → p ≡ other * 2 ^ order
  starts_there d j p s (n, e) i =
      let (m, down) = Aligned-down other j d in
      let b : other * 2 ^ order ≡ m * 2 ^ j = ap (λ o. other * 2 ^ o) (sym s) ∙ down in
      let q : other * 2 ^ order / 2 ^ j ≡ n =
        inside-quotient (other * 2 ^ order) n j
          (subst (λ p. inside (other * 2 ^ order) p (2 ^ j) ≢ 0) e i) in
      let mn : m ≡ n = sym (mul-div_cancel m (pow-positive j)) ∙ ap (λ x. x / 2 ^ j) (sym b) ∙ q in
      e ∙ ap (λ k. k * 2 ^ j) (sym mn) ∙ sym b

  pub removable :
      (entries' : Entries) × (remove_at order (other * 2 ^ order) entries ≡ some entries')
  removable =
      let (j, p, (note', al), i, (entries', r)) =
        find_block (λ o p. (noted p ≡ o) × Aligned o p) (other * 2 ^ order) 0 entries z.blocks
          buddy_covered in
      let zj : 0 + j ≡ j = omega arith in
      let al' = subst (λ o. Aligned o p) zj al in
      let i' = subst (λ o. inside (other * 2 ^ order) p (2 ^ o) ≢ 0) zj i in
      elim (lt_or_le order j) [
        | inl lt ↦
            let d : ℕ = j - order - 1 in
            let e : j ≡ order + 1 + d = omega arith in
            absurd (
              not_larger d p entries' (subst (λ o. Aligned o p) e al')
                (subst (λ o. inside (other * 2 ^ order) p (2 ^ o) ≢ 0) e i')
                (subst (λ o. remove_at o p entries ≡ some entries') e r))
        | inr le ↦
            let there = starts_there (order - j) j p (omega arith) al' i' in
            let same : j ≡ order = sym (note' ∙ zj) ∙ ap noted there ∙ note in
            (
              entries',
              subst (λ o. remove_at o (other * 2 ^ order) entries ≡ some entries') same
                  (subst (λ p. remove_at j p entries ≡ some entries') there r),
            )
      ]

-- The zone that the loop of `pmm_zone_set_free_pages` leaves: never a list without the page to remove.
pub record IsMerged (is_free : ℕ → Bool) (noted : ℕ → ℕ) (top : ℕ) (before : Entries)
    (order start : ℕ) (entries : Entries) : Type 0 where
  pub zone : IsZone is_free noted order start entries
  pub bounded : order ≤ top
  pub lists : length entries ≡ length before

abbrev pub Merged : (ℕ → Bool) → (ℕ → ℕ) → (top : ℕ) → Entries → Option (ℕ × ℕ × Entries) → Type 0
Merged is_free noted top before none = ⊥
Merged is_free noted top before (some (order, start, entries)) =
    IsMerged is_free noted top before order start entries

-- One merge, after which the freed block is the block of the next order.
merged-IsZone :
    (is_free : ℕ → Bool) (noted : ℕ → ℕ) (order start : ℕ) (entries entries' : Entries)
    → IsZone is_free noted order start entries
    → remove_at order (buddy order start) entries ≡ some entries'
    → IsZone is_free noted (order + 1) (lower_half order start) entries'
      × (length entries' ≡ length entries)
merged-IsZone is_free noted order start entries entries' z r =
    let (k, e) = z.aligned in
    let (other, pr) = pair order k in
    let b : buddy order start ≡ other * 2 ^ order = ap (buddy order) e ∙ pr.is_buddy in
    let low : lower_half order start ≡ k / 2 * 2 ^ (order + 1) =
      ap (lower_half order) e ∙ pr.lower in
    let (kept, lists) =
      Blocks-remove_at (λ o p. (noted p ≡ o) × Aligned o p) order (buddy order start) entries
        entries' r z.blocks in
    (
      record {
        aligned = (k / 2, low);
        blocks = kept;
        covered = λ x.
            let whole = pr.whole x in
            let taken = cover-remove_at x order (buddy order start) entries entries' r in
            let c = z.covered x in
            let e1 = ap (λ s. inside x s (2 ^ order)) e in
            let e2 = ap (λ s. inside x s (2 ^ order)) b in
            let e3 = ap (λ s. inside x s (2 ^ (order + 1))) low in omega arith;
      },
      lists,
    )

buddy_listed :
    (is_free : ℕ → Bool) (noted : ℕ → ℕ) (order start : ℕ) (entries : Entries)
    → IsZone is_free noted order start entries
    → is_free (buddy order start) ≡ true
    → noted (buddy order start) ≡ order
    → (entries' : Entries) × (remove_at order (buddy order start) entries ≡ some entries')
buddy_listed is_free noted order start entries z free note =
    let (k, e) = z.aligned in
    let (other, pr) = pair order k in
    let b : buddy order start ≡ other * 2 ^ order = ap (buddy order) e ∙ pr.is_buddy in
    subst (λ p. (entries' : Entries) × (remove_at order p entries ≡ some entries')) (sym b)
      (removable is_free noted order k other entries
        (subst (λ s. IsZone is_free noted order s entries) e z) pr
        (subst (λ p. is_free p ≡ true) b free) (subst (λ p. noted p ≡ order) b note))

Merged-after :
    (is_free : ℕ → Bool) (noted : ℕ → ℕ) (top top' : ℕ) (before before' : Entries)
    → top ≡ top'
    → length before ≡ length before'
    → (r : Option (ℕ × ℕ × Entries)) → Merged is_free noted top before r
    → Merged is_free noted top' before' r
Merged-after is_free noted top top' before before' t l none m = m
Merged-after is_free noted top top' before before' t l (some (order, start, entries)) m = record {
  zone = m.zone;
  bounded = let b = m.bounded in omega arith;
  lists = m.lists ∙ l;
}

pub merge_loop-Merged :
    (is_free : ℕ → Bool) (noted : ℕ → ℕ) (left order start : ℕ) (entries : Entries)
    → IsZone is_free noted order start entries
    → Merged is_free noted
        (order + left)
        entries
        (merge_loop is_free noted left order start entries)
unfolding merge_loop
merge_loop-Merged is_free noted zero order start entries z = record {
  zone = z;
  bounded = omega arith;
  lists = refl;
}
merge_loop-Merged is_free noted (suc left) order start entries z =
    let stop : IsMerged is_free noted (order + suc left) entries order start entries = record {
      zone = z;
      bounded = omega arith;
      lists = refl;
    } in
    elim (Bool-cases (is_free (buddy order start))) [
      | inr f ↦ rw f stop
      | inl t ↦ elim (eq_cases (noted (buddy order start)) order) [
        | inr (f, ne) ↦ rw (t, f) stop
        | inl (u, e) ↦
            let (entries', r) = buddy_listed is_free noted order start entries z t e in
            let (z', l) = merged-IsZone is_free noted order start entries entries' z r in
            rw (t, u, r)
              (Merged-after is_free noted (order + 1 + left) (order + suc left) entries' entries
                (omega arith) l _
                (merge_loop-Merged is_free noted left (order + 1) (lower_half order start) entries'
                  z'))
      ]
    ]
