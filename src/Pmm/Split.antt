-- ===== src/Pmm/Split.antt =====
-- kernel/mem/pmm.c: splitting a larger block. The orders noted of the blocks on the lists stay right.
use stanix.Base.{
  ℕ, zero, suc, ◌+◌, ◌*◌, ◌^◌, ◌≤◌, ◌≡◌, refl, sym, subst, ap, ◌∙◌, Option, none, some, List, [],
  ◌∷◌, arith, length,
}
use native.Mathlib.Nat.{two-pow-succ, mul-add, add-mul}
use stanix.Pmm.{order2count, Entries, set_at, split_from, raw_allocate}
use stanix.Pmm.Cover.{cover_list, cover, inside-halves, Taken, split_from-Taken}
use stanix.Pmm.Blocks.{EveryPage, Blocks}
use stanix.Pmm.Quotient.{Aligned}
use stanix.Pmm.Sound.{Blocks-set_at, inside_first, set_at_other, set_at_same}

abbrev pub Noted : (ℕ → ℕ) → (order page : ℕ) → Type 0
Noted noted o p = (noted p ≡ o) × Aligned o p

-- What a split leaves: an aligned block, the lists with the orders noted, and no change to what is noted
-- of a page that no block held.
pub record IsSplit (order wanted : ℕ) (entries : Entries) (noted : ℕ → ℕ) (page : ℕ)
    (entries' : Entries) (noted' : ℕ → ℕ) : Type 0 where
  pub aligned : Aligned wanted page
  pub blocks : Blocks (Noted noted') order entries'
  pub unchanged : (x : ℕ) → cover x order entries ≡ 0 → noted' x ≡ noted x
  pub lists : length entries' ≡ length entries

abbrev pub Split : (order wanted : ℕ) → Entries → (ℕ → ℕ) → Option (ℕ × Entries × (ℕ → ℕ)) → Type 0
Split order wanted entries noted none = Unit
Split order wanted entries noted (some (page, entries', noted')) =
    IsSplit order wanted entries noted page entries' noted'

-- An aligned block is two aligned halves.
Aligned-halves : (o p : ℕ) → Aligned (o + 1) p → Aligned o p × Aligned o (p + 2 ^ o)
Aligned-halves o p (k, e) =
    let two : k * 2 ^ (o + 1) ≡ (k + k) * 2 ^ o =
      ap (λ s. k * s) (ap (λ n. 2 ^ n) {x = o + 1} {y = suc o} (omega arith) ∙ two-pow-succ o)
      ∙ mul-add k (2 ^ o) (2 ^ o)
      ∙ sym (add-mul k k (2 ^ o)) in
    (
      (k + k, e ∙ two),
      (k + k + 1, ap (λ q. q + 2 ^ o) (e ∙ two) ∙ sym (add-mul (k + k) 1 (2 ^ o) ∙ omega arith)),
    )

pub split_from-Split :
    (order : ℕ) (entries : Entries) (noted : ℕ → ℕ)
    → ((x : ℕ) → cover x order entries ≤ 1)
    → Blocks (Noted noted) order entries
    → Split order order entries noted (split_from order entries noted)
unfolding split_from Blocks EveryPage cover cover_list
split_from-Split order [] noted u h = tt
split_from-Split order ((p ∷ ps) ∷ entries) noted u (((n, a), k), h) = record {
  aligned = a;
  blocks = (k, h);
  unchanged = λ x z. refl;
  lists = refl;
}
split_from-Split order ([] ∷ entries) noted u (k, h) =
    go (split_from (order + 1) entries noted) (λ x. split_from-Taken x (order + 1) entries noted)
      (split_from-Split (order + 1) entries noted (λ x. let l = u x in omega arith) h)
  where
    go :
        (r : Option (ℕ × Entries × (ℕ → ℕ)))
        → ((x : ℕ) → Taken x (order + 1) (order + 1) entries r)
        → Split (order + 1) (order + 1) entries noted r
        → Split order order ([] ∷ entries) noted (elim r [
          | none ↦ none
          | some (p, entries', noted') ↦
              let unused = p + order2count order in
              some (p, (unused ∷ []) ∷ entries', set_at noted' unused order)
        ])
    go none t s = tt
    go (some (p, entries', noted')) t s =
        let q : ℕ = p + 2 ^ order in
        let (low, high) = Aligned-halves order p s.aligned in
        let halves = inside-halves q p order in
        let first = inside_first q order in
        let here = t q in
        let once = u q in
        let none_left : cover q (order + 1) entries' ≡ 0 = omega arith in
        record {
          aligned = low;
          blocks = (
            ((set_at_same noted' q order, high), tt),
            Blocks-set_at noted' q order (order + 1) entries' none_left s.blocks,
          );
          unchanged = λ x z.
              set_at_other noted' q order x
                (λ e. absurd (let c = ap (λ y. cover y (order + 1) entries) e in omega arith))
              ∙ s.unchanged x (omega arith);
          lists = ap suc s.lists;
        }

-- The pages of a list keep what is noted of them, when it changes only where larger blocks are.
page_kept :
    (noted noted' : ℕ → ℕ) (order : ℕ) (entries : Entries)
    → ((x : ℕ) → cover x (order + 1) entries ≡ 0 → noted' x ≡ noted x)
    → (ps : List ℕ) → ((x : ℕ) → cover_list x order ps + cover x (order + 1) entries ≤ 1)
    → EveryPage (Noted noted order) ps
    → EveryPage (Noted noted' order) ps
unfolding EveryPage cover_list
page_kept noted noted' order entries f [] u h = tt
page_kept noted noted' order entries f (p ∷ ps) u ((n, a), h) = (
  (f p (let l = u p in let i = inside_first p order in omega arith) ∙ n, a),
  page_kept noted noted' order entries f ps (λ x. let l = u x in omega arith) h,
)

pub raw_allocate-Split :
    (skip first : ℕ) (entries : Entries) (noted : ℕ → ℕ)
    → ((x : ℕ) → cover x first entries ≤ 1)
    → Blocks (Noted noted) first entries
    → Split first (first + skip) entries noted (raw_allocate skip first entries noted)
unfolding raw_allocate Blocks cover
raw_allocate-Split zero first entries noted u h =
    subst (λ o. Split first o entries noted (split_from first entries noted)) (omega arith)
      (split_from-Split first entries noted u h)
raw_allocate-Split (suc skip) first [] noted u h = tt
raw_allocate-Split (suc skip) first (ps ∷ entries) noted u (k, h) =
    go (raw_allocate skip (first + 1) entries noted) (
      subst (λ o. Split (first + 1) o entries noted (raw_allocate skip (first + 1) entries noted))
        (omega arith)
        (raw_allocate-Split skip (first + 1) entries noted (λ x. let l = u x in omega arith) h))
  where
    go :
        (r : Option (ℕ × Entries × (ℕ → ℕ)))
        → Split (first + 1) (first + suc skip) entries noted r
        → Split first
            (first + suc skip)
            (ps ∷ entries)
            noted
            (elim r [ none ↦ none | some (p, entries', noted') ↦ some (p, ps ∷ entries', noted') ])
    go none s = tt
    go (some (p, entries', noted')) s = record {
      aligned = s.aligned;
      blocks = (page_kept noted noted' first entries s.unchanged ps u k, s.blocks);
      unchanged = λ x z. s.unchanged x (omega arith);
      lists = ap suc s.lists;
    }
