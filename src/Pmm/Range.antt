-- ===== src/Pmm/Range.antt =====
-- kernel/mem/pmm.c: freeing a range of pages block by block (`pmm_set_free_pages_range`).
use stanix.Base.{
  ℕ, zero, suc, ◌+◌, ◌-◌, ◌/◌, ◌%◌, ◌^◌, ◌≤◌, ◌<◌, ◌≡◌, ◌≢◌, inl, inr, false, not, ◌||◌, Option,
  none, some, ltb, ◌==◌, Bool-cases, arith,
}
use native.Mathlib.Nat.{one-le-pow, div-add-mod', mod-one}
use stanix.Pmm.{order2count, Pmm, fit_order, set_free_pages, set_free_range}
use stanix.Pmm.Cover.{inside}
use stanix.Pmm.Quotient.{Aligned, bit}
use stanix.Pmm.Sound.{IsSound, free_of, InUse, Freed, set_free_pages-Freed}

-- The order that is found fits.
Fit : (top start count : ℕ) → Option ℕ → Type 0
Fit top start count none = ⊥
Fit top start count (some order) = (order ≤ top) × (order2count order ≤ count) × Aligned order start

fits :
    (top order start count : ℕ)
    → order ≤ top
    → (ltb count (2 ^ order) || not (start % 2 ^ order == 0)) ≡ false
    → Fit top start count (some order)
unfolding Fit
fits top order start count l h =
    let m : start % 2 ^ order ≡ 0 = ground arith in
    let d = div-add-mod' start (2 ^ order) in (l, ground arith, (start / 2 ^ order, omega arith))

Fit-up : (top start count : ℕ) (r : Option ℕ) → Fit top start count r → Fit (suc top) start count r
unfolding Fit
Fit-up top start count none h = h
Fit-up top start count (some o) (l, c, a) = (omega arith, c, a)

one_fits : (start count : ℕ) → 0 < count → (ltb count 1 || not (start % 1 == 0)) ≡ false
one_fits start count pos = let m = mod-one start in ground arith

fit_order-Fit :
    (top start count : ℕ) → 0 < count → Fit top start count (fit_order (suc top) start count)
unfolding fit_order
fit_order-Fit zero start count pos =
    rw (one_fits start count pos) (fits 0 0 start count (omega arith) (one_fits start count pos))
fit_order-Fit (suc top) start count pos =
    elim (Bool-cases (ltb count (2 ^ suc top) || not (start % 2 ^ suc top == 0))) [
      | inr f ↦ rw f (fits (suc top) (suc top) start count (omega arith) f)
      | inl t ↦ rw t (Fit-up top start count _ (fit_order-Fit top start count pos))
    ]

-- The pages of the range become free, and no list is broken on the way.
abbrev pub FreedRange : Pmm → (start count : ℕ) → Option Pmm → Type 0
FreedRange m start count none = ⊥
FreedRange m start count (some m') =
    IsSound m' × ((x : ℕ) → bit (free_of m' x) ≡ bit (free_of m x) + inside x start count)

inside_none : (x start : ℕ) → inside x start 0 ≡ 0
inside_none x start = ground arith

inside_split :
    (x start c n : ℕ) → c ≤ n → inside x start n ≡ inside x start c + inside x (start + c) (n - c)
inside_split x start c n l = ground arith

inside_apart : (x start c n : ℕ) → inside x (start + c) n ≢ 0 → inside x start c ≡ 0
inside_apart x start c n h = ground arith

joined :
    (m m' : Pmm) (start c count : ℕ)
    → c ≤ count
    → ((x : ℕ) → bit (free_of m' x) ≡ bit (free_of m x) + inside x start c)
    → (r : Option Pmm) → FreedRange m' (start + c) (count - c) r
    → FreedRange m start count r
joined m m' start c count l bits none f = f
joined m m' start c count l bits (some m'') (s'', more) = (
  s'',
  λ x. let e = inside_split x start c count l in let a = bits x in let b = more x in omega arith,
)

-- The rounds after the first.
Next : (fuel : ℕ) → Type 0
Next fuel =
    (m : Pmm) (start count : ℕ)
    → count ≤ fuel
    → IsSound m
    → InUse m start count
    → FreedRange m start count (set_free_range fuel m start count)

one_piece :
    (fuel : ℕ)
    → Next fuel
    → (m : Pmm) (start count order : ℕ) → count ≤ suc fuel
    → order2count order ≤ count
    → InUse m start count
    → (r : Option Pmm) → Freed m start order r
    → FreedRange m start count (elim r [
      | none ↦ none
      | some m' ↦ set_free_range fuel m' (start + order2count order) (count - order2count order)
    ])
unfolding Next
one_piece fuel next m start count order l c u none f = f
one_piece fuel next m start count order l c u (some m') (s', bits, kept) =
    joined m m' start (order2count order) count c bits _ (
      next m' (start + order2count order) (count - order2count order)
        (let p = one-le-pow order 2 (omega arith) in omega arith) s'
        (λ x i.
          let n = inside_apart x start (2 ^ order) _ i in
          kept x n
            (u x (let e = inside_split x start (2 ^ order) count c in λ z. i (omega arith)))))

first_piece :
    (fuel : ℕ)
    → Next fuel
    → (m : Pmm) (start count : ℕ) → count ≤ suc fuel
    → IsSound m
    → InUse m start count
    → (r : Option ℕ) → Fit 6 start count r
    → FreedRange m start count (elim r [
      | none ↦ set_free_range fuel m start count
      | some order ↦ elim (set_free_pages m start order) [
        | none ↦ none
        | some m' ↦ set_free_range fuel m' (start + order2count order) (count - order2count order)
      ]
    ])
unfolding Fit
first_piece fuel next m start count l s u none f = absurd f
first_piece fuel next m start count l s u (some order) (o, c, a) =
    one_piece fuel next m start count order l c u (set_free_pages m start order) (
      set_free_pages-Freed m start order s o a
        (λ x i. u x (let e = inside_split x start (2 ^ order) count c in λ z. i (omega arith))))

-- `pmm_set_free_pages_range` of pages in use comes to its end in as many rounds as there are pages, keeps the
-- invariant, and frees the pages of the range and no other.
pub set_free_range-FreedRange :
    (fuel : ℕ) (m : Pmm) (start count : ℕ)
    → count ≤ fuel
    → IsSound m
    → InUse m start count
    → FreedRange m start count (set_free_range fuel m start count)
unfolding set_free_range Next
set_free_range-FreedRange fuel m start zero l s u =
    (s, λ x. let i = inside_none x start in omega arith)
set_free_range-FreedRange zero m start (suc count) l s u = absurd (omega arith)
set_free_range-FreedRange (suc fuel) m start (suc count) l s u =
    first_piece fuel (set_free_range-FreedRange fuel) m start (suc count) l s u
      (fit_order 7 start (suc count)) (fit_order-Fit 6 start (suc count) (omega arith))
