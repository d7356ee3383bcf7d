-- ===== src/Pmm/Buddy.antt =====
-- kernel/mem/pmm.c: the numbers of buddies. Two aligned buddies make one aligned block of the next order.
use stanix.Base.{
  ℕ, ◌+◌, ◌*◌, ◌/◌, ◌%◌, ◌^◌, ◌<◌, ◌≡◌, sym, subst, ap, ◌∙◌, ◌⊎◌, inl, inr, ltb, if◌then◌else◌,
  eq→test, ne→test, arith,
}
use native.Mathlib.Nat.{two-pow-succ, one-le-pow, mul-add, add-mul, mul-div_cancel}
use stanix.Pmm.{order2count, buddy}
use stanix.Pmm.Cover.{inside, inside-halves}

abbrev pub lower_half : (order start : ℕ) → ℕ
lower_half order start = if ltb (buddy order start) start then buddy order start else start

double-mul : (j s : ℕ) → (j + j) * s ≡ j * (s + s)
double-mul j s = let a = add-mul j j s in let b = mul-add j s s in omega arith

pow-positive : (o : ℕ) → 0 < 2 ^ o
pow-positive o = one-le-pow o 2 (omega arith)

quotient : (k o : ℕ) → k * 2 ^ o / 2 ^ o ≡ k
quotient k o = mul-div_cancel k (pow-positive o)

-- Of the block with number `k` of an order: its buddy, the block of the next order, and its pages.
pub record Pair (order k other : ℕ) : Type 0 where
  pub is_buddy : buddy order (k * order2count order) ≡ other * order2count order
  pub half : other / 2 ≡ k / 2
  pub lower : lower_half order (k * order2count order) ≡ k / 2 * order2count (order + 1)
  pub whole :
      (page : ℕ)
      → inside page (k / 2 * order2count (order + 1)) (order2count (order + 1))
        ≡ inside page (k * order2count order) (order2count order)
          + inside page (other * order2count order) (order2count order)

next_start : (j o : ℕ) → j * 2 ^ (o + 1) ≡ (j + j) * 2 ^ o
next_start j o =
    ap (λ s. j * s) (ap (λ e. 2 ^ e) {x = o + 1} (omega arith) ∙ two-pow-succ o)
    ∙ sym (double-mul j (2 ^ o))

lower_above : (b s : ℕ) → s < b → (if ltb b s then b else s) ≡ s
lower_above b s h = ground arith

lower_below : (b s : ℕ) → b < s → (if ltb b s then b else s) ≡ b
lower_below b s h = ground arith

even-Pair : (o j : ℕ) → Pair o (j + j) (j + j + 1)
unfolding buddy
even-Pair o j =
    let q = quotient (j + j) o in
    let p = pow-positive o in
    let h : (j + j) / 2 ≡ j = omega arith in
    let up : (j + j + 1) * 2 ^ o ≡ (j + j) * 2 ^ o + 2 ^ o =
      add-mul (j + j) 1 (2 ^ o) ∙ omega arith in
    let next = next_start j o in
    let b : buddy o ((j + j) * 2 ^ o) ≡ (j + j + 1) * 2 ^ o =
      rw (q, eq→test ((j + j) % 2) 0 (omega arith)) (sym up) in
    record {
      is_buddy = b;
      half = omega arith;
      lower = lower_above _ _ (omega arith) ∙ sym next ∙ ap (λ n. n * 2 ^ (o + 1)) (sym h);
      whole = λ page. rw (h, next, up) (inside-halves page ((j + j) * 2 ^ o) o);
    }

odd-Pair : (o j : ℕ) → Pair o (j + j + 1) (j + j)
unfolding buddy
odd-Pair o j =
    let q = quotient (j + j + 1) o in
    let p = pow-positive o in
    let h : (j + j + 1) / 2 ≡ j = omega arith in
    let up : (j + j + 1) * 2 ^ o ≡ (j + j) * 2 ^ o + 2 ^ o =
      add-mul (j + j) 1 (2 ^ o) ∙ omega arith in
    let next = next_start j o in
    let b : buddy o ((j + j + 1) * 2 ^ o) ≡ (j + j) * 2 ^ o =
      rw (q, ne→test ((j + j + 1) % 2) 0 (omega arith)) (omega arith) in
    record {
      is_buddy = b;
      half = omega arith;
      lower = lower_below _ _ (omega arith) ∙ b ∙ sym next ∙ ap (λ n. n * 2 ^ (o + 1)) (sym h);
      whole = λ page. rw (h, next, up) (inside-halves page ((j + j) * 2 ^ o) o ∙ omega arith);
    }

parity : (k : ℕ) → (k ≡ k / 2 + k / 2) ⊎ (k ≡ k / 2 + k / 2 + 1)
parity k = ground arith

pub pair : (order k : ℕ) → (other : ℕ) × Pair order k other
pair order k = elim (parity k) [
  | inl e ↦ (
    k / 2 + k / 2 + 1,
    subst (λ n. Pair order n (k / 2 + k / 2 + 1)) (sym e) (even-Pair order (k / 2)),
  )
  | inr e ↦
      (k / 2 + k / 2, subst (λ n. Pair order n (k / 2 + k / 2)) (sym e) (odd-Pair order (k / 2)))
]
