-- ===== src/Pmm/Quotient.antt =====
-- kernel/mem/pmm.c: the invariant of a zone's lists with one more block, and where aligned blocks lie.
use stanix.Base.{
  ℕ, zero, suc, ◌+◌, ◌*◌, ◌/◌, ◌%◌, ◌^◌, ◌≤◌, ◌<◌, ◌≡◌, sym, subst, ap, ◌∙◌, ◌≢◌, Bool,
  if◌then◌else◌, arith,
}
use native.Mathlib.Nat.{
  mul-div_cancel, div-one, mul_assoc, mul_comm, div-eq_of_lt-le, one-le-pow, div-div-eq-div-mul,
  div-add-mod', mod-lt, pow-suc, add-mul,
}
use stanix.Pmm.{order2count, Entries}
use stanix.Pmm.Cover.{inside, cover}
use stanix.Pmm.Blocks.{Blocks}

abbrev pub Aligned : (order page : ℕ) → Type 0
Aligned order page = (k : ℕ) × (page ≡ k * order2count order)

-- 1 for true
abbrev pub bit : Bool → ℕ
bit b = if b then 1 else 0

-- The lists of a zone whose free pages are those of the listed blocks and of one more block.
pub record IsZone (is_free : ℕ → Bool) (noted : ℕ → ℕ) (order start : ℕ) (entries : Entries)
    : Type 0 where
  pub aligned : Aligned order start
  pub blocks : Blocks (λ o p. (noted p ≡ o) × Aligned o p) 0 entries
  pub covered : (x : ℕ) → cover x 0 entries + inside x start (order2count order) ≡ bit (is_free x)

pub pow-positive : (o : ℕ) → 0 < 2 ^ o
pow-positive o = one-le-pow o 2 (omega arith)

-- The block with number `k` of an order holds the pages whose quotient is `k`.
pub inside-quotient : (x k o : ℕ) → inside x (k * 2 ^ o) (2 ^ o) ≢ 0 → x / 2 ^ o ≡ k
inside-quotient x k o h =
    div-eq_of_lt-le (2 ^ o) (ground arith) (let e = add-mul k 1 (2 ^ o) in ground arith)

pub quotient-inside : (x k o : ℕ) → x / 2 ^ o ≡ k → inside x (k * 2 ^ o) (2 ^ o) ≡ 1
quotient-inside x k o e =
    let d = subst (λ q. q * 2 ^ o + x % 2 ^ o ≡ x) e (div-add-mod' x (2 ^ o)) in
    let m = mod-lt x (pow-positive o) in ground arith

-- The quotient at a larger order.
pub quotient_up : (n o d : ℕ) → n * 2 ^ o / 2 ^ (o + 1 + d) ≡ n / 2 / 2 ^ d
quotient_up n o zero =
    ap (λ m. n * 2 ^ o / m)
      (ap (λ e. 2 ^ e) {x = o + 1 + 0} {y = suc o} (omega arith) ∙ pow-suc 2 o)
    ∙ sym (div-div-eq-div-mul (n * 2 ^ o) (2 ^ o) 2)
    ∙ ap (λ q. q / 2) (mul-div_cancel n (pow-positive o))
    ∙ sym (div-one (n / 2))
quotient_up n o (suc d) =
    ap (λ m. n * 2 ^ o / m)
      (ap (λ e. 2 ^ e) {x = o + 1 + suc d} {y = suc (o + 1 + d)} (omega arith)
        ∙ pow-suc 2 (o + 1 + d))
    ∙ sym (div-div-eq-div-mul (n * 2 ^ o) (2 ^ (o + 1 + d)) 2)
    ∙ ap (λ q. q / 2) (quotient_up n o d)
    ∙ div-div-eq-div-mul (n / 2) (2 ^ d) 2
    ∙ ap (λ m. n / 2 / m) (sym (pow-suc 2 d))

-- A multiple of a larger power is one of a smaller.
pub Aligned-down : (k o d : ℕ) → (m : ℕ) × (k * 2 ^ (o + d) ≡ m * 2 ^ o)
Aligned-down k o zero = (k, ap (λ e. k * 2 ^ e) (omega arith))
Aligned-down k o (suc d) =
    let (m, e) = Aligned-down (k * 2) o d in
    (
      m,
      ap (λ q. k * q)
            (ap (λ e. 2 ^ e) {x = o + suc d} {y = suc (o + d)} (omega arith)
              ∙ pow-suc 2 (o + d)
              ∙ mul_comm (2 ^ (o + d)) 2)
          ∙ sym (mul_assoc k 2 (2 ^ (o + d)))
          ∙ e,
    )

pub inside_le : (x s c : ℕ) → inside x s c ≤ 1
inside_le x s c = ground arith

pub bit_le : (b : Bool) → bit b ≤ 1
bit_le b = ground arith

pub inside_self : (n o : ℕ) → inside (n * 2 ^ o) (n * 2 ^ o) (2 ^ o) ≡ 1
inside_self n o = let p = pow-positive o in ground arith
