-- ===== src/Signal/Scan.antt =====
-- kernel/task/signal.c: the loops of `signal_dequeue_context` over the pending signals.
use stanix.Base.{
  ℕ, zero, suc, ◌+◌, ◌≤◌, ◌<◌, ◌≡◌, ◌≢◌, refl, sym, ap, ◌∙◌, ◌⊎◌, inl, inr, Bool, true, false, ◌&&◌,
  Option, none, some, List, [], ◌∷◌, eq_or_ne, Bool-cases, arith,
}
use stanix.Signal.{
  Sigset, Siginfo, Search, found, interrupted, ended, keep_first, search_pendings,
  search_lightweight, any,
}
use stanix.Signal.Pending.{EverySignal, EverySignal-map, AllDistinct}

-- How the loop over the list ends, where `P` holds of all listed signals.
abbrev pub Searched :
    (mask blocked : Sigset) → (P : Siginfo → Type 0) → List Siginfo → Search → Type 0
Searched mask blocked P ps (found s rest) =
    (mask s.si_signo ≡ true)
    × P s
    × EverySignal P rest
    × AllDistinct rest
    × EverySignal (λ p. p.si_signo ≢ s.si_signo) rest
Searched mask blocked P ps interrupted =
    (s : Siginfo) × P s × (mask s.si_signo ≡ false) × (blocked s.si_signo ≡ false)
Searched mask blocked P ps ended = EverySignal (λ s. mask s.si_signo ≡ false) ps

keep_first-Searched :
    (mask blocked : Sigset) (P : Siginfo → Type 0) (p : Siginfo) (list : List Siginfo)
    → P p
    → mask p.si_signo ≡ false
    → (r : Search) → Searched mask blocked (λ s. P s × (s.si_signo ≢ p.si_signo)) list r
    → Searched mask blocked P (p ∷ list) (keep_first p r)
unfolding keep_first EverySignal AllDistinct
keep_first-Searched mask blocked P p list hp f (found s rest) (m, (ps, ne), h, d, k) = (
  m,
  ps,
  (hp, EverySignal-map _ _ (λ q (a, b). a) rest h),
  (EverySignal-map _ _ (λ q (a, b). b) rest h, d),
  ((λ e. ne (sym e)), k),
)
keep_first-Searched mask blocked P p list hp f interrupted (s, (q, ne), m, b) = (s, q, m, b)
keep_first-Searched mask blocked P p list hp f ended h = (f, h)

pub EverySignal-both :
    (P Q : Siginfo → Type 0) (ps : List Siginfo)
    → EverySignal P ps
    → EverySignal Q ps
    → EverySignal (λ s. P s × Q s) ps
unfolding EverySignal
EverySignal-both P Q [] h k = tt
EverySignal-both P Q (p ∷ ps) (a, h) (b, k) = ((a, b), EverySignal-both P Q ps h k)

pub search_pendings-Searched :
    (mask blocked : Sigset) (P : Siginfo → Type 0) (ps : List Siginfo)
    → EverySignal P ps
    → AllDistinct ps
    → Searched mask blocked P ps (search_pendings mask blocked ps)
unfolding search_pendings EverySignal AllDistinct
search_pendings-Searched mask blocked P [] h d = tt
search_pendings-Searched mask blocked P (p ∷ ps) (hp, h) (k, d) =
    elim (Bool-cases (mask p.si_signo)) [
      | inl t ↦ rw t (t, hp, h, d, k)
      | inr f ↦ elim (Bool-cases (blocked p.si_signo)) [
        | inr u ↦ rw (f, u) (p, hp, f, u)
        | inl b ↦
            rw (f, b)
              (keep_first-Searched mask blocked P p ps hp f _ (
                search_pendings-Searched mask blocked (λ s. P s × (s.si_signo ≢ p.si_signo)) ps
                  (EverySignal-both _ _ ps h k) d))
      ]
    ]

-- The first number in both sets, or none.
abbrev pub LightlyFound : (pending mask : Sigset) → (left signum : ℕ) → Option ℕ → Type 0
LightlyFound pending mask left signum (some n) = (pending n ≡ true) × (mask n ≡ true)
LightlyFound pending mask left signum none =
    (n : ℕ) → signum ≤ n → n < signum + left → pending n ≡ true → mask n ≡ false

pub and_true : (a b : Bool) → (a && b) ≡ true → (a ≡ true) × (b ≡ true)
and_true true b h = (refl, h)
and_true false b h = absurd (cc)

pub and_false : (a b : Bool) → (a && b) ≡ false → a ≡ true → b ≡ false
and_false true b h e = h
and_false false b h e = absurd (cc)

LightlyFound-skip :
    (pending mask : Sigset) (left signum : ℕ) (r : Option ℕ)
    → (pending signum && mask signum) ≡ false
    → LightlyFound pending mask left (signum + 1) r
    → LightlyFound pending mask (suc left) signum r
LightlyFound-skip pending mask left signum (some n) f h = h
LightlyFound-skip pending mask left signum none f h = λ n l u e. elim (eq_or_ne n signum) [
  | inl same ↦ and_false (pending n) (mask n) (ap (λ k. pending k && mask k) same ∙ f) e
  | inr ne ↦ h n (omega arith) (omega arith) e
]

pub search_lightweight_lem :
    (pending mask : Sigset) (left signum : ℕ)
    → LightlyFound pending mask left signum (search_lightweight pending mask left signum)
unfolding search_lightweight
search_lightweight_lem pending mask zero signum = λ n l u. absurd (omega arith)
search_lightweight_lem pending mask (suc left) signum =
    elim (Bool-cases (pending signum && mask signum)) [
      | inl t ↦ rw t (and_true (pending signum) (mask signum) t)
      | inr f ↦ rw f (
          LightlyFound-skip pending mask left signum _ f
            (search_lightweight_lem pending mask left (signum + 1)))
    ]

-- Whether `any` finds a number.
pub any-cases :
    (left signum : ℕ) (set : Sigset)
    → ((any left signum set ≡ true) × ((n : ℕ) × (set n ≡ true)))
      ⊎ ((any left signum set ≡ false) × ((n : ℕ) → signum ≤ n → n < signum + left → set n ≡ false))
unfolding any
any-cases zero signum set = inr (refl, λ n l u. absurd (omega arith))
any-cases (suc left) signum set = elim (Bool-cases (set signum)) [
  | inl t ↦ rw t (inl (refl, (signum, t)))
  | inr f ↦ elim (any-cases left (signum + 1) set) [
    | inl (a, w) ↦ rw (f, a) (inl (refl, w))
    | inr (a, h) ↦
        rw (f, a)
          (inr (
            refl,
            λ n l u. elim (eq_or_ne n signum) [
              | inl same ↦ ap set same ∙ f
              | inr ne ↦ h n (omega arith) (omega arith)
            ],
          ))
  ]
]
