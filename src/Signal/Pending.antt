-- ===== src/Signal/Pending.antt =====
-- kernel/task/signal.c: what holds of the pending signals, and adding one.
use stanix.Base.{
  ℕ, ◌≤◌, ◌<◌, ◌≡◌, ◌≢◌, refl, sym, subst, ap, ◌∙◌, inl, inr, Bool, true, false, not, ◌||◌, List,
  [], ◌∷◌, eq_or_ne, Bool-cases, ne→test, arith,
}
use stanix.Signal.{
  Sigset, Siginfo, SignalContext, with_bit, append, add_pending, add_lightweight, send_task,
}
use stanix.Errno.{ok}

-- `P` holds of every listed signal.
unfoldable pub EverySignal : (Siginfo → Type 0) → List Siginfo → Type 0
EverySignal P [] = Unit
EverySignal P (p ∷ ps) = P p × EverySignal P ps

-- No two listed signals have the same number.
unfoldable pub AllDistinct : List Siginfo → Type 0
AllDistinct [] = Unit
AllDistinct (p ∷ ps) = EverySignal (λ q. q.si_signo ≢ p.si_signo) ps × AllDistinct ps

-- Every listed signal is in the set, there is one at most of each number, and the set has numbers of
-- signals only.
pub record IsContext (nsig : ℕ) (c : SignalContext) : Type 0 where
  pub listed : EverySignal (λ s. c.pending_mask s.si_signo ≡ true) c.pendings
  pub distinct : AllDistinct c.pendings
  pub numbers : (n : ℕ) → c.pending_mask n ≡ true → (1 ≤ n) × (n < nsig)

pub EverySignal-map :
    (P Q : Siginfo → Type 0)
    → ((s : Siginfo) → P s → Q s)
    → (ps : List Siginfo) → EverySignal P ps
    → EverySignal Q ps
unfolding EverySignal
EverySignal-map P Q f [] h = tt
EverySignal-map P Q f (p ∷ ps) (k, h) = (f p k, EverySignal-map P Q f ps h)

EverySignal-append :
    (P : Siginfo → Type 0) (ps : List Siginfo) (s : Siginfo)
    → EverySignal P ps
    → P s
    → EverySignal P (append ps s)
unfolding EverySignal
EverySignal-append P [] s h k = (k, tt)
EverySignal-append P (p ∷ ps) s (q, h) k = (q, EverySignal-append P ps s h k)

AllDistinct-append :
    (ps : List Siginfo) (s : Siginfo)
    → AllDistinct ps
    → EverySignal (λ p. p.si_signo ≢ s.si_signo) ps
    → AllDistinct (append ps s)
unfolding AllDistinct EverySignal
AllDistinct-append [] s d h = (tt, tt)
AllDistinct-append (p ∷ ps) s (k, d) (q, h) =
    (EverySignal-append _ ps s k (λ e. q (sym e)), AllDistinct-append ps s d h)

pub with_bit_same : (set : Sigset) (n : ℕ) (b : Bool) → with_bit set n b n ≡ b
with_bit_same set n b = ground arith

pub with_bit_other : (set : Sigset) (n : ℕ) (b : Bool) (k : ℕ) → k ≢ n → with_bit set n b k ≡ set k
with_bit_other set n b k ne = ground arith

with_bit-true : (set : Sigset) (n k : ℕ) → set k ≡ true → with_bit set n true k ≡ true
with_bit-true set n k h = ground arith

with_bit_numbers :
    (nsig n k : ℕ) (set : Sigset)
    → (1 ≤ n) × (n < nsig)
    → ((k : ℕ) → set k ≡ true → (1 ≤ k) × (k < nsig))
    → with_bit set n true k ≡ true
    → (1 ≤ k) × (k < nsig)
with_bit_numbers nsig n k set h f e = elim (eq_or_ne k n) [
  | inl same ↦ subst (λ m. (1 ≤ m) × (m < nsig)) (sym same) h
  | inr ne ↦ f k (sym (with_bit_other set n true k ne) ∙ e)
]

pub true-false : (b : Bool) → b ≡ true → b ≡ false → ⊥
true-false b t f = cc

added-IsContext :
    (nsig : ℕ) (s : Siginfo) (c : SignalContext)
    → (1 ≤ s.si_signo) × (s.si_signo < nsig)
    → IsContext nsig c
    → c.pending_mask s.si_signo ≡ false
    → IsContext nsig (record {
      pendings = append c.pendings s;
      pending_mask = with_bit c.pending_mask s.si_signo true;
    })
      × IsContext nsig
          (record { pendings = c.pendings; pending_mask = with_bit c.pending_mask s.si_signo true })
added-IsContext nsig s c r h f =
    let more =
      EverySignal-map (λ p. c.pending_mask p.si_signo ≡ true)
        (λ p. with_bit c.pending_mask s.si_signo true p.si_signo ≡ true)
        (λ p. with_bit-true c.pending_mask s.si_signo p.si_signo) c.pendings h.listed in
    let numbers : (n : ℕ)
        → with_bit c.pending_mask s.si_signo true n ≡ true
        → (1 ≤ n) × (n < nsig) =
      λ n. with_bit_numbers nsig s.si_signo n c.pending_mask r h.numbers in
    (
      record {
        listed =
            EverySignal-append _ c.pendings s more (with_bit_same c.pending_mask s.si_signo true);
        distinct = AllDistinct-append c.pendings s h.distinct (
            EverySignal-map _ _
              (λ p t e. true-false (c.pending_mask s.si_signo) (sym (ap c.pending_mask e) ∙ t) f)
              c.pendings h.listed);
        numbers = numbers;
      },
      record { listed = more; distinct = h.distinct; numbers = numbers },
    )

-- `signal_add_pending` and `signal_add_lightweight_pending` of a signal's number keep the invariant, and the
-- signal is pending after them if it was before or is not ignored.
pub add_pending-IsContext :
    (nsig : ℕ) (ignored : Sigset) (s : Siginfo) (c : SignalContext)
    → (1 ≤ s.si_signo) × (s.si_signo < nsig)
    → IsContext nsig c
    → IsContext nsig (add_pending ignored s c).1
      × IsContext nsig (add_lightweight ignored s.si_signo c).1
      × (((add_pending ignored s c).1).pending_mask s.si_signo
          ≡ (c.pending_mask s.si_signo || not (ignored s.si_signo)))
unfolding add_pending add_lightweight
add_pending-IsContext nsig ignored s c r h = elim (Bool-cases (c.pending_mask s.si_signo)) [
  | inl t ↦ rw t (h, h, t)
  | inr f ↦ elim (Bool-cases (ignored s.si_signo)) [
    | inl i ↦ rw (f, i) (h, h, f)
    | inr i ↦
        let (one, two) = added-IsContext nsig s c r h f in
        rw (f, i) (one, two, with_bit_same c.pending_mask s.si_signo true)
  ]
]

-- A signal of which there is memory for a record, and that is neither pending nor ignored, is made pending by
-- `signal_send_siginfo_task`, which returns 0. The task is woken just when it blocks the signal, and then
-- the call returns with the lock held.
pub send_task-locked :
    (ignored blocked : Sigset) (s : Siginfo) (c : SignalContext)
    → s.si_signo ≢ 0
    → c.pending_mask s.si_signo ≡ false
    → ignored s.si_signo ≡ false
    → let r = send_task true ignored blocked s c in
      (r.0 ≡ ok 0)
      × ((r.1).context.pending_mask s.si_signo ≡ true)
      × ((r.1).woken ≡ blocked s.si_signo)
      × ((r.1).locked ≡ blocked s.si_signo)
unfolding send_task add_pending
send_task-locked ignored blocked s c ne p i =
    rw (ne→test s.si_signo 0 ne, p, i)
      (refl, with_bit_same c.pending_mask s.si_signo true, refl, refl)
