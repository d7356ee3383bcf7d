-- ===== src/Signal/Dequeue.antt =====
-- kernel/task/signal.c: taking a pending signal of a set (`signal_dequeue_context`).
use stanix.Base.{
  ℕ, ◌+◌, ◌-◌, ◌≤◌, ◌<◌, ◌≡◌, ◌≢◌, refl, sym, ap, ◌∙◌, inl, inr, Bool, true, false, not, ◌&&◌,
  Option, none, some, List, if◌then◌else◌, eq_or_ne, arith,
}
use stanix.Signal.{
  Sigset, Siginfo, SignalContext, with_bit, Search, found, interrupted, ended, search_lightweight,
  any, Outcome, signal, nothing, eintr, dequeue_context,
}
use stanix.Signal.Pending.{
  EverySignal, EverySignal-map, AllDistinct, IsContext, with_bit_same, with_bit_other, true-false,
}
use stanix.Signal.Scan.{
  Searched, EverySignal-both, search_pendings-Searched, LightlyFound, search_lightweight_lem,
  and_true, and_false, any-cases,
}

-- What `signal_dequeue_context` does. A signal that is returned was pending, is in the set, and is alone taken
-- out; 0 means that every pending signal is blocked and not in the set; -EINTR, that one is neither.
abbrev pub Dequeued : (nsig : ℕ) → (mask blocked : Sigset) → SignalContext → Outcome → Type 0
Dequeued nsig mask blocked c (signal n c') =
    (mask n ≡ true)
    × (c.pending_mask n ≡ true)
    × (c'.pending_mask n ≡ false)
    × ((k : ℕ) → k ≢ n → c'.pending_mask k ≡ c.pending_mask k)
    × IsContext nsig c'
Dequeued nsig mask blocked c nothing =
    (k : ℕ) → c.pending_mask k ≡ true → (mask k ≡ false) × (blocked k ≡ true)
Dequeued nsig mask blocked c eintr =
    (k : ℕ) × (c.pending_mask k ≡ true) × (mask k ≡ false) × (blocked k ≡ false)

taken :
    (nsig : ℕ) (mask blocked : Sigset) (c : SignalContext) (n : ℕ) (rest : List Siginfo)
    → IsContext nsig c
    → mask n ≡ true
    → c.pending_mask n ≡ true
    → EverySignal (λ s. c.pending_mask s.si_signo ≡ true) rest
    → AllDistinct rest
    → EverySignal (λ s. s.si_signo ≢ n) rest
    → Dequeued nsig mask blocked c
        (signal n (record { pendings = rest; pending_mask = with_bit c.pending_mask n false }))
taken nsig mask blocked c n rest i m p h d k = (
  m,
  p,
  with_bit_same c.pending_mask n false,
  with_bit_other c.pending_mask n false,
  record {
    listed =
        EverySignal-map _ _ (λ s (a, ne). with_bit_other c.pending_mask n false s.si_signo ne ∙ a)
          rest (EverySignal-both _ _ rest h k);
    distinct = d;
    numbers = λ x e. elim (eq_or_ne x n) [
      | inl same ↦ absurd (
          true-false _ e
            (ap (with_bit c.pending_mask n false) same ∙ with_bit_same c.pending_mask n false))
      | inr ne ↦ i.numbers x (sym (with_bit_other c.pending_mask n false x ne) ∙ e)
    ];
  },
)

not-false : (b : Bool) → not b ≡ false → b ≡ true
not-false true h = refl
not-false false h = absurd (cc)

not-true : (b : Bool) → not b ≡ true → b ≡ false
not-true true h = absurd (cc)
not-true false h = refl

-- After the two loops: no pending signal is in the set.
unhandled :
    (nsig : ℕ) (mask blocked : Sigset) (c : SignalContext)
    → IsContext nsig c
    → ((k : ℕ) → 1 ≤ k → k < 1 + (nsig - 1) → c.pending_mask k ≡ true → mask k ≡ false)
    → Dequeued nsig mask blocked c
        (if any (nsig - 1) 1 (λ n. c.pending_mask n && not (blocked n)) then eintr else nothing)
unhandled nsig mask blocked c i h =
    elim (any-cases (nsig - 1) 1 (λ n. c.pending_mask n && not (blocked n))) [
      | inl (t, (n, e)) ↦
          let (p, b) = and_true (c.pending_mask n) (not (blocked n)) e in
          let r = i.numbers n p in rw t (n, p, h n (r.0) (omega arith) p, not-true (blocked n) b)
      | inr (f, all) ↦ rw f (λ k p.
          let r = i.numbers k p in
          (
            h k (r.0) (omega arith) p,
            not-false (blocked k)
                (and_false (c.pending_mask k) (not (blocked k)) (all k (r.0) (omega arith)) p),
          ))
    ]

lightly_dequeued :
    (nsig : ℕ) (mask blocked : Sigset) (c : SignalContext)
    → IsContext nsig c
    → EverySignal (λ s. mask s.si_signo ≡ false) c.pendings
    → (r : Option ℕ) → LightlyFound c.pending_mask mask (nsig - 1) 1 r
    → Dequeued nsig mask blocked c (elim r [
      | some signum ↦
          signal signum
            (record { pendings = c.pendings; pending_mask = with_bit c.pending_mask signum false })
      | none ↦
          if any (nsig - 1) 1 (λ n. c.pending_mask n && not (blocked n)) then eintr else nothing
    ])
lightly_dequeued nsig mask blocked c i away (some n) (p, m) =
    taken nsig mask blocked c n c.pendings i m p i.listed i.distinct
      (EverySignal-map _ _ (λ s f e. true-false (mask n) m (ap mask (sym e) ∙ f)) c.pendings away)
lightly_dequeued nsig mask blocked c i away none h = unhandled nsig mask blocked c i h

dequeued :
    (nsig : ℕ) (mask blocked : Sigset) (c : SignalContext)
    → IsContext nsig c
    → (r : Search) → Searched mask blocked (λ s. c.pending_mask s.si_signo ≡ true) c.pendings r
    → Dequeued nsig mask blocked c (elim r [
      | found s rest ↦
          signal s.si_signo
            (record { pendings = rest; pending_mask = with_bit c.pending_mask s.si_signo false })
      | interrupted ↦ eintr
      | ended ↦ elim (search_lightweight c.pending_mask mask (nsig - 1) 1) [
        | some signum ↦
            signal signum (record {
              pendings = c.pendings;
              pending_mask = with_bit c.pending_mask signum false;
            })
        | none ↦
            if any (nsig - 1) 1 (λ n. c.pending_mask n && not (blocked n)) then eintr else nothing
      ]
    ])
dequeued nsig mask blocked c i (found s rest) (m, p, h, d, k) =
    taken nsig mask blocked c s.si_signo rest i m p h d k
dequeued nsig mask blocked c i interrupted (s, p, m, b) = (s.si_signo, p, m, b)
dequeued nsig mask blocked c i ended h =
    lightly_dequeued nsig mask blocked c i h _
      (search_lightweight_lem c.pending_mask mask (nsig - 1) 1)

-- Taking a pending signal of a set keeps the invariant. A signal that is returned was pending, is in the set, and
-- alone is pending no more. 0 means that every pending signal is blocked and not in the set, none being pending
-- or some; -EINTR that one is neither blocked nor in the set.
pub dequeue_context-Dequeued :
    (nsig : ℕ) (mask blocked : Sigset) (c : SignalContext)
    → IsContext nsig c
    → Dequeued nsig mask blocked c (dequeue_context nsig mask blocked c)
unfolding dequeue_context
dequeue_context-Dequeued nsig mask blocked c i = dequeued nsig mask blocked c i _ (
    search_pendings-Searched mask blocked (λ s. c.pending_mask s.si_signo ≡ true) c.pendings
      i.listed i.distinct)
