-- ===== src/Signal/Tests.antt =====
-- Pending signals at concrete values.
use stanix.Base.{ℕ, ◌≡◌, refl, true, false, ◌||◌, [], ◌∷◌, ◌==◌, arith}
use stanix.Signal.{
  Sigset, SignalContext, dequeue_context, search_pendings, keep_first, search_lightweight, any,
  Outcome, signal, nothing, eintr,
}
use stanix.Signal.Pending.{EverySignal, AllDistinct, IsContext}
use stanix.Signal.Dequeue.{Dequeued, dequeue_context-Dequeued}

-- The signals 2 and 15 are pending with their senders, and 14 without.
abbrev context : SignalContext
context = record {
  pendings = record { si_signo = 2; si_pid = 7 } ∷ record { si_signo = 15; si_pid = 9 } ∷ [];
  pending_mask = λ n. n == 2 || (n == 15 || n == 14);
}

abbrev no_signal : Sigset
no_signal n = false

abbrev only : ℕ → Sigset
only signum n = n == signum

context-IsContext : IsContext 33 context
unfolding EverySignal AllDistinct
context-IsContext = record {
  listed = (refl, (refl, tt));
  distinct = ((omega arith, tt), (tt, tt));
  numbers = λ n e. (ground arith, ground arith);
}

-- Signal 14 is taken though 2 and 15 are in front of it, if they are blocked; else the call is interrupted.
number_of : Outcome → ℕ
number_of (signal n c) = n
number_of nothing = 0
number_of eintr = 100

dequeue_at :
    (number_of (dequeue_context 33 (only 14) (λ n. true) context) ≡ 14)
    × (number_of (dequeue_context 33 (only 14) no_signal context) ≡ 100)
    × (number_of (dequeue_context 33 (only 15) (λ n. true) context) ≡ 15)
unfolding number_of dequeue_context search_pendings keep_first search_lightweight any
dequeue_at = (refl, refl, refl)

dequeue_context-Dequeued_example :
    Dequeued 33 (only 14) (λ n. true) context (dequeue_context 33 (only 14) (λ n. true) context)
dequeue_context-Dequeued_example =
    dequeue_context-Dequeued 33 (only 14) (λ n. true) context context-IsContext
