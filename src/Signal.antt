-- ===== src/Signal.antt =====
-- kernel/task/signal.c: the signals that a task or a process has pending. A set of signals is a predicate on
-- their numbers. A spinlock makes each call atomic.
pub mod Pending
pub mod Scan
pub mod Dequeue
mod Tests
use stanix.Base.{
  ℕ, zero, suc, ◌+◌, ◌-◌, Bool, true, false, not, ◌&&◌, ◌||◌, Option, none, some, List, [], ◌∷◌,
  ◌==◌, if◌then◌else◌,
}
use stanix.Errno.{Ret, ok, err, enomem}

abbrev pub Sigset : Type 0
Sigset = ℕ → Bool

-- `siginfo_t`: its number, and the rest.
pub record Siginfo : Type 0 where
  pub si_signo : ℕ
  pub si_pid : ℕ

-- `signal_context_t`
pub record SignalContext : Type 0 where
  pub pendings : List Siginfo
  pub pending_mask : Sigset

abbrev pub with_bit : Sigset → ℕ → Bool → Sigset
with_bit set signum b n = if n == signum then b else set n

abbrev pub append : List Siginfo → Siginfo → List Siginfo
append [] s = s ∷ []
append (p ∷ ps) s = p ∷ append ps s

-- `signal_add_pending`: whether the signal was added. `ignored` is what the process does with a signal.
unfoldable pub add_pending : (ignored : Sigset) → Siginfo → SignalContext → Bool × SignalContext
add_pending ignored s c =
    if c.pending_mask s.si_signo then (false, c) else if ignored s.si_signo then (false, c) else (
      true,
      record {
        pendings = append c.pendings s;
        pending_mask = with_bit c.pending_mask s.si_signo true;
      },
    )

-- `signal_add_lightweight_pending`
unfoldable pub add_lightweight :
    (ignored : Sigset) → (signum : ℕ) → SignalContext → Bool × SignalContext
add_lightweight ignored signum c =
    if c.pending_mask signum then (false, c) else if ignored signum then (false, c) else (
      true,
      record { pendings = c.pendings; pending_mask = with_bit c.pending_mask signum true },
    )

-- How the loop over the pending signals ends: with a signal and the others, with -EINTR, or at the end.
pub data Search : Type 0 where
  found : Siginfo → List Siginfo → Search
  interrupted : Search
  ended : Search

unfoldable pub keep_first : Siginfo → Search → Search
keep_first p (found s rest) = found s (p ∷ rest)
keep_first p interrupted = interrupted
keep_first p ended = ended

unfoldable pub search_pendings : (mask blocked : Sigset) → List Siginfo → Search
search_pendings mask blocked [] = ended
search_pendings mask blocked (p ∷ ps) =
    let rest = keep_first p (search_pendings mask blocked ps) in
    if mask p.si_signo then found p ps else if not (blocked p.si_signo) then interrupted else rest

-- The loop over the numbers from `signum` on, `left` of them.
unfoldable pub search_lightweight : (pending mask : Sigset) → (left signum : ℕ) → Option ℕ
search_lightweight pending mask zero signum = none
search_lightweight pending mask (suc left) signum =
    let rest = search_lightweight pending mask left (signum + 1) in
    if pending signum && mask signum then some signum else rest

-- What is returned: the number of a signal, 0, or -EINTR.
pub data Outcome : Type 0 where
  signal : (signum : ℕ) → SignalContext → Outcome
  nothing : Outcome
  eintr : Outcome

-- Whether a set has a signal of the `left` numbers from `signum` on.
unfoldable pub any : (left signum : ℕ) → Sigset → Bool
any zero signum set = false
any (suc left) signum set = set signum || any left (signum + 1) set

-- `signal_dequeue_context`. `blocked` is the task's `sig_mask`, and `nsig` is NSIG. The test in front of the
-- loop over the numbers only spares the loop.
unfoldable pub dequeue_context : (nsig : ℕ) → (mask blocked : Sigset) → SignalContext → Outcome
dequeue_context nsig mask blocked c = elim (search_pendings mask blocked c.pendings) [
  | found s rest ↦
      signal s.si_signo
        (record { pendings = rest; pending_mask = with_bit c.pending_mask s.si_signo false })
  | interrupted ↦ eintr
  | ended ↦ elim (search_lightweight c.pending_mask mask (nsig - 1) 1) [
    | some signum ↦
        signal signum
          (record { pendings = c.pendings; pending_mask = with_bit c.pending_mask signum false })
    | none ↦ if any (nsig - 1) 1 (λ n. c.pending_mask n && not (blocked n)) then eintr else nothing
  ]
]

-- The end of `signal_send_siginfo_task`: the context, whether its lock is still held, and whether the task
-- was woken.
pub record Sent : Type 0 where
  pub context : SignalContext
  pub locked : Bool
  pub woken : Bool

-- `signal_send_siginfo_task`. `memory`: whether there is memory for the pending signal.
unfoldable pub send_task :
    (memory : Bool) → (ignored blocked : Sigset) → Siginfo → SignalContext → Ret × Sent
send_task memory ignored blocked s c =
    let unchanged : Sent = record { context = c; locked = false; woken = false } in
    let added = add_pending ignored s c in
    let caught = added.0 && blocked s.si_signo in
    if s.si_signo == 0
    then (ok 0, unchanged)
    else if not memory
    then (err enomem, unchanged)
    else (ok 0, record { context = added.1; locked = caught; woken = caught })
