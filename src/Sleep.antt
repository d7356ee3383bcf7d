-- ===== src/Sleep.antt =====
-- kernel/task/sleep.c and `timespec_cmp` of kernel/klib/time.c: wait queues, the list of sleeping
-- tasks and deadlines. A task is a number. Queue locks only order the calls, which are atomic here.
pub mod Queue
pub mod Timeout
pub mod Deadline
mod Tests
use Prim.Native.Nat.{Ordering}
use stanix.Base.{
  ℕ, zero, suc, ◌+◌, ◌-◌, ◌*◌, ◌/◌, ◌%◌, Bool, true, false, Option, none, some, List, [], ◌∷◌, ◌++◌,
  ltb, ◌==◌, if◌then◌else◌,
}

abbrev pub Task : Type 0
Task = ℕ

-- `list_append` at the end of the waiters.
pub sleep_add_to_queue : Task → List Task → List Task
sleep_add_to_queue task waiters = waiters ++ task ∷ []

-- Only the first node of the task is taken out.
pub sleep_remove_from_queue : Task → List Task → List Task
sleep_remove_from_queue task [] = []
sleep_remove_from_queue task (t ∷ waiters) =
    if t == task then waiters else t ∷ sleep_remove_from_queue task waiters

-- The tasks that are unblocked, in order, and the waiters left; a count of 0 stands for all.
pub wakeup_queue : List Task → ℕ → List Task × List Task
wakeup_queue [] count = ([], [])
wakeup_queue (t ∷ waiters) zero = let (woken, left) = wakeup_queue waiters zero in (t ∷ woken, left)
wakeup_queue (t ∷ waiters) (suc zero) = (t ∷ [], waiters)
wakeup_queue (t ∷ waiters) (suc (suc count)) =
    let (woken, left) = wakeup_queue waiters (suc count) in (t ∷ woken, left)

-- `struct timespec`, for times that are not negative.
pub record Timespec : Type 0 where
  pub tv_sec : ℕ
  pub tv_nsec : ℕ

pub timespec_cmp : Timespec → Timespec → Ordering
timespec_cmp a b =
    if ltb b.tv_sec a.tv_sec
    then Ordering.gt
    else if ltb a.tv_sec b.tv_sec
    then Ordering.lt
    else if ltb b.tv_nsec a.tv_nsec
    then Ordering.gt
    else if ltb a.tv_nsec b.tv_nsec
    then Ordering.lt
    else Ordering.eq

pub record Sleeper : Type 0 where
  pub task : Task
  pub wakeup_time : Timespec

abbrev pub is_lt : Ordering → Bool
is_lt Ordering.lt = true
is_lt _ = false

-- The loop of `sleep_add_timeout` stops at the first task that wakes up later, and the new node goes
-- after the one before.
pub sleep_add_timeout : Sleeper → List Sleeper → List Sleeper
sleep_add_timeout s [] = s ∷ []
sleep_add_timeout s (t ∷ sleeping) =
    if is_lt (timespec_cmp s.wakeup_time t.wakeup_time)
    then s ∷ t ∷ sleeping
    else t ∷ sleep_add_timeout s sleeping

remove_sleeper : Task → List Sleeper → List Sleeper
remove_sleeper task [] = []
remove_sleeper task (t ∷ sleeping) =
    if t.task == task then sleeping else t ∷ remove_sleeper task sleeping

-- The flag is TASK_FLAG_SLEEP of the current task, which is cleared.
pub sleep_remove_timeout : Task → Bool → List Sleeper → Bool × List Sleeper
sleep_remove_timeout task true sleeping = (false, remove_sleeper task sleeping)
sleep_remove_timeout task false sleeping = (false, sleeping)

-- The time that `nano_sleep` hands to `sleep_until`; `none` where it returns at once.
pub nano_sleep_until : Timespec → ℕ → Option Timespec
nano_sleep_until now nano_seconds =
    let rest = nano_seconds - (1_000_000_000 - now.tv_nsec) in
    if ltb nano_seconds 100
    then none
    else if ltb nano_seconds (1_000_000_000 - now.tv_nsec)
    then some (record now { tv_nsec = now.tv_nsec + nano_seconds })
    else some
        (record { tv_sec = now.tv_sec + 1 + rest / 1_000_000_000; tv_nsec = rest % 1_000_000_000 })

-- `sleep` by way of `micro_sleep`.
pub sleep_seconds_until : Timespec → ℕ → Option Timespec
sleep_seconds_until now seconds = nano_sleep_until now (seconds * 1_000_000 * 1000)
