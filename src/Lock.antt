-- ===== src/Lock.antt =====
-- kernel/task/rwsem.c and kernel/task/mutex.c: the reader-writer lock and the mutex, both of which
-- their owner may take again. A task is a number. The spinlock makes each piece of code between two
-- sleeps one step: an acquire that has to sleep is not enabled (`none`) until its condition holds, as
-- is a call that would fail an assertion.
pub mod Exclusion
pub mod Wakeups
mod Tests
use stanix.Base.{
  ℕ, ◌+◌, ◌-◌, Bool, true, false, not, ◌&&◌, Option, none, some, ltb, ◌==◌, if◌then◌else◌,
}
use stanix.Word.{add_size, sub_size}

-- `rwsem_t`
pub record Rwsem : Type 0 where
  pub waiting_writers_count : ℕ
  pub readers_count : ℕ
  pub lock_depth : ℕ
  pub writer_active : Option ℕ

-- `rwsem_init`
abbrev pub rwsem_init : Rwsem
rwsem_init = record {
  waiting_writers_count = 0;
  readers_count = 0;
  lock_depth = 0;
  writer_active = none;
}

-- Which queue a call wakes: one writer, all readers, or nobody.
pub data Wakeup : Type 0 where
  wake_none wake_writer wake_readers : Wakeup

abbrev pub is_task : ℕ → Option ℕ → Bool
is_task task none = false
is_task task (some owner) = owner == task

abbrev pub is_none : Option ℕ → Bool
is_none none = true
is_none (some owner) = false

-- The condition that a reader sleeps on, and the one of a writer.
abbrev pub may_read : Rwsem → Bool
may_read s = (s.waiting_writers_count == 0) && is_none s.writer_active

abbrev pub may_write : Rwsem → Bool
may_write s = (s.readers_count == 0) && is_none s.writer_active

pub rwsem_acquire_read : ℕ → Rwsem → Option Rwsem
rwsem_acquire_read task s =
    if is_task task s.writer_active
    then some (record s { lock_depth = add_size s.lock_depth 1 })
    else if may_read s
    then some (record s { readers_count = add_size s.readers_count 1 })
    else none

pub rwsem_release_read : ℕ → Rwsem → Option (Wakeup × Rwsem)
rwsem_release_read task s =
    if is_task task s.writer_active
    then (if ltb 0 s.lock_depth
        then some (wake_none, record s { lock_depth = s.lock_depth - 1 })
        else none)
    else if ltb 0 s.readers_count
    then some (
      if s.readers_count - 1 == 0 then wake_writer else wake_none,
      record s { readers_count = s.readers_count - 1 },
    )
    else none

-- `rwsem_acquire_write` up to its sleep, for a task that is not the writer, and from there.
pub rwsem_queue_write : ℕ → Rwsem → Option Rwsem
rwsem_queue_write task s =
    if is_task task s.writer_active
    then none
    else some (record s { waiting_writers_count = add_size s.waiting_writers_count 1 })

pub rwsem_start_write : ℕ → Rwsem → Option Rwsem
rwsem_start_write task s =
    if ltb 0 s.waiting_writers_count && may_write s
    then some (record s {
      waiting_writers_count = s.waiting_writers_count - 1;
      writer_active = some task;
      lock_depth = 1;
    })
    else none

-- `rwsem_acquire_write`, of the task that is the writer.
pub rwsem_write_again : ℕ → Rwsem → Option Rwsem
rwsem_write_again task s =
    if is_task task s.writer_active
    then some (record s { lock_depth = add_size s.lock_depth 1 })
    else none

abbrev pub after_write : Rwsem → Wakeup × Rwsem
after_write s =
    if s.lock_depth == 0
    then (
      if ltb 0 s.waiting_writers_count then wake_writer else wake_readers,
      record s { writer_active = none },
    )
    else (wake_none, s)

pub rwsem_release_write : ℕ → Rwsem → Option (Wakeup × Rwsem)
rwsem_release_write task s =
    if is_task task s.writer_active && ltb 0 s.lock_depth
    then some (after_write (record s { lock_depth = s.lock_depth - 1 }))
    else none

-- `mutex_t`
pub record Mutex : Type 0 where
  pub lock : Option ℕ
  pub depth : ℕ

-- `mutex_init`
abbrev pub mutex_init : Mutex
mutex_init = record { lock = none; depth = 0 }

-- `mutex_try_acquire`
pub mutex_try_acquire : ℕ → Mutex → Bool × Mutex
mutex_try_acquire task m =
    if is_none m.lock
    then (true, record { lock = some task; depth = 1 })
    else if is_task task m.lock
    then (true, record m { depth = add_size m.depth 1 })
    else (false, m)

-- `mutex_release`: whether a sleeper is woken, and the mutex.
pub mutex_release : Mutex → Bool × Mutex
mutex_release m =
    if sub_size m.depth 1 == 0
    then (true, record { lock = none; depth = 0 })
    else (false, record m { depth = sub_size m.depth 1 })
