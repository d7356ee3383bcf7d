-- ===== src/Pipe.antt =====
-- kernel/fs/pipe.c: anonymous pipes over a ring of 4096 bytes.
-- The spinlock makes each call atomic but for its waits. A wait is an argument: from the
-- condition and the state at which the lock is let go it gives the state in which the task goes on,
-- or `none` when a signal interrupts it.
pub mod Invariant
pub mod Reading
pub mod Writing
pub mod Atomic
pub mod BadPointer
mod Tests
use stanix.Base.{
  ℕ, zero, suc, ◌+◌, ◌-◌, ◌^◌, Bool, true, false, not, ◌&&◌, ◌||◌, Option, none, some, List, [],
  ◌∷◌, ◌++◌, tabulate, ltb, leb, ◌==◌, if◌then◌else◌,
}
use stanix.Word.{add_size, sub_size}
use stanix.Errno.{Ret, ok, err, Errno, eagain, eintr, epipe, enomem}
use stanix.Ringbuf
use stanix.Ringbuf.{Ring, Fault, write_available}
use stanix.Sleep.{Task, wakeup_queue, sleep_add_to_queue, sleep_remove_from_queue}

-- `pipe_t`; `woken` collects the tasks that `wakeup_queue` unblocks, `freed` tells that the pipe was
-- given back to the heap.
pub record Pipe : Type 0 where
  pub isbroken : Bool
  pub ring : Ring
  pub reader_queue : List Task
  pub writer_queue : List Task
  pub woken : List Task
  pub freed : Bool

abbrev pub pipe_size : ℕ
pipe_size = 4096

-- `wakeup_queue(&pipe->reader_queue, 0)` and the like.
pub wake_readers : Pipe → Pipe
wake_readers p =
    let (woken, left) = wakeup_queue p.reader_queue 0 in
    record p { reader_queue = left; woken = p.woken ++ woken }

pub wake_writers : Pipe → Pipe
wake_writers p =
    let (woken, left) = wakeup_queue p.writer_queue 0 in
    record p { writer_queue = left; woken = p.woken ++ woken }

abbrev pub Wait : Type 0
Wait = (Pipe → Bool) → Pipe → Option Pipe

-- `sleep_on_queue_lock_interruptible`: no wait if the condition holds at once.
pub sleep_on : (Pipe → Bool) → Wait → Pipe → Option Pipe
sleep_on cond wait p = if cond p then some p else wait cond p

abbrev pub readable : Pipe → Bool
readable p = ltb 0 p.ring.read_available || p.isbroken

abbrev pub Read : Type 0
Read = Ret × List ℕ × Pipe

-- The end of `pipe_raw_read`.
pub read_ring : Fault → Pipe → ℕ → Read
read_ring fault p count =
    let (ret, out, ring) = Ringbuf.read fault p.ring count in
    (ret, out, wake_writers (record p { ring = ring }))

-- After the wait for bytes.
pub read_woken : Fault → Pipe → ℕ → Option Pipe → Read
read_woken fault p count none = (err eintr, [], p)
read_woken fault p count (some p') =
    if p'.isbroken && (p'.ring.read_available == 0)
    then (ok 0, [], p')
    else read_ring fault p' count

-- `pipe_raw_read`
pub read : (nonblock : Bool) → Wait → Fault → Pipe → ℕ → Read
read nonblock wait fault p count =
    if p.ring.read_available == 0
    then (if p.isbroken
        then (ok 0, [], p)
        else if nonblock
        then (err eagain, [], p)
        else read_woken fault p count (sleep_on readable wait p))
    else read_ring fault p count

-- What the caller's memory holds, and which copies from it fail, by address.
pub record UserMemory : Type 0 where
  pub byte : ℕ → ℕ
  pub fails : ℕ → ℕ → Bool

abbrev pub user_fault : UserMemory → ℕ → Fault
user_fault mem buffer off n = mem.fails (add_size buffer off) n

abbrev pub user_bytes : UserMemory → ℕ → ℕ → List ℕ
user_bytes mem buffer count = tabulate count (λ i. mem.byte (add_size buffer i))

-- A `ssize_t` as its bit pattern; an error is its number, negated.
pub errno_number : Errno → ℕ
errno_number e = elim e [
  | Errno.efault ↦ 14
  | Errno.enomem ↦ 12
  | Errno.eagain ↦ 11
  | Errno.eintr ↦ 4
  | Errno.epipe ↦ 32
  | Errno.einval ↦ 22
  | Errno.eilseq ↦ 84
  | Errno.eio ↦ 5
  | Errno.enospc ↦ 28
  | Errno.enoent ↦ 2
  | Errno.esrch ↦ 3
]

unfoldable pub to_word : Ret → ℕ
to_word (ok n) = n
to_word (err e) = sub_size 0 (errno_number e)

abbrev pub writable : ℕ → Pipe → Bool
writable minimum p = leb minimum (write_available p.ring) || p.isbroken

-- The label `finish`, reached with an error: `total` counts if anything was written.
abbrev pub finish : Errno → (total : ℕ) → Ret
finish e total = if total == 0 then err e else ok total

abbrev pub minimum_write : ℕ → ℕ
minimum_write count = if ltb count 4096 then count else 4096

-- How the wait for room ends: the loop goes on with the pipe, or stops.
pub data Room : Type 0 where
  go : Pipe → Room
  stop : Errno → Pipe → Room

pub room_woken : Pipe → Option Pipe → Room
room_woken p none = stop eintr p
room_woken p (some p') = if p'.isbroken then stop epipe p' else go p'

pub room : (nonblock : Bool) → Wait → Pipe → (count : ℕ) → Room
room nonblock wait p count =
    let minimum = minimum_write count in
    if ltb (write_available p.ring) minimum
    then (if nonblock then stop eagain p else room_woken p (sleep_on (writable minimum) wait p))
    else go p

-- One write to the ring: what was written as a word, and the pipe.
pub write_ring : UserMemory → Pipe → (buffer count : ℕ) → ℕ × Pipe
write_ring mem p buffer count =
    let (ret, ring) =
      Ringbuf.write (user_fault mem buffer) p.ring (user_bytes mem buffer count) count in
    (to_word ret, wake_readers (record p { ring = ring }))

-- What the loop does once the wait for room has ended.
pub write_on : Room → (total : ℕ) → (Pipe → Option (Ret × Pipe)) → Option (Ret × Pipe)
write_on (stop e p) total next = some (finish e total, p)
write_on (go p) total next = next p

-- The loop of `pipe_raw_write`. `none` means that the fuel ran out. The result of
-- `ringbuffer_write` is added to the counters unchecked.
pub write_loop :
    (fuel : ℕ)
    → (nonblock : Bool) → Wait
    → UserMemory
    → Pipe
    → (buffer count total : ℕ) → Option (Ret × Pipe)
write_loop zero nonblock wait mem p buffer count total = none
write_loop (suc fuel) nonblock wait mem p buffer count total = elim (count == 0) [
  | true ↦ some (ok total, p)
  | false ↦ write_on (room nonblock wait p count) total λ q.
      let (written, q') = write_ring mem q buffer count in
      write_loop fuel nonblock wait mem q' (add_size buffer written) (sub_size count written)
        (add_size total written)
]

-- `pipe_raw_write`
pub write :
    (fuel : ℕ)
    → (nonblock : Bool) → Wait
    → UserMemory
    → Pipe
    → (buffer count : ℕ) → Option (Ret × Pipe)
write fuel nonblock wait mem p buffer count =
    let looped = write_loop fuel nonblock wait mem p buffer count 0 in
    if p.isbroken then some (err epipe, p) else looped

-- A descriptor of a pipe is its read end or its write end.
pub data End : Type 0 where
  reader writer : End

pub poll_add : Task → End → Pipe → Pipe
poll_add task reader p =
    if p.isbroken then p else record p { reader_queue = sleep_add_to_queue task p.reader_queue }
poll_add task writer p =
    if p.isbroken then p else record p { writer_queue = sleep_add_to_queue task p.writer_queue }

pub poll_remove : Task → End → Pipe → Pipe
poll_remove task reader p = record p { reader_queue = sleep_remove_from_queue task p.reader_queue }
poll_remove task writer p = record p { writer_queue = sleep_remove_from_queue task p.writer_queue }

-- POLLHUP, POLLIN and POLLOUT of `pipe_poll_get`.
pub record Events : Type 0 where
  pub pollhup : Bool
  pub pollin : Bool
  pub pollout : Bool

pub poll_get : End → Pipe → Events
poll_get reader p = record {
  pollhup = p.isbroken;
  pollin = ltb 0 p.ring.read_available;
  pollout = false;
}
poll_get writer p = record {
  pollhup = p.isbroken;
  pollin = false;
  pollout = ltb 0 (write_available p.ring);
}

-- The first end to be closed breaks the pipe, the second one frees it.
pub close : Pipe → Pipe
close p =
    if p.isbroken
    then record p { freed = true }
    else wake_writers (wake_readers (record p { isbroken = true }))

-- `pipe_create`, as far as the pipe goes; the block is what `kmalloc` gives for the ring.
pub create : Option (List ℕ) → Ret × Pipe
create block =
    let (ret, ring) = Ringbuf.init block pipe_size in
    (
      ret,
      record {
        isbroken = false;
        ring = ring;
        reader_queue = [];
        writer_queue = [];
        woken = [];
        freed = false;
      },
    )
