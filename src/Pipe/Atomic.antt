-- ===== src/Pipe/Atomic.antt =====
-- Small writes are atomic, and writes that do not wait stop where the ring is full.
use stanix.Base.{
  ℕ, suc, ◌-◌, ◌≤◌, ◌<◌, ◌≡◌, refl, ap, ◌∙◌, Bool, true, false, Option, some, ◌++◌, ◌==◌, min,
  arith,
}
use stanix.Word.{add_size, sub_size}
use stanix.Errno.{Ret, ok, err}
use stanix.Ringbuf.Invariant.{contents}
use stanix.Pipe.{
  Pipe, Wait, UserMemory, Room, go, stop, room, write_ring, write_on, write_loop, write,
}
use stanix.Pipe.Invariant.{IsPipe, Wakes}
use stanix.Pipe.Writing.{Accessible, bytes, HasRoom, room-HasRoom, write_ring-Wrote}

-- All bytes are in the ring in one piece, behind what it held when the writer had waited for room,
-- or none is.
abbrev pub AllOrNothing : UserMemory → (buffer count : ℕ) → Room → Option (Ret × Pipe) → Type 0
AllOrNothing mem buffer count (go q) out =
    (p' : Pipe) × (out ≡ some (ok count, p'))
    × (contents p'.ring ≡ contents q.ring ++ bytes mem buffer count)
AllOrNothing mem buffer count (stop e q) out = out ≡ some (err e, q)

write_on-AllOrNothing :
    (nonblock : Bool) (wait : Wait) (mem : UserMemory) (buffer count : ℕ) (fuel : ℕ) (r : Room)
    → count ≤ 4096
    → HasRoom count r
    → Accessible mem
    → AllOrNothing mem buffer count r (
        write_on r 0 λ q.
          let (written, q') = write_ring mem q buffer count in
          write_loop
            (suc fuel)
            nonblock
            wait
            mem
            q'
            (add_size buffer written)
            (sub_size count written)
            (add_size 0 written))
unfolding write_on write_loop
write_on-AllOrNothing nonblock wait mem buffer count fuel (stop e q) small v m = refl
write_on-AllOrNothing nonblock wait mem buffer count fuel (go q) small v m =
    let (n, v', held) = write_ring-Wrote mem buffer count v.0 m in
    let all : min count (4096 - q.ring.read_available) ≡ count = ground (arith, v.1) in
    let end : (sub_size count (write_ring mem q buffer count).0 == 0) ≡ true = ground (arith, n) in
    (
      (write_ring mem q buffer count).1,
      rw (end, write_loop)
          (ap (λ t. some (ok t, (write_ring mem q buffer count).1)) (ground (arith, n))),
      held ∙ rw all,
    )

-- When the caller's memory can be read and a wait that ends leaves a well-formed pipe: a write of 1 to
-- 4096 bytes to a well-formed pipe that is not broken is atomic: two rounds of the loop are enough, the
-- result is `count` and all bytes are in the pipe, next to each other, behind those that it held when
-- the wait for room ended; or the wait failed, the error is returned and no byte is written.
pub write-AllOrNothing :
    (nonblock : Bool) (wait : Wait) (mem : UserMemory) {p : Pipe} (buffer count fuel : ℕ)
    → 0 < count
    → count ≤ 4096
    → p.isbroken ≡ false
    → IsPipe p
    → Wakes wait
    → Accessible mem
    → AllOrNothing mem buffer count
        (room nonblock wait p count)
        (write (suc (suc fuel)) nonblock wait mem p buffer count)
unfolding write write_loop
write-AllOrNothing nonblock wait mem {p} buffer count fuel pos small whole v w m =
    let some_left : (count == 0) ≡ false = ground arith in
    simp whole (
      rw (some_left, write_loop)
        (write_on-AllOrNothing nonblock wait mem buffer count fuel (room nonblock wait p count)
          small (room-HasRoom nonblock wait count v w) m))
