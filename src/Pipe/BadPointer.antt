-- ===== src/Pipe/BadPointer.antt =====
-- `pipe_write` from memory that cannot be read: the error of `ringbuffer_write` is taken for a count.
use stanix.Base.{
  ℕ, zero, suc, ◌+◌, ◌-◌, ◌*◌, ◌^◌, ◌<◌, ◌≡◌, refl, Bool, true, false, none, ◌==◌, ltb, arith,
}
use stanix.Ringbuf.{write_available}
use stanix.Ringbuf.Faults.{write-efault}
use stanix.Pipe.{
  errno_number, user_fault, user_bytes, Pipe, Wait, UserMemory, go, room, write_ring, write_on,
  write_loop, write, minimum_write, wake_readers, to_word,
}
use stanix.Pipe.Invariant.{IsPipe}

abbrev pub Inaccessible : UserMemory → Type 0
Inaccessible mem = (address n : ℕ) → mem.fails address n ≡ true

write_ring-efault :
    (mem : UserMemory) (p : Pipe) (buffer count : ℕ)
    → Inaccessible mem
    → ((write_ring mem p buffer count).0 ≡ 2 ^ 64 - 14)
      × ((write_ring mem p buffer count).1.ring ≡ p.ring)
unfolding write_ring wake_readers to_word errno_number
write_ring-efault mem p buffer count m =
    let same =
      write-efault (user_fault mem buffer) p.ring (user_bytes mem buffer count) count (m _) in
    (rw same, rw same)

room-empty :
    (nonblock : Bool) (wait : Wait) (p : Pipe) (count : ℕ)
    → IsPipe p
    → p.ring.read_available ≡ 0
    → room nonblock wait p count ≡ go p
unfolding room
room-empty nonblock wait p count v empty =
    let space : ltb (write_available p.ring) (minimum_write count) ≡ false =
      ground (arith, v.size) in
    rw space

loop-stuck :
    (fuel : ℕ) (nonblock : Bool) (wait : Wait) (mem : UserMemory) (p : Pipe)
    (buffer count total : ℕ)
    → Inaccessible mem
    → IsPipe p
    → p.ring.read_available ≡ 0
    → 0 < count
    → count + 14 * fuel < 2 ^ 64
    → write_loop fuel nonblock wait mem p buffer count total ≡ none
unfolding write_loop write_on
loop-stuck zero nonblock wait mem p buffer count total m v empty pos far = refl
loop-stuck (suc fuel) nonblock wait mem p buffer count total m v empty pos far =
    let left : (count == 0) ≡ false = ground arith in
    let (written, ring) = write_ring-efault mem p buffer count m in
    rw (left, write_loop)
      (rw (room-empty nonblock wait p count v empty, write_on)
        (loop-stuck fuel nonblock wait mem _ _ _ _ m
          (record { valid = rw ring v.valid; size = rw ring v.size }) (rw ring empty)
          (rw written (omega arith)) (rw written (omega arith))))

-- A write of some bytes from memory that cannot be read does not return -EFAULT: on an empty pipe the
-- loop is still running after any number of rounds for which the count has not wrapped round.
pub write-stuck :
    (fuel : ℕ) (nonblock : Bool) (wait : Wait) (mem : UserMemory) (p : Pipe) (buffer count : ℕ)
    → Inaccessible mem
    → IsPipe p
    → p.isbroken ≡ false
    → p.ring.read_available ≡ 0
    → 0 < count
    → count + 14 * fuel < 2 ^ 64
    → write fuel nonblock wait mem p buffer count ≡ none
unfolding write
write-stuck fuel nonblock wait mem p buffer count m v whole empty pos far =
    simp whole (loop-stuck fuel nonblock wait mem p buffer count 0 m v empty pos far)
