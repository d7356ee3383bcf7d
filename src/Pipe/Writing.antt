-- ===== src/Pipe/Writing.antt =====
-- `pipe_write`: atomic writes, termination, writes that do not wait, and what a bad pointer does.
use stanix.Base.{
  ℕ, zero, suc, ◌+◌, ◌-◌, ◌^◌, ◌≤◌, ◌<◌, ◌≡◌, refl, ap, ◌∙◌, Bool, true, false, inl, inr,
  Bool-cases, Option, none, some, List, ◌++◌, ltb, ◌==◌, min, tabulate, tabulate_ext,
  tabulate-append, take-tabulate, length-tabulate, arith,
}
use stanix.Word.{add_size}
use stanix.Errno.{Ret, ok, err, epipe}
use stanix.Ringbuf.{write_available}
use stanix.Ringbuf.Invariant.{contents, write-IsValid, buffer_size-write}
use stanix.Ringbuf.Refine.{write_lem}
use stanix.Pipe.{
  Pipe, Wait, UserMemory, user_fault, user_bytes, Room, go, stop, room, room_woken, write_ring,
  write_on, write_loop, write, wake_readers, to_word, finish, minimum_write, writable,
}
use stanix.Pipe.Invariant.{IsPipe, Wakes, sleep_on-Wakes}

-- All user memory that is read can be read.
abbrev pub Accessible : UserMemory → Type 0
Accessible mem = (address n : ℕ) → mem.fails address n ≡ false

-- The `n` bytes from address `buffer` on.
abbrev pub bytes : UserMemory → ℕ → ℕ → List ℕ
bytes mem buffer n = tabulate n (λ i. mem.byte (add_size buffer i))

pub bytes-append :
    (mem : UserMemory) (buffer m n : ℕ)
    → bytes mem buffer m ++ bytes mem (add_size buffer m) n ≡ bytes mem buffer (m + n)
bytes-append mem buffer m n =
    ap (λ t. bytes mem buffer m ++ t) (tabulate_ext n _ _ (λ i p. ap mem.byte (omega arith)))
    ∙ tabulate-append m n _

-- What one write to the ring does.
abbrev pub Wrote : UserMemory → Pipe → ℕ → ℕ → ℕ × Pipe → Type 0
Wrote mem p buffer count (written, p') =
    let n = min count (4096 - p.ring.read_available) in
    (written ≡ n) × IsPipe p' × (contents p'.ring ≡ contents p.ring ++ bytes mem buffer n)

pub write_ring-Wrote :
    {p : Pipe} (mem : UserMemory) (buffer count : ℕ)
    → IsPipe p
    → Accessible mem
    → Wrote mem p buffer count (write_ring mem p buffer count)
unfolding write_ring wake_readers to_word
write_ring-Wrote {p} mem buffer count v m =
    let src = user_bytes mem buffer count in
    let n = min count (4096 - p.ring.read_available) in
    let (result, held) =
      write_lem (user_fault mem buffer) v.valid (λ o k. m _ k) src count
        (omega (arith, length-tabulate {0} count (λ i. mem.byte (add_size buffer i)))) in
    (
      ap to_word result ∙ rw v.size,
      record {
        valid = write-IsValid (user_fault mem buffer) src count v.valid;
        size = buffer_size-write (user_fault mem buffer) p.ring src count ∙ v.size;
      },
      held
          ∙ ap (λ t. contents p.ring ++ t)
              (take-tabulate (min count (p.ring.buffer_size - p.ring.read_available)) count _
                ∙ ap (bytes mem buffer) (omega (arith, v.size))),
    )

-- What is known of the pipe when the loop goes on: there is room for the minimum.
abbrev pub HasRoom : ℕ → Room → Type 0
HasRoom count (go q) = IsPipe q × (minimum_write count ≤ 4096 - q.ring.read_available)
HasRoom count (stop e q) = IsPipe q

room_woken-HasRoom :
    (p : Pipe) (count : ℕ) (o : Option Pipe)
    → IsPipe p
    → ((q : Pipe) → o ≡ some q → IsPipe q × (writable (minimum_write count) q ≡ true))
    → HasRoom count (room_woken p o)
unfolding room_woken
room_woken-HasRoom p count none v w = v
room_woken-HasRoom p count (some q) v w =
    let v' = (w q refl).0 in
    elim (Bool-cases q.isbroken) [
      | inl b ↦ simp b v'
      | inr b ↦ simp b (v', ground (arith, (w q refl).1, v'.size, v'.valid.fill))
    ]

pub room-HasRoom :
    {p : Pipe} (nonblock : Bool) (wait : Wait) (count : ℕ)
    → IsPipe p
    → Wakes wait
    → HasRoom count (room nonblock wait p count)
unfolding room
room-HasRoom {p} nonblock wait count v w =
    elim (Bool-cases (ltb (write_available p.ring) (minimum_write count))) [
      | inl e ↦ elim (Bool-cases nonblock) [
        | inl n ↦ simp (e, n) v
        | inr n ↦ simp (e, n) (room_woken-HasRoom p count _ v (λ q. sleep_on-Wakes _ wait p q w v))
      ]
      | inr e ↦ simp e (v, ground arith)
    ]

-- The loop's result, when each continuation has one.
write_on_total :
    (count total : ℕ) (r : Room) (next : Pipe → Option (Ret × Pipe))
    → HasRoom count r
    → ((q : Pipe) → HasRoom count (go q) → (out : Ret × Pipe) × (next q ≡ some out) × IsPipe out.1)
    → (out : Ret × Pipe) × (write_on r total next ≡ some out) × IsPipe out.1
unfolding write_on
write_on_total count total (stop e q) next v more = ((finish e total, q), refl, v)
write_on_total count total (go q) next v more = more q v

write_loop_total :
    (fuel : ℕ) (nonblock : Bool) (wait : Wait) (mem : UserMemory) (p : Pipe)
    (buffer count total : ℕ)
    → count < fuel
    → count < 2 ^ 63
    → IsPipe p
    → Wakes wait
    → Accessible mem
    → (out : Ret × Pipe) × (write_loop fuel nonblock wait mem p buffer count total ≡ some out)
      × IsPipe out.1
unfolding write_loop
write_loop_total zero nonblock wait mem p buffer count total enough small v w m =
    absurd (omega arith)
write_loop_total (suc fuel) nonblock wait mem p buffer count total enough small v w m =
    elim (Bool-cases (count == 0)) [
      | inl e ↦ ((ok total, p), rw (e, write_loop), v)
      | inr e ↦
          rw (e, write_loop)
            (write_on_total count total (room nonblock wait p count) _
              (room-HasRoom nonblock wait count v w)
              λ q h.
                let (n, v', held) = write_ring-Wrote mem buffer count h.0 m in
                write_loop_total fuel nonblock wait mem _ _ _ _ (ground (arith, n, h.1))
                  (ground (arith, n, h.1)) v' w m)
    ]

-- A write from accessible memory comes to an end: as many rounds as there are bytes, and one, are
-- enough.
pub write_total :
    (nonblock : Bool) (wait : Wait) (mem : UserMemory) {p : Pipe} (buffer count : ℕ)
    → count < 2 ^ 63
    → IsPipe p
    → Wakes wait
    → Accessible mem
    → (out : Ret × Pipe) × (write (suc count) nonblock wait mem p buffer count ≡ some out)
      × IsPipe out.1
unfolding write
write_total nonblock wait mem {p} buffer count small v w m = elim (Bool-cases p.isbroken) [
  | inl b ↦ ((err epipe, p), ground arith, v)
  | inr b ↦
      simp b
        (write_loop_total (suc count) nonblock wait mem p buffer count 0 (omega arith) small v w m)
]
