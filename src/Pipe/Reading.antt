-- ===== src/Pipe/Reading.antt =====
-- `pipe_read`: bytes come out in order, and 0 means the end.
use stanix.Base.{
  ◌&&◌, ℕ, ◌<◌, ◌≡◌, refl, Bool, true, false, inl, inr, Bool-cases, Option, none, some, [], ◌++◌,
  ◌==◌, take, drop, min, arith,
}
use stanix.Errno.{ok}
use stanix.Ringbuf.{Fault}
use stanix.Ringbuf.Invariant.{contents}
use stanix.Ringbuf.Refine.{Mapped, read_lem}
use stanix.Sleep.Queue.{wakeup_queue-zero}
use stanix.Pipe.{Pipe, Wait, Read, readable, read_ring, read_woken, read, wake_writers}
use stanix.Pipe.Invariant.{IsPipe, Wakes, sleep_on-Wakes}

-- The oldest bytes go out, the others stay, and every writer is woken.
abbrev pub Delivers : Pipe → ℕ → Read → Type 0
Delivers p count (ret, out, p') =
    (ret ≡ ok (min count p.ring.read_available))
    × (out ≡ take count (contents p.ring))
    × (contents p'.ring ≡ drop count (contents p.ring))
    × (p'.writer_queue ≡ [])
    × (p'.woken ≡ p.woken ++ p.writer_queue)
    × (p'.isbroken ≡ p.isbroken)

read_ring-Delivers :
    {p : Pipe} (fault : Fault) (count : ℕ)
    → IsPipe p
    → Mapped fault
    → Delivers p count (read_ring fault p count)
unfolding read_ring wake_writers
read_ring-Delivers {p} fault count v m =
    let (a, b, c) = read_lem fault v.valid m count in
    rw (wakeup_queue-zero p.writer_queue) (a, b, c, refl, refl, refl)

-- A read from a pipe that holds bytes does not wait, whatever its mode.
pub read-Delivers :
    {p : Pipe} (nonblock : Bool) (wait : Wait) (fault : Fault) (count : ℕ)
    → IsPipe p
    → Mapped fault
    → 0 < p.ring.read_available
    → Delivers p count (read nonblock wait fault p count)
unfolding read
read-Delivers {p} nonblock wait fault count v m h =
    let busy : (p.ring.read_available == 0) ≡ false = ground arith in
    rw busy (read_ring-Delivers fault count v m)

-- At the end of a read that returned 0 the pipe is empty and broken.
abbrev pub AtEnd : Read → Type 0
AtEnd (ret, out, p') = ret ≡ ok 0 → (p'.isbroken ≡ true) × (p'.ring.read_available ≡ 0)

read_ring-AtEnd :
    {p : Pipe} (fault : Fault) (count : ℕ)
    → IsPipe p
    → Mapped fault
    → 0 < count
    → 0 < p.ring.read_available
    → AtEnd (read_ring fault p count)
read_ring-AtEnd {p} fault count v m h k e =
    absurd (ground (arith, (read_ring-Delivers fault count v m).0))

read_woken-AtEnd :
    (p : Pipe) (fault : Fault) (count : ℕ) (o : Option Pipe)
    → Mapped fault
    → 0 < count
    → ((p' : Pipe) → o ≡ some p' → IsPipe p' × (readable p' ≡ true))
    → AtEnd (read_woken fault p count o)
unfolding read_woken
read_woken-AtEnd p fault count none m h w = λ e. cc
read_woken-AtEnd p fault count (some q) m h w =
    elim (Bool-cases (q.isbroken && (q.ring.read_available == 0))) [
      | inl c ↦ rw c (λ e. ground arith)
      | inr c ↦ rw c (read_ring-AtEnd fault count (w q refl).0 m h (ground (arith, (w q refl).1)))
    ]

-- A read of some bytes returns 0 only at the end of file: when the other end is closed and no byte is
-- left.
pub read-AtEnd :
    {p : Pipe} (nonblock : Bool) (wait : Wait) (fault : Fault) (count : ℕ)
    → IsPipe p
    → Mapped fault
    → Wakes wait
    → 0 < count
    → AtEnd (read nonblock wait fault p count)
unfolding read
read-AtEnd {p} nonblock wait fault count v m w h = elim (Bool-cases (p.ring.read_available == 0)) [
  | inr busy ↦ rw busy (read_ring-AtEnd fault count v m h (ground arith))
  | inl idle ↦ elim (Bool-cases p.isbroken) [
    | inl b ↦ simp (idle, b) (λ e. ground arith)
    | inr b ↦ elim (Bool-cases nonblock) [
      | inl n ↦ simp (idle, b, n) (λ e. cc)
      | inr n ↦
          simp (idle, b, n)
            (read_woken-AtEnd p fault count _ m h (λ q. sleep_on-Wakes readable wait p q w v))
    ]
  ]
]
