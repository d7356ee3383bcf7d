-- ===== src/Pipe/Tests.antt =====
-- Pipes of 4096 bytes.
use stanix.Base.{
  ℕ, ◌<◌, ◌≡◌, refl, true, false, none, some, List, [], ◌∷◌, replicate, length, length-replicate,
  arith,
}
use stanix.Errno.{Ret}
use stanix.Pipe.{Pipe, Wait, UserMemory, room, write}
use stanix.Pipe.Invariant.{IsPipe, Wakes}
use stanix.Pipe.Writing.{write_total}
use stanix.Pipe.Atomic.{AllOrNothing, write-AllOrNothing}
use stanix.Pipe.BadPointer.{write-stuck}

-- The ring's storage.
blank : List ℕ
blank = replicate 4096 5

abbrev holding : ℕ → Pipe
holding n = record {
  isbroken = false;
  ring = record {
    buffer = blank;
    write_offset = n;
    read_offset = 0;
    buffer_size = 4096;
    read_available = n;
  };
  reader_queue = 1 ∷ [];
  writer_queue = 2 ∷ 3 ∷ [];
  woken = [];
  freed = false;
}

storage : length blank ≡ 4096
unfolding blank
storage = length-replicate {A = ℕ} 4096 5

holding-IsPipe : (n : ℕ) → n < 4096 → IsPipe (holding n)
holding-IsPipe n h = record {
  valid = record {
    storage = storage;
    small = omega arith;
    read_in = omega arith;
    fill = omega arith;
    meet = ground arith;
  };
  size = refl;
}

-- Every wait is interrupted.
abbrev interrupted : Wait
interrupted cond p = none

interrupted-Wakes : Wakes interrupted
interrupted-Wakes cond p p' e = cc

abbrev good_memory : UserMemory
good_memory = record { byte = λ a. a; fails = λ a n. false }

abbrev bad_memory : UserMemory
bad_memory = record { byte = λ a. a; fails = λ a n. true }

write_total_example :
    (out : Ret × Pipe) × (write 6 false interrupted good_memory (holding 2) 100 5 ≡ some out)
    × IsPipe out.1
write_total_example =
    write_total false interrupted good_memory 100 5 (omega arith) (holding-IsPipe 2 (omega arith))
      interrupted-Wakes (λ a n. refl)

write-AllOrNothing_example :
    AllOrNothing good_memory 100 5
      (room false interrupted (holding 2) 5)
      (write 2 false interrupted good_memory (holding 2) 100 5)
write-AllOrNothing_example =
    write-AllOrNothing false interrupted good_memory 100 5 0 (omega arith) (omega arith) refl
      (holding-IsPipe 2 (omega arith)) interrupted-Wakes (λ a n. refl)

write-stuck_example : write 1000 false interrupted bad_memory (holding 0) 100 5 ≡ none
write-stuck_example =
    write-stuck 1000 false interrupted bad_memory (holding 0) 100 5 (λ a n. refl)
      (holding-IsPipe 0 (omega arith)) refl refl (omega arith) (omega arith)
