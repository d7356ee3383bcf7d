-- ===== src/Ringbuf/Tests.antt =====
-- A ring of four bytes whose contents go round the end, and the theorems at it.
use stanix.Base.{◌≡◌, refl, false, some, [], ◌∷◌, ltb, arith}
use stanix.Errno.{ok, err, efault}
use stanix.Ringbuf.{
  Ring, Fault, init, empty_ring, read, read_wrap, read_rest, write, write_wrap, write_rest,
}
use stanix.Ringbuf.Invariant.{IsValid, contents, empty_ring-IsValid}
use stanix.Ringbuf.Refine.{read_lem, write_lem}

-- Holds 7, 8, 9; the 9 stands at the front.
abbrev turned : Ring
turned = record {
  buffer = 9 ∷ 0 ∷ 7 ∷ 8 ∷ [];
  write_offset = 1;
  read_offset = 2;
  buffer_size = 4;
  read_available = 3;
}

abbrev mapped : Fault
mapped off n = false

-- The second copy fails.
abbrev half : Fault
half off n = ltb 0 off

turned-IsValid : IsValid turned
turned-IsValid = ground arith

contents-turned : contents turned ≡ 7 ∷ 8 ∷ 9 ∷ []
contents-turned = refl

read_runs : (read mapped turned 5).1 ≡ 7 ∷ 8 ∷ 9 ∷ []
unfolding read read_wrap read_rest
read_runs = refl

half-read :
    read half turned 3
    ≡ (err efault, 7 ∷ 8 ∷ [], record turned { read_offset = 0; read_available = 1 })
unfolding read read_wrap read_rest
half-read = refl

write_runs : (write mapped turned (1 ∷ 2 ∷ []) 2).0 ≡ ok 1
unfolding write write_wrap write_rest
write_runs = refl

init_runs : init (some (0 ∷ 0 ∷ [])) 2 ≡ (ok 0, empty_ring (0 ∷ 0 ∷ []) 2)
unfolding init
init_runs = refl

empty-IsValid : IsValid (empty_ring (0 ∷ 0 ∷ []) 2)
empty-IsValid = empty_ring-IsValid (0 ∷ 0 ∷ []) (omega arith) (omega arith)

read_lem_example :
    let (ret, out, r') = read mapped turned 2 in
    (ret ≡ ok 2) × (out ≡ 7 ∷ 8 ∷ []) × (contents r' ≡ 9 ∷ [])
read_lem_example = read_lem mapped turned-IsValid (λ off n. refl) 2

write_lem_example :
    let (ret, r') = write mapped turned (1 ∷ 2 ∷ []) 2 in
    (ret ≡ ok 1) × (contents r' ≡ 7 ∷ 8 ∷ 9 ∷ 1 ∷ [])
write_lem_example = write_lem mapped turned-IsValid (λ off n. refl) (1 ∷ 2 ∷ []) 2 (omega arith)
