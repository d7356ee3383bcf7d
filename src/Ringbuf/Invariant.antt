-- ===== src/Ringbuf/Invariant.antt =====
-- The representation invariant of a ring, and the bytes that it holds.
use stanix.Base.{
  ℕ, ◌+◌, ◌-◌, ◌^◌, ◌<◌, ◌≤◌, ◌≡◌, inl, inr, Bool-cases, List, length, length-splice, take, splice,
  tabulate, arith,
}
use stanix.Word.{add_size, sub_size}
use stanix.Ringbuf.{
  Ring, Fault, empty_ring, read, read_wrap, read_rest, write, write_wrap, write_rest, clamp,
  write_available,
}
use stanix.Ringbuf.Window.{wrap, window}

pub record IsValid (r : Ring) : Type 0 where
  pub storage : length r.buffer ≡ r.buffer_size
  pub small : r.buffer_size ≤ 2 ^ 63
  pub read_in : r.read_offset < r.buffer_size
  pub fill : r.read_available ≤ r.buffer_size
  pub meet : r.write_offset ≡ wrap r.buffer_size r.read_offset r.read_available

-- Oldest byte first.
abbrev pub contents : Ring → List ℕ
contents r = tabulate r.read_available (window r.buffer r.buffer_size r.read_offset)

pub empty_ring-IsValid :
    (block : List ℕ)
    → 0 < length block
    → length block ≤ 2 ^ 63
    → IsValid (empty_ring block (length block))
empty_ring-IsValid block pos small = ground arith

-- A read keeps the invariant, also when a copy fails.
pub read-IsValid :
    {r : Ring} (fault : Fault) (count : ℕ) → IsValid r → IsValid (read fault r count).2
unfolding read read_wrap read_rest
read-IsValid {r} fault count v = ground arith

write_rest-IsValid :
    {r : Ring} (fault : Fault) (count rest at : ℕ) (src : List ℕ)
    → IsValid r
    → r.write_offset + rest < r.buffer_size
    → r.read_available + rest ≤ r.buffer_size
    → IsValid (write_rest fault r count rest at src).1
unfolding write_rest
write_rest-IsValid {r} fault count rest at src v h k =
    ground (arith, length-splice r.buffer r.write_offset (take rest src))

-- The ring after the copy up to the end of its buffer.
abbrev pub filled : Ring → List ℕ → Ring
filled r src =
    let head = sub_size r.buffer_size r.write_offset in
    record r {
      buffer = splice r.buffer r.write_offset (take head src);
      read_available = add_size r.read_available head;
      write_offset = 0;
    }

pub filled-IsValid :
    {r : Ring} (src : List ℕ)
    → IsValid r
    → r.read_available ≤ r.write_offset
    → IsValid (filled r src)
filled-IsValid {r} src v h = ground (
  arith,
  length-splice r.buffer r.write_offset (take (sub_size r.buffer_size r.write_offset) src),
)

write_wrap-IsValid :
    {r : Ring} (fault : Fault) (count : ℕ) (src : List ℕ)
    → IsValid r
    → count ≤ r.buffer_size - r.read_available
    → r.buffer_size ≤ count + r.write_offset
    → IsValid (write_wrap fault r count src).1
unfolding write_wrap
write_wrap-IsValid {r} fault count src v h k =
    elim (Bool-cases (fault 0 (sub_size r.buffer_size r.write_offset))) [
      | inl e ↦ rw e v
      | inr e ↦ rw e (
          write_rest-IsValid fault count _ _ _ (filled-IsValid src v (omega arith)) (ground arith)
            (ground arith))
    ]

-- A write keeps the invariant, also when a copy fails.
pub write-IsValid :
    {r : Ring} (fault : Fault) (src : List ℕ) (count : ℕ)
    → IsValid r
    → IsValid (write fault r src count).1
unfolding write
write-IsValid {r} fault src count v =
    let n = clamp count (write_available r) in
    ground (arith, write_wrap-IsValid fault n src v, write_rest-IsValid fault n n 0 src v)

pub buffer_size-read :
    (fault : Fault) (r : Ring) (count : ℕ) → (read fault r count).2.buffer_size ≡ r.buffer_size
unfolding read read_wrap read_rest
buffer_size-read fault r count = ground arith

pub buffer_size-write :
    (fault : Fault) (r : Ring) (src : List ℕ) (count : ℕ)
    → (write fault r src count).1.buffer_size ≡ r.buffer_size
unfolding write write_wrap write_rest
buffer_size-write fault r src count = ground arith
