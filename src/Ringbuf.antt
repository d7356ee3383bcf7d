-- ===== src/Ringbuf.antt =====
-- kernel/klib/ringbuf.c and kernel/include/klib/ringbuf.h: the byte ring of pipes and terminals.
-- User memory is not modelled: `Fault` says of each copy, by its offset in the caller's buffer and
-- its size, whether `safe_copy_to` or `safe_copy_from` fails.
pub mod Window
pub mod Invariant
pub mod Refine
pub mod Faults
mod Tests
use stanix.Base.{
  Option, none, some, ℕ, ◌+◌, ◌-◌, ◌<◌, ◌≤◌, Bool, true, false, List, [], ◌∷◌, ◌++◌, ltb, leb,
  if◌then◌else◌, length, take, drop, slice, splice, replicate,
}
use stanix.Word.{add_size, sub_size}
use stanix.Errno.{Ret, ok, err, Errno, efault, enomem}

-- `ringbuffer_t`. Bytes are only moved, so a byte is any number.
pub record Ring : Type 0 where
  pub buffer : List ℕ
  pub write_offset : ℕ
  pub read_offset : ℕ
  pub buffer_size : ℕ
  pub read_available : ℕ

abbrev pub empty_ring : List ℕ → ℕ → Ring
empty_ring block buffer_size = record {
  buffer = block;
  write_offset = 0;
  read_offset = 0;
  buffer_size = buffer_size;
  read_available = 0;
}

abbrev pub Fault : Type 0
Fault = ℕ → ℕ → Bool

-- `ringbuffer_init`; the block is what `kmalloc` returned.
unfoldable pub init : Option (List ℕ) → ℕ → Ret × Ring
init none buffer_size = (err enomem, empty_ring [] buffer_size)
init (some block) buffer_size = (ok 0, empty_ring block buffer_size)

abbrev pub write_available : Ring → ℕ
write_available r = sub_size r.buffer_size r.read_available

-- The bytes that a read may deliver: the request, cut down to what is there.
abbrev pub clamp : ℕ → ℕ → ℕ
clamp count available = if ltb available count then available else count

-- What a read leaves: the result, the bytes stored in the caller's buffer, the ring.
abbrev pub Read : Type 0
Read = Ret × List ℕ × Ring

-- The second copy of `ringbuffer_read`, `rest` bytes of `count` into the caller's buffer at `at`,
-- after `done`.
unfoldable pub read_rest : Fault → Ring → (count rest at : ℕ) → (done : List ℕ) → Read
read_rest fault r count rest at done = if fault at rest then (err efault, done, r) else (
  ok count,
  done ++ slice r.buffer r.read_offset rest,
  record r {
    read_offset = add_size r.read_offset rest;
    read_available = sub_size r.read_available rest;
  },
)

-- The copy up to the end of the buffer, when the read goes that far.
unfoldable pub read_wrap : Fault → Ring → (count : ℕ) → Read
read_wrap fault r count =
    let head = sub_size r.buffer_size r.read_offset in
    if fault 0 head
    then (err efault, [], r)
    else read_rest fault
        (record r { read_available = sub_size r.read_available head; read_offset = 0 }) count
        (sub_size count head) head (slice r.buffer r.read_offset head)

unfoldable pub read : Fault → Ring → ℕ → Read
read fault r count =
    let n = clamp count r.read_available in
    if leb r.buffer_size (add_size n r.read_offset)
    then read_wrap fault r n
    else read_rest fault r n n 0 []

-- The second copy of `ringbuffer_write`: `src` is what is left of the caller's bytes.
unfoldable pub write_rest : Fault → Ring → (count rest at : ℕ) → (src : List ℕ) → Ret × Ring
write_rest fault r count rest at src = if fault at rest then (err efault, r) else (
  ok count,
  record r {
    buffer = splice r.buffer r.write_offset (take rest src);
    write_offset = add_size r.write_offset rest;
    read_available = add_size r.read_available rest;
  },
)

unfoldable pub write_wrap : Fault → Ring → (count : ℕ) → List ℕ → Ret × Ring
write_wrap fault r count src =
    let head = sub_size r.buffer_size r.write_offset in
    if fault 0 head
    then (err efault, r)
    else write_rest fault
        (record r {
          buffer = splice r.buffer r.write_offset (take head src);
          read_available = add_size r.read_available head;
          write_offset = 0;
        })
        count (sub_size count head) head (drop head src)

-- `src` holds the caller's `count` bytes.
unfoldable pub write : Fault → Ring → List ℕ → ℕ → Ret × Ring
write fault r src count =
    let n = clamp count (write_available r) in
    if leb r.buffer_size (add_size n r.write_offset)
    then write_wrap fault r n src
    else write_rest fault r n n 0 src
