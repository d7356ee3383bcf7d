-- ===== src/Ringbuf/Refine.antt =====
-- A valid ring is a bounded FIFO of bytes.
use stanix.Base.{
  ℕ, ◌+◌, ◌-◌, ◌<◌, ◌≤◌, ◌≡◌, refl, sym, ap, ap₂, ◌∙◌, false, List, [], ◌++◌, length, take, drop,
  length-drop, take-append-take, append_assoc, tabulate, tabulate_ext, tabulate-append,
  take-tabulate, drop-tabulate, get_or, length-take, min, arith,
}
use stanix.Word.{sub_size}
use stanix.Errno.{ok}
use stanix.Ringbuf.{
  Ring, Read, Fault, read, read_wrap, read_rest, write, write_wrap, write_rest, clamp,
  write_available,
}
use stanix.Ringbuf.Window.{wrap, window, wrap-wrap, slice-window, slice-window_front, window-splice}
use stanix.Ringbuf.Invariant.{IsValid, contents, filled, filled-IsValid}

-- No copy to or from user memory fails.
abbrev pub Mapped : Fault → Type 0
Mapped fault = (off n : ℕ) → fault off n ≡ false

module _ {r : Ring} (fault : Fault) (v : IsValid r) (m : Mapped fault) where
  -- The state after `n` bytes are taken, and what the caller gets.
  abbrev taken : ℕ → Read
  taken n = (
    ok n,
    tabulate n (window r.buffer r.buffer_size r.read_offset),
    record r {
      read_offset = wrap r.buffer_size r.read_offset n;
      read_available = r.read_available - n;
    },
  )

  read_rest-taken :
      (n : ℕ)
      → n ≤ r.read_available
      → r.read_offset + n < r.buffer_size
      → read_rest fault r n n 0 [] ≡ taken n
  unfolding read_rest
  read_rest-taken n h k =
      ground (arith, m 0 n, slice-window r.buffer r.buffer_size r.read_offset v.storage n)

  read_wrap-taken :
      (n : ℕ)
      → n ≤ r.read_available
      → r.buffer_size ≤ r.read_offset + n
      → read_wrap fault r n ≡ taken n
  unfolding read_wrap read_rest
  read_wrap-taken n h k =
      let head = r.buffer_size - r.read_offset in
      let split : sub_size r.buffer_size r.read_offset ≡ head = omega arith in
      ground (
        arith,
        split,
        m 0 head,
        m head (n - head),
        slice-window r.buffer r.buffer_size r.read_offset v.storage head,
        slice-window_front r.buffer r.buffer_size r.read_offset v.storage (n - head),
        tabulate-append head (n - head) (window r.buffer r.buffer_size r.read_offset),
      )

  read-taken : (count : ℕ) → read fault r count ≡ taken (min count r.read_available)
  unfolding read
  read-taken count =
      let n = min count r.read_available in
      let cut : clamp count r.read_available ≡ n = ground arith in
      rw cut (ground (arith, read_rest-taken n, read_wrap-taken n))

  read_contents :
      (count : ℕ) → contents (taken (min count r.read_available)).2 ≡ drop count (contents r)
  read_contents count =
      let n = min count r.read_available in
      let left : r.read_available - n ≡ r.read_available - count = omega arith in
      rw left (
        tabulate_ext (r.read_available - count) _ _ (λ i p.
          let all : n ≡ count = omega arith in
          ap (λ k. get_or r.buffer k 0)
            (rw all (wrap-wrap r.buffer_size r.read_offset count i v.read_in (omega arith)))))
      ∙ sym (drop-tabulate count r.read_available _)

  -- On a valid ring, when no copy fails: `ringbuffer_read` delivers the oldest bytes, as many as are
  -- asked for and there are, and leaves the others.
  pub read_lem :
      (count : ℕ)
      → let (ret, out, r') = read fault r count in
        (ret ≡ ok (min count r.read_available))
        × (out ≡ take count (contents r))
        × (contents r' ≡ drop count (contents r))
  read_lem count =
      rw (read-taken count)
        (refl, sym (take-tabulate count r.read_available _), read_contents count)

module _ {r : Ring} (fault : Fault) (v : IsValid r) (m : Mapped fault) where
  write_rest-append :
      (count rest at : ℕ) (src : List ℕ)
      → rest ≤ length src
      → r.write_offset + rest ≤ r.buffer_size
      → r.read_available + rest ≤ r.buffer_size
      → let (ret, r') = write_rest fault r count rest at src in
        (ret ≡ ok count) × (contents r' ≡ contents r ++ take rest src)
  unfolding write_rest
  write_rest-append count rest at src have room fits =
      let len : length (take rest src) ≡ rest = omega (arith, length-take rest src) in
      ground (
        arith,
        m at rest,
        len,
        v.meet,
        window-splice r.buffer (take rest src) r.buffer_size r.read_offset r.read_available
            v.storage v.read_in,
      )

filled-append :
    {r : Ring} (src : List ℕ)
    → IsValid r
    → r.read_available ≤ r.write_offset
    → r.buffer_size ≤ length src + r.write_offset
    → contents (filled r src) ≡ contents r ++ take (r.buffer_size - r.write_offset) src
filled-append {r} src v h have =
    let head = r.buffer_size - r.write_offset in
    let split : sub_size r.buffer_size r.write_offset ≡ head = ground (arith, v.meet) in
    let len : length (take head src) ≡ head = omega (arith, length-take head src) in
    rw split (
      ground (
        arith,
        len,
        v.meet,
        window-splice r.buffer (take head src) r.buffer_size r.read_offset r.read_available
            v.storage v.read_in,
      ))

module _ {r : Ring} (fault : Fault) (v : IsValid r) (m : Mapped fault) where
  write_wrap-append :
      (n : ℕ) (src : List ℕ)
      → n ≤ length src
      → n ≤ r.buffer_size - r.read_available
      → r.buffer_size ≤ n + r.write_offset
      → let (ret, r') = write_wrap fault r n src in
        (ret ≡ ok n) × (contents r' ≡ contents r ++ take n src)
  unfolding write_wrap
  write_wrap-append n src have fits wraps =
      let head = sub_size r.buffer_size r.write_offset in
      let split : head ≡ r.buffer_size - r.write_offset = ground (arith, v.meet) in
      let inside : r.write_offset < r.buffer_size = ground (arith, v.meet) in
      let rest : sub_size n head ≡ n - head = omega arith in
      let total : head + (n - head) ≡ n = omega arith in
      let (result, held) =
        write_rest-append {r = filled r src} fault (filled-IsValid src v (omega arith)) m n
          (sub_size n head) head (drop head src) (omega (arith, length-drop head src)) (omega arith)
          (omega arith) in
      rw (m 0 head) (result, held ∙ joined rest split)
    where
      joined :
          {h k : ℕ}
          → k ≡ n - h
          → h ≡ r.buffer_size - r.write_offset
          → contents (filled r src) ++ take k (drop h src) ≡ contents r ++ take n src
      joined {h} {k} p q =
          ap₂ ◌++◌ (filled-append src v (ground (arith, v.meet)) (omega arith)) (
            ap₂ (λ a b. take a (drop b src)) {y = n - (r.buffer_size - r.write_offset)}
              (omega arith) q)
          ∙ append_assoc (contents r) _ _
          ∙ ap (λ t. contents r ++ t)
              (take-append-take (r.buffer_size - r.write_offset)
                  (n - (r.buffer_size - r.write_offset)) src
                ∙ ap (λ a. take a src) (ground (arith, v.meet)))

  -- On a valid ring, when no copy fails and the caller has at least `count` bytes: `ringbuffer_write`
  -- appends the caller's bytes, as many as there is room for, and says how many.
  pub write_lem :
      (src : List ℕ) (count : ℕ)
      → count ≤ length src
      → let n = min count (r.buffer_size - r.read_available) in
        let (ret, r') = write fault r src count in
        (ret ≡ ok n) × (contents r' ≡ contents r ++ take n src)
  unfolding write
  write_lem src count have =
      let n = min count (r.buffer_size - r.read_available) in
      let cut : clamp count (write_available r) ≡ n = ground arith in
      rw cut
        (ground (arith, v.meet, write_wrap-append n src, write_rest-append fault v m n n 0 src))
