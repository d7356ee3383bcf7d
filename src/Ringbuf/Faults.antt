-- ===== src/Ringbuf/Faults.antt =====
-- Reads and writes whose copies fail.
use stanix.Base.{
  true, ℕ, ◌+◌, ◌-◌, ◌<◌, ◌≤◌, ◌≡◌, ap, ap₂, ◌∙◌, inl, inr, Bool-cases, List, [], ◌++◌, slice,
  tabulate, tabulate_ext, tabulate-append, get_or, append_assoc, arith,
}
use stanix.Errno.{err, efault}
use stanix.Word.{sub_size}
use stanix.Ringbuf.{
  Ring, Read, Fault, read, read_wrap, read_rest, clamp, write_available, write, write_wrap,
  write_rest,
}
use stanix.Ringbuf.Window.{wrap, window, wrap-wrap, slice-window}
use stanix.Ringbuf.Invariant.{IsValid, contents}

-- The bytes before the end of the buffer, followed by the others.
skip :
    {r : Ring} (k start left : ℕ)
    → IsValid r
    → k ≤ r.read_available
    → r.read_offset + k ≤ r.buffer_size
    → start ≡ wrap r.buffer_size r.read_offset k
    → left ≡ r.read_available - k
    → slice r.buffer r.read_offset k ++ tabulate left (window r.buffer r.buffer_size start)
      ≡ contents r
skip {r} k start left v h room at count =
    ap₂ ◌++◌ (slice-window r.buffer r.buffer_size r.read_offset v.storage k room) (
      tabulate_ext left _ _ (λ i p.
        ap (λ j. get_or r.buffer j 0)
          (rw at (wrap-wrap r.buffer_size r.read_offset k i v.read_in (omega arith)))))
    ∙ tabulate-append k left _
    ∙ ap (λ n. tabulate n (window r.buffer r.buffer_size r.read_offset)) (omega arith)

abbrev Conserves : List ℕ → Ring → Read → Type 0
Conserves done r (ret, out, r') = out ++ contents r' ≡ done ++ contents r

read_rest-Conserves :
    {r : Ring} (fault : Fault) (count rest at : ℕ) (done : List ℕ)
    → IsValid r
    → rest ≤ r.read_available
    → r.read_offset + rest < r.buffer_size
    → Conserves done r (read_rest fault r count rest at done)
unfolding read_rest
read_rest-Conserves {r} fault count rest at done v h k = elim (Bool-cases (fault at rest)) [
  | inl e ↦ rw e
  | inr e ↦ rw e (
      append_assoc done _ _
      ∙ ap (λ t. done ++ t) (skip rest _ _ v h (omega arith) (ground arith) (omega arith)))
]

read_wrap-Conserves :
    {r : Ring} (fault : Fault) (count : ℕ)
    → IsValid r
    → count ≤ r.read_available
    → r.buffer_size ≤ count + r.read_offset
    → Conserves [] r (read_wrap fault r count)
unfolding read_wrap
read_wrap-Conserves {r} fault count v h k =
    let head = sub_size r.buffer_size r.read_offset in
    elim (Bool-cases (fault 0 head)) [
      | inl e ↦ rw e
      | inr e ↦ rw e (
          read_rest-Conserves fault count (sub_size count head) head _ turned (omega arith)
            (omega arith)
          ∙ skip head 0 _ v (omega arith) (omega arith) (ground arith) (omega arith))
    ]
  where
    turned : IsValid (record r {
      read_available = sub_size r.read_available (sub_size r.buffer_size r.read_offset);
      read_offset = 0;
    })
    turned = ground arith

-- Whatever copy fails, what `ringbuffer_read` has stored in the caller's buffer and what it leaves
-- in the ring make up the bytes that the ring held: none is lost, repeated or reordered.
pub read-conserves :
    {r : Ring} (fault : Fault) (count : ℕ)
    → IsValid r
    → let (ret, out, r') = read fault r count in out ++ contents r' ≡ contents r
unfolding read
read-conserves {r} fault count v =
    let n = clamp count r.read_available in
    ground (arith, read_wrap-Conserves fault n v, read_rest-Conserves fault n n 0 [] v)

-- A write whose first copy fails changes nothing.
pub write-efault :
    (fault : Fault) (r : Ring) (src : List ℕ) (count : ℕ)
    → ((n : ℕ) → fault 0 n ≡ true)
    → write fault r src count ≡ (err efault, r)
unfolding write write_wrap write_rest
write-efault fault r src count m =
    ground (arith, m (sub_size r.buffer_size r.write_offset), m (clamp count (write_available r)))
