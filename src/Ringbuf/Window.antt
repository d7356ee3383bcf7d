-- ===== src/Ringbuf/Window.antt =====
-- The bytes of a ring, read round the end of its buffer.
use stanix.Base.{
  ℕ, ◌+◌, ◌-◌, ◌<◌, ◌≤◌, ◌≡◌, sym, ◌∙◌, ap, List, ltb, if◌then◌else◌, length, drop, get_or, slice,
  tabulate, tabulate_ext, tabulate-append, take_all, splice, ap₂, ◌++◌, get_or-splice_in,
  get_or-splice_before, get_or-splice_after, take-eq-tabulate, get_or-drop, length-drop, arith,
}

-- The place of byte `i` after offset `start`.
abbrev pub wrap : ℕ → ℕ → ℕ → ℕ
wrap size start i = if ltb (start + i) size then start + i else start + i - size

abbrev pub window : List ℕ → ℕ → ℕ → ℕ → ℕ
window buf size start i = get_or buf (wrap size start i) 0

slice-eq-tabulate :
    (buf : List ℕ) (off n : ℕ)
    → off + n ≤ length buf
    → slice buf off n ≡ tabulate n (λ i. get_or buf (off + i) 0)
slice-eq-tabulate buf off n h =
    take-eq-tabulate n (drop off buf) 0 (omega (arith, length-drop off buf))
    ∙ tabulate_ext n _ _ (λ i p. get_or-drop off buf i 0)

wrap_below : (size start i : ℕ) → start + i < size → wrap size start i ≡ start + i
wrap_below size start i h = ground arith

wrap_above : (size start i : ℕ) → size ≤ start + i → wrap size start i ≡ start + i - size
wrap_above size start i h = ground arith

module _ (buf : List ℕ) (size start : ℕ) (whole : length buf ≡ size) where
  pub slice-window :
      (n : ℕ) → start + n ≤ size → slice buf start n ≡ tabulate n (window buf size start)
  slice-window n h =
      slice-eq-tabulate buf start n (omega arith)
      ∙ tabulate_ext n _ _
          (λ i p. ap (λ k. get_or buf k 0) (sym (wrap_below size start i (omega arith))))

  -- What stands at the front of the buffer comes after the bytes up to its end.
  pub slice-window_front :
      (n : ℕ)
      → start ≤ size
      → n ≤ start
      → slice buf 0 n ≡ tabulate n (λ i. window buf size start (size - start + i))
  slice-window_front n h k =
      slice-eq-tabulate buf 0 n (omega arith)
      ∙ tabulate_ext n _ _ (λ i p.
        ap (λ k. get_or buf k 0)
          (omega (arith, wrap_above size start (size - start + i) (omega arith))))

-- Skipping `n` bytes moves the start.
pub wrap-wrap :
    (size start n i : ℕ)
    → start < size
    → n + i < size
    → wrap size (wrap size start n) i ≡ wrap size start (n + i)
wrap-wrap size start n i h k = ground arith

-- Bytes written just past a window extend it, if they fit before the end of the buffer.
pub window-splice :
    (buf src : List ℕ) (size start n : ℕ)
    → length buf ≡ size
    → start < size
    → n + length src ≤ size
    → wrap size start n + length src ≤ size
    → tabulate (n + length src) (window (splice buf (wrap size start n) src) size start)
      ≡ tabulate n (window buf size start) ++ src
window-splice buf src size start n whole h fits room =
    sym (tabulate-append n (length src) _)
    ∙ ap₂ ◌++◌ (tabulate_ext n _ _ old) (
        tabulate_ext (length src) _ _ new
        ∙ sym (take-eq-tabulate (length src) src 0 (omega arith))
        ∙ take_all src)
  where
    old :
        (i : ℕ)
        → i < n
        → window (splice buf (wrap size start n) src) size start i ≡ window buf size start i
    old i p = ground (
      arith,
      get_or-splice_before buf (wrap size start n) src (wrap size start i) 0,
      get_or-splice_after buf (wrap size start n) src (wrap size start i) 0,
    )

    new :
        (i : ℕ)
        → i < length src
        → window (splice buf (wrap size start n) src) size start (n + i) ≡ get_or src i 0
    new i p =
        get_or-splice_in buf (wrap size start n) src (wrap size start (n + i)) 0 (ground arith)
          (ground arith) (ground arith)
        ∙ ap (λ k. get_or src k 0) (ground arith)
