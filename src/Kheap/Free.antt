-- ===== src/Kheap/Free.antt =====
-- What `kfree` of kernel/mem/kheap.c leaves.
use stanix.Base.{
  ℕ, ◌+◌, ◌%◌, ◌^◌, ◌≤◌, ◌<◌, ◌≡◌, refl, sym, ap, subst, ◌∙◌, Bool, true, false, some, List, [],
  ◌∷◌, Bool-cases, inl, inr, ne→test, eq→test, arith,
}
use stanix.Word.{add_size}
use stanix.Kheap.{
  HeapSegment, header, put_back, merge_with_next, merge_with_prev, seg_at, free_segment,
}
use stanix.Kheap.Layout.{
  seg_end, Behind, InFront, blocks, blocks-put_back, put_back-Behind, split-Behind, Behind-below,
}

-- A free segment that takes in what is behind it.
record IsMerged (s : HeapSegment) (back : List HeapSegment) (end : ℕ) (out : List HeapSegment)
    : Type 0 where
  pub seg : HeapSegment
  pub rest : List HeapSegment
  pub shape : out ≡ seg ∷ rest
  pub at : seg.address ≡ s.address
  pub free : seg.free ≡ true
  pub whole : seg.length % 16 ≡ 0
  pub behind : Behind (seg_end seg) true rest end
  pub kept : blocks rest ≡ blocks back

merge_with_next-IsMerged :
    (s : HeapSegment) (back : List HeapSegment) (end : ℕ)
    → s.free ≡ true
    → s.length % 16 ≡ 0
    → Behind (seg_end s) false back end
    → end < 2 ^ 64
    → IsMerged s back end (merge_with_next s back)
unfolding merge_with_next
merge_with_next-IsMerged s [] end f w b bound = record {
  seg = s;
  rest = [];
  shape = refl;
  at = refl;
  free = f;
  whole = w;
  behind = b;
  kept = refl;
}
merge_with_next-IsMerged s (next ∷ back) end f w (at, w', apart, more) bound =
    let below = Behind-below (seg_end next) next.free back end more in
    elim (Bool-cases next.free) [
      | inl e ↦
          let sum : add_size s.length (add_size next.length header)
              ≡ s.length + (next.length + 32) =
            ground arith in
          let merged : HeapSegment = record s { length = s.length + (next.length + 32) } in
          rw (e, sum)
            (record {
              seg = merged;
              rest = back;
              shape = refl;
              at = refl;
              free = f;
              whole = omega arith;
              behind =
                  subst (λ a. Behind a true back end) {x = seg_end next} (omega arith)
                    (subst (λ x. Behind (seg_end next) x back end) e more);
              kept = refl;
            })
      | inr e ↦ simp e (record {
        seg = s;
        rest = next ∷ back;
        shape = refl;
        at = refl;
        free = f;
        whole = w;
        behind = (at, w', e, more);
        kept = refl;
      })
    ]

-- The segments of a heap with the blocks of two lists.
abbrev pub IsFreed : (start end : ℕ) → (before after out : List HeapSegment) → Type 0
IsFreed start end before after out =
    Behind start false out end × (blocks out ≡ put_back before after)

blocks-free :
    (front : List HeapSegment) (s : HeapSegment) (back : List HeapSegment)
    → s.free ≡ true
    → blocks (put_back front (s ∷ back)) ≡ put_back (blocks front) (blocks back)
blocks-free front s back h = blocks-put_back front (s ∷ back) ∙ rw h refl

put_back-IsFreed :
    (start end : ℕ) (front : List HeapSegment) (s : HeapSegment) (back : List HeapSegment)
    → s.free ≡ true
    → s.length % 16 ≡ 0
    → InFront start front s.address true
    → Behind (seg_end s) true back end
    → IsFreed start end (blocks front) (blocks back) (put_back front (s ∷ back))
put_back-IsFreed start end front s back h w f b = (
  put_back-Behind start end front s back (subst (λ x. InFront start front s.address x) (sym h) f) w
      (subst (λ x. Behind (seg_end s) x back end) (sym h) b),
  blocks-free front s back h,
)

merge_with_prev-IsFreed :
    (start end : ℕ) (front : List HeapSegment) (s : HeapSegment) (back : List HeapSegment)
    → s.free ≡ true
    → s.length % 16 ≡ 0
    → InFront start front s.address false
    → Behind (seg_end s) true back end
    → end < 2 ^ 64
    → IsFreed start end (blocks front) (blocks back) (merge_with_prev front (s ∷ back))
unfolding merge_with_prev
merge_with_prev-IsFreed start end [] s back h w f b bound =
    put_back-IsFreed start end [] s back h w f b
merge_with_prev-IsFreed start end (prev ∷ front) s back h w (at, w', apart, more) b bound =
    let below = Behind-below (seg_end s) true back end b in
    elim (Bool-cases prev.free) [
      | inl e ↦
          let sum : add_size prev.length (add_size s.length header)
              ≡ prev.length + (s.length + 32) =
            ground arith in
          let merged : HeapSegment = record {
            address = prev.address;
            length = prev.length + (s.length + 32);
            free = true;
          } in
          simp (e, sum)
            (put_back-IsFreed start end front merged back refl (omega arith)
              (subst (λ x. InFront start front prev.address x) e more)
              (subst (λ a. Behind a true back end) {x = seg_end s} (omega arith) b))
      | inr e ↦ simp e (
          let (layout, kept) =
            put_back-IsFreed start end (prev ∷ front) s back h w (at, w', rw e refl, more) b in
          (layout, kept ∙ rw e refl))
    ]

pub free_segment-IsFreed :
    (start end : ℕ) (front : List HeapSegment) (s : HeapSegment) (back : List HeapSegment)
    → s.free ≡ false
    → s.length % 16 ≡ 0
    → InFront start front s.address false
    → Behind (seg_end s) false back end
    → end < 2 ^ 64
    → IsFreed start end (blocks front) (blocks back) (free_segment front s back)
unfolding free_segment
free_segment-IsFreed start end front s back h w f b bound =
    let m = merge_with_next-IsMerged (record s { free = true }) back end refl w b bound in
    let (layout, kept) =
      merge_with_prev-IsFreed start end front m.seg m.rest m.free m.whole
        (subst (λ a. InFront start front a false) (sym m.at) f) m.behind bound in
    simp h (
      subst (λ l. Behind start false (merge_with_prev front l) end) (sym m.shape) layout,
      ap (λ l. blocks (merge_with_prev front l)) m.shape
          ∙ kept
          ∙ ap (put_back (blocks front)) m.kept,
    )

-- The header at the address of a segment is the segment's.
seg_at_here :
    (front : List HeapSegment) (s : HeapSegment) (back : List HeapSegment)
    → seg_at s.address front (s ∷ back) ≡ some (front, s, back)
unfolding seg_at
seg_at_here front s back = rw (eq→test s.address s.address refl) refl

seg_at-put_back :
    (start : ℕ) (front : List HeapSegment) (address : ℕ) (free : Bool) (target : ℕ)
    (rest : List HeapSegment)
    → InFront start front address free
    → address ≤ target
    → seg_at target [] (put_back front rest) ≡ seg_at target front rest
unfolding seg_at
seg_at-put_back start [] address free target rest f h = refl
seg_at-put_back start (s ∷ front) address free target rest (at, w, apart, more) h =
    seg_at-put_back start front s.address s.free target (s ∷ rest) more (omega arith)
    ∙ rw (ne→test s.address target (λ e. absurd (omega arith))) refl

pub seg_at_lem :
    (start end : ℕ) (front : List HeapSegment) (s : HeapSegment) (back : List HeapSegment)
    → Behind start false (put_back front (s ∷ back)) end
    → seg_at s.address [] (put_back front (s ∷ back)) ≡ some (front, s, back)
seg_at_lem start end front s back h =
    let (before, whole, after) = split-Behind start end front s back h in
    seg_at-put_back start front s.address s.free s.address (s ∷ back) before (omega arith)
    ∙ seg_at_here front s back
