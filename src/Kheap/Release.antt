-- ===== src/Kheap/Release.antt =====
-- `kfree` of kernel/mem/kheap.c, of a pointer to a block.
use stanix.Base.{
  ◌+◌, ◌≡◌, refl, sym, ap, ap₂, subst, ◌∙◌, true, false, Option, none, some, List, [], ◌∷◌, ◌++◌,
  append-nil, ◌==◌, arith,
}
use stanix.Word.{sub_size}
use stanix.Kheap.{HeapSegment, Heap, header, put_back, seg_at, free_segment, free_found, kfree}
use stanix.Kheap.Layout.{
  seg_end, Behind, IsHeap, blocks, blocks-put_back, split-Behind, InFront-allocated, Behind-below,
  Behind-allocated,
}
use stanix.Kheap.Blocks.{placed, put_back-put_back, put_back-append}
use stanix.Kheap.Free.{free_segment-IsFreed, seg_at_lem}

-- The header in front of the pointer is found.
pub kfree_at :
    (h : Heap) (front : List HeapSegment) (s : HeapSegment) (back : List HeapSegment)
    → IsHeap h
    → h.segs ≡ put_back front (s ∷ back)
    → kfree h (s.address + 32) ≡ some (record h { segs = free_segment front s back })
unfolding kfree free_found
kfree_at h front s back x e =
    let end = h.start + h.length in
    let layout = subst (λ l. Behind h.start false l end) e x.layout in
    let (before, whole, after) = split-Behind h.start end front s back layout in
    let below = Behind-below (seg_end s) s.free back end after in
    let bounded = x.bounded in
    let some_ptr : (s.address + 32 == 0) ≡ false = ground arith in
    let at : sub_size (s.address + 32) header ≡ s.address = ground arith in
    let found : seg_at (sub_size (s.address + 32) header) [] h.segs ≡ some (front, s, back) =
      ap (λ a. seg_at a [] h.segs) at
      ∙ ap (seg_at s.address []) e
      ∙ seg_at_lem h.start end front s back layout in
    rw some_ptr (ap (free_found h) found)

-- Once freed, a segment is left as it is by another call: of a pointer behind the header of a free segment
-- kfree changes nothing.
pub kfree-free :
    (h : Heap) (front : List HeapSegment) (s : HeapSegment) (back : List HeapSegment)
    → IsHeap h
    → h.segs ≡ put_back front (s ∷ back)
    → s.free ≡ true
    → kfree h (s.address + 32) ≡ some h
unfolding free_segment
kfree-free h front s back x e free =
    let same : free_segment front s back ≡ h.segs = simp free (sym e) in
    kfree_at h front s back x e ∙ ap (λ l. some (record h { segs = l })) same

-- What is left: the allocated blocks are those in front of and behind the one that was freed, and the
-- heap is well-formed, and as large as before.
pub record IsReleased (h : Heap) (before after : List HeapSegment) (new : Heap) : Type 0 where
  pub left : blocks new.segs ≡ before ++ after
  pub heap : IsHeap new
  pub same_start : new.start ≡ h.start
  pub same_length : new.length ≡ h.length

abbrev pub Released : Heap → (before after : List HeapSegment) → Option Heap → Type 0
Released h before after none = ⊥
Released h before after (some new) = IsReleased h before after new

free_segment-IsReleased :
    (h : Heap) (front : List HeapSegment) (s : HeapSegment) (back : List HeapSegment)
    → IsHeap h
    → h.segs ≡ put_back front (s ∷ back)
    → s.free ≡ false
    → IsReleased h
        (put_back (blocks front) [])
        (blocks back)
        (record h { segs = free_segment front s back })
free_segment-IsReleased h front s back x e used =
    let end = h.start + h.length in
    let layout = subst (λ l. Behind h.start false l end) e x.layout in
    let (before, whole, after) = split-Behind h.start end front s back layout in
    let (shape, kept) =
      free_segment-IsFreed h.start end front s back used whole
        (InFront-allocated h.start front s.address s.free before)
        (Behind-allocated (seg_end s) s.free back end after) x.bounded in
    record {
      left = kept ∙ put_back-append (blocks front) (blocks back);
      heap = record { layout = shape; aligned = x.aligned; filled = x.filled; bounded = x.bounded };
      same_start = refl;
      same_length = refl;
    }

-- Of the pointer to an allocated block of a well-formed heap kfree frees just this block, whatever it is
-- merged with: the allocated blocks are the others. The heap stays well-formed, its segments without gaps
-- and no two free ones side by side, and has the start and the length that it had.
pub kfree-Released :
    (h : Heap) (before after : List HeapSegment) (b : HeapSegment)
    → IsHeap h
    → blocks h.segs ≡ before ++ (b ∷ after)
    → Released h before after (kfree h (b.address + 32))
kfree-Released h before after b x e =
    let p = placed h.segs before after b e in
    let front = put_back p.pre [] in
    let place : h.segs ≡ put_back front (b ∷ p.post) =
      p.split ∙ sym (put_back-put_back p.pre [] (b ∷ p.post)) in
    let r = free_segment-IsReleased h front b p.post x place p.used in
    let same : put_back (blocks front) [] ≡ before =
      ap (λ l. put_back l []) (blocks-put_back p.pre [])
      ∙ put_back-put_back (blocks p.pre) [] []
      ∙ append-nil (blocks p.pre)
      ∙ p.earlier in
    subst (Released h before after) (sym (kfree_at h front b p.post x place)) (record {
      left = r.left ∙ ap₂ ◌++◌ same p.later;
      heap = r.heap;
      same_start = refl;
      same_length = refl;
    })
