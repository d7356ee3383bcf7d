-- ===== src/Kheap/Realloc.antt =====
-- `krealloc_flags` of kernel/mem/kheap.c.
use stanix.Base.{
  ℕ, ◌+◌, ◌^◌, ◌≤◌, ◌<◌, ◌≡◌, ◌≢◌, ◌⊎◌, refl, sym, ap, subst, ◌∙◌, false, Option, none, some, List,
  [], ◌∷◌, ◌++◌, ltb, ◌==◌, if◌then◌else◌, Bool-cases, inl, inr, ne→test, arith,
}
use stanix.Word.{sub_size}
use stanix.Kheap.{HeapSegment, Heap, header, put_back, seg_at, kmalloc, kfree}
use stanix.Kheap.Layout.{seg_end, Behind, IsHeap, blocks, split-Behind, Behind-below}
use stanix.Kheap.Blocks.{placed, put_back-put_back}
use stanix.Kheap.Free.{seg_at_lem}
use stanix.Kheap.Malloc.{IsAllocated, Allocated, kmalloc-Allocated}
use stanix.Kheap.Release.{kfree-Released, Released}

-- The pointer, how many bytes are copied to it, and the heap.
pub record Resized : Type 0 where
  pub ptr : ℕ
  pub copied : ℕ
  pub heap : Heap

abbrev moved_freed : (buf copied : ℕ) → Option Heap → Option Resized
moved_freed buf copied none = none
moved_freed buf copied (some new) = some (record { ptr = buf; copied = copied; heap = new })

-- The header in front of the old pointer gives the length of what is copied.
abbrev move_block :
    (ptr new_size buf : ℕ)
    → Heap
    → Option (List HeapSegment × HeapSegment × List HeapSegment)
    → Option Resized
move_block ptr new_size buf h none = none
move_block ptr new_size buf h (some (front, s, back)) =
    moved_freed buf (if ltb s.length new_size then s.length else new_size) (kfree h ptr)

abbrev move_to : (ptr new_size : ℕ) → Option (ℕ × Heap) → Option Resized
move_to ptr new_size none = none
move_to ptr new_size (some (buf, h)) =
    move_block ptr new_size buf h (seg_at (sub_size ptr header) [] h.segs)

abbrev resized_new : Option (ℕ × Heap) → Option Resized
resized_new none = none
resized_new (some (buf, h)) = some (record { ptr = buf; copied = 0; heap = h })

-- `krealloc_flags`; the flags play no part.
pub krealloc : Heap → (ptr new_size : ℕ) → Option Resized
krealloc h ptr new_size =
    if ptr == 0
    then resized_new (kmalloc h new_size)
    else if new_size == 0
    then moved_freed 0 0 (kfree h ptr)
    else move_to ptr new_size (kmalloc h new_size)

-- A list with one element more still has the others.
record IsStill {A : Type 0} (x y : List A) (n b : A) : Type 0 where
  pub before : List A
  pub after : List A
  pub both : x ++ (n ∷ y) ≡ before ++ (b ∷ after)

still :
    {A : Type 0} (x y before after : List A) (n b : A)
    → before ++ (b ∷ after) ≡ x ++ y
    → IsStill x y n b
still [] y before after n b e = record {
  before = n ∷ before;
  after = after;
  both = ap (λ l. n ∷ l) (sym e);
}
still (p ∷ x) y [] after n b e = record {
  before = [];
  after = x ++ (n ∷ y);
  both = ap (λ q. q ∷ (x ++ (n ∷ y))) (cc e);
}
still (p ∷ x) y (q ∷ before) after n b e =
    let more = still x y before after n b (cc e) in
    record { before = p ∷ more.before; after = more.after; both = ap (λ l. p ∷ l) more.both }

-- The new block has room for the new size, the bytes copied are all of the old block or as many as the
-- new size, whichever is less; among the blocks the old one has made place for the new one.
pub record IsMoved (h : Heap) (b : HeapSegment) (new_size : ℕ) (r : Resized) : Type 0 where
  pub block : HeapSegment
  pub here : r.ptr ≡ block.address + 32
  pub room : new_size ≤ block.length
  pub copied_old : r.copied ≤ b.length
  pub copied_new : r.copied ≤ new_size
  pub copied_all : (r.copied ≡ b.length) ⊎ (r.copied ≡ new_size)
  pub before : List HeapSegment
  pub after : List HeapSegment
  pub between : List HeapSegment
  pub beyond : List HeapSegment
  pub old : blocks h.segs ≡ before ++ after
  pub added : before ++ (block ∷ after) ≡ between ++ (b ∷ beyond)
  pub left : blocks (r.heap).segs ≡ between ++ beyond
  pub heap : IsHeap r.heap

abbrev pub Moved : Heap → HeapSegment → (new_size : ℕ) → Option Resized → Type 0
Moved h b new_size none = ⊥
Moved h b new_size (some r) = IsMoved h b new_size r

header_at :
    (h : Heap) (before after : List HeapSegment) (b : HeapSegment)
    → IsHeap h
    → blocks h.segs ≡ before ++ (b ∷ after)
    → (front : List HeapSegment) × ((back : List HeapSegment) × (seg_at
            (sub_size (b.address + 32) header)
            []
            h.segs
          ≡ some (front, b, back)))
header_at h before after b x e =
    let end = h.start + h.length in
    let p = placed h.segs before after b e in
    let front = put_back p.pre [] in
    let place : h.segs ≡ put_back front (b ∷ p.post) =
      p.split ∙ sym (put_back-put_back p.pre [] (b ∷ p.post)) in
    let layout = subst (λ l. Behind h.start false l end) place x.layout in
    let (at_front, whole, at_back) = split-Behind h.start end front b p.post layout in
    let below = Behind-below (seg_end b) b.free p.post end at_back in
    let bounded = x.bounded in
    let at : sub_size (b.address + 32) header ≡ b.address = ground arith in
    (
      front,
      (
        p.post,
        ap (λ a. seg_at a [] h.segs) at
            ∙ ap (seg_at b.address []) place
            ∙ seg_at_lem h.start end front b p.post layout,
      ),
    )

moved_freed-Moved :
    (h : Heap) (b : HeapSegment) (new_size buf : ℕ) (mid : Heap) (out : Option Heap)
    (a : IsAllocated h new_size buf mid) (s : IsStill a.before a.after a.block b)
    → Released mid s.before s.after out
    → Moved h b new_size
        (moved_freed buf (if ltb b.length new_size then b.length else new_size) out)
moved_freed-Moved h b new_size buf mid none a s r = r
moved_freed-Moved h b new_size buf mid (some new) a s r = record {
  block = a.block;
  here = a.here;
  room = a.room;
  copied_old = ground arith;
  copied_new = ground arith;
  copied_all = elim (Bool-cases (ltb b.length new_size)) [
    | inl e ↦ inl (rw e refl)
    | inr e ↦ inr (rw e refl)
  ];
  before = a.before;
  after = a.after;
  between = s.before;
  beyond = s.after;
  old = a.old;
  added = s.both;
  left = r.left;
  heap = r.heap;
}

move_to-Moved :
    (h : Heap) (before after : List HeapSegment) (b : HeapSegment) (new_size : ℕ)
    (out : Option (ℕ × Heap))
    → blocks h.segs ≡ before ++ (b ∷ after)
    → Allocated h new_size out
    → Moved h b new_size (move_to (b.address + 32) new_size out)
move_to-Moved h before after b new_size none e a = a
move_to-Moved h before after b new_size (some (buf, mid)) e a =
    let s = still a.before a.after before after a.block b (sym e ∙ a.old) in
    let blocks_mid : blocks mid.segs ≡ s.before ++ (b ∷ s.after) = a.added ∙ s.both in
    let (front, (back, found)) = header_at mid s.before s.after b a.heap blocks_mid in
    rw found (
      moved_freed-Moved h b new_size buf mid (kfree mid (b.address + 32)) a s
        (kfree-Released mid s.before s.after b a.heap blocks_mid))

-- Of a pointer to an allocated block, a new size that is not 0, and a heap that leave 8 KiB of the
-- address space: krealloc_flags returns a pointer to a block of at least the new size, and copies to
-- it as many bytes as the old block has, or as many as the new size if that is less. The allocated
-- blocks are those that there were, with the new one and without the old one, and the heap is
-- well-formed.
pub krealloc-Moved :
    (h : Heap) (before after : List HeapSegment) (b : HeapSegment) (new_size : ℕ)
    → IsHeap h
    → blocks h.segs ≡ before ++ (b ∷ after)
    → new_size ≢ 0
    → h.start + h.length + new_size + 8208 < 2 ^ 64
    → Moved h b new_size (krealloc h (b.address + 32) new_size)
unfolding krealloc
krealloc-Moved h before after b new_size x e some_size bound =
    let some_ptr : (b.address + 32 == 0) ≡ false = ground arith in
    rw (some_ptr, ne→test new_size 0 some_size)
      (move_to-Moved h before after b new_size (kmalloc h new_size) e
        (kmalloc-Allocated h new_size x bound))
