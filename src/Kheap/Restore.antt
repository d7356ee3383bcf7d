-- ===== src/Kheap/Restore.antt =====
-- `kmalloc_flags` and then `kfree` of kernel/mem/kheap.c.
use stanix.Base.{
  ℕ, ◌+◌, ◌%◌, ◌^◌, ◌<◌, ◌≡◌, ◌⊎◌, refl, sym, ap, ap₂, subst, ◌∙◌, true, false, Option, none, some,
  List, [], ◌∷◌, ◌++◌, Bool-cases, inl, inr, arith,
}
use stanix.Word.{add_size}
use stanix.Kheap.{
  HeapSegment, Heap, Chosen, header, put_back, cut, take_chosen, merge_with_prev, free_segment,
  round_amount, kmalloc_in, kmalloc, kfree,
}
use stanix.Kheap.Layout.{seg_end, Behind, InFront, IsHeap, blocks, Behind-below}
use stanix.Kheap.Choose.{IsChosen}
use stanix.Kheap.Cut.{IsCut, cut-IsCut}
use stanix.Kheap.Malloc.{chosen_in, first-IsChosen, take-IsAllocated, round_amount-IsRounded}
use stanix.Kheap.Release.{kfree_at, kfree-Released, Released}

-- In front of a free segment there is nothing to merge it with.
unmerged_front :
    (start : ℕ) (front : List HeapSegment) (s : HeapSegment) (back : List HeapSegment)
    → InFront start front s.address true
    → merge_with_prev front (s ∷ back) ≡ put_back front (s ∷ back)
unfolding merge_with_prev
unmerged_front start [] s back f = refl
unmerged_front start (prev ∷ front) s back (at, w, apart, more) = elim (Bool-cases prev.free) [
  | inl e ↦ absurd (ground (arith, e, apart))
  | inr e ↦ simp e refl
]

-- The segments of a cut are those before the cut when the block is freed.
cut_undone :
    (start amount : ℕ) (front : List HeapSegment) (s : HeapSegment) (back : List HeapSegment)
    (end : ℕ) (out : List HeapSegment) (d : IsCut amount s back end out)
    → InFront start front s.address true
    → free_segment front d.block d.rest ≡ put_back front (s ∷ back)
unfolding free_segment
cut_undone start amount front s back end out d f =
    let used = d.used in
    simp used (ap (merge_with_prev front) d.undone ∙ unmerged_front start front s back f)

-- What is left when the block is freed: all that was there before, exactly, unless the heap has grown;
-- and then the same allocated blocks, in a well-formed heap.
pub record IsRestored (h : Heap) (ptr : ℕ) (new : Heap) : Type 0 where
  pub freed : Heap
  pub call : kfree new ptr ≡ some freed
  pub heap : IsHeap freed
  pub kept : blocks freed.segs ≡ blocks h.segs
  pub same : (freed ≡ h) ⊎ (h.length < new.length)

abbrev pub Restored : Heap → Option (ℕ × Heap) → Type 0
Restored h none = ⊥
Restored h (some (ptr, new)) = IsRestored h ptr new

exact :
    (h : Heap) (segs : List HeapSegment) (length : ℕ)
    → segs ≡ h.segs
    → length ≡ h.length
    → record { segs = segs; start = h.start; length = length } ≡ h
exact h segs length e f =
    let make : List HeapSegment → ℕ → Heap =
      λ l n. record { segs = l; start = h.start; length = n } in
    ap₂ make e f

Released-some :
    (h : Heap) (before after : List HeapSegment) (out : Option Heap) (k : Heap)
    → out ≡ some k
    → Released h before after out
    → IsHeap k × (blocks k.segs ≡ before ++ after)
Released-some h before after out k e r =
    let released = subst (Released h before after) e r in (released.heap, released.left)

take-IsRestored :
    (h : Heap) (amount : ℕ) (c : Chosen)
    → IsHeap h
    → IsChosen h.start amount h.segs h.length c
    → amount % 16 ≡ 0
    → amount + 48 < 2 ^ 64
    → IsRestored h ((take_chosen amount h c).0) ((take_chosen amount h c).1)
take-IsRestored h amount c x k whole small =
    let end = h.start + c.length in
    let d =
      cut-IsCut amount c.seg c.back end k.free k.whole whole k.room k.bounded small k.behind in
    let a = take-IsAllocated h amount c x k whole small in
    let new = (take_chosen amount h c).1 in
    let ptr = (take_chosen amount h c).0 in
    let below = Behind-below (seg_end c.seg) true c.back end k.behind in
    let bounded = k.bounded in
    let wide : add_size c.seg.address header ≡ c.seg.address + 32 = ground arith in
    let at : add_size c.seg.address header ≡ d.block.address + 32 =
      wide ∙ ap (λ x. x + 32) (sym d.at) in
    let freed : Heap = record new { segs = free_segment c.front d.block d.rest } in
    let call : kfree new ptr ≡ some freed =
      ap (kfree new) at
      ∙ kfree_at new c.front d.block d.rest a.heap (ap (put_back c.front) d.shape) in
    let (heap, left) = Released-some new a.before a.after (kfree new ptr) freed call (
      subst (λ p. Released new a.before a.after (kfree new p)) (sym a.here)
        (kfree-Released new a.before a.after a.block a.heap a.added)) in
    let undone =
      cut_undone h.start amount c.front c.seg c.back end (cut amount c.seg c.back) d k.front in
    record {
      freed = freed;
      call = call;
      heap = heap;
      kept = left ∙ sym a.old;
      same = elim k.same [
        | inl e ↦ inl (exact h (free_segment c.front d.block d.rest) c.length (undone ∙ e.0) e.1)
        | inr e ↦ inr e
      ];
    }

kmalloc_in-Restored :
    (h : Heap) (amount : ℕ) (segs : List HeapSegment)
    → IsHeap h
    → h.segs ≡ segs
    → amount % 16 ≡ 0
    → h.start + h.length + amount + 8192 < 2 ^ 64
    → Restored h (kmalloc_in amount h segs)
unfolding kmalloc_in
kmalloc_in-Restored h amount [] x e whole bound =
    let empty = subst (λ l. Behind h.start false l (h.start + h.length)) e x.layout in
    let filled = x.filled in absurd (omega arith)
kmalloc_in-Restored h amount (first ∷ rest) x e whole bound =
    take-IsRestored h amount (chosen_in amount h first rest) x
      (first-IsChosen h amount first rest x e whole bound) whole (omega arith)

-- Of a well-formed heap and an amount that leave 8 KiB of the address space: when the pointer that
-- kmalloc_flags returns is freed, the heap is exactly what it was before both calls, unless it had to
-- grow; and then it is well-formed, and the allocated blocks are those that there were.
pub kfree-kmalloc :
    (h : Heap) (amount : ℕ)
    → IsHeap h
    → h.start + h.length + amount + 8208 < 2 ^ 64
    → Restored h (kmalloc h amount)
unfolding kmalloc
kfree-kmalloc h amount x bound =
    let r = round_amount-IsRounded amount (omega arith) in
    let near = r.near in
    kmalloc_in-Restored h (round_amount amount) h.segs x refl r.whole (omega arith)
