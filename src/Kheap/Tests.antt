-- ===== src/Kheap/Tests.antt =====
-- kernel/mem/kheap.c at a heap of one page.
use stanix.Base.{◌+◌, ◌≡◌, refl, true, false, some, [], ◌∷◌, arith}
use stanix.Kheap.{
  HeapSegment, Heap, init_kheap, kmalloc, kmalloc_in, kfree, choose, cut, free_found, free_segment,
  seg_at, merge_with_next, merge_with_prev,
}
use stanix.Kheap.Layout.{IsHeap}
use stanix.Kheap.Malloc.{Allocated, kmalloc-Allocated}
use stanix.Kheap.Release.{Released, kfree-Released}
use stanix.Kheap.Restore.{Restored, kfree-kmalloc}
use stanix.Kheap.Realloc.{Moved, krealloc, krealloc-Moved}

abbrev first_block : HeapSegment
first_block = record { address = 65536; length = 112; free = false }

abbrev one_block : Heap
one_block = record {
  segs = first_block ∷ record { address = 65680; length = 3920; free = true } ∷ [];
  start = 65536;
  length = 4096;
}

one_block-IsHeap : IsHeap one_block
one_block-IsHeap = record {
  layout = (refl, refl, refl, (refl, refl, refl, refl));
  aligned = refl;
  filled = omega arith;
  bounded = omega arith;
}

kmalloc_100 : kmalloc (init_kheap 65540) 100 ≡ some (65568, one_block)
unfolding init_kheap kmalloc kmalloc_in choose cut
kmalloc_100 = refl

kfree_block : kfree one_block 65568 ≡ some (init_kheap 65536)
unfolding init_kheap kfree free_found free_segment seg_at merge_with_next merge_with_prev
kfree_block = refl

kmalloc-Allocated_example : Allocated one_block 5000 (kmalloc one_block 5000)
kmalloc-Allocated_example = kmalloc-Allocated one_block 5000 one_block-IsHeap (omega arith)

kfree-Released_example : Released one_block [] [] (kfree one_block (65536 + 32))
kfree-Released_example = kfree-Released one_block [] [] first_block one_block-IsHeap refl

kfree-kmalloc_example : Restored one_block (kmalloc one_block 100)
kfree-kmalloc_example = kfree-kmalloc one_block 100 one_block-IsHeap (omega arith)

krealloc-Moved_example : Moved one_block first_block 50 (krealloc one_block (65536 + 32) 50)
krealloc-Moved_example =
    krealloc-Moved one_block [] [] first_block 50 one_block-IsHeap refl (omega arith) (omega arith)
