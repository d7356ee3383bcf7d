-- ===== src/Kheap/Start.antt =====
-- `init_kheap` of kernel/mem/kheap.c, and amounts that wrap round in `kmalloc_flags`.
use stanix.Base.{ℕ, ◌+◌, ◌^◌, ◌<◌, ◌≡◌, refl, ap, [], arith}
use stanix.Kheap.{Heap, init_kheap, round_amount, kmalloc, kmalloc_in}
use stanix.Kheap.Layout.{IsHeap, blocks}

-- After init_kheap, at an address with a page behind it, the heap is well-formed, one page long, and has
-- no allocated block.
pub init_kheap-IsHeap :
    (mem_start : ℕ)
    → mem_start + 4096 < 2 ^ 64
    → IsHeap (init_kheap mem_start) × (blocks (init_kheap mem_start).segs ≡ [])
unfolding init_kheap
init_kheap-IsHeap mem_start h = (
  record {
    layout = (refl, refl, refl, omega arith);
    aligned = omega arith;
    filled = omega arith;
    bounded = omega arith;
  },
  refl,
)

-- An amount less than 16 below 2 ^ 64 wraps round to 0: kmalloc_flags does as it does for 0, and
-- returns a block where no byte need have room.
pub kmalloc-wraps :
    (h : Heap) (amount : ℕ)
    → 2 ^ 64 < amount + 16
    → amount < 2 ^ 64
    → kmalloc h amount ≡ kmalloc h 0
unfolding kmalloc
kmalloc-wraps h amount low high =
    let none_left : round_amount amount ≡ 0 = ground arith in
    ap (λ a. kmalloc_in a h h.segs) none_left
