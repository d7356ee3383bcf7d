-- ===== src/Kheap.antt =====
-- kernel/mem/kheap.c and kernel/include/mem/kheap.h: the kernel heap, a list of segments that lie one
-- behind another, each behind its header of 32 bytes. The linked list is a list; a place in it is the
-- segments in front, the nearest first, and those behind. The pages behind the heap are taken to be
-- there when it grows (`mmu_allocate_and_map_pages` returns nothing that is tested). The spinlock makes
-- each call atomic.
pub mod Layout
pub mod Blocks
pub mod Choose
pub mod Cut
pub mod Malloc
pub mod Free
pub mod Release
pub mod Restore
pub mod Realloc
pub mod Start
mod Tests
use stanix.Base.{
  ℕ, ◌+◌, ◌-◌, ◌*◌, ◌/◌, ◌%◌, ◌^◌, Bool, true, false, ◌&&◌, Option, none, some, List, [], ◌∷◌, leb,
  ltb, ◌==◌, if◌then◌else◌,
}
use stanix.Word.{add_size, sub_size}

-- `heap_segment_t`, at its address; its magic number says whether it is free.
pub record HeapSegment : Type 0 where
  pub address : ℕ
  pub length : ℕ
  pub free : Bool

-- `first_seg` and the segments behind it, `kheap_start`, `kheap_length`.
pub record Heap : Type 0 where
  pub segs : List HeapSegment
  pub start : ℕ
  pub length : ℕ

-- `sizeof(heap_segment_t)`
abbrev pub header : ℕ
header = 32

-- `PAGE_ALIGN_DOWN` and `PAGE_ALIGN_UP`
abbrev pub page_align_down : ℕ → ℕ
page_align_down a = a / 4096 * 4096

abbrev pub page_align_up : ℕ → ℕ
page_align_up a = add_size a 4095 / 4096 * 4096

-- `init_kheap`, at MEM_KHEAP_START.
pub init_kheap : ℕ → Heap
init_kheap mem_start =
    let start = page_align_down mem_start in
    record {
      segs = record { address = start; length = 4096 - header; free = true } ∷ [];
      start = start;
      length = 4096;
    }

-- `change_kheap_size`: the new length.
abbrev pub change_kheap_size : (length offset : ℕ) → ℕ
change_kheap_size length offset =
    if offset == 0 then length else add_size length (offset / 4096 * 4096)

-- The amount made a multiple of 16.
abbrev pub round_amount : ℕ → ℕ
round_amount amount = if amount % 16 == 0 then amount else add_size amount (16 - amount % 16)

abbrev pub put_back : List HeapSegment → List HeapSegment → List HeapSegment
put_back [] back = back
put_back (s ∷ front) back = put_back front (s ∷ back)

-- The segment that the loop ends at, and the length of the heap then.
pub record Chosen : Type 0 where
  pub front : List HeapSegment
  pub seg : HeapSegment
  pub back : List HeapSegment
  pub length : ℕ

-- The condition that the loop ends with.
abbrev pub suits : ℕ → HeapSegment → Bool
suits amount s = leb amount s.length && s.free

-- By how much the heap grows at a last segment that is free, and at one that is not.
abbrev pub growth_free : (amount : ℕ) → HeapSegment → ℕ
growth_free amount s = page_align_up (add_size (sub_size amount s.length) (header + 16))

abbrev pub growth_behind : ℕ → ℕ
growth_behind amount = page_align_up (add_size amount (header * 2 + 16))

-- The loop at its last segment: the heap is made bigger.
pub extend : (amount : ℕ) → List HeapSegment → HeapSegment → (length : ℕ) → Chosen
extend amount front s length =
    if s.free
    then (record {
      front = front;
      seg = record s { length = add_size s.length (growth_free amount s) };
      back = [];
      length = change_kheap_size length (growth_free amount s);
    })
    else (record {
      front = s ∷ front;
      seg = record {
        address = add_size (add_size s.address s.length) header;
        length = sub_size (growth_behind amount) header;
        free = true;
      };
      back = [];
      length = change_kheap_size length (growth_behind amount);
    })

-- The loop of `kmalloc_flags`.
pub choose :
    (amount : ℕ) → List HeapSegment → HeapSegment → List HeapSegment → (length : ℕ) → Chosen
choose amount front s [] length =
    if suits amount s
    then (record { front = front; seg = s; back = []; length = length })
    else extend amount front s length
choose amount front s (next ∷ back) length =
    let further = choose amount (s ∷ front) next back length in
    if suits amount s
    then (record { front = front; seg = s; back = next ∷ back; length = length })
    else further

-- The segment cut if it is large enough, and marked as allocated, in front of those behind it.
pub cut : (amount : ℕ) → HeapSegment → List HeapSegment → List HeapSegment
cut amount s back =
    if leb (add_size (add_size amount header) 16) s.length
    then record { address = s.address; length = amount; free = false }
      ∷ record {
        address = add_size (add_size s.address amount) header;
        length = sub_size s.length (add_size header amount);
        free = true;
      }
      ∷ back
    else record s { free = false } ∷ back

-- The end of `kmalloc_flags`: the pointer and the heap.
abbrev pub take_chosen : (amount : ℕ) → Heap → Chosen → ℕ × Heap
take_chosen amount h c = (
  add_size c.seg.address header,
  record { segs = put_back c.front (cut amount c.seg c.back); start = h.start; length = c.length },
)

-- `kmalloc_flags`; `none` when there is no first segment, before `init_kheap`.
pub kmalloc_in : (amount : ℕ) → Heap → List HeapSegment → Option (ℕ × Heap)
kmalloc_in amount h [] = none
kmalloc_in amount h (first ∷ rest) =
    some (take_chosen amount h (choose amount [] first rest h.length))

pub kmalloc : Heap → (amount : ℕ) → Option (ℕ × Heap)
kmalloc h amount = kmalloc_in (round_amount amount) h h.segs

-- A segment merged with the one behind it, if that is free.
pub merge_with_next : HeapSegment → List HeapSegment → List HeapSegment
merge_with_next s [] = s ∷ []
merge_with_next s (next ∷ back) =
    if next.free
    then record s { length = add_size s.length (add_size next.length header) } ∷ back
    else s ∷ next ∷ back

-- The segments put back, the first one behind merged with the one in front of it, if that is free.
pub merge_with_prev : List HeapSegment → List HeapSegment → List HeapSegment
merge_with_prev [] back = back
merge_with_prev (prev ∷ front) [] = put_back (prev ∷ front) []
merge_with_prev (prev ∷ front) (s ∷ back) =
    if prev.free
    then put_back front
        (record prev { length = add_size prev.length (add_size s.length header) } ∷ back)
    else put_back (prev ∷ front) (s ∷ back)

-- What the header at an address is: a place in the list, if a segment is there.
pub seg_at :
    (address : ℕ)
    → List HeapSegment
    → List HeapSegment
    → Option (List HeapSegment × HeapSegment × List HeapSegment)
seg_at address front [] = none
seg_at address front (s ∷ back) =
    let further = seg_at address (s ∷ front) back in
    if s.address == address then some (front, s, back) else further

-- `kfree` of a segment. A free one is left as it is.
pub free_segment : List HeapSegment → HeapSegment → List HeapSegment → List HeapSegment
free_segment front s back =
    if s.free
    then put_back front (s ∷ back)
    else merge_with_prev front (merge_with_next (record s { free = true }) back)

pub free_found : Heap → Option (List HeapSegment × HeapSegment × List HeapSegment) → Option Heap
free_found h none = none
free_found h (some (front, s, back)) = some (record h { segs = free_segment front s back })

-- `kfree`; `none` when no segment is there, which panics or reads what is no header.
pub kfree : Heap → (ptr : ℕ) → Option Heap
kfree h ptr = if ptr == 0 then some h else free_found h (seg_at (sub_size ptr header) [] h.segs)
