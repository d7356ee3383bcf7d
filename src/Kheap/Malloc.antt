-- ===== src/Kheap/Malloc.antt =====
-- What `kmalloc_flags` of kernel/mem/kheap.c returns and leaves.
use stanix.Base.{
  ℕ, ◌+◌, ◌%◌, ◌^◌, ◌≤◌, ◌<◌, ◌≡◌, refl, sym, ap, subst, ◌∙◌, true, false, Option, none, some, List,
  [], ◌∷◌, ◌++◌, inl, inr, arith,
}
use stanix.Word.{add_size}
use stanix.Kheap.{
  HeapSegment, Heap, Chosen, header, put_back, round_amount, choose, cut, take_chosen, kmalloc_in,
  kmalloc,
}
use stanix.Kheap.Layout.{
  seg_end, Behind, IsHeap, blocks, blocks-used, blocks-put_back, InFront-above, Behind-below,
  InFront-aligned,
}
use stanix.Kheap.Blocks.{put_back-append}
use stanix.Kheap.Choose.{IsChosen, choose-IsChosen}
use stanix.Kheap.Cut.{cut-IsCut, cut-layout}

-- The pointer leads behind the header of a block of at least the amount, and is a multiple of 16. The
-- allocated blocks are those that there were, and this one; the heap is well-formed, and starts where it
-- did.
pub record IsAllocated (h : Heap) (amount ptr : ℕ) (new : Heap) : Type 0 where
  pub block : HeapSegment
  pub before : List HeapSegment
  pub after : List HeapSegment
  pub here : ptr ≡ block.address + 32
  pub used : block.free ≡ false
  pub room : amount ≤ block.length
  pub aligned : ptr % 16 ≡ 0
  pub old : blocks h.segs ≡ before ++ after
  pub added : blocks new.segs ≡ before ++ (block ∷ after)
  pub heap : IsHeap new
  pub same_start : new.start ≡ h.start

pub take-IsAllocated :
    (h : Heap) (amount : ℕ) (c : Chosen)
    → IsHeap h
    → IsChosen h.start amount h.segs h.length c
    → amount % 16 ≡ 0
    → amount + 48 < 2 ^ 64
    → IsAllocated h amount ((take_chosen amount h c).0) ((take_chosen amount h c).1)
take-IsAllocated h amount c x k whole small =
    let end = h.start + c.length in
    let d =
      cut-IsCut amount c.seg c.back end k.free k.whole whole k.room k.bounded small k.behind in
    let below = Behind-below (seg_end c.seg) true c.back end k.behind in
    let above = InFront-above h.start c.front c.seg.address true k.front in
    let aligned = InFront-aligned h.start c.front c.seg.address true x.aligned k.front in
    let bounded = k.bounded in
    let ptr : add_size c.seg.address header ≡ c.seg.address + 32 = ground arith in
    let place : c.seg.address ≡ d.block.address = sym d.at in
    let grown : 0 < c.length = elim k.same [
      | inl e ↦ let f = x.filled in let g = e.1 in omega arith
      | inr e ↦ omega arith
    ] in
    record {
      block = d.block;
      before = put_back (blocks c.front) [];
      after = blocks c.back;
      here = ptr ∙ ap (λ a. a + 32) place;
      used = d.used;
      room = d.room;
      aligned = rw ptr (omega arith);
      old =
          sym k.kept
          ∙ blocks-put_back c.front (c.seg ∷ c.back)
          ∙ rw k.free (put_back-append (blocks c.front) (blocks c.back));
      added =
          ap (λ l. blocks (put_back c.front l)) d.shape
          ∙ blocks-put_back c.front (d.block ∷ d.rest)
          ∙ ap (put_back (blocks c.front))
              (blocks-used d.block d.rest d.used ∙ ap (λ l. d.block ∷ l) d.kept)
          ∙ put_back-append (blocks c.front) (d.block ∷ blocks c.back);
      heap = record {
        layout =
            cut-layout h.start amount c.front c.seg c.back end (cut amount c.seg c.back) d k.front;
        aligned = x.aligned;
        filled = grown;
        bounded = k.bounded;
      };
      same_start = refl;
    }

abbrev pub Allocated : Heap → (amount : ℕ) → Option (ℕ × Heap) → Type 0
Allocated h amount none = ⊥
Allocated h amount (some (ptr, new)) = IsAllocated h amount ptr new

abbrev pub chosen_in : (amount : ℕ) → Heap → HeapSegment → List HeapSegment → Chosen
chosen_in amount h first rest = choose amount [] first rest h.length

pub first-IsChosen :
    (h : Heap) (amount : ℕ) (first : HeapSegment) (rest : List HeapSegment)
    → IsHeap h
    → h.segs ≡ first ∷ rest
    → amount % 16 ≡ 0
    → h.start + h.length + amount + 8192 < 2 ^ 64
    → IsChosen h.start amount h.segs h.length (chosen_in amount h first rest)
first-IsChosen h amount first rest x e whole bound =
    let (at, w, apart, more) =
      subst (λ l. Behind h.start false l (h.start + h.length)) e x.layout in
    subst (λ l. IsChosen h.start amount l h.length (chosen_in amount h first rest)) (sym e)
      (choose-IsChosen h.start amount [] first rest h.length (sym at) w more whole bound)

kmalloc_in-Allocated :
    (h : Heap) (amount : ℕ) (segs : List HeapSegment)
    → IsHeap h
    → h.segs ≡ segs
    → amount % 16 ≡ 0
    → h.start + h.length + amount + 8192 < 2 ^ 64
    → Allocated h amount (kmalloc_in amount h segs)
unfolding kmalloc_in
kmalloc_in-Allocated h amount [] x e whole bound =
    let empty = subst (λ l. Behind h.start false l (h.start + h.length)) e x.layout in
    let filled = x.filled in absurd (omega arith)
kmalloc_in-Allocated h amount (first ∷ rest) x e whole bound =
    take-IsAllocated h amount (chosen_in amount h first rest) x
      (first-IsChosen h amount first rest x e whole bound) whole (omega arith)

Allocated_more :
    (h : Heap) (amount more : ℕ) (out : Option (ℕ × Heap))
    → amount ≤ more
    → Allocated h more out
    → Allocated h amount out
Allocated_more h amount more none le a = a
Allocated_more h amount more (some (ptr, new)) le a = record {
  block = a.block;
  before = a.before;
  after = a.after;
  here = a.here;
  used = a.used;
  room = let r = a.room in omega arith;
  aligned = a.aligned;
  old = a.old;
  added = a.added;
  heap = a.heap;
  same_start = a.same_start;
}

pub record IsRounded (amount rounded : ℕ) : Type 0 where
  pub above : amount ≤ rounded
  pub near : rounded < amount + 16
  pub whole : rounded % 16 ≡ 0

pub round_amount-IsRounded :
    (amount : ℕ) → amount + 16 < 2 ^ 64 → IsRounded amount (round_amount amount)
round_amount-IsRounded amount h = record {
  above = ground arith;
  near = ground arith;
  whole = ground arith;
}

-- Of a well-formed heap and an amount that leave 8 KiB of the address space: kmalloc_flags returns a
-- pointer behind the header of a block of at least the amount, which is a multiple of 16. The allocated
-- blocks are those that there were, and this one. The heap stays well-formed: the segments lie one behind
-- another from its start, which is the same, to its end, and no two free ones are side by side.
pub kmalloc-Allocated :
    (h : Heap) (amount : ℕ)
    → IsHeap h
    → h.start + h.length + amount + 8208 < 2 ^ 64
    → Allocated h amount (kmalloc h amount)
unfolding kmalloc
kmalloc-Allocated h amount x bound =
    let r = round_amount-IsRounded amount (omega arith) in
    let near = r.near in
    Allocated_more h amount (round_amount amount) (kmalloc_in (round_amount amount) h h.segs)
      r.above (kmalloc_in-Allocated h (round_amount amount) h.segs x refl r.whole (omega arith))
