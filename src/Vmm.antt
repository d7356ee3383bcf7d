-- ===== src/Vmm.antt =====
-- kernel/mem/vmm.c and kernel/include/mem/vmm.h: the segments of an address space. The tree of the
-- segments is taken as the list of its nodes in order (see Avl): looking one up and inserting one are all
-- that the modelled calls do to it. Unmapping is left out, since it takes nodes from the tree
-- by `avltree_remove`, whose rebalancing is wrong (see Avl/Defects). Splitting a segment
-- fails when its operations refuse the cut or there is no memory: `refuse` is the error, if any. The
-- entries of the page table, the files and the devices behind a segment are not modelled.
pub mod View
pub mod Split
pub mod Cuts
pub mod Protect
pub mod Range
pub mod Fault
mod Tests
use stanix.Base.{
  ℕ, zero, suc, ◌+◌, ◌-◌, ◌*◌, ◌/◌, ◌%◌, ◌^◌, Bool, true, false, not, ◌&&◌, ◌||◌, Option, none,
  some, List, [], ◌∷◌, ◌++◌, leb, ltb, ◌==◌, if◌then◌else◌,
}
use stanix.Word.{add_size, sub_size}
use stanix.Errno.{Errno, einval, Result, done, fail}

-- VMM_FLAG_ANONYMOUS, VMM_FLAG_PRIVATE, VMM_FLAG_SHARED and VMM_FLAG_IO.
pub record VmmFlags : Type 0 where
  pub anonymous : Bool
  pub private : Bool
  pub shared : Bool
  pub io : Bool

-- `struct vmm_seg`, without what faults leave in it; a file is a number.
pub record VmmSegment : Type 0 where
  pub start : ℕ
  pub end : ℕ
  pub prot : ℕ
  pub flags : VmmFlags
  pub fd : Option ℕ
  pub offset : ℕ

abbrev pub Refuse : Type 0
Refuse = VmmSegment → ℕ → Option Errno

abbrev pub split_unless : VmmSegment → (cut : ℕ) → Option Errno → Result (VmmSegment × VmmSegment)
split_unless s cut (some e) = fail e
split_unless s cut none = done (
  record s { end = cut },
  record s { start = cut; offset = add_size s.offset (sub_size cut s.start) },
)

-- `vmm_space_split`: the segment below the cut and the new one.
pub split_segment : Refuse → VmmSegment → (cut : ℕ) → Result (VmmSegment × VmmSegment)
split_segment refuse s cut =
    if leb cut s.start
    then fail einval
    else if leb s.end cut
    then fail einval
    else split_unless s cut (refuse s cut)

-- The nodes before the one that `avltree_first_superior_or_equal` finds, and those from it on.
pub seek : (start : ℕ) → List VmmSegment → List VmmSegment × List VmmSegment
seek start [] = ([], [])
seek start (s ∷ rest) =
    let further = seek start rest in
    if leb s.end start then (s ∷ further.0, further.1) else ([], s ∷ rest)

abbrev pub front_of : Result (VmmSegment × VmmSegment) → Result (List VmmSegment × VmmSegment)
front_of (fail e) = fail e
front_of (done (low, mid)) = done (low ∷ [], mid)

-- The cut at the start of a range: what lies in front of it, and the segment.
pub cut_front : Refuse → (start : ℕ) → VmmSegment → Result (List VmmSegment × VmmSegment)
cut_front refuse start s =
    if ltb s.start start then front_of (split_segment refuse s start) else done ([], s)

abbrev pub back_of : Result (VmmSegment × VmmSegment) → Result (VmmSegment × List VmmSegment)
back_of (fail e) = fail e
back_of (done (mid, high)) = done (mid, high ∷ [])

-- The cut at the end of a range: the segment, and what lies behind it.
pub cut_back : Refuse → (end : ℕ) → VmmSegment → Result (VmmSegment × List VmmSegment)
cut_back refuse end s = if ltb end s.end then back_of (split_segment refuse s end) else done (s, [])

-- What a loop over a range leaves: the error that it returns, if any, and the segments.
pub record Ranged : Type 0 where
  pub error : Option Errno
  pub segs : List VmmSegment

abbrev pub behind : List VmmSegment → Ranged → Ranged
behind before r = record { error = r.error; segs = before ++ r.segs }

-- What `vmm_has_perm` or the operations of a segment answer to a protection: the error, if any.
abbrev pub Forbid : Type 0
Forbid = VmmSegment → ℕ → Option Errno

-- `vmm_space_chprot` of the segment in the range; the loop goes on, or stops at what was cut off behind.
abbrev pub protect_on :
    List VmmSegment
    → (prot : ℕ) → VmmSegment
    → List VmmSegment
    → List VmmSegment
    → Option Errno
    → Ranged
    → Ranged
protect_on low prot s high rest (some e) further = record {
  error = some e;
  segs = low ++ (s ∷ (high ++ rest));
}
protect_on low prot s [] rest none further = record {
  error = further.error;
  segs = low ++ (record s { prot = prot } ∷ further.segs);
}
protect_on low prot s (h ∷ high) rest none further = record {
  error = none;
  segs = low ++ (record s { prot = prot } ∷ ((h ∷ high) ++ rest));
}

abbrev pub protect_back :
    Forbid
    → List VmmSegment
    → (prot : ℕ) → VmmSegment
    → List VmmSegment
    → Result (VmmSegment × List VmmSegment)
    → Ranged
    → Ranged
protect_back forbid low prot mid rest (fail e) further = record {
  error = some e;
  segs = low ++ (mid ∷ rest);
}
protect_back forbid low prot mid rest (done (s, high)) further =
    protect_on low prot s high rest (forbid s prot) further

-- After the cut at the start the loop comes to the new segment, with the same tests.
abbrev pub protect_front :
    Refuse
    → Forbid
    → (end prot : ℕ) → VmmSegment
    → List VmmSegment
    → Result (List VmmSegment × VmmSegment)
    → Ranged
    → Ranged
protect_front refuse forbid end prot s rest (fail e) further = record {
  error = some e;
  segs = s ∷ rest;
}
protect_front refuse forbid end prot s rest (done (low, mid)) further =
    if leb end mid.start
    then (record { error = none; segs = low ++ (mid ∷ rest) })
    else protect_back forbid low prot mid rest (cut_back refuse end mid) further

-- The loop of `vmm_space_raw_chprot_range`.
pub protect_walk : Refuse → Forbid → (start end prot : ℕ) → List VmmSegment → Ranged
protect_walk refuse forbid start end prot [] = record { error = none; segs = [] }
protect_walk refuse forbid start end prot (s ∷ rest) =
    let further = protect_walk refuse forbid start end prot rest in
    if leb end s.start
    then (record { error = none; segs = s ∷ rest })
    else protect_front refuse forbid end prot s rest (cut_front refuse start s) further

-- `vmm_space_raw_chprot_range`
pub protect_range : Refuse → Forbid → (start end prot : ℕ) → List VmmSegment → Ranged
protect_range refuse forbid start end prot segs =
    let found = seek start segs in
    behind found.0 (protect_walk refuse forbid start end prot found.1)
