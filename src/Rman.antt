-- ===== src/Rman.antt =====
-- kernel/drivers/resource.c: the resource manager, which hands out ranges of ports, interrupts or
-- memory to devices. The linked list of segments is a list; a device node is a number. The mutex makes
-- each call atomic. Whether a `slab_alloc` succeeds is an argument of the call.
pub mod Cover
pub mod Region
pub mod Fit
pub mod Allocate
mod Tests
use stanix.Base.{
  ℕ, ◌+◌, ◌-◌, ◌%◌, ◌^◌, Bool, true, false, not, ◌&&◌, Option, none, some, List, [], ◌∷◌, ltb, leb,
  ◌==◌, if◌then◌else◌,
}
use stanix.Word.{add_size, sub_size}
use stanix.Errno.{Errno, einval, enomem}

-- `rman_seg_t`
pub record Seg : Type 0 where
  pub start : ℕ
  pub size : ℕ
  pub devnode : Option ℕ

abbrev pub is_allocated : Option ℕ → Bool
is_allocated none = false
is_allocated (some device) = true

-- The address behind a segment.
abbrev pub seg_end : Seg → ℕ
seg_end s = add_size s.start s.size

abbrev pub free_seg : ℕ → ℕ → Seg
free_seg start size = record { start = start; size = size; devnode = none }

-- The segments in front of a place, the nearest first, put back.
abbrev pub put_back : List Seg → List Seg → List Seg
put_back [] back = back
put_back (s ∷ front) back = put_back front (s ∷ back)

-- The second half of `rman_merge`.
pub merge_next : Seg → List Seg → List Seg
merge_next s [] = s ∷ []
merge_next s (next ∷ back) =
    if seg_end s == next.start && not (is_allocated next.devnode)
    then record s { size = add_size s.size next.size } ∷ back
    else s ∷ next ∷ back

-- `rman_merge`, of a segment between those in front of it and those behind.
pub merge : List Seg → Seg → List Seg → List Seg
merge [] s back = merge_next s back
merge (prev ∷ front) s back =
    if seg_end prev == s.start && not (is_allocated prev.devnode)
    then put_back front
        (merge_next (record s { start = prev.start; size = add_size s.size prev.size }) back)
    else put_back (prev ∷ front) (merge_next s back)

-- Whether a new region would overlap the segment in front of it, or the one behind.
abbrev pub overlaps_before : List Seg → ℕ → Bool
overlaps_before [] start = false
overlaps_before (before ∷ front) start = ltb start (seg_end before)

abbrev pub overlaps_after : List Seg → ℕ → ℕ → Bool
overlaps_after [] start size = false
overlaps_after (after ∷ back) start size = ltb after.start (add_size start size)

-- What adding a region returns: an error, or the segments.
pub data Added : Type 0 where
  added : List Seg → Added
  refused : Errno → Added

pub add_between : (memory : Bool) → List Seg → List Seg → ℕ → ℕ → Added
add_between memory front back start size =
    if overlaps_before front start
    then refused einval
    else if overlaps_after back start size
    then refused einval
    else if memory
    then added (merge front (free_seg start size) back)
    else refused enomem

-- `rman_get_seg_before` walks to the first segment that does not start below the new region.
pub add_walk : (memory : Bool) → List Seg → List Seg → ℕ → ℕ → Added
add_walk memory front [] start size = add_between memory front [] start size
add_walk memory front (s ∷ back) start size =
    let further = add_walk memory (s ∷ front) back start size in
    if leb start s.start then add_between memory front (s ∷ back) start size else further

-- `rman_raw_add_region`
pub add_region : (memory : Bool) → List Seg → (start size : ℕ) → Added
add_region memory segs start size = add_walk memory [] segs start size

-- `resource_request_t`; the bound and the flags play no part.
pub record Request : Type 0 where
  pub start : ℕ
  pub end : ℕ
  pub size : ℕ
  pub align : ℕ

-- RESOURCE_ANY_SIZE and RESOURCE_ANY_ALIGN stand for 1.
abbrev pub or_one : ℕ → ℕ
or_one n = if n == 0 then 1 else n

-- The part of a free segment inside the request: where it starts, how long it is.
abbrev pub strip_start : Request → Seg → ℕ
strip_start r s = if ltb s.start r.start then r.start else s.start

abbrev pub strip_before : Request → Seg → ℕ
strip_before r s =
    if ltb s.start r.start then sub_size s.size (sub_size r.start s.start) else s.size

abbrev pub strip_count : Request → Seg → ℕ
strip_count r s =
    if ltb r.end (add_size (strip_start r s) (strip_before r s))
    then sub_size r.end (strip_start r s)
    else strip_before r s

-- What alignment adds to the start.
abbrev pub padding : ℕ → ℕ → ℕ
padding start align = if start % align == 0 then 0 else align - start % align

-- The end of the loop's body: the start of the resource, if the segment is large enough.
pub fit : Request → Seg → Option ℕ
fit r s =
    let start = strip_start r s in
    let count = strip_count r s in
    let to_add = padding start (or_one r.align) in
    if ltb count to_add
    then none
    else if ltb (sub_size count to_add) (or_one r.size)
    then none
    else some (add_size start to_add)

-- What an allocation returns: an error and the segments, or the segment that the resource points
-- to, with those in front of it and behind.
pub data Allocated : Type 0 where
  granted : List Seg → Seg → List Seg → Allocated
  denied : Errno → List Seg → Allocated

-- Which of the three allocations succeed: the segment split off in front, the one behind, the
-- resource.
pub record Memory : Type 0 where
  pub front : Bool
  pub behind : Bool
  pub resource : Bool

pub give : Memory → (device : ℕ) → List Seg → Seg → List Seg → Allocated
give m device front s back =
    if m.resource
    then granted front (record s { devnode = some device }) back
    else denied enomem (put_back front (s ∷ back))

pub split_behind : Memory → (device start size : ℕ) → List Seg → Seg → List Seg → Allocated
split_behind m device start size front s back =
    if ltb size s.size
    then (if m.behind
        then (let rest = sub_size s.size size in
            give m device front (record s { size = sub_size s.size rest })
              (free_seg (add_size start size) rest ∷ back))
        else denied enomem (put_back front (s ∷ back)))
    else give m device front s back

-- What `rman_raw_allocate` does with the segment it found. What was split stays split when a later
-- allocation fails.
pub split : Memory → (device start size : ℕ) → List Seg → Seg → List Seg → Allocated
split m device start size front s back =
    if ltb s.start start
    then (if m.front
        then (let before = sub_size start s.start in
            split_behind m device start size (free_seg s.start before ∷ front)
              (record s { start = add_size s.start before; size = sub_size s.size before }) back)
        else denied enomem (put_back front (s ∷ back)))
    else split_behind m device start size front s back

-- The segment is used when the resource fits, or the loop goes on.
pub split_or :
    Option ℕ → Memory → (device size : ℕ) → List Seg → Seg → List Seg → Allocated → Allocated
split_or none m device size front s back further = further
split_or (some start) m device size front s back further = split m device start size front s back

-- The loop of `rman_raw_allocate`.
pub allocate_walk : Memory → (device : ℕ) → Request → List Seg → List Seg → Allocated
allocate_walk m device r front [] = denied enomem (put_back front [])
allocate_walk m device r front (s ∷ back) =
    let further = allocate_walk m device r (s ∷ front) back in
    if leb (seg_end s) r.start
    then further
    else if leb r.end s.start
    then denied enomem (put_back front (s ∷ back))
    else if is_allocated s.devnode
    then further
    else split_or (fit r s) m device (or_one r.size) front s back further

-- `rman_raw_allocate`
pub allocate : Memory → (device : ℕ) → Request → List Seg → Allocated
allocate m device r segs =
    if r.start % or_one r.align == 0 then allocate_walk m device r [] segs else denied einval segs

-- `rman_raw_free`, of the segment that the resource points to.
pub free : List Seg → Seg → List Seg → List Seg
free front s back = merge front (record s { devnode = none }) back
