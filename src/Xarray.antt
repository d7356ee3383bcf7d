-- ===== src/Xarray.antt =====
-- kernel/klib/xarray.c and kernel/include/klib/xarray.h: the sparse array that the page cache, the
-- inodes, the devices and the file descriptors are kept in, a radix tree with 64 entries in a node. A
-- node is a value, its mask and its entries functions of the local index. A value is a pointer that is
-- not NULL, given as a number; NULL is `none`. The lowest bit, which tells nodes from values, is the
-- constructor. Allocating a node does not fail, as in the code. The lock makes each call atomic.
pub mod Index
pub mod Lookup
pub mod Update
pub mod Growth
pub mod Store
pub mod Seek
pub mod Search
pub mod Path
pub mod Place
pub mod Alloc
pub mod Exchange
pub mod Defects
mod Tests
use stanix.Base.{
  ℕ, zero, suc, ◌+◌, ◌-◌, ◌*◌, ◌/◌, ◌%◌, ◌^◌, Bool, true, false, not, ◌&&◌, Option, none, some, ltb,
  leb, ◌==◌, if◌then◌else◌,
}

-- An entry (`rcu_ptr_t`), with what it points to.
pub data Entry : Type 0 where
  empty : Entry
  value : ℕ → Entry
  node : (shift : ℕ) → (full_mask : ℕ → Bool) → (entries : ℕ → Entry) → Entry

-- `xarray_entry_from_value`
abbrev pub from_value : Option ℕ → Entry
from_value none = empty
from_value (some v) = value v

-- `xarray_node_get_local_index`
abbrev pub local_index : (shift index : ℕ) → ℕ
local_index shift index = index / 2 ^ shift % 64

-- An assignment to an entry, or to a bit of the mask.
abbrev pub assign {ℓ} : {A : Type ℓ} → (ℕ → A) → ℕ → A → ℕ → A
assign f i a j = if j == i then a else f j

-- `full_mask == UINT64_MAX`
abbrev pub all_set : ℕ → (ℕ → Bool) → Bool
all_set zero mask = true
all_set (suc n) mask = mask n && all_set n mask

abbrev pub is_full : (ℕ → Bool) → Bool
is_full mask = all_set 64 mask

abbrev pub no_bits : ℕ → Bool
no_bits i = false

abbrev pub no_entries : ℕ → Entry
no_entries i = empty

-- How many bits of an index an entry at the root stands for.
abbrev pub width : Entry → ℕ
width empty = 0
width (value v) = 0
width (node shift mask entries) = shift + 6

-- `xarray_is_in_bound`
pub is_in_bound : Entry → ℕ → Bool
is_in_bound entry index = ltb index (2 ^ width entry)

-- The loop of `xarray_raw_get`.
pub get_walk : Entry → ℕ → Option ℕ
get_walk empty index = none
get_walk (value v) index = some v
get_walk (node shift mask entries) index = get_walk (entries (local_index shift index)) index

-- `xarray_raw_get`, of the root.
pub raw_get : Entry → ℕ → Option ℕ
raw_get root index = if is_in_bound root index then get_walk root index else none

-- The last loop of `xarray_raw_set`: new nodes down to the value. Each round takes 6 from the shift.
pub new_path : ℕ → (shift index v : ℕ) → Entry
new_path zero shift index v = value v
new_path (suc fuel) shift index v =
    let rest = new_path fuel (shift - 6) index v in
    let local = local_index (shift - 6) index in
    if leb 6 shift
    then node (shift - 6) (assign no_bits local true) (assign no_entries local rest)
    else value v

-- What the walk of `xarray_raw_set` leaves: the value that was there, the entry, and whether the nodes
-- above are still to be marked.
pub record Walked : Type 0 where
  pub old : Option ℕ
  pub entry : Entry
  pub reports : Bool

abbrev pub is_some : Option ℕ → Bool
is_some none = false
is_some (some v) = true

-- The way back to a node, when a value was stored.
pub backtrack : (shift : ℕ) → (ℕ → Bool) → (ℕ → Entry) → ℕ → Walked → Walked
backtrack shift mask entries local below =
    let marked = assign mask local true in
    if below.reports
    then (record {
      old = below.old;
      entry = node shift marked (assign entries local below.entry);
      reports = is_full marked;
    })
    else (record {
      old = below.old;
      entry = node shift mask (assign entries local below.entry);
      reports = false;
    })

-- On the way down to NULL the bits of the mask are cleared.
pub unmark : (shift : ℕ) → (ℕ → Bool) → (ℕ → Entry) → ℕ → Walked → Walked
unmark shift mask entries local below = record {
  old = below.old;
  entry = node shift (assign mask local false) (assign entries local below.entry);
  reports = false;
}

-- The walk of `xarray_raw_set`; `shift` is `current_shift`.
pub set_walk : Entry → (shift index : ℕ) → Option ℕ → Walked
set_walk empty shift index none = record { old = none; entry = empty; reports = false }
set_walk empty shift index (some v) = record {
  old = none;
  entry = new_path shift shift index v;
  reports = false;
}
set_walk (value old) shift index new = record {
  old = some old;
  entry = from_value new;
  reports = is_some new;
}
set_walk (node s mask entries) shift index none =
    unmark s mask entries (local_index s index)
      (set_walk (entries (local_index s index)) s index none)
set_walk (node s mask entries) shift index (some v) =
    backtrack s mask entries (local_index s index)
      (set_walk (entries (local_index s index)) s index (some v))

-- The shift at which the index is in bound.
pub target_shift : ℕ → (index shift : ℕ) → ℕ
target_shift zero index shift = shift
target_shift (suc fuel) index shift =
    let further = target_shift fuel index (shift + 6) in
    if leb (2 ^ shift) index then further else shift

-- The loop that puts nodes above the root.
pub grow_to : ℕ → (current target : ℕ) → (previous_is_full : Bool) → Entry → Entry
grow_to zero current target full entry = entry
grow_to (suc fuel) current target full entry =
    let further =
      grow_to fuel (current + 6) target false
        (node current (assign no_bits 0 full) (assign no_entries 0 entry)) in
    if ltb current target then further else entry

abbrev pub root_is_full : Entry → Bool
root_is_full empty = false
root_is_full (value v) = true
root_is_full (node shift mask entries) = is_full mask

-- 66 bits are more than an index has.
pub grow_root : Entry → ℕ → Entry
grow_root root index = grow_to 11 (width root) (target_shift 11 index 0) (root_is_full root) root

-- `xarray_raw_set`: the old value and the new root.
pub raw_set : Entry → ℕ → Option ℕ → Option ℕ × Entry
raw_set root index none =
    let walked = set_walk root 0 index none in
    if is_in_bound root index then (walked.old, walked.entry) else (none, root)
raw_set root index (some v) =
    let grown = if is_in_bound root index then root else grow_root root index in
    let walked = set_walk grown 0 index (some v) in (walked.old, walked.entry)
