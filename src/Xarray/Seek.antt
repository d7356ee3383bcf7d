-- ===== src/Xarray/Seek.antt =====
-- The searches of kernel/klib/xarray.c: for the next value, for a place for a new one, and the exchange.
use stanix.Base.{
  ℕ, zero, suc, ◌+◌, ◌-◌, ◌*◌, ◌^◌, Bool, true, false, Option, none, some, ltb, leb, ◌==◌,
  if◌then◌else◌,
}
use stanix.Xarray.{
  Entry, empty, value, node, local_index, assign, is_full, no_bits, no_entries, width, is_in_bound,
  raw_get, raw_set,
}

-- What a search finds: the index, and the value there.
pub record Found : Type 0 where
  pub index : ℕ
  pub found : ℕ

-- What the loop over the entries returns for a child: the index gets the child's place.
unfoldable pub step_found : (shift i : ℕ) → Option Found → Option Found → Option Found
step_found shift i none rest = rest
step_found shift i (some f) rest =
    some (record { index = f.index + i * 2 ^ shift; found = f.found })

-- The loop of `xarray_entry_find_non_null`, from entry `i` on, with `left` entries left; `search` is the
-- recursive call.
unfoldable pub find_loop :
    (left : ℕ) → (search : ℕ → ℕ → Option Found) → (shift start min i : ℕ) → Option Found
find_loop zero search shift start min i = none
find_loop (suc left) search shift start min i =
    step_found shift i (search i (if i == start then min else 0))
      (find_loop left search shift start min (i + 1))

-- `xarray_entry_find_non_null`
unfoldable pub find_non_null : Entry → (min : ℕ) → Option Found
find_non_null empty min = none
find_non_null (value v) min = some (record { index = 0; found = v })
find_non_null (node shift mask entries) min =
    let start = local_index shift min in
    find_loop (64 - start) (λ i m. find_non_null (entries i) m) shift start min start

-- `xarray_raw_first_from`
unfoldable pub raw_first_from : Entry → (from : ℕ) → Option Found
raw_first_from root from = if is_in_bound root from then find_non_null root from else none

-- `xarray_raw_first`
unfoldable pub raw_first : Entry → Option Found
raw_first root = find_non_null root 0

abbrev pub same_value : Option ℕ → Option ℕ → Bool
same_value none none = true
same_value none (some b) = false
same_value (some a) none = false
same_value (some a) (some b) = a == b

-- `xarray_raw_cmpxchg`: what was there, and the root.
unfoldable pub raw_cmpxchg : Entry → ℕ → (expected new : Option ℕ) → Option ℕ × Entry
raw_cmpxchg root index expected new =
    let old = raw_get root index in
    if same_value old expected then raw_set root index new else (old, root)

-- The nodes that `xarray_entry_allocate` makes for NULL, down to the value. No bit is set in their masks.
unfoldable pub allocate_path : ℕ → (shift min v : ℕ) → Entry
allocate_path zero shift min v = value v
allocate_path (suc fuel) shift min v =
    let rest = allocate_path fuel (shift - 6) min v in
    let local = local_index (shift - 6) min in
    if leb 6 shift then node (shift - 6) no_bits (assign no_entries local rest) else value v

-- What an allocation leaves when it finds a place: the index it gives, the entry, and whether it is full.
pub record Placed : Type 0 where
  pub index : ℕ
  pub full : Bool
  pub entry : Entry

-- What the loop over the entries does with what a child returns.
unfoldable pub step_placed :
    (shift : ℕ) → (ℕ → Bool) → (ℕ → Entry) → ℕ → Option Placed → Option Placed → Option Placed
step_placed shift mask entries i none rest = rest
step_placed shift mask entries i (some p) rest =
    let marked = if p.full then assign mask i true else mask in
    some (record {
      index = p.index + i * 2 ^ shift;
      full = is_full marked;
      entry = node shift marked (assign entries i p.entry);
    })

-- The loop of `xarray_entry_allocate`; `try` is the recursive call.
unfoldable pub allocate_loop :
    (left : ℕ)
    → (try : ℕ → ℕ → Option Placed) → (shift : ℕ) → (ℕ → Bool)
    → (ℕ → Entry)
    → (start min i : ℕ) → Option Placed
allocate_loop zero try shift mask entries start min i = none
allocate_loop (suc left) try shift mask entries start min i =
    let rest = allocate_loop left try shift mask entries start min (i + 1) in
    if mask i
    then rest
    else step_placed shift mask entries i (try i (if i == start then min else 0)) rest

-- `xarray_entry_allocate`
unfoldable pub entry_allocate : Entry → (min parent_shift v : ℕ) → Option Placed
entry_allocate empty min parent_shift v = some (record {
  index = 0;
  full = ltb parent_shift 6;
  entry = allocate_path parent_shift parent_shift min v;
})
entry_allocate (value old) min parent_shift v = none
entry_allocate (node shift mask entries) min parent_shift v =
    let start = local_index shift min in
    let found =
      allocate_loop (64 - start) (λ i m. entry_allocate (entries i) m shift v) shift mask entries
        start min start in
    if is_full mask then none else found

-- The new root, above one in which there is no place. Nobody has set `child_is_full`, whose value is an
-- argument.
unfoldable pub reroot : (child_is_full : Bool) → Entry → (v : ℕ) → ℕ × Entry
reroot child_is_full root v = (
  2 ^ width root,
  node (width root) (assign no_bits 0 child_is_full)
      (assign (assign no_entries 0 root) 1 (allocate_path (width root) (width root) 0 v)),
)

abbrev pub placed_or : Option Placed → ℕ × Entry → ℕ × Entry
placed_or none rest = rest
placed_or (some p) rest = (p.index, p.entry)

-- `xarray_raw_allocate_from`: the index it gives, and the root.
unfoldable pub raw_allocate_from : (child_is_full : Bool) → Entry → (start v : ℕ) → ℕ × Entry
raw_allocate_from child_is_full root start v =
    if is_in_bound root start
    then placed_or (entry_allocate root start 0 v) (reroot child_is_full root v)
    else (start, (raw_set root start (some v)).1)

-- `xarray_allocate`
unfoldable pub allocate_index : (child_is_full : Bool) → Entry → (v : ℕ) → ℕ × Entry
allocate_index child_is_full root v = raw_allocate_from child_is_full root 0 v
