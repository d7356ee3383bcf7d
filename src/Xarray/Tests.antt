-- ===== src/Xarray/Tests.antt =====
-- kernel/klib/xarray.c at an array with values at 5, 200 and 5000.
use stanix.Base.{◌*◌, ◌^◌, ◌≡◌, refl, true, false, some, arith}
use stanix.Xarray.{
  Entry, empty, node, width, local_index, assign, no_bits, no_entries, is_in_bound, raw_get,
  raw_set, get_walk, set_walk, new_path, backtrack, grow_root, grow_to, target_shift,
}
use stanix.Xarray.Seek.{
  step_found, find_loop, find_non_null, raw_first_from, step_placed, allocate_loop, entry_allocate,
  raw_allocate_from, allocate_index,
}
use stanix.Xarray.Lookup.{IsXarray}
use stanix.Xarray.Store.{Sets, raw_set-Sets}
use stanix.Xarray.Search.{FindsFirst, raw_first_from-FindsFirst}
use stanix.Xarray.Alloc.{
  AllocatesFrom, raw_allocate_from-AllocatesFrom, Allocates, allocate_index-Allocates,
}
use stanix.Xarray.Defects.{allocate_from-MissesIndex}

empty-IsXarray : IsXarray empty
empty-IsXarray = record { tree = tt; level = refl; bounded = omega arith }

abbrev first_set : Entry
first_set = (raw_set empty 5 (some 7)).1

abbrev second_set : Entry
second_set = (raw_set first_set 200 (some 9)).1

abbrev array : Entry
array = (raw_set second_set 5000 (some 11)).1

array-IsXarray : IsXarray array
array-IsXarray =
    let one = raw_set-Sets empty 5 (some 7) empty-IsXarray (omega arith) in
    let two = raw_set-Sets first_set 200 (some 9) one.0 (omega arith) in
    (raw_set-Sets second_set 5000 (some 11) two.0 (omega arith)).0

array_width : width array ≡ 18
unfolding raw_set is_in_bound grow_root grow_to target_shift set_walk new_path backtrack
array_width = refl

get_200 : raw_get array 200 ≡ some 9
unfolding raw_set is_in_bound grow_root grow_to target_shift set_walk new_path backtrack raw_get
    get_walk
get_200 = refl

first_from_6 : raw_first_from array 201 ≡ some (record { index = 5000; found = 11 })
unfolding raw_set is_in_bound grow_root grow_to target_shift set_walk new_path backtrack
    raw_first_from find_non_null find_loop step_found
first_from_6 = refl

-- Index 4161 has no value, and is passed over with all others of its node.
skips : (raw_allocate_from true (raw_set empty 4160 (some 7)).1 4160 9).0 ≡ 4224
unfolding raw_set is_in_bound grow_root grow_to target_shift set_walk new_path backtrack
    raw_allocate_from entry_allocate allocate_loop step_placed
skips = refl

raw_set-Sets_example : Sets array 300 (some 13) (raw_set array 300 (some 13))
raw_set-Sets_example = raw_set-Sets array 300 (some 13) array-IsXarray (omega arith)

raw_first_from-FindsFirst_example : FindsFirst array 6 (raw_first_from array 6)
raw_first_from-FindsFirst_example = raw_first_from-FindsFirst array 6 array-IsXarray

raw_allocate_from-AllocatesFrom_example :
    AllocatesFrom array 200 200 13 (raw_allocate_from true array 200 13)
raw_allocate_from-AllocatesFrom_example =
    raw_allocate_from-AllocatesFrom true array 200 13 array-IsXarray (omega (arith, array_width))
      (omega arith)

allocate_index-Allocates_example : Allocates array 13 (allocate_index true array 13)
allocate_index-Allocates_example =
    allocate_index-Allocates true array 13 array-IsXarray (omega (arith, array_width))

abbrev small_root : Entry
small_root = node 6 no_bits (assign no_entries 0 (node 0 no_bits no_entries))

allocate_from-MissesIndex_example :
    ((raw_allocate_from false (small_root) 70 9).0 ≡ local_index 6 70 * 2 ^ 6)
    × (raw_get ((raw_allocate_from false (small_root) 70 9).1) 70 ≡ some 9)
allocate_from-MissesIndex_example =
    allocate_from-MissesIndex false 6 no_bits (assign no_entries 0 (node 0 no_bits no_entries)) 70 9
      refl (omega arith) refl refl refl
