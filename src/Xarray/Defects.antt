-- ===== src/Xarray/Defects.antt =====
-- The index that `xarray_allocate_from` of kernel/klib/xarray.c returns.
use stanix.Base.{
  ℕ, zero, suc, ◌+◌, ◌-◌, ◌*◌, ◌%◌, ◌^◌, ◌<◌, ◌≡◌, ◌≢◌, refl, ap, ◌∙◌, Bool, true, false, Option,
  some, ltb, ◌==◌, eq→test, arith,
}
use stanix.Xarray.{
  Entry, empty, node, get_walk, width, local_index, assign, is_full, is_in_bound, raw_get,
}
use stanix.Xarray.Seek.{
  Placed, step_placed, allocate_loop, allocate_path, entry_allocate, placed_or, reroot,
  raw_allocate_from,
}
use stanix.Xarray.Index.{local_index_lt}
use stanix.Xarray.Lookup.{assign_same}
use stanix.Xarray.Path.{path-IsStored}

loop_here :
    (left : ℕ) (try : ℕ → ℕ → Option Placed) (s : ℕ) (mask : ℕ → Bool) (entries : ℕ → Entry)
    (l min : ℕ) (q : Placed) (rest : ℕ × Entry)
    → left ≢ 0
    → mask l ≡ false
    → try l min ≡ some q
    → (placed_or (allocate_loop left try s mask entries l min l) rest).0 ≡ q.index + l * 2 ^ s
      × ((bits : ℕ → Bool) × ((placed_or (allocate_loop left try s mask entries l min l) rest).1
            ≡ node s bits (assign entries l q.entry)))
unfolding allocate_loop step_placed
loop_here zero try s mask entries l min q rest n k t = absurd (n refl)
loop_here (suc left) try s mask entries l min q rest n k t =
    let first : (l == l) ≡ true = eq→test l l refl in rw (k, first, t) (refl, (_, refl))

-- The entry is used, and whatever the bits, the value is on the way to `start`.
allocate_here :
    (s : ℕ) (mask : ℕ → Bool) (entries : ℕ → Entry) (start v : ℕ) (rest : ℕ × Entry)
    → is_full mask ≡ false
    → mask (local_index s start) ≡ false
    → entries (local_index s start) ≡ empty
    → (placed_or (entry_allocate (node s mask entries) start 0 v) rest).0
        ≡ local_index s start * 2 ^ s
      × ((bits : ℕ → Bool) × ((placed_or (entry_allocate (node s mask entries) start 0 v) rest).1
            ≡ node s bits (assign entries (local_index s start) (allocate_path s s start v))))
unfolding entry_allocate
allocate_here s mask entries start v rest full clear unset =
    let l = local_index s start in
    let small = local_index_lt s start in
    let try : ℕ → ℕ → Option Placed = λ i m. entry_allocate (entries i) m s v in
    let q : Placed = record { index = 0; full = ltb s 6; entry = allocate_path s s start v } in
    let tried : try l start ≡ some q = ap (λ e. entry_allocate e start s v) unset in
    let here =
      loop_here (64 - l) try s mask entries l start q rest (λ c. absurd (omega arith)) clear
        tried in
    rw full (here.0 ∙ omega arith, here.1)

walk_to :
    (s : ℕ) (bits : ℕ → Bool) (entries : ℕ → Entry) (start v : ℕ)
    → s % 6 ≡ 0
    → get_walk
        (node s bits (assign entries (local_index s start) (allocate_path s s start v)))
        start
      ≡ some v
unfolding get_walk
walk_to s bits entries start v level =
    ap (λ e. get_walk e start)
      (assign_same entries (local_index s start) (allocate_path s s start v))
    ∙ (path-IsStored s start v level).1 start
    ∙ rw (eq→test (start % 2 ^ s) (start % 2 ^ s) refl) refl

get_inside :
    (root : Entry) (i : ℕ) → ltb i (2 ^ width root) ≡ true → raw_get root i ≡ get_walk root i
unfolding raw_get is_in_bound
get_inside root i h = rw h refl

-- On an array whose root is a node, neither full nor marked at the entry that leads to `start`, which is
-- NULL: xarray_allocate_from stores the value at `start`, but returns the first index below the entry.
pub allocate_from-MissesIndex :
    (child_is_full : Bool) (s : ℕ) (mask : ℕ → Bool) (entries : ℕ → Entry) (start v : ℕ)
    → s % 6 ≡ 0
    → start < 2 ^ (s + 6)
    → is_full mask ≡ false
    → mask (local_index s start) ≡ false
    → entries (local_index s start) ≡ empty
    → ((raw_allocate_from child_is_full (node s mask entries) start v).0
        ≡ local_index s start * 2 ^ s)
      × (raw_get ((raw_allocate_from child_is_full (node s mask entries) start v).1) start ≡ some v)
unfolding raw_allocate_from is_in_bound
allocate_from-MissesIndex child_is_full s mask entries start v level h full clear unset =
    let root = node s mask entries in
    let l = local_index s start in
    let inside : ltb start (2 ^ (s + 6)) ≡ true = ground arith in
    let here =
      allocate_here s mask entries start v (reroot child_is_full root v) full clear unset in
    let bits = here.1.0 in
    let new = node s bits (assign entries l (allocate_path s s start v)) in
    let found : raw_get new start ≡ some v =
      get_inside new start inside ∙ walk_to s bits entries start v level in
    rw inside (here.0, ap (λ e. raw_get e start) here.1.1 ∙ found)
