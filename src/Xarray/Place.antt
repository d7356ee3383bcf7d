-- ===== src/Xarray/Place.antt =====
-- The search for a place of kernel/klib/xarray.c, below the root.
use stanix.Base.{
  ℕ, zero, suc, ◌+◌, ◌-◌, ◌*◌, ◌%◌, ◌^◌, ◌≤◌, ◌<◌, ◌≡◌, refl, sym, subst, ◌∙◌, Bool, true, Option,
  none, some, ◌==◌, if◌then◌else◌, inl, inr, eq_cases, Bool-cases, ne→test, eq→test, arith,
}
use stanix.Xarray.{Entry, empty, value, node, get_walk, width, local_index, is_full}
use stanix.Xarray.Seek.{Placed, step_placed, allocate_loop, allocate_path, entry_allocate}
use stanix.Xarray.Index.{pow-positive, mod-node, place_lt, local_index_lt}
use stanix.Xarray.Lookup.{IsTree}
use stanix.Xarray.Update.{IsStored}
use stanix.Xarray.Search.{node-get, minimum}
use native.Mathlib.Nat.{mod-lt, zero-mod, add-mul, mod-mod}
use stanix.Xarray.Path.{path-IsStored, path-width, child-IsStored, IsStored-place}

-- What was placed: at a place that had no value, from `lo` on. The index that is returned may be lower
-- than the place, by no more than `slack`.
pub record PlacedAt (w : ℕ) (e : Entry) (lo slack v : ℕ) (p : Placed) : Type 0 where
  pub at : ℕ
  pub inside : at < 2 ^ w
  pub above : lo ≤ at
  pub unset : get_walk e at ≡ none
  pub placed : IsStored w e at (some v) p.entry
  pub wide : width p.entry ≡ w
  pub low : p.index ≤ at
  pub high : at ≤ p.index + slack

abbrev pub Places : ℕ → Entry → (lo slack v : ℕ) → Option Placed → Type 0
Places w e lo slack v none = Unit
Places w e lo slack v (some p) = PlacedAt w e lo slack v p

Places-from :
    (w : ℕ) (e : Entry) (lo lo' slack v : ℕ) (out : Option Placed)
    → lo' ≤ lo
    → Places w e lo slack v out
    → Places w e lo' slack v out
Places-from w e lo lo' slack v none h p = tt
Places-from w e lo lo' slack v (some q) h p = record {
  at = p.at;
  inside = p.inside;
  above = let a = p.above in omega arith;
  unset = p.unset;
  placed = p.placed;
  wide = p.wide;
  low = p.low;
  high = p.high;
}

step_placed-Places :
    (s : ℕ) (mask : ℕ → Bool) (entries : ℕ → Entry) (i lo near slack v : ℕ)
    (here rest : Option Placed)
    → ((i : ℕ) → IsTree s (entries i))
    → i < 64
    → near ≤ slack
    → lo < 2 ^ s
    → Places s (entries i) lo near v here
    → Places (s + 6) (node s mask entries) (i * 2 ^ s + 2 ^ s) slack v rest
    → Places
        (s + 6)
        (node s mask entries)
        (i * 2 ^ s + lo)
        slack
        v
        (step_placed s mask entries i here rest)
unfolding step_placed
step_placed-Places s mask entries i lo near slack v none rest h a b c here more =
    Places-from (s + 6) (node s mask entries) (i * 2 ^ s + 2 ^ s) (i * 2 ^ s + lo) slack v rest
      (omega arith) more
step_placed-Places s mask entries i lo near slack v (some p) rest h a b c here more = record {
  at = i * 2 ^ s + here.at;
  inside = place_lt s i here.at a here.inside;
  above = let d = here.above in omega arith;
  unset = node-get s mask entries i here.at (h i) a here.inside ∙ here.unset;
  placed = child-IsStored s mask _ entries i here.at (some v) p.entry h a here.inside here.placed;
  wide = refl;
  low = let d = here.low in omega arith;
  high = let d = here.high in omega arith;
}

allocate_loop-Places :
    (left : ℕ) (try : ℕ → ℕ → Option Placed) (s : ℕ) (mask : ℕ → Bool) (entries : ℕ → Entry)
    (start min v i : ℕ)
    → ((i : ℕ) → IsTree s (entries i))
    → ((i m : ℕ) → Places s (entries i) (m % 2 ^ s) (m % 2 ^ s) v (try i m))
    → left + i ≡ 64
    → start ≤ i
    → Places
        (s + 6)
        (node s mask entries)
        (i * 2 ^ s + minimum start min i % 2 ^ s)
        (min % 2 ^ s)
        v
        (allocate_loop left try s mask entries start min i)
unfolding allocate_loop
allocate_loop-Places zero try s mask entries start min v i h k l a = tt
allocate_loop-Places (suc left) try s mask entries start min v i h k l a =
    let p = pow-positive s in
    let next = ne→test (i + 1) start (λ c. absurd (omega arith)) in
    let lo = minimum start min i % 2 ^ s in
    let small : minimum start min i % 2 ^ s < 2 ^ s = mod-lt _ p in
    let further = allocate_loop left try s mask entries start min (i + 1) in
    let above : (i + 1) * 2 ^ s + minimum start min (i + 1) % 2 ^ s ≡ i * 2 ^ s + 2 ^ s =
      rw (next, zero-mod (2 ^ s)) (let d = add-mul i 1 (2 ^ s) in omega arith) in
    let rest =
      subst
        (λ lo.
          Places (s + 6) (node s mask entries) lo (min % 2 ^ s) v
            (allocate_loop left try s mask entries start min (i + 1)))
        above
        (allocate_loop-Places left try s mask entries start min v (i + 1) h k (omega arith)
          (omega arith)) in
    let near : minimum start min i % 2 ^ s ≤ min % 2 ^ s = elim (eq_cases i start) [
      | inl e ↦ rw e.0 (omega arith)
      | inr e ↦ rw (e.0, zero-mod (2 ^ s)) (omega arith)
    ] in
    elim (Bool-cases (mask i)) [
      | inl e ↦ rw e (
          Places-from (s + 6) (node s mask entries) (i * 2 ^ s + 2 ^ s) (i * 2 ^ s + lo)
            (min % 2 ^ s) v further (omega arith) rest)
      | inr e ↦ rw e (
          step_placed-Places s mask entries i lo lo (min % 2 ^ s) v
            (try i (if i == start then min else 0)) further h (omega arith) near small
            (k i (minimum start min i)) rest)
    ]

empty-Places :
    (w min v : ℕ)
    → w % 6 ≡ 0
    → Places w empty (min % 2 ^ w) (min % 2 ^ w) v (entry_allocate empty min w v)
unfolding entry_allocate get_walk
empty-Places w min v h = record {
  at = min % 2 ^ w;
  inside = mod-lt min (pow-positive w);
  above = omega arith;
  unset = refl;
  placed =
      IsStored-place w empty min (min % 2 ^ w) (some v) (allocate_path w w min v)
        (sym (mod-mod min (2 ^ w))) (path-IsStored w min v h);
  wide = path-width w w min v (omega arith) h;
  low = omega arith;
  high = omega arith;
}

slacker :
    (w : ℕ) (e : Entry) (lo slack slack' v : ℕ) (out : Option Placed)
    → slack ≤ slack'
    → Places w e lo slack v out
    → Places w e lo slack' v out
slacker w e lo slack slack' v none h p = tt
slacker w e lo slack slack' v (some q) h p = record {
  at = p.at;
  inside = p.inside;
  above = p.above;
  unset = p.unset;
  placed = p.placed;
  wide = p.wide;
  low = p.low;
  high = let a = p.high in omega arith;
}

pub entry_allocate-Places :
    (w : ℕ) (e : Entry) (min v : ℕ)
    → IsTree w e
    → w % 6 ≡ 0
    → Places w e (min % 2 ^ w) (min % 2 ^ w) v (entry_allocate e min w v)
unfolding entry_allocate
entry_allocate-Places w empty min v h k = empty-Places w min v k
entry_allocate-Places w (value old) min v h k = tt
entry_allocate-Places w (node s mask entries) min v h k =
    let start = local_index s min in
    let try : ℕ → ℕ → Option Placed = λ i m. entry_allocate (entries i) m s v in
    let level : s % 6 ≡ 0 = let whole = h.0 in ground arith in
    let first : (start == start) ≡ true = eq→test start start refl in
    let lo : start * 2 ^ s + minimum start min start % 2 ^ s ≡ min % 2 ^ (s + 6) =
      rw first (sym (mod-node s min)) in
    let whole = local_index_lt s min in
    let shape = mod-node s min in
    rw h.0 (elim (Bool-cases (is_full mask)) [
      | inl e ↦ rw e tt
      | inr e ↦ rw e (
          slacker (s + 6) (node s mask entries) _ (min % 2 ^ s) (min % 2 ^ (s + 6)) v
            (allocate_loop (64 - start) try s mask entries start min start) (omega arith)
            (subst
              (λ lo.
                Places (s + 6) (node s mask entries) lo (min % 2 ^ s) v
                  (allocate_loop (64 - start) try s mask entries start min start))
              lo
              (allocate_loop-Places (64 - start) try s mask entries start min v start h.1
                (λ i m. entry_allocate-Places s (entries i) m v (h.1 i) level) (omega arith)
                (omega arith))))
    ])
