-- ===== src/Xarray/Alloc.antt =====
-- `xarray_raw_allocate_from` of kernel/klib/xarray.c.
use stanix.Base.{
  ℕ, ◌+◌, ◌*◌, ◌%◌, ◌^◌, ◌≤◌, ◌<◌, ◌≡◌, refl, ap, subst, ◌∙◌, Bool, true, Option, none, some, ltb,
  ◌==◌, if◌then◌else◌, inl, inr, Bool-cases, arith,
}
use stanix.Xarray.{
  Entry, empty, value, node, width, no_bits, no_entries, assign, is_in_bound, raw_get,
}
use stanix.Xarray.Seek.{
  Placed, entry_allocate, allocate_path, reroot, placed_or, raw_allocate_from, allocate_index,
}
use stanix.Xarray.Index.{pow-positive, pow_node}
use stanix.Xarray.Lookup.{IsXarray}
use stanix.Xarray.Update.{IsStored}
use stanix.Xarray.Growth.{root_node-IsReady, raw_get-outside}
use stanix.Xarray.Store.{changed, set-get, set-IsXarray, raw_set-Sets}
use stanix.Xarray.Path.{path-IsStored, child-IsStored}
use stanix.Xarray.Place.{PlacedAt, Places, entry_allocate-Places}
use native.Mathlib.Nat.{mod-eq_of_lt}

-- Below the root, `parent_shift` is 0 whatever the root; a node does not look at it.
entry_allocate-shift :
    (e : Entry) (min v : ℕ) → entry_allocate e min 0 v ≡ entry_allocate e min (width e) v
unfolding entry_allocate
entry_allocate-shift empty min v = refl
entry_allocate-shift (value old) min v = refl
entry_allocate-shift (node s mask entries) min v = refl

-- What an allocation leaves: the value is at one place that had none, not below `start`, every other
-- index is as before, and the index that is returned is not above the place and less than `slack`
-- below it.
pub record AllocatesFrom (root : Entry) (start slack v : ℕ) (out : ℕ × Entry) : Type 0 where
  pub at : ℕ
  pub above : start ≤ at
  pub unset : raw_get root at ≡ none
  pub array : IsXarray out.1
  pub same : (j : ℕ) → raw_get out.1 j ≡ changed (raw_get root) at (some v) j
  pub low : out.0 ≤ at
  pub high : at ≤ out.0 + slack

placed-AllocatesFrom :
    (root : Entry) (start v : ℕ) (p : Placed)
    → IsXarray root
    → start < 2 ^ width root
    → PlacedAt (width root) root (start % 2 ^ width root) (start % 2 ^ width root) v p
    → AllocatesFrom root start start v (p.index, p.entry)
unfolding raw_get is_in_bound
placed-AllocatesFrom root start v p x h placed =
    let here : start % 2 ^ width root ≡ start = mod-eq_of_lt h in
    record {
      at = placed.at;
      above = let a = placed.above in omega arith;
      unset =
          let e : ltb placed.at (2 ^ width root) ≡ true = let b = placed.inside in ground arith in
          rw e placed.unset;
      array = set-IsXarray root p.entry placed.at (some v) x placed.wide placed.placed;
      same = λ j. set-get root p.entry placed.at (some v) j placed.inside placed.wide placed.placed;
      low = placed.low;
      high = let a = placed.high in omega arith;
    }

reroot-AllocatesFrom :
    (child_is_full : Bool) (root : Entry) (start v : ℕ)
    → IsXarray root
    → width root ≤ 54
    → start < 2 ^ width root
    → AllocatesFrom root start start v (reroot child_is_full root v)
unfolding reroot
reroot-AllocatesFrom child_is_full root start v x h k =
    let w = width root in
    let mask = assign no_bits 0 child_is_full in
    let entries = assign no_entries 0 root in
    let base = node w mask entries in
    let new = node w mask (assign entries 1 (allocate_path w w 0 v)) in
    let node_size = pow_node w in
    let positive = pow-positive w in
    let room : 2 ^ w < 2 ^ (w + 6) = omega arith in
    let ready = root_node-IsReady root mask (2 ^ w) x h room in
    let set : IsStored (w + 6) base (2 ^ w) (some v) new =
      subst (λ i. IsStored (w + 6) base i (some v) new) {x = 1 * 2 ^ w + 0} (omega arith)
        (child-IsStored w mask mask entries 1 0 (some v) (allocate_path w w 0 v) ready.array.tree.1
          (omega arith) positive (path-IsStored w 0 v x.level)) in
    record {
      at = 2 ^ w;
      above = omega arith;
      unset = raw_get-outside root (2 ^ w) (omega arith);
      array = set-IsXarray base new (2 ^ w) (some v) ready.array refl set;
      same = λ j.
          set-get base new (2 ^ w) (some v) j room refl set
          ∙ ap (λ o. if j == 2 ^ w then some v else o) (ready.same j);
      low = omega arith;
      high = omega arith;
    }

step-AllocatesFrom :
    (child_is_full : Bool) (root : Entry) (start v : ℕ) (out : Option Placed)
    → IsXarray root
    → width root ≤ 54
    → start < 2 ^ width root
    → Places (width root) root (start % 2 ^ width root) (start % 2 ^ width root) v out
    → AllocatesFrom root start start v (placed_or out (reroot child_is_full root v))
step-AllocatesFrom child_is_full root start v none x h k p =
    reroot-AllocatesFrom child_is_full root start v x h k
step-AllocatesFrom child_is_full root start v (some q) x h k p =
    placed-AllocatesFrom root start v q x k p

-- Of a start below 2 ^ 60, on a well-formed array of 9 levels at most: xarray_allocate_from stores the
-- value at one place that had none, from `start` on, and leaves every other index as it was; the array
-- stays well-formed, whatever `child_is_full` holds by chance. The index that it returns is this place
-- or below it, by `start` at most.
pub raw_allocate_from-AllocatesFrom :
    (child_is_full : Bool) (root : Entry) (start v : ℕ)
    → IsXarray root
    → width root ≤ 54
    → start < 2 ^ 60
    → AllocatesFrom root start start v (raw_allocate_from child_is_full root start v)
unfolding raw_allocate_from is_in_bound
raw_allocate_from-AllocatesFrom child_is_full root start v x h k =
    elim (Bool-cases (ltb start (2 ^ width root))) [
      | inl e ↦ rw e (
          step-AllocatesFrom child_is_full root start v (entry_allocate root start 0 v) x h
            (ground arith)
            (rw (entry_allocate-shift root start v)
              (entry_allocate-Places (width root) root start v x.tree x.level)))
      | inr e ↦
          let set = raw_set-Sets root start (some v) x k in
          rw e (record {
            at = start;
            above = omega arith;
            unset = raw_get-outside root start (ground arith);
            array = set.0;
            same = set.2;
            low = omega arith;
            high = omega arith;
          })
    ]

-- What xarray_allocate leaves: the index that it returns had no value and has this one, and every other
-- index is as before.
abbrev pub Allocates : Entry → ℕ → ℕ × Entry → Type 0
Allocates root v out =
    IsXarray out.1
    × (raw_get root out.0 ≡ none)
    × ((j : ℕ) → raw_get out.1 j ≡ changed (raw_get root) out.0 (some v) j)

-- On a well-formed array of 9 levels at most: xarray_allocate returns an index that had no value and
-- stores the value there, every other index is as before, and the array stays well-formed, whatever
-- `child_is_full` holds by chance.
pub allocate_index-Allocates :
    (child_is_full : Bool) (root : Entry) (v : ℕ)
    → IsXarray root
    → width root ≤ 54
    → Allocates root v (allocate_index child_is_full root v)
unfolding allocate_index
allocate_index-Allocates child_is_full root v x h =
    let out = raw_allocate_from child_is_full root 0 v in
    let a = raw_allocate_from-AllocatesFrom child_is_full root 0 v x h (omega arith) in
    let exact : a.at ≡ out.0 = let l = a.low in let u = a.high in omega arith in
    (
      a.array,
      subst (λ i. raw_get root i ≡ none) exact a.unset,
      λ j. subst (λ i. raw_get out.1 j ≡ changed (raw_get root) i (some v) j) exact (a.same j),
    )
