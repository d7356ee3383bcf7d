-- ===== src/Xarray/Update.antt =====
-- What `xarray_raw_set` of kernel/klib/xarray.c does below the root.
use stanix.Base.{
  ℕ, zero, suc, ◌+◌, ◌-◌, ◌%◌, ◌≤◌, ◌≡◌, refl, sym, ap, ◌∙◌, Bool, true, false, Option, none, some,
  leb, if◌then◌else◌, inl, inr, eq_cases, Bool-cases, arith,
}
use stanix.Xarray.{
  Entry, empty, value, node, local_index, assign, no_bits, no_entries, get_walk, new_path, Walked,
  backtrack, unmark, set_walk,
}
use stanix.Xarray.Lookup.{IsTree, same_at, get_walk-assign}
use native.Mathlib.Nat.{mod-one}

-- There is one place below 2 ^ 0.
pub same_at_bottom : (j i : ℕ) → same_at 0 j i ≡ true
same_at_bottom j i = rw (mod-one j, mod-one i) refl

-- A node keeps the shape of the tree when the new entry has that of a child.
pub assign-IsTree :
    (s : ℕ) (entries : ℕ → Entry) (l : ℕ) (e : Entry)
    → ((i : ℕ) → IsTree s (entries i))
    → IsTree s e
    → (i : ℕ) → IsTree s (assign entries l e i)
assign-IsTree s entries l e h k i = elim (eq_cases i l) [ inl c ↦ rw c.0 k | inr c ↦ rw c.0 (h i) ]

pub no_entries-IsTree : (s i : ℕ) → IsTree s (no_entries i)
no_entries-IsTree s i = tt

none_entry : (b : Bool) → Path (Option ℕ) (if b then none else none) none
none_entry true = refl
none_entry false = refl

pub bottom : (w : ℕ) → w % 6 ≡ 0 → leb 6 w ≡ false → w ≡ 0
bottom w h k = ground arith

pub new_path-get :
    (fuel w i v j : ℕ)
    → w ≤ fuel
    → w % 6 ≡ 0
    → get_walk (new_path fuel w i v) j ≡ (if same_at w j i then some v else none)
unfolding get_walk new_path
new_path-get zero w i v j h k = let e : w ≡ 0 = omega arith in rw e (rw (same_at_bottom j i) refl)
new_path-get (suc fuel) w i v j h k = elim (Bool-cases (leb 6 w)) [
  | inl e ↦
      let s = w - 6 in
      let whole : s + 6 ≡ w = ground arith in
      rw e (
        get_walk-assign s (assign no_bits (local_index s i) true) no_bits no_entries i j
          (new_path fuel s i v) (some v)
          (new_path-get fuel (w - 6) i v j (omega arith) (ground arith))
        ∙ ap (λ x. if same_at x j i then some v else none) whole)
  | inr e ↦
      let z = bottom w k e in
      rw e (
        ap (λ b. if b then some v else none) (sym (ap (λ x. same_at x j i) z ∙ same_at_bottom j i)))
]

pub new_path-IsTree : (fuel w i v : ℕ) → w ≤ fuel → w % 6 ≡ 0 → IsTree w (new_path fuel w i v)
unfolding new_path
new_path-IsTree zero w i v h k = omega arith
new_path-IsTree (suc fuel) w i v h k = elim (Bool-cases (leb 6 w)) [
  | inl e ↦ rw e (
    ground arith,
    assign-IsTree (w - 6) no_entries _ _ (no_entries-IsTree (w - 6))
        (new_path-IsTree fuel (w - 6) i v (omega arith) (ground arith)),
  )
  | inr e ↦ rw e (bottom w k e)
]

-- The entry after a walk: the value at the place of the index, everything else as before.
abbrev pub IsStored : ℕ → Entry → (index : ℕ) → Option ℕ → Entry → Type 0
IsStored w e i v new =
    IsTree w new × ((j : ℕ) → get_walk new j ≡ (if same_at w j i then v else get_walk e j))

set_walk-empty :
    (w i : ℕ) (v : Option ℕ) → w % 6 ≡ 0 → IsStored w empty i v ((set_walk empty w i v).entry)
unfolding set_walk get_walk
set_walk-empty w i none k = (tt, λ j. sym (none_entry (same_at w j i)))
set_walk-empty w i (some v) k =
    (new_path-IsTree w w i v (omega arith) k, λ j. new_path-get w w i v j (omega arith) k)

set_walk-value :
    (w i old : ℕ) (v : Option ℕ)
    → w ≡ 0
    → IsStored w (value old) i v ((set_walk (value old) w i v).entry)
unfolding set_walk get_walk
set_walk-value w i old none h = (tt, λ j. rw h (rw (same_at_bottom j i) refl))
set_walk-value w i old (some v) h = (h, λ j. rw h (rw (same_at_bottom j i) refl))

-- A node whose child has been set.
pub node-IsStored :
    (w s : ℕ) (mask mask' : ℕ → Bool) (entries : ℕ → Entry) (i : ℕ) (v : Option ℕ) (e : Entry)
    → IsTree w (node s mask entries)
    → IsStored s (entries (local_index s i)) i v e
    → IsStored w (node s mask entries) i v (node s mask' (assign entries (local_index s i) e))
node-IsStored w s mask mask' entries i v e h k = (
  (h.0, assign-IsTree s entries (local_index s i) e h.1 k.0),
  λ j. rw h.0 (get_walk-assign s mask' mask entries i j e v (k.1 j)),
)

backtrack-IsStored :
    (w s : ℕ) (mask : ℕ → Bool) (entries : ℕ → Entry) (i : ℕ) (v : Option ℕ) (below : Walked)
    → IsTree w (node s mask entries)
    → IsStored s (entries (local_index s i)) i v below.entry
    → IsStored w
        (node s mask entries)
        i
        v
        ((backtrack s mask entries (local_index s i) below).entry)
unfolding backtrack
backtrack-IsStored w s mask entries i v below h k = elim (Bool-cases below.reports) [
  | inl e ↦ rw e (node-IsStored w s mask _ entries i v below.entry h k)
  | inr e ↦ rw e (node-IsStored w s mask _ entries i v below.entry h k)
]

pub set_walk-IsStored :
    (w : ℕ) (e : Entry) (i : ℕ) (v : Option ℕ)
    → IsTree w e
    → w % 6 ≡ 0
    → IsStored w e i v ((set_walk e w i v).entry)
unfolding set_walk unmark
set_walk-IsStored w empty i v h k = set_walk-empty w i v k
set_walk-IsStored w (value old) i v h k = set_walk-value w i old v h
set_walk-IsStored w (node s mask entries) i none h k =
    let level : s % 6 ≡ 0 = let whole = h.0 in ground arith in
    node-IsStored w s mask _ entries i none _ h
      (set_walk-IsStored s (entries (local_index s i)) i none (h.1 _) level)
set_walk-IsStored w (node s mask entries) i (some v) h k =
    let level : s % 6 ≡ 0 = let whole = h.0 in ground arith in
    backtrack-IsStored w s mask entries i (some v)
      (set_walk (entries (local_index s i)) s i (some v)) h
      (set_walk-IsStored s (entries (local_index s i)) i (some v) (h.1 _) level)

backtrack-old :
    (s : ℕ) (mask : ℕ → Bool) (entries : ℕ → Entry) (l : ℕ) (below : Walked)
    → (backtrack s mask entries l below).old ≡ below.old
unfolding backtrack
backtrack-old s mask entries l below = elim (Bool-cases below.reports) [
  | inl e ↦ rw e refl
  | inr e ↦ rw e refl
]

-- The walk returns what was there.
pub set_walk-old : (e : Entry) (w i : ℕ) (v : Option ℕ) → (set_walk e w i v).old ≡ get_walk e i
unfolding set_walk get_walk unmark
set_walk-old empty w i none = refl
set_walk-old empty w i (some v) = refl
set_walk-old (value old) w i v = refl
set_walk-old (node s mask entries) w i none = set_walk-old (entries (local_index s i)) s i none
set_walk-old (node s mask entries) w i (some v) =
    backtrack-old s mask entries (local_index s i) _
    ∙ set_walk-old (entries (local_index s i)) s i (some v)
