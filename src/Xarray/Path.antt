-- ===== src/Xarray/Path.antt =====
-- The nodes that `xarray_entry_allocate` of kernel/klib/xarray.c makes, and a node with a new child.
use stanix.Base.{
  ℕ, zero, suc, ◌+◌, ◌-◌, ◌*◌, ◌%◌, ◌^◌, ◌≤◌, ◌<◌, ◌≡◌, refl, sym, ap, subst, ◌∙◌, Bool, Option,
  none, some, leb, ◌==◌, if◌then◌else◌, inl, inr, Bool-cases, arith,
}
use stanix.Xarray.{Entry, empty, node, get_walk, width, no_bits, no_entries, assign}
use stanix.Xarray.Seek.{allocate_path}
use stanix.Xarray.Index.{local_index-place, mod-place}
use stanix.Xarray.Lookup.{IsTree, same_at, get_walk-assign}
use stanix.Xarray.Update.{
  IsStored, node-IsStored, assign-IsTree, no_entries-IsTree, same_at_bottom, bottom,
}
use native.Mathlib.Nat.{mod-eq_of_lt}

path-get :
    (fuel w i v j : ℕ)
    → w ≤ fuel
    → w % 6 ≡ 0
    → get_walk (allocate_path fuel w i v) j ≡ (if same_at w j i then some v else none)
unfolding get_walk allocate_path
path-get zero w i v j h k = let e : w ≡ 0 = omega arith in rw e (rw (same_at_bottom j i) refl)
path-get (suc fuel) w i v j h k = elim (Bool-cases (leb 6 w)) [
  | inl e ↦
      let s = w - 6 in
      let whole : s + 6 ≡ w = ground arith in
      rw e (
        get_walk-assign s no_bits no_bits no_entries i j (allocate_path fuel s i v) (some v)
          (path-get fuel (w - 6) i v j (omega arith) (ground arith))
        ∙ ap (λ x. if same_at x j i then some v else none) whole)
  | inr e ↦
      let z = bottom w k e in
      rw e (
        ap (λ b. if b then some v else none) (sym (ap (λ x. same_at x j i) z ∙ same_at_bottom j i)))
]

path-IsTree : (fuel w i v : ℕ) → w ≤ fuel → w % 6 ≡ 0 → IsTree w (allocate_path fuel w i v)
unfolding allocate_path
path-IsTree zero w i v h k = omega arith
path-IsTree (suc fuel) w i v h k = elim (Bool-cases (leb 6 w)) [
  | inl e ↦ rw e (
    ground arith,
    assign-IsTree (w - 6) no_entries _ _ (no_entries-IsTree (w - 6))
        (path-IsTree fuel (w - 6) i v (omega arith) (ground arith)),
  )
  | inr e ↦ rw e (bottom w k e)
]

pub path-width : (fuel w i v : ℕ) → w ≤ fuel → w % 6 ≡ 0 → width (allocate_path fuel w i v) ≡ w
unfolding allocate_path
path-width zero w i v h k = omega arith
path-width (suc fuel) w i v h k = elim (Bool-cases (leb 6 w)) [
  | inl e ↦ rw e (ground arith)
  | inr e ↦ rw e (sym (bottom w k e))
]

pub path-IsStored : (w i v : ℕ) → w % 6 ≡ 0 → IsStored w empty i (some v) (allocate_path w w i v)
unfolding get_walk
path-IsStored w i v k =
    (path-IsTree w w i v (omega arith) k, λ j. path-get w w i v j (omega arith) k)

-- The place alone matters.
pub IsStored-place :
    (w : ℕ) (e : Entry) (i k : ℕ) (v : Option ℕ) (new : Entry)
    → i % 2 ^ w ≡ k % 2 ^ w
    → IsStored w e i v new
    → IsStored w e k v new
IsStored-place w e i k v new h s =
    (s.0, λ j. s.1 j ∙ ap (λ p. if j % 2 ^ w == p then v else get_walk e j) h)

-- A node whose child with a given number has been set.
pub child-IsStored :
    (s : ℕ) (mask mask' : ℕ → Bool) (entries : ℕ → Entry) (i k : ℕ) (v : Option ℕ) (e : Entry)
    → ((i : ℕ) → IsTree s (entries i))
    → i < 64
    → k < 2 ^ s
    → IsStored s (entries i) k v e
    → IsStored (s + 6) (node s mask entries) (i * 2 ^ s + k) v (node s mask' (assign entries i e))
child-IsStored s mask mask' entries i k v e h a b c =
    let at = local_index-place s i k a b in
    let place = i * 2 ^ s + k in
    let moved : IsStored s (entries i) place v e =
      IsStored-place s (entries i) k place v e (mod-eq_of_lt b ∙ sym (mod-place s i k b)) c in
    subst (λ l. IsStored (s + 6) (node s mask entries) place v (node s mask' (assign entries l e)))
      at
      (node-IsStored (s + 6) s mask mask' entries place v e (refl, h)
        (subst (λ l. IsStored s (entries l) place v e) (sym at) moved))
