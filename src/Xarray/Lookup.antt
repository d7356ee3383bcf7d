-- ===== src/Xarray/Lookup.antt =====
-- What is looked up in a tree of kernel/klib/xarray.c, and how it changes with an entry.
use stanix.Base.{
  ℕ, ◌+◌, ◌%◌, ◌^◌, ◌≤◌, ◌≡◌, ◌≢◌, refl, sym, ap, ◌∙◌, Bool, true, ◌&&◌, Option, ◌==◌,
  if◌then◌else◌, inl, inr, eq_cases, ne→test, eq→test, arith,
}
use stanix.Xarray.{Entry, empty, value, node, local_index, assign, get_walk, width}
use stanix.Xarray.Index.{local_index-mod, mod-mod_node, same_place}

-- A tree for the places below 2 ^ w: each node has its shift, 6 less than the one above, and values are
-- at the bottom.
abbrev pub IsTree : ℕ → Entry → Type 0
IsTree w empty = Unit
IsTree w (value v) = w ≡ 0
IsTree w (node s mask entries) = (w ≡ s + 6) × ((i : ℕ) → IsTree s (entries i))

-- The array of a root: shifts are multiples of 6, and no more than 10 levels.
pub record IsXarray (root : Entry) : Type 0 where
  pub tree : IsTree (width root) root
  pub level : width root % 6 ≡ 0
  pub bounded : width root ≤ 60

-- Whether two indices have the same place below 2 ^ w.
abbrev pub same_at : (w j i : ℕ) → Bool
same_at w j i = j % 2 ^ w == i % 2 ^ w

pub assign_same {ℓ} : {A : Type ℓ} (f : ℕ → A) (i : ℕ) (a : A) → assign f i a i ≡ a
assign_same f i a = let e : (i == i) ≡ true = ground arith in rw e refl

pub assign_other {ℓ} : {A : Type ℓ} (f : ℕ → A) (i j : ℕ) (a : A) → j ≢ i → assign f i a j ≡ f j
assign_other f i j a h = rw (ne→test j i h) refl

-- The place of an index alone matters.
pub get_walk-mod : (w : ℕ) (e : Entry) (j : ℕ) → IsTree w e → get_walk e (j % 2 ^ w) ≡ get_walk e j
unfolding get_walk
get_walk-mod w empty j h = refl
get_walk-mod w (value v) j h = refl
get_walk-mod w (node s mask entries) j h =
    let child = entries (local_index s j) in
    let below = get_walk-mod s (entries (local_index s j)) in
    rw (h.0, local_index-mod s j)
      (sym (below (j % 2 ^ (s + 6)) (h.1 _))
        ∙ ap (λ x. get_walk child x) (mod-mod_node s j)
        ∙ below j (h.1 _))

pub same_at-node :
    (s j i : ℕ) → same_at (s + 6) j i ≡ ((local_index s j == local_index s i) && same_at s j i)
same_at-node s j i =
    let both = same_place s i j in
    elim (eq_cases (local_index s j) (local_index s i)) [
      | inl e ↦ rw e.0 (elim (eq_cases (j % 2 ^ s) (i % 2 ^ s)) [
        | inl f ↦ rw f.0 (eq→test _ _ (both.1 (e.1, f.1)))
        | inr f ↦ rw f.0 (ne→test _ _ (λ k. f.1 ((both.0 k).1)))
      ])
      | inr e ↦ rw e.0 (ne→test _ _ (λ k. e.1 ((both.0 k).0)))
    ]

-- When the entry on the way to an index is replaced by one that has a value there instead, so has the
-- node. The masks do not matter.
pub get_walk-assign :
    (s : ℕ) (mask mask' : ℕ → Bool) (entries : ℕ → Entry) (i j : ℕ) (e : Entry) (v : Option ℕ)
    → get_walk e j ≡ (if same_at s j i then v else get_walk (entries (local_index s i)) j)
    → get_walk (node s mask (assign entries (local_index s i) e)) j
      ≡ (if same_at (s + 6) j i then v else get_walk (node s mask' entries) j)
unfolding get_walk
get_walk-assign s mask mask' entries i j e v h =
    elim (eq_cases (local_index s j) (local_index s i)) [
      | inl k ↦
          let hit : assign entries (local_index s i) e (local_index s j) ≡ e = rw k.0 refl in
          ap (λ x. get_walk x j) hit ∙ h ∙ rw (same_at-node s j i, k.0, k.1) refl
      | inr k ↦
          let miss : assign entries (local_index s i) e (local_index s j)
              ≡ entries (local_index s j) =
            rw k.0 refl in
          ap (λ x. get_walk x j) miss ∙ rw (same_at-node s j i, k.0) refl
    ]
