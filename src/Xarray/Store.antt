-- ===== src/Xarray/Store.antt =====
-- `xarray_raw_set` and `xarray_raw_get` of kernel/klib/xarray.c as operations on a partial map.
use stanix.Base.{
  ℕ, ◌+◌, ◌%◌, ◌^◌, ◌<◌, ◌≡◌, refl, sym, ap, subst, ◌∙◌, Bool, true, false, Option, none, some, ltb,
  ◌==◌, if◌then◌else◌, inl, inr, eq_cases, Bool-cases, arith,
}
use stanix.Xarray.{
  Entry, empty, value, node, get_walk, set_walk, unmark, backtrack, new_path, Walked, width,
  is_in_bound, raw_get, raw_set, grow_root,
}
use stanix.Xarray.Lookup.{IsTree, IsXarray}
use stanix.Xarray.Update.{IsStored, set_walk-IsStored, set_walk-old}
use stanix.Xarray.Growth.{IsReady, grow_root-IsReady, raw_get-outside}
use native.Mathlib.Nat.{mod-eq_of_lt}

-- The map with one entry changed.
abbrev pub changed : (ℕ → Option ℕ) → ℕ → Option ℕ → ℕ → Option ℕ
changed f i v j = if j == i then v else f j

backtrack-width :
    (s : ℕ) (mask : ℕ → Bool) (entries : ℕ → Entry) (l : ℕ) (below : Walked)
    → width ((backtrack s mask entries l below).entry) ≡ s + 6
unfolding backtrack
backtrack-width s mask entries l below = elim (Bool-cases below.reports) [
  | inl e ↦ rw e refl
  | inr e ↦ rw e refl
]

-- The walk starts with shift 0 whatever the root; a node does not look at it.
set_walk-shift : (e : Entry) (i : ℕ) (v : Option ℕ) → set_walk e 0 i v ≡ set_walk e (width e) i v
unfolding set_walk
set_walk-shift empty i v = refl
set_walk-shift (value old) i v = refl
set_walk-shift (node s mask entries) i none = refl
set_walk-shift (node s mask entries) i (some v) = refl

set_walk-width : (e : Entry) (i : ℕ) (v : Option ℕ) → width ((set_walk e 0 i v).entry) ≡ width e
unfolding set_walk unmark new_path
set_walk-width empty i none = refl
set_walk-width empty i (some v) = refl
set_walk-width (value old) i none = refl
set_walk-width (value old) i (some v) = refl
set_walk-width (node s mask entries) i none = refl
set_walk-width (node s mask entries) i (some v) = backtrack-width s mask entries _ _

-- When a root is replaced by one of the same width.
pub set-get :
    (root new : Entry) (index : ℕ) (v : Option ℕ) (j : ℕ)
    → index < 2 ^ width root
    → width new ≡ width root
    → IsStored (width root) root index v new
    → raw_get new j ≡ changed (raw_get root) index v j
unfolding raw_get is_in_bound
set-get root new index v j h w s = elim (Bool-cases (ltb j (2 ^ width root))) [
  | inl e ↦
      let here : j % 2 ^ width root ≡ j = mod-eq_of_lt (ground arith) in
      let there : index % 2 ^ width root ≡ index = mod-eq_of_lt h in
      rw (w, e) (s.1 j ∙ rw (here, there) refl)
  | inr e ↦ let other : (j == index) ≡ false = ground arith in rw (w, e, other) refl
]

pub set-IsXarray :
    (root new : Entry) (index : ℕ) (v : Option ℕ)
    → IsXarray root
    → width new ≡ width root
    → IsStored (width root) root index v new
    → IsXarray new
set-IsXarray root new index v x w s = record {
  tree = subst (λ n. IsTree n new) (sym w) s.0;
  level = rw w x.level;
  bounded = rw w x.bounded;
}

-- What a call leaves: a well-formed array, with the value at the index and every other index as before,
-- and the value that was there.
abbrev pub Sets : Entry → ℕ → Option ℕ → Option ℕ × Entry → Type 0
Sets root index v out =
    IsXarray out.1
    × (out.0 ≡ raw_get root index)
    × ((j : ℕ) → raw_get out.1 j ≡ changed (raw_get root) index v j)

inside-get :
    (root : Entry) (index : ℕ) → index < 2 ^ width root → raw_get root index ≡ get_walk root index
unfolding raw_get is_in_bound
inside-get root index h = let e : ltb index (2 ^ width root) ≡ true = ground arith in rw e refl

IsReady-inside :
    (root : Entry) (index : ℕ)
    → IsXarray root
    → is_in_bound root index ≡ true
    → IsReady root index root
unfolding is_in_bound
IsReady-inside root index x e = record { array = x; inside = ground (arith, e); same = λ j. refl }

outside : (root : Entry) (index : ℕ) → is_in_bound root index ≡ false → raw_get root index ≡ none
unfolding is_in_bound
outside root index e = raw_get-outside root index (ground (arith, e))

walk-Sets :
    (root ready : Entry) (index : ℕ) (v : Option ℕ)
    → IsReady root index ready
    → Sets root index v ((set_walk ready 0 index v).old, (set_walk ready 0 index v).entry)
walk-Sets root ready index v r =
    let walked = set_walk ready 0 index v in
    let s : IsStored (width ready) ready index v walked.entry =
      rw (set_walk-shift ready index v)
        (set_walk-IsStored (width ready) ready index v r.array.tree r.array.level) in
    let wide = set_walk-width ready index v in
    let got : raw_get ready index ≡ get_walk ready index = inside-get ready index r.inside in
    (
      set-IsXarray ready walked.entry index v r.array wide s,
      set_walk-old ready 0 index v ∙ sym got ∙ r.same index,
      λ j.
          set-get ready walked.entry index v j r.inside wide s
          ∙ ap (λ o. if j == index then v else o) (r.same j),
    )

-- Of an index below 2 ^ 60: xarray_raw_set returns what was there, and afterwards xarray_raw_get finds
-- the value at the index and at every other index what it found before; the array stays well-formed. To
-- store NULL clears the index.
pub raw_set-Sets :
    (root : Entry) (index : ℕ) (v : Option ℕ)
    → IsXarray root
    → index < 2 ^ 60
    → Sets root index v (raw_set root index v)
unfolding raw_set
raw_set-Sets root index none x h = elim (Bool-cases (is_in_bound root index)) [
  | inl e ↦ rw e (walk-Sets root root index none (IsReady-inside root index x e))
  | inr e ↦
      let out = outside root index e in
      rw e (
        x,
        sym out,
        λ j. elim (eq_cases j index) [
          | inl k ↦ rw k.0 (ap (raw_get root) k.1 ∙ out)
          | inr k ↦ rw k.0 refl
        ],
      )
]
raw_set-Sets root index (some v) x h = elim (Bool-cases (is_in_bound root index)) [
  | inl e ↦ rw e (walk-Sets root root index (some v) (IsReady-inside root index x e))
  | inr e ↦
      rw e
        (walk-Sets root (grow_root root index) index (some v) (grow_root-IsReady root index x h e))
]
