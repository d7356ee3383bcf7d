-- ===== src/Xarray/Growth.antt =====
-- `xarray_raw_set` of kernel/klib/xarray.c: the nodes it puts above the root, and the whole call.
use stanix.Base.{
  ℕ, zero, suc, ◌+◌, ◌*◌, ◌/◌, ◌%◌, ◌^◌, ◌≤◌, ◌<◌, ◌≡◌, ◌≢◌, refl, sym, ap, subst, ◌∙◌, Bool, true,
  false, none, ltb, leb, if◌then◌else◌, inl, inr, Bool-cases, ne→test, lt_or_le, arith,
}
use stanix.Xarray.{
  Entry, empty, node, local_index, assign, no_bits, no_entries, get_walk, width, is_in_bound,
  raw_get, target_shift, grow_to, grow_root, root_is_full,
}
use stanix.Xarray.Index.{pow-positive, pow_node}
use stanix.Xarray.Lookup.{IsTree, IsXarray}
use stanix.Xarray.Update.{assign-IsTree, no_entries-IsTree}
use native.Mathlib.Nat.{
  mod-eq_of_lt, pow-le-pow_right, div-eq_of_lt, zero-mod, le-div_iff_mul-le, div-lt_iff_lt-mul,
}

pow_mono : {m n : ℕ} → m ≤ n → 2 ^ m ≤ 2 ^ n
pow_mono h = pow-le-pow_right (omega arith) h

pub record IsTarget (index t : ℕ) : Type 0 where
  pub above : index < 2 ^ t
  pub level : t % 6 ≡ 0
  pub bounded : t ≤ 60

target_shift-IsTarget :
    (fuel index shift : ℕ)
    → index < 2 ^ 60
    → shift % 6 ≡ 0
    → shift ≤ 60
    → 60 < shift + 6 * fuel
    → IsTarget index (target_shift fuel index shift)
unfolding target_shift
target_shift-IsTarget zero index shift h k b f = absurd (omega arith)
target_shift-IsTarget (suc fuel) index shift h k b f = elim (Bool-cases (leb (2 ^ shift) index)) [
  | inl e ↦
      let below : shift < 60 = elim (lt_or_le shift 60) [
        | inl x ↦ x
        | inr x ↦ let y : 2 ^ 60 ≤ 2 ^ shift = pow_mono x in absurd (ground (arith, e, h, y))
      ] in
      rw e
        (target_shift-IsTarget fuel index (shift + 6) h (ground arith) (ground arith) (omega arith))
  | inr e ↦ rw e (record { above = ground arith; level = k; bounded = b })
]

-- Above a tree for the places below 2 ^ w there is nothing but NULL.
root_node-get :
    (w : ℕ) (mask : ℕ → Bool) (e : Entry) (j : ℕ)
    → j < 2 ^ (w + 6)
    → get_walk (node w mask (assign no_entries 0 e)) j
      ≡ (if ltb j (2 ^ w) then get_walk e j else none)
unfolding get_walk
root_node-get w mask e j h = elim (Bool-cases (ltb j (2 ^ w))) [
  | inl k ↦
      let first : local_index w j ≡ 0 =
        ap (λ x. x % 64) (div-eq_of_lt {n = j} {m = 2 ^ w} (ground arith)) ∙ zero-mod 64 in
      ap (λ l. get_walk (assign no_entries 0 e l) j) first ∙ rw k refl
  | inr k ↦
      let node_size = pow_node w in
      let low : 1 ≤ j / 2 ^ w = (le-div_iff_mul-le (pow-positive w)).1 (ground arith) in
      let high : j / 2 ^ w < 64 = (div-lt_iff_lt-mul (pow-positive w)).1 (omega arith) in
      let other : local_index w j ≢ 0 = λ c. absurd (omega (arith, sym (mod-eq_of_lt high) ∙ c)) in
      let miss : assign no_entries 0 e (local_index w j) ≡ empty = rw (ne→test _ _ other) refl in
      ap (λ x. get_walk x j) miss ∙ rw k refl
]

-- A grown tree: the same entry at the bottom, and nothing else.
record IsGrown (w target : ℕ) (e new : Entry) : Type 0 where
  pub tree : IsTree target new
  pub wide : width new ≡ target
  pub same :
      (j : ℕ) → j < 2 ^ target → get_walk new j ≡ (if ltb j (2 ^ w) then get_walk e j else none)

grow_further :
    (w target : ℕ) (mask : ℕ → Bool) (e new : Entry)
    → IsGrown (w + 6) target (node w mask (assign no_entries 0 e)) new
    → IsGrown w target e new
grow_further w target mask e new g = record {
  tree = g.tree;
  wide = g.wide;
  same = λ j h. g.same j h ∙ elim (Bool-cases (ltb j (2 ^ (w + 6)))) [
    | inl k ↦ rw k (root_node-get w mask e j (ground arith))
    | inr k ↦
        let node_size = pow_node w in
        let far : ltb j (2 ^ w) ≡ false = ground arith in rw (k, far) refl
  ];
}

grow_to-IsGrown :
    (fuel w target : ℕ) (full : Bool) (e : Entry)
    → IsTree w e
    → width e ≡ w
    → w % 6 ≡ 0
    → target % 6 ≡ 0
    → w ≤ target
    → target ≤ w + 6 * fuel
    → IsGrown w target e (grow_to fuel w target full e)
unfolding grow_to
grow_to-IsGrown zero w target full e h wide k l low high =
    let done : w ≡ target = omega arith in
    rw (sym done) (record {
      tree = h;
      wide = wide;
      same = λ j b. let inside : ltb j (2 ^ w) ≡ true = ground arith in rw inside refl;
    })
grow_to-IsGrown (suc fuel) w target full e h wide k l low high = elim (Bool-cases (ltb w target)) [
  | inl c ↦
      let larger : w + 6 ≤ target = ground arith in
      rw c (
        grow_further w target (assign no_bits 0 full) e _ (
          grow_to-IsGrown fuel (w + 6) target false
            (node w (assign no_bits 0 full) (assign no_entries 0 e))
            (refl, assign-IsTree w no_entries 0 e (no_entries-IsTree w) h) refl (ground arith) l
            larger (omega arith)))
  | inr c ↦
      let done : w ≡ target = ground arith in
      rw c (
        rw (sym done) (record {
          tree = h;
          wide = wide;
          same = λ j b. let inside : ltb j (2 ^ w) ≡ true = ground arith in rw inside refl;
        }))
]

-- A root that is a node for the index, or the value of index 0, and has the values of another.
pub record IsReady (root : Entry) (index : ℕ) (ready : Entry) : Type 0 where
  pub array : IsXarray ready
  pub inside : index < 2 ^ width ready
  pub same : (j : ℕ) → raw_get ready j ≡ raw_get root j

pub raw_get-outside : (root : Entry) (j : ℕ) → 2 ^ width root ≤ j → raw_get root j ≡ none
unfolding raw_get is_in_bound
raw_get-outside root j h = let e : ltb j (2 ^ width root) ≡ false = ground arith in rw e refl

grown-get :
    (root new : Entry) (j : ℕ)
    → width root ≤ width new
    → IsGrown (width root) (width new) root new
    → raw_get new j ≡ raw_get root j
unfolding raw_get is_in_bound
grown-get root new j h g = elim (Bool-cases (ltb j (2 ^ width new))) [
  | inl e ↦ rw e (g.same j (ground arith))
  | inr e ↦
      let wider = pow_mono h in
      let far : ltb j (2 ^ width root) ≡ false = ground arith in rw (e, far) refl
]

pub grow_root-IsReady :
    (root : Entry) (index : ℕ)
    → IsXarray root
    → index < 2 ^ 60
    → is_in_bound root index ≡ false
    → IsReady root index (grow_root root index)
unfolding grow_root is_in_bound
grow_root-IsReady root index x h out =
    let t = target_shift 11 index 0 in
    let aim = target_shift-IsTarget 11 index 0 h refl (omega arith) (omega arith) in
    let up : width root ≤ target_shift 11 index 0 = elim (lt_or_le t (width root)) [
      | inl k ↦
          let m : 2 ^ t ≤ 2 ^ width root = pow_mono (omega arith) in
          let a : index < 2 ^ t = aim.above in absurd (ground arith)
      | inr k ↦ k
    ] in
    let few : target_shift 11 index 0 ≤ width root + 6 * 11 =
      let b : t ≤ 60 = aim.bounded in omega arith in
    let g =
      grow_to-IsGrown 11 (width root) t (root_is_full root) root x.tree refl x.level aim.level up
        few in
    record {
      array = record {
        tree = subst (λ w. IsTree w (grow_root root index)) (sym g.wide) g.tree;
        level = rw g.wide aim.level;
        bounded = rw g.wide aim.bounded;
      };
      inside = rw g.wide aim.above;
      same = λ j.
          grown-get root (grow_root root index) j (rw g.wide up)
            (subst (λ w. IsGrown (width root) w root (grow_root root index)) (sym g.wide) g);
    }

-- A node above the root leaves the values as they are.
pub root_node-IsReady :
    (root : Entry) (mask : ℕ → Bool) (index : ℕ)
    → IsXarray root
    → width root ≤ 54
    → index < 2 ^ (width root + 6)
    → IsReady root index (node (width root) mask (assign no_entries 0 root))
root_node-IsReady root mask index x h k =
    let w = width root in
    let new = node w mask (assign no_entries 0 root) in
    let tree = assign-IsTree w no_entries 0 root (no_entries-IsTree w) x.tree in
    record {
      array = record {
        tree = (refl, tree);
        level = let l = x.level in ground arith;
        bounded = omega arith;
      };
      inside = k;
      same = λ j. grown-get root new j (omega arith) (
          grow_further w (w + 6) mask root new (record {
            tree = (refl, tree);
            wide = refl;
            same = λ j b. let e : ltb j (2 ^ (w + 6)) ≡ true = ground arith in rw e refl;
          }));
    }
