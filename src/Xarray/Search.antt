-- ===== src/Xarray/Search.antt =====
-- The search for the next value of kernel/klib/xarray.c.
use stanix.Base.{
  ℕ, zero, suc, ◌+◌, ◌-◌, ◌*◌, ◌%◌, ◌^◌, ◌≤◌, ◌<◌, ◌≡◌, refl, sym, ap, subst, ◌∙◌, Bool, true,
  Option, none, some, ltb, ◌==◌, if◌then◌else◌, inl, inr, Bool-cases, ne→test, eq→test, lt_or_le,
  arith,
}
use stanix.Xarray.{Entry, empty, value, node, get_walk, width, is_in_bound, raw_get, local_index}
use stanix.Xarray.Seek.{Found, step_found, find_loop, find_non_null, raw_first_from, raw_first}
use stanix.Xarray.Index.{
  pow-positive, pow_node, mod-node, local_index-place, mod-place, place_lt, local_index_lt,
}
use stanix.Xarray.Lookup.{IsTree, IsXarray, get_walk-mod}
use stanix.Xarray.Growth.{raw_get-outside}
use native.Mathlib.Nat.{mod-lt, mod-eq_of_lt, mod-one, zero-mod, add-mul}

-- Of a map to the places below `bound`: the least place from `lo` on that has a value, or that there is
-- none.
abbrev pub Finds : (bound : ℕ) → (ℕ → Option ℕ) → (lo : ℕ) → Option Found → Type 0
Finds bound get lo none = (j : ℕ) → lo ≤ j → j < bound → get j ≡ none
Finds bound get lo (some f) =
    (f.index < bound)
    × (lo ≤ f.index)
    × (get f.index ≡ some f.found)
    × ((j : ℕ) → lo ≤ j → j < f.index → get j ≡ none)

Finds-before :
    (bound : ℕ) (get : ℕ → Option ℕ) (lo mid : ℕ) (out : Option Found)
    → lo ≤ mid
    → ((j : ℕ) → lo ≤ j → j < mid → j < bound → get j ≡ none)
    → Finds bound get mid out
    → Finds bound get lo out
Finds-before bound get lo mid none h none_below f =
    λ j a b. elim (lt_or_le j mid) [ inl c ↦ none_below j a c b | inr c ↦ f j c b ]
Finds-before bound get lo mid (some p) h none_below (inside, above, there, least) = (
  inside,
  omega arith,
  there,
  λ j a b. elim (lt_or_le j mid) [ inl c ↦ none_below j a c (omega arith) | inr c ↦ least j c b ],
)

-- A place in a node, and in its child.
pub node-get :
    (s : ℕ) (mask : ℕ → Bool) (entries : ℕ → Entry) (i k : ℕ)
    → IsTree s (entries i)
    → i < 64
    → k < 2 ^ s
    → get_walk (node s mask entries) (i * 2 ^ s + k) ≡ get_walk (entries i) k
unfolding get_walk
node-get s mask entries i k h a b =
    ap (λ l. get_walk (entries l) (i * 2 ^ s + k)) (local_index-place s i k a b)
    ∙ sym (get_walk-mod s (entries i) (i * 2 ^ s + k) h)
    ∙ ap (get_walk (entries i)) (mod-place s i k b)

-- The same, of a place among those of the child.
pub node-get_at :
    (s : ℕ) (mask : ℕ → Bool) (entries : ℕ → Entry) (i j : ℕ)
    → IsTree s (entries i)
    → i < 64
    → i * 2 ^ s ≤ j
    → j < i * 2 ^ s + 2 ^ s
    → get_walk (node s mask entries) j ≡ get_walk (entries i) (j - i * 2 ^ s)
node-get_at s mask entries i j h a b c =
    ap (get_walk (node s mask entries)) {x = j} {y = i * 2 ^ s + (j - i * 2 ^ s)} (omega arith)
    ∙ node-get s mask entries i (j - i * 2 ^ s) h a (omega arith)

step_found-Finds :
    (s : ℕ) (mask : ℕ → Bool) (entries : ℕ → Entry) (i lo : ℕ) (here rest : Option Found)
    → ((i : ℕ) → IsTree s (entries i))
    → i < 64
    → lo < 2 ^ s
    → Finds (2 ^ s) (get_walk (entries i)) lo here
    → Finds (2 ^ (s + 6)) (get_walk (node s mask entries)) (i * 2 ^ s + 2 ^ s) rest
    → Finds
        (2 ^ (s + 6))
        (get_walk (node s mask entries))
        (i * 2 ^ s + lo)
        (step_found s i here rest)
unfolding step_found
step_found-Finds s mask entries i lo none rest h a b f g =
    Finds-before _ _ _ (i * 2 ^ s + 2 ^ s) rest (omega arith)
      (λ j c d e.
        node-get_at s mask entries i j (h i) a (omega arith) d
        ∙ f (j - i * 2 ^ s) (omega arith) (omega arith))
      g
step_found-Finds s mask entries i lo (some p) rest h a b (inside, above, there, least) g = (
  let in_node = place_lt s i p.index a inside in omega arith,
  omega arith,
  ap (get_walk (node s mask entries)) {x = p.index + i * 2 ^ s} {y = i * 2 ^ s + p.index}
        (omega arith)
      ∙ node-get s mask entries i p.index (h i) a inside
      ∙ there,
  λ j c d.
      node-get_at s mask entries i j (h i) a (omega arith) (omega arith)
      ∙ least (j - i * 2 ^ s) (omega arith) (omega arith),
)

-- The minimum of the first round is that of the search, of the others 0.
abbrev pub minimum : (start min i : ℕ) → ℕ
minimum start min i = if i == start then min else 0

find_loop-Finds :
    (left : ℕ) (search : ℕ → ℕ → Option Found) (s : ℕ) (mask : ℕ → Bool) (entries : ℕ → Entry)
    (start min i : ℕ)
    → ((i : ℕ) → IsTree s (entries i))
    → ((i m : ℕ) → Finds (2 ^ s) (get_walk (entries i)) (m % 2 ^ s) (search i m))
    → left + i ≡ 64
    → start ≤ i
    → start < 64
    → Finds
        (2 ^ (s + 6))
        (get_walk (node s mask entries))
        (i * 2 ^ s + minimum start min i % 2 ^ s)
        (find_loop left search s start min i)
unfolding find_loop
find_loop-Finds zero search s mask entries start min i h k l a b = λ j c d.
    let n = pow_node s in
    let last : i ≡ 64 = omega arith in
    let e : i * 2 ^ s ≡ 64 * 2 ^ s = ap (λ x. x * 2 ^ s) last in absurd (omega arith)
find_loop-Finds (suc left) search s mask entries start min i h k l a b =
    let p = pow-positive s in
    let next = ne→test (i + 1) start (λ c. absurd (omega arith)) in
    let bottom : (i + 1) * 2 ^ s + minimum start min (i + 1) % 2 ^ s ≡ i * 2 ^ s + 2 ^ s =
      rw (next, zero-mod (2 ^ s)) (let d = add-mul i 1 (2 ^ s) in omega arith) in
    step_found-Finds s mask entries i (minimum start min i % 2 ^ s) _ _ h (omega arith) (mod-lt _ p)
      (k i (minimum start min i))
      (subst
        (λ lo.
          Finds (2 ^ (s + 6)) (get_walk (node s mask entries)) lo
            (find_loop left search s start min (i + 1)))
        bottom
        (find_loop-Finds left search s mask entries start min (i + 1) h k (omega arith)
          (omega arith) b))

pub find_non_null-Finds :
    (w : ℕ) (e : Entry) (min : ℕ)
    → IsTree w e
    → Finds (2 ^ w) (get_walk e) (min % 2 ^ w) (find_non_null e min)
unfolding find_non_null get_walk
find_non_null-Finds w empty min h = λ j a b. refl
find_non_null-Finds w (value v) min h =
    rw h (omega arith, rw (mod-one min) (omega arith), refl, λ j a b. absurd (omega arith))
find_non_null-Finds w (node s mask entries) min h =
    let start = local_index s min in
    let first : (start == start) ≡ true = eq→test start start refl in
    let lo : start * 2 ^ s + minimum start min start % 2 ^ s ≡ min % 2 ^ (s + 6) =
      rw first (sym (mod-node s min)) in
    let whole = local_index_lt s min in
    rw h.0 (
      subst
        (λ lo.
          Finds (2 ^ (s + 6)) (get_walk (node s mask entries)) lo
            (find_non_null (node s mask entries) min))
        lo
        (find_loop-Finds (64 - start) (λ i m. find_non_null (entries i) m) s mask entries start min
          start h.1 (λ i m. find_non_null-Finds s (entries i) m (h.1 i)) (omega arith) (omega arith)
          (local_index_lt s min)))

-- Of the whole array: the least index from `lo` on that has a value, or that there is none.
abbrev pub FindsFirst : (root : Entry) → (lo : ℕ) → Option Found → Type 0
FindsFirst root lo none = (j : ℕ) → lo ≤ j → raw_get root j ≡ none
FindsFirst root lo (some f) =
    (lo ≤ f.index)
    × (raw_get root f.index ≡ some f.found)
    × ((j : ℕ) → lo ≤ j → j < f.index → raw_get root j ≡ none)

first_in_bound :
    (root : Entry) (lo : ℕ) (out : Option Found)
    → Finds (2 ^ width root) (get_walk root) lo out
    → FindsFirst root lo out
unfolding raw_get is_in_bound
first_in_bound root lo none f = λ j a. elim (Bool-cases (ltb j (2 ^ width root))) [
  | inl e ↦ rw e (f j a (ground arith))
  | inr e ↦ rw e refl
]
first_in_bound root lo (some p) (inside, above, there, least) =
    let within : ltb p.index (2 ^ width root) ≡ true = ground arith in
    (
      above,
      rw within there,
      λ j a b. let near : ltb j (2 ^ width root) ≡ true = ground arith in rw near (least j a b),
    )

-- Of a well-formed array xarray_first_from returns the value at the least index from `from` on that has
-- one, with this index, and NULL when there is none.
pub raw_first_from-FindsFirst :
    (root : Entry) (from : ℕ) → IsXarray root → FindsFirst root from (raw_first_from root from)
unfolding raw_first_from is_in_bound
raw_first_from-FindsFirst root from x = elim (Bool-cases (ltb from (2 ^ width root))) [
  | inl e ↦
      let here : from % 2 ^ width root ≡ from = mod-eq_of_lt (ground arith) in
      rw e (
        first_in_bound root from (find_non_null root from) (
          subst (λ lo. Finds (2 ^ width root) (get_walk root) lo (find_non_null root from)) here
            (find_non_null-Finds (width root) root from x.tree)))
  | inr e ↦ rw e (λ j a. raw_get-outside root j (ground arith))
]

-- `xarray_raw_first` finds the least index of all.
pub raw_first-FindsFirst : (root : Entry) → IsXarray root → FindsFirst root 0 (raw_first root)
unfolding raw_first
raw_first-FindsFirst root x = first_in_bound root 0 (find_non_null root 0) (
    subst (λ lo. Finds (2 ^ width root) (get_walk root) lo (find_non_null root 0))
      (zero-mod (2 ^ width root)) (find_non_null-Finds (width root) root 0 x.tree))
