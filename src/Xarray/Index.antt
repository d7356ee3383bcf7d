-- ===== src/Xarray/Index.antt =====
-- The local indices that an index of kernel/klib/xarray.c is cut into.
use stanix.Base.{ℕ, suc, ◌+◌, ◌*◌, ◌/◌, ◌%◌, ◌^◌, ◌≤◌, ◌<◌, ◌≡◌, ◌↔◌, sym, ap, ap₂, ◌∙◌, arith}
use stanix.Xarray.{local_index}
use native.Mathlib.Nat.{
  mod-lt, mod-eq_of_lt, div-add-mod', add-mul-mod_self_right, add-mul-div_right, div-eq_of_lt,
  one-le-pow, mul-le-mul_right, mul_assoc, add-mul, two-pow-succ,
}

pub pow-positive : (s : ℕ) → 0 < 2 ^ s
pow-positive s = one-le-pow s 2 (omega arith)

pow-step : (s : ℕ) → 2 ^ (s + 1) ≡ 2 * 2 ^ s
pow-step s = ap (λ n. 2 ^ n) {x = s + 1} {y = suc s} (omega arith) ∙ two-pow-succ s ∙ omega arith

pub pow_node : (s : ℕ) → 2 ^ (s + 6) ≡ 64 * 2 ^ s
pow_node s =
    let a = pow-step s in
    let b = pow-step (s + 1) in
    let c = pow-step (s + 1 + 1) in
    let d = pow-step (s + 1 + 1 + 1) in
    let e = pow-step (s + 1 + 1 + 1 + 1) in
    let f = pow-step (s + 1 + 1 + 1 + 1 + 1) in
    ap (λ n. 2 ^ n) {x = s + 6} {y = s + 1 + 1 + 1 + 1 + 1 + 1} (omega arith) ∙ omega arith

pub local_index_lt : (s i : ℕ) → local_index s i < 64
local_index_lt s i = mod-lt _ (omega arith)

place_bound : (l r b : ℕ) → l < 64 → r < b → l * b + r < 64 * b
place_bound l r b h k = let m : l * b ≤ 63 * b = mul-le-mul_right b (omega arith) in omega arith

place : (b i : ℕ) → 0 < b → i % (64 * b) ≡ i / b % 64 * b + i % b
place b i h =
    let q = i / b in
    let l = q % 64 in
    let inner : q * b + i % b ≡ i = div-add-mod' i b in
    let outer : q / 64 * 64 * b + l * b ≡ q * b =
      sym (add-mul (q / 64 * 64) l b) ∙ ap (λ x. x * b) (div-add-mod' q 64) in
    let shape : i ≡ (l * b + i % b) + q / 64 * (64 * b) =
      let assoc = mul_assoc (q / 64) 64 b in omega arith in
    let bound = place_bound l (i % b) b (mod-lt q (omega arith)) (mod-lt i h) in
    ap (λ x. x % (64 * b)) shape ∙ add-mul-mod_self_right _ (q / 64) (64 * b) ∙ mod-eq_of_lt bound

-- The place of an index in a node: that of its child, and the place in the child.
pub mod-node : (s i : ℕ) → i % 2 ^ (s + 6) ≡ local_index s i * 2 ^ s + i % 2 ^ s
mod-node s i = ap (λ n. i % n) (pow_node s) ∙ place (2 ^ s) i (pow-positive s)

-- A local index and a place in the child come back from the place in the node.
pub local_index-place : (s l r : ℕ) → l < 64 → r < 2 ^ s → local_index s (l * 2 ^ s + r) ≡ l
local_index-place s l r h k =
    ap (λ x. x / 2 ^ s % 64) {x = l * 2 ^ s + r} {y = r + l * 2 ^ s} (omega arith)
    ∙ ap (λ x. x % 64)
        (add-mul-div_right r l (pow-positive s) ∙ ap (λ x. x + l) (div-eq_of_lt k) ∙ omega arith)
    ∙ mod-eq_of_lt (omega arith)

pub mod-place : (s l r : ℕ) → r < 2 ^ s → (l * 2 ^ s + r) % 2 ^ s ≡ r
mod-place s l r k =
    ap (λ x. x % 2 ^ s) {x = l * 2 ^ s + r} {y = r + l * 2 ^ s} (omega arith)
    ∙ add-mul-mod_self_right r l (2 ^ s)
    ∙ mod-eq_of_lt k

pub place_lt : (s l r : ℕ) → l < 64 → r < 2 ^ s → l * 2 ^ s + r < 2 ^ (s + 6)
place_lt s l r h k = let n = pow_node s in let b = place_bound l r (2 ^ s) h k in omega arith

-- Reducing an index to the node changes neither its local index nor its place in the child.
pub local_index-mod : (s i : ℕ) → local_index s (i % 2 ^ (s + 6)) ≡ local_index s i
local_index-mod s i =
    ap (λ x. local_index s x) (mod-node s i)
    ∙ local_index-place s (local_index s i) (i % 2 ^ s) (local_index_lt s i)
        (mod-lt i (pow-positive s))

pub mod-mod_node : (s i : ℕ) → i % 2 ^ (s + 6) % 2 ^ s ≡ i % 2 ^ s
mod-mod_node s i =
    ap (λ x. x % 2 ^ s) (mod-node s i)
    ∙ mod-place s (local_index s i) (i % 2 ^ s) (mod-lt i (pow-positive s))

-- Two indices have the same place in a node just when they have the same local index, and the same
-- place in the child.
pub same_place :
    (s i j : ℕ)
    → (j % 2 ^ (s + 6) ≡ i % 2 ^ (s + 6))
      ↔ ((local_index s j ≡ local_index s i) × (j % 2 ^ s ≡ i % 2 ^ s))
same_place s i j = (
  λ h. (
    sym (local_index-mod s j) ∙ ap (λ x. local_index s x) h ∙ local_index-mod s i,
    sym (mod-mod_node s j) ∙ ap (λ x. x % 2 ^ s) h ∙ mod-mod_node s i,
  ),
  λ h. mod-node s j ∙ ap₂ (λ l r. l * 2 ^ s + r) h.0 h.1 ∙ sym (mod-node s i),
)
