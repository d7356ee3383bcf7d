-- ===== src/Avl.antt =====
-- kernel/klib/avltree.c: the balanced tree behind the interval tree. A tree is a value: each node holds
-- its element (`A`: the caller's struct, which never changes here), its height and what the callback
-- `recalculate` keeps in it (`B`). `none` stands for what the code leaves undefined: a rotation
-- through a missing child, and `__builtin_unreachable`.
pub mod Order
pub mod Balance
pub mod Insert
pub mod Removal
pub mod Search
pub mod Defects
mod Tests
use stanix.Base.{ℕ, suc, zero, ◌+◌, Bool, true, false, Option, none, some, ltb, if◌then◌else◌}
use stanix.Base.Int.{ℤ, pos, negsuc, sub_ℕ}

-- The sign of what a comparison returns.
pub data Sign : Type 0 where
  less equal greater : Sign

pub data Tree (A : Type 0) (B : Type 0) : Type 0 where
  leaf : Tree A B
  node :
      (left : Tree A B) → (element : A) → (right : Tree A B) → (height : ℕ) → (kept : B) → Tree A B

-- `avltree_ops_t`, and whether two nodes are the same object. `recalculate` sees the node's element
-- and what it kept in the children.
pub record Ops (A : Type 0) (B : Type 0) (K : Type 0) : Type 0 where
  pub compare_nodes : A → A → Sign
  pub compare_key : K → Tree A B → Sign
  pub recalculate : A → Option B → Option B → B
  pub same : A → A → Bool

-- `avltree_height`
abbrev pub height : {A : Type 0} {B : Type 0} → Tree A B → ℕ
height leaf = 0
height (node left x right h kept) = h

abbrev pub kept_in : {A : Type 0} {B : Type 0} → Tree A B → Option B
kept_in leaf = none
kept_in (node left x right h kept) = some kept

-- `avltree_compute_height`, of the node with these children.
abbrev pub compute_height :
    {A : Type 0} {B : Type 0} {K : Type 0} → Ops A B K → Tree A B → A → Tree A B → Tree A B
compute_height ops left x right =
    node left x right ((if ltb (height right) (height left) then height left else height right) + 1)
      (ops.recalculate x (kept_in left) (kept_in right))

-- `avltree_balance_factor`
abbrev pub balance_factor : {A : Type 0} {B : Type 0} → Tree A B → ℤ
balance_factor leaf = pos 0
balance_factor (node left x right h kept) = sub_ℕ (height right) (height left)

pub rotate_left : {A : Type 0} {B : Type 0} {K : Type 0} → Ops A B K → Tree A B → Option (Tree A B)
rotate_left ops leaf = none
rotate_left ops (node left x leaf h kept) = none
rotate_left ops (node left x (node middle y right _ _) h kept) =
    some (compute_height ops (compute_height ops left x middle) y right)

pub rotate_right : {A : Type 0} {B : Type 0} {K : Type 0} → Ops A B K → Tree A B → Option (Tree A B)
rotate_right ops leaf = none
rotate_right ops (node leaf x right h kept) = none
rotate_right ops (node (node left y middle _ _) x right h kept) =
    some (compute_height ops left y (compute_height ops middle x right))

-- Which child the caller came from.
pub data Side : Type 0 where
  on_left on_right : Side

abbrev pub is_positive : ℤ → Bool
is_positive (pos zero) = false
is_positive (pos (suc n)) = true
is_positive (negsuc n) = false

abbrev pub is_negative : ℤ → Bool
is_negative (pos n) = false
is_negative (negsuc n) = true

-- A child is turned before the node is, when it leans the other way.
abbrev pub turn_left :
    {A : Type 0} {B : Type 0} {K : Type 0} → Ops A B K → Tree A B → Option (Tree A B)
turn_left ops child =
    if is_positive (balance_factor child) then rotate_left ops child else some child

abbrev pub turn_right :
    {A : Type 0} {B : Type 0} {K : Type 0} → Ops A B K → Tree A B → Option (Tree A B)
turn_right ops child =
    if is_negative (balance_factor child) then rotate_right ops child else some child

abbrev pub and_then : {A : Type 0} {B : Type 0} → Option A → (A → Option B) → Option B
and_then none f = none
and_then (some x) f = f x

-- The child that is looked at is the one the caller came from, whichever side is too high.
pub with_child :
    {A : Type 0} {B : Type 0} {K : Type 0}
    → Ops A B K
    → Side
    → (Tree A B → Option (Tree A B))
    → Tree A B
    → A
    → Tree A B
    → Option (Tree A B)
with_child ops on_left turn left x right =
    and_then (turn left) λ child. some (compute_height ops child x right)
with_child ops on_right turn left x right =
    and_then (turn right) λ child. some (compute_height ops left x child)

pub rebalance_by :
    {A : Type 0} {B : Type 0} {K : Type 0}
    → Ops A B K
    → Side
    → ℤ
    → Tree A B
    → A
    → Tree A B
    → Option (Tree A B)
rebalance_by ops side (negsuc zero) left x right = some (compute_height ops left x right)
rebalance_by ops side (negsuc (suc zero)) left x right =
    and_then (with_child ops side (turn_left ops) left x right) (rotate_right ops)
rebalance_by ops side (negsuc (suc (suc n))) left x right = none
rebalance_by ops side (pos zero) left x right = some (compute_height ops left x right)
rebalance_by ops side (pos (suc zero)) left x right = some (compute_height ops left x right)
rebalance_by ops side (pos (suc (suc zero))) left x right =
    and_then (with_child ops side (turn_right ops) left x right) (rotate_left ops)
rebalance_by ops side (pos (suc (suc (suc n)))) left x right = none

-- `avltree_rebalance`
pub rebalance :
    {A : Type 0} {B : Type 0} {K : Type 0}
    → Ops A B K
    → Side
    → Tree A B
    → A
    → Tree A B
    → Option (Tree A B)
rebalance ops side left x right =
    rebalance_by ops side (sub_ℕ (height right) (height left)) left x right

-- `avltree_insert` and its helper. The new node keeps what the caller left in it. It is taken to have no
-- children, as a node that the caller has zeroed: `avltree_insert` sets only its height.
pub insert :
    {A : Type 0} {B : Type 0} {K : Type 0} → Ops A B K → A → B → Tree A B → Option (Tree A B)
insert ops n kept leaf = some (node leaf n leaf 1 kept)
insert ops n kept (node left x right h old) = elim (ops.compare_nodes n x) [
  | less ↦ and_then (insert ops n kept left) λ left'. rebalance ops on_left left' x right
  | equal ↦ and_then (insert ops n kept right) λ right'. rebalance ops on_right left x right'
  | greater ↦ and_then (insert ops n kept right) λ right'. rebalance ops on_right left x right'
]
