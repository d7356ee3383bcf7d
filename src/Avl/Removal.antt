-- ===== src/Avl/Removal.antt =====
-- kernel/klib/avltree.c: removal.
use stanix.Base.{Bool, true, false, Option, none, some, if◌then◌else◌}
use stanix.Avl.{Tree, leaf, node, Ops, less, equal, greater, on_left, on_right, and_then, rebalance}

-- `avltree_leftest_subnode`, of the tree whose root and left child are given.
abbrev pub leftest_from : {A : Type 0} {B : Type 0} → A → Tree A B → A
leftest_from x leaf = x
leftest_from x (node left y right h kept) = leftest_from y left

abbrev pub leftest_of : {A : Type 0} {B : Type 0} → A → Tree A B → A
leftest_of other leaf = other
leftest_of other (node left x right h kept) = leftest_from x left

-- Whether the node was found, and what is in the place of the tree.
abbrev Removed : (A : Type 0) (B : Type 0) → Type 0
Removed A B = Option (Bool × Tree A B)

-- What the caller of the helper does with a child.
unfoldable pub on_return :
    {A : Type 0} {B : Type 0}
    → Tree A B
    → (Tree A B → Option (Tree A B))
    → (Bool × Tree A B)
    → Removed A B
on_return whole go (false, child) = some (false, whole)
on_return whole go (true, child) = and_then (go child) λ t. some (true, t)

-- The leftmost node of the right child takes the place of a node with two children.
unfoldable pub replaced :
    {A : Type 0} {B : Type 0} {K : Type 0}
    → Ops A B K
    → Tree A B
    → A
    → (Bool × Tree A B)
    → Removed A B
replaced ops left leftest (false, right) = none
replaced ops left leftest (true, right) =
    and_then (rebalance ops on_right left leftest right) λ t. some (true, t)

-- The node that was searched for goes; `taken` is what removing the leftmost node of its right child
-- returned.
unfoldable pub unlink :
    {A : Type 0} {B : Type 0} {K : Type 0}
    → Ops A B K
    → Tree A B
    → Tree A B
    → (leftest : A) → (taken : Removed A B) → Removed A B
unlink ops left leaf leftest taken = some (true, left)
unlink ops leaf (node c z d j k) leftest taken = some (true, node c z d j k)
unlink ops (node a y b i k) (node c z d j k') leftest taken =
    and_then taken (replaced ops (node a y b i k) leftest)

-- `avltree_remove` and its helper
unfoldable pub remove :
    {A : Type 0} {B : Type 0} {K : Type 0} → Ops A B K → A → Tree A B → Removed A B
remove ops n leaf = some (false, leaf)
remove ops n (node left x right h kept) =
    let from_left =
      and_then (remove ops n left)
        (on_return (node left x right h kept) λ l. rebalance ops on_left l x right) in
    let from_right =
      and_then (remove ops n right)
        (on_return (node left x right h kept) λ r. rebalance ops on_right left x r) in
    let leftest = leftest_of x right in
    let unlinked = unlink ops left right leftest (remove ops leftest right) in
    elim (ops.compare_nodes n x) [
      | less ↦ from_left
      | greater ↦ from_right
      | equal ↦ if ops.same n x then unlinked else from_right
    ]
