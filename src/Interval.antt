-- ===== src/Interval.antt =====
-- kernel/klib/intervaltree.c and kernel/include/klib/intervaltree.h: the AVL tree of spans. What the tree
-- keeps in a node is `max`, the largest end below it.
mod Laws
mod Tests
use stanix.Base.{ℕ, Bool, true, false, ◌&&◌, Option, none, some, ltb, leb, ◌==◌, if◌then◌else◌}
use stanix.Avl.{Tree, leaf, node, Ops, Sign, less, equal, greater, kept_in, insert}
use stanix.Avl.Search.{first_superior_or_equal}

-- `interval_tree_span_t`
pub record Span : Type 0 where
  pub start : ℕ
  pub end : ℕ

-- A node's span, and which object the node is.
pub record IntervalNode : Type 0 where
  pub span : Span
  pub object : ℕ

abbrev pub span_compare : Span → Span → Sign
span_compare a b =
    if ltb a.start b.start
    then less
    else if ltb b.start a.start
    then greater
    else if ltb a.end b.end
    then less
    else if ltb b.end a.end
    then greater
    else equal

-- `interval_tree_compare_nodes`
abbrev pub interval_compare_nodes : IntervalNode → IntervalNode → Sign
interval_compare_nodes a b = span_compare a.span b.span

abbrev at_least : ℕ → Option ℕ → Bool
at_least start none = false
at_least start (some max) = leb start max

-- `interval_tree_compare_key`
abbrev pub interval_compare_key : Span → Tree IntervalNode ℕ → Sign
interval_compare_key span leaf = equal
interval_compare_key span (node left x right h kept) =
    if at_least span.start (kept_in left)
    then less
    else if ltb span.start x.span.end && ltb x.span.end span.end
    then equal
    else greater

abbrev raise : ℕ → Option ℕ → ℕ
raise most none = most
raise most (some max) = if ltb most max then max else most

-- `interval_tree_recalculate`
abbrev pub interval_recalculate : IntervalNode → Option ℕ → Option ℕ → ℕ
interval_recalculate x left right = raise (raise x.span.end left) right

-- `interval_tree_ops`
abbrev pub interval_tree_ops : Ops IntervalNode ℕ Span
interval_tree_ops = record {
  compare_nodes = interval_compare_nodes;
  compare_key = interval_compare_key;
  recalculate = interval_recalculate;
  same = λ a b. a.object == b.object;
}

-- `interval_tree_insert`; `max` is what the caller left in the node.
pub interval_insert : IntervalNode → (max : ℕ) → Tree IntervalNode ℕ → Option (Tree IntervalNode ℕ)
interval_insert x max t = insert interval_tree_ops x max t

-- The end of `interval_tree_first_span`
abbrev pub before_end : Span → Option IntervalNode → Option IntervalNode
before_end span none = none
before_end span (some x) = if leb span.end x.span.start then none else some x

-- `interval_tree_first_span`
pub interval_first_span : Span → Tree IntervalNode ℕ → Option IntervalNode
interval_first_span span t = before_end span (first_superior_or_equal interval_tree_ops span t)
