-- ===== src/Interval/Laws.antt =====
-- The interval tree as an instance of the AVL tree.
use stanix.Base.{ℕ, ◌≡◌, refl, true, false, none, ltb, arith, ◌<◌, ◌≤◌}
use stanix.Avl.{Tree, leaf, node, less}
use stanix.Avl.Order.{is_less, IsOrder, IsSorted}
use stanix.Avl.Balance.{inorder, IsAvl}
use stanix.Avl.Insert.{Inserted, insert-Inserted}
use stanix.Avl.Search.{first_superior_or_equal, superior_from}
use stanix.Interval.{
  Span, IntervalNode, span_compare, interval_compare_nodes, interval_tree_ops, interval_insert,
  interval_first_span,
}

less_asym :
    (a b c d : ℕ)
    → span_compare (record { start = a; end = b }) (record { start = c; end = d }) ≡ less
    → is_less (span_compare (record { start = c; end = d }) (record { start = a; end = b })) ≡ false
less_asym a b c d h = ground arith

not_less_trans :
    (a b c d e f : ℕ)
    → is_less (span_compare (record { start = a; end = b }) (record { start = c; end = d })) ≡ false
    → is_less (span_compare (record { start = c; end = d }) (record { start = e; end = f })) ≡ false
    → is_less (span_compare (record { start = a; end = b }) (record { start = e; end = f })) ≡ false
not_less_trans a b c d e f h k = ground arith

pub interval_compare_nodes-IsOrder : IsOrder interval_compare_nodes
interval_compare_nodes-IsOrder = record {
  asym = λ a b h. less_asym a.span.start a.span.end b.span.start b.span.end h;
  trans = λ a b c h k.
      not_less_trans a.span.start a.span.end b.span.start b.span.end c.span.start c.span.end h k;
}

-- Into a balanced interval tree whose spans are in order, by their start and then by their end:
-- insertion never reaches undefined behaviour and gives a balanced tree, at most one higher, with
-- the new node in its place among the others.
pub interval_insert-Inserted :
    (x : IntervalNode) (max : ℕ) (t : Tree IntervalNode ℕ)
    → IsAvl interval_tree_ops t
    → IsSorted interval_compare_nodes (inorder interval_tree_ops t)
    → Inserted interval_tree_ops x t (interval_insert x max t)
unfolding interval_insert
interval_insert-Inserted x max t v w =
    insert-Inserted interval_tree_ops x max t interval_compare_nodes-IsOrder v w

-- In a tree of one node: a query that lies inside the node's span does not find it, though they
-- overlap.
pub interval_first_span-misses :
    (x : IntervalNode) (max : ℕ) (span : Span)
    → x.span.start ≤ span.start
    → span.start < span.end
    → span.end ≤ x.span.end
    → interval_first_span span (node leaf x leaf 1 max) ≡ none
unfolding interval_first_span first_superior_or_equal superior_from
interval_first_span-misses x max span h k l =
    let off : ltb x.span.end span.end ≡ false = ground arith in
    let inside : ltb span.start x.span.end ≡ true = ground arith in
    rw (interval_first_span, first_superior_or_equal, superior_from, off, inside) refl
