-- ===== src/Interval/Tests.antt =====
-- The interval tree at concrete values.
use stanix.Base.{ℕ}
use stanix.Avl.{Tree, leaf, node}
use stanix.Interval.{IntervalNode}

abbrev interval : ℕ → ℕ → ℕ → IntervalNode
interval start end object = record { span = record { start = start; end = end }; object = object }

abbrev one_span : Tree IntervalNode ℕ
one_span = node leaf (interval 10 20 1) leaf 1 20
