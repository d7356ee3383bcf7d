-- ===== src/Avl/Tests.antt =====
-- The tree at concrete values.
use stanix.Base.{ℕ, ◌≡◌, refl, Bool, true, Option, none, some, ltb, ◌==◌, if◌then◌else◌, arith}
use mathlib.Core.Bool.{true≢false}
use stanix.Avl.{
  Tree, leaf, node, Ops, Sign, less, equal, greater, insert, compute_height, rebalance,
  rebalance_by, rotate_left, rotate_right, with_child,
}
use stanix.Avl.Order.{IsOrder}
use stanix.Avl.Balance.{inorder, IsAvl}
use stanix.Avl.Insert.{Inserted, insert-Inserted}
use stanix.Avl.Defects.{single, remove-Unbalances, four, Unbalances}
use stanix.Avl.Removal.{remove, unlink, on_return, replaced}
use stanix.Avl.Search.{first_superior_or_equal, first_superior_or_equal_lem, first_in}

abbrev sign_of : ℕ → ℕ → Sign
sign_of a b = if ltb a b then less else if ltb b a then greater else equal

-- Numbers, in their order; the tree keeps nothing.
abbrev by_number : Ops ℕ Bool ℕ
by_number = record {
  compare_nodes = sign_of;
  compare_key = λ key t. elim t [ leaf ↦ equal | node left x right h kept ↦ sign_of key x ];
  recalculate = λ x left right. true;
  same = λ a b. a == b;
}

by_number-IsOrder : IsOrder sign_of
by_number-IsOrder = record { asym = λ a b h. ground arith; trans = λ a b c h k. ground arith }

abbrev three : Tree ℕ Bool
three = node (node leaf 1 leaf 1 true) 2 (node leaf 4 leaf 1 true) 2 true

insert-Inserted_example : Inserted by_number 3 three (insert by_number 3 true three)
insert-Inserted_example =
    insert-Inserted by_number 3 true three by_number-IsOrder
      (
        (refl, refl, ground arith, ground arith, ground arith),
        (refl, refl, ground arith, ground arith, ground arith),
        ground arith,
        ground arith,
        ground arith,
      )
      ((refl, (refl, refl)), ((refl, refl), (refl, refl)))

first_superior_or_equal_lem_example :
    first_superior_or_equal by_number 3 three
    ≡ first_in by_number 3 (sign_of 3) (inorder by_number three) none
first_superior_or_equal_lem_example =
    first_superior_or_equal_lem by_number 3 (sign_of 3) three
      ((refl, refl, refl), refl, (refl, refl, refl))
      (λ h. absurd (true≢false h), (λ h. absurd (true≢false h), (λ h. refl, refl)))

remove-Unbalances_example :
    IsAvl by_number (four by_number 1 2 3 4) × Unbalances by_number 1 (four by_number 1 2 3 4)
remove-Unbalances_example = remove-Unbalances by_number 1 2 3 4 refl refl refl

-- Numbers that all compare as equal.
abbrev indistinct : Ops ℕ Bool ℕ
indistinct = record by_number { compare_nodes = λ a b. equal }

-- Such a tree is what inserting the three in turn makes.
indistinct_inserted :
    insert indistinct 3 true (node leaf 1 (node leaf 2 leaf 1 true) 2 true)
    ≡ some (compute_height indistinct (single indistinct 1) 2 (node leaf 3 leaf 1 true))
unfolding insert rebalance rebalance_by with_child rotate_left
indistinct_inserted = refl

abbrev put_in : ℕ → Option (Tree ℕ Bool) → Option (Tree ℕ Bool)
put_in n none = none
put_in n (some t) = insert by_number n true t

abbrev take_out : ℕ → Option (Tree ℕ Bool) → Option (Tree ℕ Bool)
take_out n none = none
take_out n (some t) = elim (remove by_number n t) [ none ↦ none | some (gone, t') ↦ some t' ]

-- Twelve numbers put in, in this order.
abbrev twelve : Option (Tree ℕ Bool)
twelve = put_in 3 (
    put_in 5 (
      put_in 2 (
        put_in 0 (
          put_in 8 (
            put_in 6
              (put_in 9 (put_in 11 (put_in 1 (put_in 7 (put_in 10 (put_in 4 (some leaf))))))))))))

-- Taking out three numbers that follow each other reaches undefined behaviour.
undefined_at : take_out 8 (take_out 7 (take_out 6 twelve)) ≡ none
unfolding insert rebalance rebalance_by with_child rotate_left rotate_right remove unlink on_return
    replaced
undefined_at = refl
