-- ===== src/FilterTree/Tests.antt =====
-- Filters over a record of one value: the laws of expressions can hold, and the theorems apply.
use redis_graph.Prelude.{◌≡◌, refl, Bool, true, false, ◌||◌, Option, none, some, arith}
use redis_graph.Value.{
  SiValue, boolean, int, double, null, compare_values, int_sign, type_difference, compare_doubles,
}
use redis_graph.Value.Sample.{payloads}
use redis_graph.BooleanFuncs.{ar_not}
use redis_graph.FilterTree.{
  and_op, or_op, xor_op, not_op, equal_op, lt_op, ge_op, filter_fail, filter_pass, Expressions,
  FilterTree, null_tree, exp, pred, cond, apply_filters, apply_filter, filter_of, apply_condition,
  apply_value, sub_trees, combine,
}
use redis_graph.FilterTree.Laws.{IsExpressions, IsLogical, IsPositive}
use redis_graph.FilterTree.DeMorgan.{de_morgan}
use redis_graph.FilterTree.DeMorgan.Negate.{de_morgan_lem, de_morgan_unordered, IsUnordered}
use redis_graph.FilterTree.DeMorgan.Positive.{HasNoNot, de_morgan-HasNoNot}
use redis_graph.FilterTree.Compact.{compact, compact_xor, compact_pred, constant_value, xor_value}
use redis_graph.FilterTree.Compact.Keeps.{compact_lem}
use redis_graph.FilterTree.Combine.{combine-sub_trees}
use redis_graph.FilterTree.Functions.{
  IsTyped, function_of, connective_of, apply_filter-function_of, apply_condition-connective_of,
}

data Expression : Type 0 where
  const : SiValue payloads → Expression
  column : Expression
  negation : Expression → Expression

-- A record is one value.
abbrev evaluate_in : Expression → Option (SiValue payloads) → SiValue payloads
unfolding ar_not
evaluate_in (const v) r = v
evaluate_in column none = null
evaluate_in column (some v) = v
evaluate_in (negation e) r = ar_not (evaluate_in e r)

abbrev is_const : Expression → Bool
is_const (const v) = true
is_const _ = false

abbrev expressions : Expressions payloads
expressions = record {
  Exp = Expression;
  Record = SiValue payloads;
  evaluate = evaluate_in;
  is_constant = is_const;
  is_parameter = λ e. false;
  returns_boolean = λ e. true;
  new_const = const;
  new_not = negation;
}

evaluate_static :
    (e : Expression) (r : SiValue payloads)
    → is_const e || false ≡ true
    → evaluate_in e (some r) ≡ evaluate_in e none
unfolding evaluate_in
evaluate_static (const v) r h = refl
evaluate_static column r h = absurd (ground arith)
evaluate_static (negation e) r h = absurd (ground arith)

expressions-IsExpressions : IsExpressions expressions
unfolding ar_not evaluate_in
expressions-IsExpressions = record {
  evaluate-not = λ e r h. refl;
  evaluate-const = λ v r. refl;
  evaluate-const_none = λ v. refl;
  is_constant-const = λ v. refl;
  evaluate_static = evaluate_static;
}

-- NOT (x < 3 AND true) OR NOT (NOT x = 5)
abbrev nested : FilterTree expressions
nested =
    cond or_op
      (cond not_op (cond and_op (pred lt_op column (const (int 3))) (exp (const (boolean true))))
        null_tree)
      (cond not_op (cond not_op (pred equal_op column (const (int 5))) null_tree) null_tree)

-- x < 3 AND (true OR 2 = 2)
abbrev foldable : FilterTree expressions
foldable =
    cond and_op (pred lt_op column (const (int 3)))
      (cond or_op (exp (const (boolean true))) (pred equal_op (const (int 2)) (const (int 2))))

-- true XOR 2 = 2
abbrev constant : FilterTree expressions
constant = cond xor_op (exp (const (boolean true))) (pred equal_op (const (int 2)) (const (int 2)))

nested-IsLogical : IsLogical expressions (int 2) nested
unfolding evaluate_in compare_values int_sign
nested-IsLogical = (tt, (tt, (tt, tt), tt), (tt, tt))

de_morgan_lem_example :
    apply_filters expressions (de_morgan expressions nested) (int 2)
    ≡ apply_filters expressions nested (int 2)
de_morgan_lem_example =
    de_morgan_lem {E = expressions} expressions-IsExpressions (int 2) nested nested-IsLogical

de_morgan-HasNoNot_example : HasNoNot (de_morgan expressions nested)
de_morgan-HasNoNot_example =
    de_morgan-HasNoNot nested (tt, (tt, (tt, tt, tt), tt), (tt, (tt, tt, tt), tt))

disjoint-IsUnordered :
    IsUnordered
      (compare_values
        (expressions.evaluate column (some (boolean true)))
        (expressions.evaluate (const (int 3)) (some (boolean true)))).1
unfolding evaluate_in compare_values type_difference
disjoint-IsUnordered = tt

de_morgan_unordered_example :
    (apply_filters expressions
        (cond not_op (pred lt_op column (const (int 3))) null_tree)
        (boolean true)
      ≡ filter_pass)
    × (apply_filters expressions
          (de_morgan expressions (cond not_op (pred lt_op column (const (int 3))) null_tree))
          (boolean true)
        ≡ filter_fail)
de_morgan_unordered_example =
    de_morgan_unordered expressions (boolean true) lt_op column (const (int 3)) null_tree tt
      disjoint-IsUnordered

foldable-IsPositive : IsPositive expressions (int 2) foldable
unfolding evaluate_in
foldable-IsPositive = (tt, tt, (tt, tt, tt))

compact_lem_example :
    apply_filters expressions (compact expressions foldable).1 (int 2)
    ≡ apply_filters expressions foldable (int 2)
compact_lem_example =
    compact_lem expressions expressions-IsExpressions (int 2) foldable foldable-IsPositive

constant-IsPositive : IsPositive expressions (int 2) constant
unfolding evaluate_in
constant-IsPositive = (tt, tt, tt)

compact-constant_true : (compact expressions constant).0 ≡ true
unfolding evaluate_in compact compact_xor compact_pred constant_value xor_value compare_values
    int_sign apply_filter filter_of
compact-constant_true = refl

combine-sub_trees_example :
    apply_filters expressions (combine expressions (sub_trees expressions foldable)) (int 2)
    ≡ apply_filters expressions foldable (int 2)
combine-sub_trees_example = combine-sub_trees expressions (int 2) foldable (tt, tt)

IsTyped-comparison : IsTyped (compare_values {P = payloads} (double none) (int 7)).1
unfolding compare_values compare_doubles
IsTyped-comparison = tt

apply_filter-function_of_example :
    apply_value (function_of {P = payloads} ge_op (double none) (int 7))
    ≡ apply_filter {P = payloads} (double none) (int 7) ge_op
apply_filter-function_of_example =
    apply_filter-function_of ge_op (double none) (int 7) tt IsTyped-comparison

apply_condition-connective_of_example :
    apply_value (connective_of {P = payloads} and_op null (boolean false))
    ≡ apply_condition and_op
        (apply_value {P = payloads} null)
        (apply_value {P = payloads} (boolean false))
apply_condition-connective_of_example =
    apply_condition-connective_of and_op null (boolean false) tt tt tt
