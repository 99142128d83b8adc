-- ===== src/FilterTree/Functions.antt =====
-- Comparisons and connectives in filters, and the functions of
-- src/arithmetic/boolean_funcs/boolean_funcs.c that compute them in expressions.
use redis_graph.Prelude.{◌≡◌, ap, ◌∙◌, true, false, not, arith}
use redis_graph.Value.{Payloads, SiValue, null, Sign, Flag, disjoint, compare_values}
use redis_graph.BooleanFuncs.{
  ar_and, ar_or, ar_xor, ar_not, ar_gt, ar_ge, ar_lt, ar_le, ar_eq, ar_ne, order_value,
  equality_value, is_positive, is_negative,
}
use redis_graph.FilterTree.{
  Operator, and_op, or_op, xor_op, not_op, equal_op, nequal_op, lt_op, gt_op, le_op, ge_op,
  filter_of, apply_filter, apply_condition, apply_value,
}
use redis_graph.FilterTree.Laws.{IsTruth, IsComparison}
use redis_graph.FilterTree.Compact.Tables.{Truth, none_truth, bool_truth, truth}

-- The types are compared, or a NULL is met.
abbrev pub IsTyped : Flag → Type 0
IsTyped disjoint = ⊥
IsTyped _ = Unit

-- The connectives that have a function.
abbrev pub IsLogicalFunction : Operator → Type 0
IsLogicalFunction and_op = Unit
IsLogicalFunction or_op = Unit
IsLogicalFunction xor_op = Unit
IsLogicalFunction not_op = Unit
IsLogicalFunction _ = ⊥

module _ {P : Payloads} where
  -- The value that a comparison's function makes of the comparison.
  abbrev pub value_from : Operator → Sign × Flag → SiValue P
  value_from equal_op = equality_value true
  value_from nequal_op = equality_value false
  value_from lt_op = order_value is_negative
  value_from gt_op = order_value is_positive
  value_from le_op = order_value (λ s. not (is_positive s))
  value_from ge_op = order_value (λ s. not (is_negative s))
  value_from _ = λ c. null

module _ (P : Payloads) where
  value_from_lem :
      (op : Operator) (s : Sign) (f : Flag)
      → IsComparison op
      → IsTyped f
      → apply_value (value_from {P = P} op (s, f)) ≡ filter_of op (s, f)
  unfolding apply_value filter_of
  value_from_lem op s f h t = ground arith

module _ {P : Payloads} where
  -- The function that computes a comparison in an expression.
  abbrev pub function_of : Operator → SiValue P → SiValue P → SiValue P
  function_of equal_op = ar_eq
  function_of nequal_op = ar_ne
  function_of lt_op = ar_lt
  function_of gt_op = ar_gt
  function_of le_op = ar_le
  function_of ge_op = ar_ge
  function_of _ = λ a b. null

  function_of-value_from :
      (op : Operator) (a b : SiValue P) → function_of op a b ≡ value_from op (compare_values a b)
  unfolding ar_eq ar_ne ar_lt ar_gt ar_le ar_ge
  function_of-value_from op a b = ground arith

  -- Where the types of two values are compared or one is NULL, a comparison in a filter has the
  -- result that the value of its function has as a filter.
  pub apply_filter-function_of :
      (op : Operator) (a b : SiValue P)
      → IsComparison op
      → IsTyped (compare_values a b).1
      → apply_value (function_of op a b) ≡ apply_filter a b op
  unfolding apply_filter
  apply_filter-function_of op a b h t =
      ap apply_value (function_of-value_from op a b)
      ∙ value_from_lem P op (compare_values a b).0 (compare_values a b).1 h t

  -- The function that computes a connective in an expression; NOT has no second operand.
  abbrev pub connective_of : Operator → SiValue P → SiValue P → SiValue P
  connective_of and_op = ar_and
  connective_of or_op = ar_or
  connective_of xor_op = ar_xor
  connective_of not_op = λ a b. ar_not a
  connective_of _ = λ a b. null

  connective_of-Truth :
      (op : Operator) {a b : SiValue P}
      → IsLogicalFunction op
      → Truth a
      → Truth b
      → apply_value (connective_of op a b) ≡ apply_condition op (apply_value a) (apply_value b)
  unfolding apply_value apply_condition ar_and ar_or ar_xor ar_not
  connective_of-Truth op h none_truth none_truth = ground arith
  connective_of-Truth op h none_truth (bool_truth b) = ground arith
  connective_of-Truth op h (bool_truth a) none_truth = ground arith
  connective_of-Truth op h (bool_truth a) (bool_truth b) = ground arith

  -- On truth values and NULL, AND, OR, XOR and NOT of a filter have the results that the values of
  -- their functions have as filters.
  pub apply_condition-connective_of :
      (op : Operator) (a b : SiValue P)
      → IsLogicalFunction op
      → IsTruth a
      → IsTruth b
      → apply_value (connective_of op a b) ≡ apply_condition op (apply_value a) (apply_value b)
  apply_condition-connective_of op a b h ta tb = connective_of-Truth op h (truth a ta) (truth b tb)
