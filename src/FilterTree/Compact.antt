-- ===== src/FilterTree/Compact.antt =====
-- FilterTree_Compact of src/filter_tree/filter_tree.c: constant parts of a filter are evaluated
-- once. A node that is changed in place is the tree that the function returns beside its answer.
pub mod Tables
pub mod Step
pub mod Keeps
use redis_graph.Prelude.{Bool, true, false, not, ◌&&◌, ◌||◌, none, if◌then◌else◌}
use redis_graph.Value.{Payloads, SiValue, boolean, null, is_null}
use redis_graph.FilterTree.{
  Operator, or_op, xor_op, and_op, xnor_op, FtResult, filter_null, filter_fail, filter_pass,
  apply_filter, Expressions, FilterTree, null_tree, exp, pred, cond,
}

-- SIValue_IsTrue, of a boolean; SIValue_IsFalse is its negation.
abbrev pub is_true : {P : Payloads} → SiValue P → Bool
is_true (boolean b) = b
is_true _ = false

abbrev pub same_bool : Bool → Bool → Bool
same_bool true b = b
same_bool false b = not b

-- The value that `_FilterTree_Compact_Pred` stores for a result.
abbrev pub value_of : {P : Payloads} → FtResult → SiValue P
value_of filter_null = null
value_of filter_fail = boolean false
value_of filter_pass = boolean true

module _ {P : Payloads} (E : Expressions P) where
  abbrev pub is_static : E.Exp → Bool
  is_static e = E.is_constant e || E.is_parameter e

  -- AR_EXP_Evaluate (node->exp.exp, NULL) of a child that was found to be constant
  unfoldable pub constant_value : FilterTree E → SiValue P
  constant_value (exp e) = E.evaluate e none
  constant_value _ = null

  -- `_FilterTree_In_Place_Set_Exp` of a node that is constant
  abbrev pub set_exp : SiValue P → Bool × FilterTree E
  set_exp v = (true, exp (E.new_const v))

  -- The values that two constant children of an AND make, by their truth values.
  pub and_value : SiValue P → SiValue P → SiValue P
  and_value lhs rhs =
      if not (is_null lhs) && not (is_null rhs)
      then boolean (is_true lhs && is_true rhs)
      else if (not (is_null lhs) && not (is_true lhs)) || (not (is_null rhs) && not (is_true rhs))
      then boolean false
      else null

  pub or_value : SiValue P → SiValue P → SiValue P
  or_value lhs rhs =
      if not (is_null lhs) && not (is_null rhs)
      then boolean (is_true lhs || is_true rhs)
      else if (not (is_null lhs) && is_true lhs) || (not (is_null rhs) && is_true rhs)
      then boolean true
      else null

  unfoldable pub xor_value : Bool → SiValue P → SiValue P → SiValue P
  xor_value xnor lhs rhs =
      if not (is_null lhs) && not (is_null rhs)
      then boolean (
          if xnor
          then same_bool (is_true lhs) (is_true rhs)
          else not (same_bool (is_true lhs) (is_true rhs)))
      else null

  -- `_FilterTree_Compact_And` from what compacting the two children gave.
  compact_and : Bool × FilterTree E → Bool × FilterTree E → Bool × FilterTree E
  unfolding constant_value and_value
  compact_and (false, lhs) (false, rhs) = (false, cond and_op lhs rhs)
  compact_and (true, lhs) (true, rhs) =
      set_exp (and_value (constant_value lhs) (constant_value rhs))
  compact_and (true, lhs) (false, rhs) =
      if is_null (constant_value lhs)
      then (false, cond and_op lhs rhs)
      else if not (is_true (constant_value lhs))
      then (true, lhs)
      else (false, rhs)
  compact_and (false, lhs) (true, rhs) =
      if is_null (constant_value rhs)
      then (false, cond and_op lhs rhs)
      else if not (is_true (constant_value rhs))
      then (true, rhs)
      else (false, lhs)

  -- `_FilterTree_Compact_Or`
  compact_or : Bool × FilterTree E → Bool × FilterTree E → Bool × FilterTree E
  unfolding constant_value or_value
  compact_or (false, lhs) (false, rhs) = (false, cond or_op lhs rhs)
  compact_or (true, lhs) (true, rhs) = set_exp (or_value (constant_value rhs) (constant_value lhs))
  compact_or (true, lhs) (false, rhs) =
      if is_null (constant_value lhs)
      then (false, cond or_op lhs rhs)
      else if is_true (constant_value lhs)
      then (true, lhs)
      else (false, rhs)
  compact_or (false, lhs) (true, rhs) =
      if is_null (constant_value rhs)
      then (false, cond or_op lhs rhs)
      else if is_true (constant_value rhs)
      then (true, rhs)
      else (false, lhs)

  abbrev pub xor_operator : Bool → Operator
  xor_operator true = xnor_op
  xor_operator false = xor_op

  -- `_FilterTree_Compact_XOr`
  unfoldable pub compact_xor :
      Bool → Bool × FilterTree E → Bool × FilterTree E → Bool × FilterTree E
  unfolding constant_value xor_value
  compact_xor xnor (false, lhs) (false, rhs) = (false, cond (xor_operator xnor) lhs rhs)
  compact_xor xnor (true, lhs) (true, rhs) =
      set_exp (xor_value xnor (constant_value lhs) (constant_value rhs))
  compact_xor xnor (true, lhs) (false, rhs) =
      if is_null (constant_value lhs)
      then set_exp (constant_value lhs)
      else (false, cond (xor_operator xnor) lhs rhs)
  compact_xor xnor (false, lhs) (true, rhs) =
      if is_null (constant_value rhs)
      then set_exp (constant_value rhs)
      else (false, cond (xor_operator xnor) lhs rhs)

  -- `_FilterTree_Compact_Pred`
  unfoldable pub compact_pred : Operator → E.Exp → E.Exp → Bool × FilterTree E
  unfolding apply_filter
  compact_pred op lhs rhs =
      if is_static lhs && is_static rhs
      then set_exp (value_of (apply_filter (E.evaluate lhs none) (E.evaluate rhs none) op))
      else (false, pred op lhs rhs)

  -- FilterTree_Compact: whether the tree is now a constant, and the tree in its place. Another
  -- operator is an assertion in the source.
  unfoldable pub compact : FilterTree E → Bool × FilterTree E
  unfolding compact_and compact_or compact_xor compact_pred
  compact null_tree = (true, null_tree)
  compact (exp e) = (is_static e, exp e)
  compact (pred op lhs rhs) = compact_pred op lhs rhs
  compact (cond and_op left right) = compact_and (compact left) (compact right)
  compact (cond or_op left right) = compact_or (compact left) (compact right)
  compact (cond xor_op left right) = compact_xor false (compact left) (compact right)
  compact (cond xnor_op left right) = compact_xor true (compact left) (compact right)
  compact tree = (false, tree)
