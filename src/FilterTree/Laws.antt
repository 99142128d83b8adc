-- ===== src/FilterTree/Laws.antt =====
-- What the filter trees rely on of expressions, and the trees that the laws are about.
use redis_graph.Prelude.{◌≡◌, true, ◌||◌, none, some}
use redis_graph.Value.{
  Payloads, SiValue, boolean, null, Flag, ordinary, disjoint, compared_null, compared_nan,
  compare_values,
}
use redis_graph.BooleanFuncs.{ar_not}
use redis_graph.FilterTree.{
  Operator, or_op, xor_op, and_op, xnor_op, not_op, equal_op, nequal_op, lt_op, gt_op, le_op, ge_op,
  Expressions, FilterTree, null_tree, exp, pred, cond,
}

-- A truth value or NULL.
abbrev pub IsTruth : {P : Payloads} → SiValue P → Type 0
IsTruth null = Unit
IsTruth (boolean b) = Unit
IsTruth _ = ⊥

abbrev pub IsComparison : Operator → Type 0
IsComparison equal_op = Unit
IsComparison nequal_op = Unit
IsComparison lt_op = Unit
IsComparison gt_op = Unit
IsComparison le_op = Unit
IsComparison ge_op = Unit
IsComparison _ = ⊥

-- The operators of two operands.
abbrev pub IsConnective : Operator → Type 0
IsConnective and_op = Unit
IsConnective or_op = Unit
IsConnective xor_op = Unit
IsConnective xnor_op = Unit
IsConnective _ = ⊥

-- Compared in order, or NULL: not of disjoint types, and not NaN.
abbrev pub IsOrdered : Flag → Type 0
IsOrdered ordinary = Unit
IsOrdered compared_null = Unit
IsOrdered disjoint = ⊥
IsOrdered compared_nan = ⊥

pub record IsExpressions {P : Payloads} (E : Expressions P) : Type 0 where
  -- The function "not" is AR_NOT where its argument has a type that it accepts.
  pub evaluate-not :
      (e : E.Exp) (r : E.Record)
      → IsTruth (E.evaluate e (some r))
      → E.evaluate (E.new_not e) (some r) ≡ ar_not (E.evaluate e (some r))
  pub evaluate-const : (v : SiValue P) (r : E.Record) → E.evaluate (E.new_const v) (some r) ≡ v
  pub evaluate-const_none : (v : SiValue P) → E.evaluate (E.new_const v) none ≡ v
  pub is_constant-const : (v : SiValue P) → E.is_constant (E.new_const v) ≡ true
  -- A constant or a parameter does not read the record.
  pub evaluate_static :
      (e : E.Exp) (r : E.Record)
      → E.is_constant e || E.is_parameter e ≡ true
      → E.evaluate e (some r) ≡ E.evaluate e none

module _ {P : Payloads} (E : Expressions P) (r : E.Record) where
  -- On the record `r` the leaves are truth values, and the comparisons are of ordered values.
  abbrev pub IsLogical : FilterTree E → Type 0
  IsLogical null_tree = ⊥
  IsLogical (exp e) = IsTruth (E.evaluate e (some r))
  IsLogical (pred op lhs rhs) =
      IsComparison op
      × IsOrdered (compare_values (E.evaluate lhs (some r)) (E.evaluate rhs (some r))).1
  IsLogical (cond not_op left right) = IsLogical left
  IsLogical (cond op left right) = IsConnective op × IsLogical left × IsLogical right

  -- The leaves are truth values on the record `r`, and no condition is a NOT.
  abbrev pub IsPositive : FilterTree E → Type 0
  IsPositive null_tree = ⊥
  IsPositive (exp e) = IsTruth (E.evaluate e (some r))
  IsPositive (pred op lhs rhs) = Unit
  IsPositive (cond op left right) = IsConnective op × IsPositive left × IsPositive right
