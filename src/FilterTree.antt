-- ===== src/FilterTree.antt =====
-- src/filter_tree/filter_tree.c: the trees of filters of a WHERE clause.
-- An FT_FilterNode pointer is a tree, NULL included. Expressions and records belong to
-- src/arithmetic and src/execution_plan and are a parameter, as is the error context: a leaf that
-- is no truth value fails here and sets an error there.
pub mod Laws
pub mod DeMorgan
pub mod Compact
pub mod Combine
pub mod Functions
mod Tests
use redis_graph.Prelude.{
  ℕ, suc, ◌%◌, Bool, true, false, not, ◌&&◌, ◌||◌, List, [], ◌∷◌, ◌++◌, Option, none, some, ◌==◌,
  if◌then◌else◌, ◌≡◌,
}
use redis_graph.Value.{
  Payloads, SiValue, boolean, array, null, is_null, array_length, Sign, negative, equal, positive,
  Flag, ordinary, disjoint, compared_null, compared_nan, compare_values,
}

-- AST_Operator of src/ast/ast_shared.h
pub data Operator : Type 0 where
  unknown_op null_op or_op xor_op and_op not_op equal_op nequal_op lt_op gt_op le_op ge_op :
      Operator
  plus_op minus_op mult_op div_op mod_op pow_op contains_op startswith_op endswith_op : Operator
  in_op is_null_op is_not_null_op xnor_op : Operator

-- FT_Result
pub data FtResult : Type 0 where
  filter_null filter_fail filter_pass : FtResult

-- What the filter trees use of src/arithmetic/arithmetic_expression.c. `evaluate` takes NULL for
-- the record as `none`.
pub record Expressions (P : Payloads) : Type 1 where
  pub Exp : Type 0
  pub Record : Type 0
  pub evaluate : Exp → Option Record → SiValue P
  pub is_constant : Exp → Bool
  pub is_parameter : Exp → Bool
  pub returns_boolean : Exp → Bool
  pub new_const : SiValue P → Exp
  -- AR_EXP_NewOpNode ("not", true, 1) with its one child
  pub new_not : Exp → Exp

-- struct FT_FilterNode
pub data FilterTree {P : Payloads} (E : Expressions P) : Type 0 where
  null_tree : FilterTree E
  exp : E.Exp → FilterTree E
  pred : Operator → E.Exp → E.Exp → FilterTree E
  cond : Operator → FilterTree E → FilterTree E → FilterTree E

abbrev pub of_bool : Bool → FtResult
of_bool true = filter_pass
of_bool false = filter_fail

abbrev is_nequal : Operator → Bool
is_nequal nequal_op = true
is_nequal _ = false

-- The switch of `_applyFilter` on the sign of a comparison; no other operator reaches it.
abbrev pub holds : Operator → Sign → Bool
holds equal_op equal = true
holds nequal_op negative = true
holds nequal_op positive = true
holds gt_op positive = true
holds ge_op positive = true
holds ge_op equal = true
holds lt_op negative = true
holds le_op negative = true
holds le_op equal = true
holds _ _ = false

unfoldable pub filter_of : Operator → Sign × Flag → FtResult
filter_of op (rel, compared_null) = filter_null
filter_of op (rel, disjoint) = of_bool (is_nequal op)
filter_of op (rel, compared_nan) = of_bool (is_nequal op)
filter_of op (rel, ordinary) = of_bool (holds op rel)

-- `_applyFilter`
unfoldable pub apply_filter : {P : Payloads} → SiValue P → SiValue P → Operator → FtResult
unfolding filter_of
apply_filter a b op = filter_of op (compare_values a b)

-- `_applyCondition` on the results of the two subtrees. The source visits the right one only
-- where its result matters; a visit changes no state that is modelled.
unfoldable pub apply_condition : Operator → FtResult → FtResult → FtResult
apply_condition and_op filter_fail rhs_pass = filter_fail
apply_condition and_op filter_pass filter_pass = filter_pass
apply_condition and_op lhs_pass filter_fail = filter_fail
apply_condition and_op lhs_pass rhs_pass = filter_null
apply_condition or_op filter_pass rhs_pass = filter_pass
apply_condition or_op lhs_pass filter_pass = filter_pass
apply_condition or_op filter_fail filter_fail = filter_fail
apply_condition or_op lhs_pass rhs_pass = filter_null
apply_condition xor_op filter_null rhs_pass = filter_null
apply_condition xor_op lhs_pass filter_null = filter_null
apply_condition xor_op filter_pass filter_pass = filter_fail
apply_condition xor_op filter_fail filter_fail = filter_fail
apply_condition xor_op lhs_pass rhs_pass = filter_pass
apply_condition xnor_op filter_null rhs_pass = filter_null
apply_condition xnor_op lhs_pass filter_null = filter_null
apply_condition xnor_op filter_pass filter_pass = filter_pass
apply_condition xnor_op filter_fail filter_fail = filter_pass
apply_condition xnor_op lhs_pass rhs_pass = filter_fail
apply_condition not_op filter_pass rhs_pass = filter_fail
apply_condition not_op filter_fail rhs_pass = filter_pass
apply_condition not_op filter_null rhs_pass = filter_null
apply_condition _ lhs_pass rhs_pass = lhs_pass

-- The branch of FilterTree_applyFilters for the value of an expression node.
unfoldable pub apply_value : {P : Payloads} → SiValue P → FtResult
apply_value null = filter_null
apply_value (boolean b) = of_bool b
apply_value (array xs) = of_bool (not (array_length xs == 0))
apply_value _ = filter_fail

abbrev pub is_not : Operator → Bool
is_not not_op = true
is_not _ = false

abbrev pub is_null_tree : {P : Payloads} {E : Expressions P} → FilterTree E → Bool
is_null_tree null_tree = true
is_null_tree _ = false

module _ {P : Payloads} (E : Expressions P) where
  -- FilterTree_applyFilters. A NULL root would be dereferenced.
  pub apply_filters : FilterTree E → E.Record → FtResult
  unfolding apply_filter apply_condition apply_value
  apply_filters null_tree r = filter_fail
  apply_filters (exp e) r = apply_value (E.evaluate e (some r))
  apply_filters (pred op lhs rhs) r =
      apply_filter (E.evaluate lhs (some r)) (E.evaluate rhs (some r)) op
  apply_filters (cond op left right) r =
      apply_condition op (apply_filters left r) (apply_filters right r)

  -- `_FilterTree_SubTrees`, without the array that it appends to. Any other condition, as a NOT,
  -- fails an assertion of a debug build, and appends nothing in a release build.
  pub sub_trees : FilterTree E → List (FilterTree E)
  sub_trees null_tree = []
  sub_trees (cond and_op left right) = sub_trees left ++ sub_trees right
  sub_trees (cond or_op left right) = cond or_op left right ∷ []
  sub_trees (cond xor_op left right) = cond xor_op left right ∷ []
  sub_trees (cond xnor_op left right) = cond xnor_op left right ∷ []
  sub_trees (cond op left right) = []
  sub_trees (exp e) = exp e ∷ []
  sub_trees (pred op lhs rhs) = pred op lhs rhs ∷ []

  -- The loop of FilterTree_Combine; AR_EXP_Clone makes an equal expression.
  combine_from : FilterTree E → List (FilterTree E) → FilterTree E
  combine_from root [] = root
  combine_from root (filter ∷ filters) = combine_from (cond and_op root filter) filters

  pub combine : List (FilterTree E) → FilterTree E
  unfolding combine_from
  combine [] = null_tree
  combine (filter ∷ filters) = combine_from filter filters

  -- FilterTree_Valid; expressions are never NULL here.
  pub valid : FilterTree E → Bool
  valid null_tree = true
  valid (exp e) = E.returns_boolean e
  valid (pred op lhs rhs) = true
  valid (cond op left right) =
      if is_null_tree left && is_null_tree right
      then false
      else if is_not op && not (is_null_tree right)
      then false
      else valid left && valid right
