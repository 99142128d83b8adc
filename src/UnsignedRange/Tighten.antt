-- ===== src/UnsignedRange/Tighten.antt =====
-- UnsignedRange_TightenRange, and the values that comparisons admit.
use redis_graph.Prelude.{ℕ, ◌-◌, ◌^◌, ◌≡◌, Bool, true, ◌&&◌, leb, ltb, ◌==◌, arith}
use redis_graph.FilterTree.{Operator, lt_op, le_op, gt_op, ge_op, equal_op}
use redis_graph.UnsignedRange.{
  UnsignedRange, new, is_valid, contains_value, tighten_valid, tighten_range,
}

-- The comparisons by which a range is tightened.
abbrev pub admits : Operator → ℕ → ℕ → Bool
admits lt_op x v = ltb x v
admits le_op x v = leb x v
admits gt_op x v = ltb v x
admits ge_op x v = leb v x
admits equal_op x v = x == v
admits _ x v = true

abbrev pub IsRangeOperator : Operator → Type 0
IsRangeOperator lt_op = Unit
IsRangeOperator le_op = Unit
IsRangeOperator gt_op = Unit
IsRangeOperator ge_op = Unit
IsRangeOperator equal_op = Unit
IsRangeOperator _ = ⊥

-- A range tightened by <, <=, >, >= or = with a number contains the values of the range that
-- compare so with the number, and no other.
pub contains_value-tighten_range :
    (r : UnsignedRange) (op : Operator) (v x : ℕ)
    → IsRangeOperator op
    → contains_value (tighten_range r op v) x ≡ contains_value r x && admits op x v
unfolding contains_value tighten_range tighten_valid is_valid
contains_value-tighten_range r lt_op v x h = ground arith
contains_value-tighten_range r le_op v x h = ground arith
contains_value-tighten_range r gt_op v x h = ground arith
contains_value-tighten_range r ge_op v x h = ground arith
contains_value-tighten_range r equal_op v x h = ground arith
contains_value-tighten_range r _ v x h = absurd h

-- A new range contains every number of 64 bits, and no other.
pub contains_value-new : (x : ℕ) → contains_value new x ≡ leb x (2 ^ 64 - 1)
unfolding contains_value
contains_value-new x = ground arith
