-- ===== src/UnsignedRange.antt =====
-- src/util/range/unsigned_range.c: the ranges of node ids that a query is restricted to.
pub mod Tighten
mod Tests
use redis_graph.Prelude.{ℕ, ◌-◌, ◌^◌, Bool, true, false, not, ◌&&◌, leb, ltb, if◌then◌else◌}
use redis_graph.FilterTree.{Operator, lt_op, le_op, gt_op, ge_op, equal_op}

-- struct UnsignedRange; the bounds are below 2 ^ 64.
pub record UnsignedRange : Type 0 where
  pub min : ℕ
  pub max : ℕ
  pub include_min : Bool
  pub include_max : Bool
  pub valid : Bool

-- UnsignedRange_New
abbrev pub new : UnsignedRange
new = record { min = 0; max = 2 ^ 64 - 1; include_min = true; include_max = true; valid = true }

-- UnsignedRange_IsValid
unfoldable pub is_valid : UnsignedRange → Bool
is_valid range =
    if not range.valid
    then false
    else if range.include_min && range.include_max
    then leb range.min range.max
    else ltb range.min range.max

-- UnsignedRange_ContainsValue
unfoldable pub contains_value : UnsignedRange → ℕ → Bool
contains_value range v =
    if not range.valid
    then false
    else if range.include_max && ltb range.max v
    then false
    else if not range.include_max && leb range.max v
    then false
    else if range.include_min && ltb v range.min
    then false
    else if not range.include_min && leb v range.min
    then false
    else true

-- The end of UnsignedRange_TightenRange
abbrev pub set_valid : UnsignedRange → UnsignedRange
unfolding is_valid
set_valid range = record range { valid = is_valid range }

-- The switch of UnsignedRange_TightenRange, for a range that is valid. In a release build, where
-- assertions are off, an operator that is not supported changes nothing.
unfoldable pub tighten_valid : UnsignedRange → Operator → ℕ → UnsignedRange
unfolding contains_value
tighten_valid range lt_op v =
    set_valid (if leb v range.max then record range { include_max = false; max = v } else range)
tighten_valid range le_op v =
    set_valid (if ltb v range.max then record range { include_max = true; max = v } else range)
tighten_valid range gt_op v =
    set_valid (if leb range.min v then record range { include_min = false; min = v } else range)
tighten_valid range ge_op v =
    set_valid (if ltb range.min v then record range { include_min = true; min = v } else range)
tighten_valid range equal_op v =
    if not (contains_value range v)
    then record range { valid = false }
    else set_valid record range { include_min = true; include_max = true; min = v; max = v }
tighten_valid range _ v = set_valid range

-- UnsignedRange_TightenRange
unfoldable pub tighten_range : UnsignedRange → Operator → ℕ → UnsignedRange
unfolding tighten_valid
tighten_range range op v = if not range.valid then range else tighten_valid range op v
