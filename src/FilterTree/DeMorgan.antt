-- ===== src/FilterTree/DeMorgan.antt =====
-- FilterTree_DeMorgan of src/filter_tree/filter_tree.c: NOT nodes are pushed into the leaves.
pub mod Negate
pub mod Positive
use redis_graph.Prelude.{ℕ, suc, ◌%◌, ◌==◌, if◌then◌else◌}
use redis_graph.Value.{Payloads}
use redis_graph.FilterTree.{
  Operator, unknown_op, or_op, xor_op, and_op, xnor_op, not_op, equal_op, nequal_op, lt_op, gt_op,
  le_op, ge_op, Expressions, FilterTree, null_tree, exp, pred, cond,
}

-- `_NegateOperator`
unfoldable pub negate_operator : Operator → Operator
negate_operator and_op = or_op
negate_operator xor_op = xnor_op
negate_operator xnor_op = xor_op
negate_operator or_op = and_op
negate_operator equal_op = nequal_op
negate_operator nequal_op = equal_op
negate_operator lt_op = ge_op
negate_operator gt_op = le_op
negate_operator le_op = gt_op
negate_operator ge_op = lt_op
negate_operator _ = unknown_op

module _ {P : Payloads} (E : Expressions P) where
  -- Each NOT is counted down to the leaves. The branch for a NOT is `_FilterTree_DeMorgan` on the
  -- same node, which calls this function on its child with one more. The source dereferences a
  -- NULL root, where NULL stands for what comes of it.
  pub apply_negate : FilterTree E → ℕ → FilterTree E
  unfolding negate_operator
  apply_negate null_tree negate_count = null_tree
  apply_negate (exp e) negate_count = exp (if negate_count % 2 == 1 then E.new_not e else e)
  apply_negate (pred op lhs rhs) negate_count =
      pred (if negate_count % 2 == 1 then negate_operator op else op) lhs rhs
  apply_negate (cond not_op left right) negate_count = apply_negate left (suc negate_count)
  apply_negate (cond op left right) negate_count =
      cond (if negate_count % 2 == 1 then negate_operator op else op)
        (apply_negate left negate_count) (apply_negate right negate_count)

  -- `_FilterTree_DeMorgan` at the count 0, FilterTree_DeMorgan
  pub de_morgan : FilterTree E → FilterTree E
  unfolding apply_negate
  de_morgan (cond not_op left right) = apply_negate left 1
  de_morgan (cond op left right) = cond op (de_morgan left) (de_morgan right)
  de_morgan root = root
