-- ===== src/FilterTree/DeMorgan/Positive.antt =====
-- The conditions of a tree after FilterTree_DeMorgan.
use redis_graph.Prelude.{ℕ, suc, ◌%◌, ◌==◌, Bool, true, false, if◌then◌else◌}
use redis_graph.Value.{Payloads}
use redis_graph.FilterTree.{
  Operator, or_op, xor_op, and_op, xnor_op, not_op, Expressions, FilterTree, null_tree, exp, pred,
  cond,
}
use redis_graph.FilterTree.Laws.{IsConnective}
use redis_graph.FilterTree.DeMorgan.{negate_operator, apply_negate, de_morgan}

-- Every condition is one of the four connectives, or a NOT.
abbrev pub IsCondition : Operator → Type 0
IsCondition not_op = Unit
IsCondition op = IsConnective op

negate_operator-IsConnective :
    (p : Bool) (op : Operator)
    → IsConnective op
    → IsConnective (if p then negate_operator op else op)
unfolding negate_operator
negate_operator-IsConnective false op h = h
negate_operator-IsConnective true and_op h = tt
negate_operator-IsConnective true or_op h = tt
negate_operator-IsConnective true xor_op h = tt
negate_operator-IsConnective true xnor_op h = tt
negate_operator-IsConnective true _ h = absurd h

module _ {P : Payloads} {E : Expressions P} where
  abbrev pub HasConditions : FilterTree E → Type 0
  HasConditions (cond op left right) = IsCondition op × HasConditions left × HasConditions right
  HasConditions _ = Unit

  abbrev pub HasNoNot : FilterTree E → Type 0
  HasNoNot (cond op left right) = IsConnective op × HasNoNot left × HasNoNot right
  HasNoNot _ = Unit

  pub apply_negate-HasNoNot :
      (t : FilterTree E) (n : ℕ) → HasConditions t → HasNoNot (apply_negate E t n)
  unfolding apply_negate
  apply_negate-HasNoNot null_tree n h = tt
  apply_negate-HasNoNot (exp e) n h = tt
  apply_negate-HasNoNot (pred op lhs rhs) n h = tt
  apply_negate-HasNoNot (cond not_op left right) n h = apply_negate-HasNoNot left (suc n) h.1
  apply_negate-HasNoNot (cond op left right) n h = (
    negate_operator-IsConnective (n % 2 == 1) op h.0,
    apply_negate-HasNoNot left n h.1,
    apply_negate-HasNoNot right n h.2,
  )

  -- Of a filter whose conditions are AND, OR, XOR, XNOR and NOT, whatever their nesting, De
  -- Morgan's rewriting leaves no NOT: every condition of the result is AND, OR, XOR or XNOR.
  pub de_morgan-HasNoNot : (t : FilterTree E) → HasConditions t → HasNoNot (de_morgan E t)
  unfolding de_morgan
  de_morgan-HasNoNot null_tree h = tt
  de_morgan-HasNoNot (exp e) h = tt
  de_morgan-HasNoNot (pred op lhs rhs) h = tt
  de_morgan-HasNoNot (cond not_op left right) h = apply_negate-HasNoNot left 1 h.1
  de_morgan-HasNoNot (cond op left right) h =
      (h.0, de_morgan-HasNoNot left h.1, de_morgan-HasNoNot right h.2)
