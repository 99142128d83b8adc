-- ===== src/AlgebraicExpression/Optimize.antt =====
-- AlgebraicExpression_Optimize: the passes one after the other, before the operands get their
-- matrices, and the operands of an expression.
use redis_graph.Prelude.{suc, Bool, Option}
use redis_graph.AlgebraicExpression.{Expression, push_down, mul_over_add, flatten_multiplications}
use redis_graph.AlgebraicExpression.PushDown.{depth}
use redis_graph.AlgebraicExpression.Weight.{weight}

-- AlgebraicExpression_Optimize, before it populates the operands. There is fuel for as many steps
-- as the two loops can make.
unfoldable pub optimize : {O : Type 0} → (O → Bool) → Expression O → Expression O
unfolding push_down mul_over_add flatten_multiplications depth weight
optimize diagonal exp =
    let pushed = push_down diagonal (suc (depth exp)) exp in
    flatten_multiplications (mul_over_add (weight pushed) pushed)

-- The operand of struct AlgebraicExpression. Whether its matrix is to be freed does not matter here;
-- a name or a matrix that is NULL is none.
pub record Operand (Matrix Alias Label : Type 0) : Type 0 where
  pub diagonal : Bool
  pub src : Option Alias
  pub dest : Option Alias
  pub edge : Option Alias
  pub label : Option Label
  pub matrix : Option Matrix

abbrev pub is_diagonal : {Matrix Alias Label : Type 0} → Operand Matrix Alias Label → Bool
is_diagonal o = o.diagonal
