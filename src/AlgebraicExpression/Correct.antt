-- ===== src/AlgebraicExpression/Correct.antt =====
-- The three passes of the optimization together, and the matrix that an expression denotes.
use redis_graph.Prelude.{suc, Bool, true, ◌≡◌, ◌∙◌, arith}
use redis_graph.AlgebraicExpression.{Expression, push_down, mul_over_add}
use redis_graph.AlgebraicExpression.Matrices.{Matrices, IsMatrices, value}
use redis_graph.AlgebraicExpression.PushDown.{depth, value-push_down}
use redis_graph.AlgebraicExpression.Distribute.{value-mul_over_add}
use redis_graph.AlgebraicExpression.Weight.{weight}
use redis_graph.AlgebraicExpression.Terminates.{mul_over_add-ends}
use redis_graph.AlgebraicExpression.Flatten.{once-IsDistributed, value-flatten_multiplications}
use redis_graph.AlgebraicExpression.Optimize.{optimize}
use redis_graph.AlgebraicExpression.Pushed.{IsSound, sound-IsWellFormed, push_down-IsSound}

module _ {M : Matrices} (L : IsMatrices M) {O : Type 0} (matrix : O → M.Matrix)
    (diagonal : O → Bool)
    (symmetric : (o : O) → diagonal o ≡ true → M.transposed (matrix o) ≡ matrix o)
    (IsFresh : O → Type 0) where
  -- The optimizations change no matrix that a sound expression denotes, whatever matrices its
  -- operands stand for, in a semiring of matrices with a transpose, where the operands that are said
  -- to be diagonal are their own transposes.
  pub value-optimize :
      (x : Expression O)
      → IsSound diagonal IsFresh x
      → value M matrix (optimize diagonal x) ≡ value M matrix x
  unfolding optimize
  value-optimize x s =
      let pushed = push_down diagonal (suc (depth x)) x in
      let (w, e) =
        mul_over_add-ends (weight pushed) pushed
          (sound-IsWellFormed diagonal IsFresh pushed
            (push_down-IsSound diagonal IsFresh (suc (depth x)) x s))
          (omega arith) in
      value-flatten_multiplications L matrix (mul_over_add (weight pushed) pushed)
        (once-IsDistributed (mul_over_add (weight pushed) pushed) w e)
      ∙ value-mul_over_add L matrix (weight pushed) pushed
      ∙ value-push_down L matrix diagonal symmetric (suc (depth x)) x
