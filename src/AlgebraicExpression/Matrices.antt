-- ===== src/AlgebraicExpression/Matrices.antt =====
-- What an expression denotes. The matrices of a graph have one row and one column for each node, so
-- they form a semiring with the transpose; the operations are those of GraphBLAS over the semiring
-- GxB_ANY_PAIR_BOOL and are a parameter, with their laws.
use mathlib.Core.Path.{ap₂}
use redis_graph.Prelude.{◌≡◌, refl, sym, ap, ◌∙◌}
use redis_graph.AlgebraicExpression.{
  Expression, operand, add, mul, transpose, Children, nil, cons, append, reverse,
}

pub record Matrices : Type 1 where
  pub Matrix : Type 0
  pub zero : Matrix
  pub one : Matrix
  pub plus : Matrix → Matrix → Matrix
  pub times : Matrix → Matrix → Matrix
  pub transposed : Matrix → Matrix

pub record IsMatrices (M : Matrices) : Type 0 where
  pub plus_zero : (a : M.Matrix) → M.plus a M.zero ≡ a
  pub zero_plus : (a : M.Matrix) → M.plus M.zero a ≡ a
  pub plus_comm : (a b : M.Matrix) → M.plus a b ≡ M.plus b a
  pub plus_assoc : (a b c : M.Matrix) → M.plus (M.plus a b) c ≡ M.plus a (M.plus b c)
  pub times_one : (a : M.Matrix) → M.times a M.one ≡ a
  pub one_times : (a : M.Matrix) → M.times M.one a ≡ a
  pub times_assoc : (a b c : M.Matrix) → M.times (M.times a b) c ≡ M.times a (M.times b c)
  pub times_zero : (a : M.Matrix) → M.times a M.zero ≡ M.zero
  pub zero_times : (a : M.Matrix) → M.times M.zero a ≡ M.zero
  pub times_plus : (a b c : M.Matrix) → M.times a (M.plus b c) ≡ M.plus (M.times a b) (M.times a c)
  pub plus_times : (a b c : M.Matrix) → M.times (M.plus a b) c ≡ M.plus (M.times a c) (M.times b c)
  pub transposed_twice : (a : M.Matrix) → M.transposed (M.transposed a) ≡ a
  pub transposed_plus :
      (a b : M.Matrix) → M.transposed (M.plus a b) ≡ M.plus (M.transposed a) (M.transposed b)
  pub transposed_times :
      (a b : M.Matrix) → M.transposed (M.times a b) ≡ M.times (M.transposed b) (M.transposed a)
  pub transposed_zero : M.transposed M.zero ≡ M.zero
  pub transposed_one : M.transposed M.one ≡ M.one

module _ (M : Matrices) {O : Type 0} (matrix : O → M.Matrix) where
  unfoldable mutual
    -- The matrix that an expression denotes, where `matrix` gives those of the operands.
    pub value : Expression O → M.Matrix
    value (operand o) = matrix o
    value (add xs) = sum xs
    value (mul xs) = product xs
    value (transpose x) = M.transposed (value x)

    pub sum : Children O → M.Matrix
    sum nil = M.zero
    sum (cons x xs) = M.plus (value x) (sum xs)

    pub product : Children O → M.Matrix
    product nil = M.one
    product (cons x xs) = M.times (value x) (product xs)

module _ {M : Matrices} (L : IsMatrices M) {O : Type 0} (matrix : O → M.Matrix) where
  pub sum-append :
      (xs ys : Children O)
      → sum M matrix (append xs ys) ≡ M.plus (sum M matrix xs) (sum M matrix ys)
  unfolding append value
  sum-append nil ys = sym (L.zero_plus _)
  sum-append (cons x xs) ys = ap (M.plus _) (sum-append xs ys) ∙ sym (L.plus_assoc _ _ _)

  pub product-append :
      (xs ys : Children O)
      → product M matrix (append xs ys) ≡ M.times (product M matrix xs) (product M matrix ys)
  unfolding append value
  product-append nil ys = sym (L.one_times _)
  product-append (cons x xs) ys = ap (M.times _) (product-append xs ys) ∙ sym (L.times_assoc _ _ _)

  -- The order of terms does not matter.
  pub sum-reverse : (xs : Children O) → sum M matrix (reverse xs) ≡ sum M matrix xs
  unfolding reverse value
  sum-reverse nil = refl
  sum-reverse (cons x xs) =
      sum-append (reverse xs) (cons x nil)
      ∙ ap₂ M.plus (sum-reverse xs) (L.plus_zero _)
      ∙ L.plus_comm _ _
