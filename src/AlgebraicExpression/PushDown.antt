-- ===== src/AlgebraicExpression/PushDown.antt =====
-- AlgebraicExpression_PushDownTranspose: what the result denotes, and its form.
use mathlib.Core.Path.{ap₂}
use redis_graph.Prelude.{
  ℕ, zero, suc, ◌+◌, ◌<◌, ◌≤◌, Bool, true, ◌≡◌, refl, sym, ◌∙◌, arith, Bool-cases, inl, inr,
}
use redis_graph.AlgebraicExpression.{
  Expression, operand, add, mul, transpose, Children, nil, cons, append, reverse, map_children,
  transpose_exp, transpose_each, push_down,
}
use redis_graph.AlgebraicExpression.Matrices.{
  Matrices, IsMatrices, value, sum, product, product-append,
}

module _ {M : Matrices} (L : IsMatrices M) {O : Type 0} (matrix : O → M.Matrix)
    (diagonal : O → Bool)
    (symmetric : (o : O) → diagonal o ≡ true → M.transposed (matrix o) ≡ matrix o) where
  mutual
    unfolding transpose_exp value

    value-transpose_exp :
        (x : Expression O)
        → value M matrix (transpose_exp diagonal x) ≡ M.transposed (value M matrix x)
    value-transpose_exp (operand o) = elim (Bool-cases (diagonal o)) [
      | inl d ↦ rw d (sym (symmetric o d))
      | inr d ↦ rw d refl
    ]
    value-transpose_exp (add xs) = sum-transpose_each xs
    value-transpose_exp (mul xs) = product-transpose_each xs
    value-transpose_exp (transpose x) = sym (L.transposed_twice _)

    sum-transpose_each :
        (xs : Children O)
        → sum M matrix (transpose_each diagonal xs) ≡ M.transposed (sum M matrix xs)
    sum-transpose_each nil = sym L.transposed_zero
    sum-transpose_each (cons x xs) =
        ap₂ M.plus (value-transpose_exp x) (sum-transpose_each xs) ∙ sym (L.transposed_plus _ _)

    product-transpose_each :
        (xs : Children O)
        → product M matrix (reverse (transpose_each diagonal xs))
          ≡ M.transposed (product M matrix xs)
    product-transpose_each nil = sym L.transposed_one
    product-transpose_each (cons x xs) =
        product-append L matrix (reverse (transpose_each diagonal xs))
          (cons (transpose_exp diagonal x) nil)
        ∙ ap₂ M.times (product-transpose_each xs) (L.times_one _ ∙ value-transpose_exp x)
        ∙ sym (L.transposed_times _ _)

  sum-map_children :
      (f : Expression O → Expression O)
      → ((x : Expression O) → value M matrix (f x) ≡ value M matrix x)
      → (xs : Children O) → sum M matrix (map_children f xs) ≡ sum M matrix xs
  unfolding map_children value
  sum-map_children f h nil = refl
  sum-map_children f h (cons x xs) = ap₂ M.plus (h x) (sum-map_children f h xs)

  product-map_children :
      (f : Expression O → Expression O)
      → ((x : Expression O) → value M matrix (f x) ≡ value M matrix x)
      → (xs : Children O) → product M matrix (map_children f xs) ≡ product M matrix xs
  unfolding map_children value
  product-map_children f h nil = refl
  product-map_children f h (cons x xs) = ap₂ M.times (h x) (product-map_children f h xs)

  -- Pushing the transposes down changes no matrix, where the operands that are said to be diagonal
  -- are their own transposes.
  pub value-push_down :
      (fuel : ℕ) (x : Expression O) → value M matrix (push_down diagonal fuel x) ≡ value M matrix x
  unfolding push_down value
  value-push_down zero x = refl
  value-push_down (suc fuel) (operand o) = refl
  value-push_down (suc fuel) (add xs) =
      sum-map_children (push_down diagonal fuel) (value-push_down fuel) xs
  value-push_down (suc fuel) (mul xs) =
      product-map_children (push_down diagonal fuel) (value-push_down fuel) xs
  value-push_down (suc fuel) (transpose (operand o)) = refl
  value-push_down (suc fuel) (transpose (add xs)) =
      value-push_down fuel (transpose_exp diagonal (add xs)) ∙ value-transpose_exp (add xs)
  value-push_down (suc fuel) (transpose (mul xs)) =
      value-push_down fuel (transpose_exp diagonal (mul xs)) ∙ value-transpose_exp (mul xs)
  value-push_down (suc fuel) (transpose (transpose x)) =
      value-push_down fuel (transpose_exp diagonal (transpose x))
      ∙ value-transpose_exp (transpose x)

module _ {O : Type 0} where
  unfoldable mutual
    -- How many nodes are no operand and no transposed operand.
    pub depth : Expression O → ℕ
    depth (operand o) = 0
    depth (add xs) = suc (depth_each xs)
    depth (mul xs) = suc (depth_each xs)
    depth (transpose (operand o)) = 0
    depth (transpose (add xs)) = suc (suc (depth_each xs))
    depth (transpose (mul xs)) = suc (suc (depth_each xs))
    depth (transpose (transpose x)) = suc (depth (transpose x))

    pub depth_each : Children O → ℕ
    depth_each nil = 0
    depth_each (cons x xs) = depth x + depth_each xs

  abbrev mutual
    -- Transposes stand on operands only.
    pub IsPushed : Expression O → Type 0
    IsPushed (operand o) = Unit
    IsPushed (add xs) = ArePushed xs
    IsPushed (mul xs) = ArePushed xs
    IsPushed (transpose (operand o)) = Unit
    IsPushed (transpose _) = ⊥

    pub ArePushed : Children O → Type 0
    ArePushed nil = Unit
    ArePushed (cons x xs) = IsPushed x × ArePushed xs

  depth_each-append :
      (xs ys : Children O) → depth_each (append xs ys) ≡ depth_each xs + depth_each ys
  unfolding depth append
  depth_each-append nil ys = omega arith
  depth_each-append (cons x xs) ys = omega (arith, depth_each-append xs ys)

  depth_each-reverse : (xs : Children O) → depth_each (reverse xs) ≡ depth_each xs
  unfolding depth reverse
  depth_each-reverse nil = refl
  depth_each-reverse (cons x xs) =
      omega (arith, depth_each-append (reverse xs) (cons x nil), depth_each-reverse xs)

  depth-le-transpose : (x : Expression O) → depth x ≤ depth (transpose x)
  unfolding depth
  depth-le-transpose (operand o) = omega arith
  depth-le-transpose (add xs) = omega arith
  depth-le-transpose (mul xs) = omega arith
  depth-le-transpose (transpose x) = omega arith

module _ {O : Type 0} (diagonal : O → Bool) where
  mutual
    unfolding transpose_exp depth

    depth-transpose_exp : (x : Expression O) → depth (transpose_exp diagonal x) ≤ depth x
    depth-transpose_exp (operand o) = ground arith
    depth-transpose_exp (add xs) = omega (arith, depth_each-transpose_each xs)
    depth-transpose_exp (mul xs) =
        omega (arith, depth_each-transpose_each xs, depth_each-reverse (transpose_each diagonal xs))
    depth-transpose_exp (transpose x) = depth-le-transpose x

    depth_each-transpose_each :
        (xs : Children O) → depth_each (transpose_each diagonal xs) ≤ depth_each xs
    depth_each-transpose_each nil = omega arith
    depth_each-transpose_each (cons x xs) =
        omega (arith, depth-transpose_exp x, depth_each-transpose_each xs)

  map_children-ArePushed :
      (f : Expression O → Expression O) (fuel : ℕ)
      → ((x : Expression O) → depth x < fuel → IsPushed (f x))
      → (xs : Children O) → depth_each xs < fuel
      → ArePushed (map_children f xs)
  unfolding map_children depth
  map_children-ArePushed f fuel h nil l = tt
  map_children-ArePushed f fuel h (cons x xs) l =
      (h x (omega arith), map_children-ArePushed f fuel h xs (omega arith))

  -- With more fuel than there are operations above operands, the transposes that are left stand on
  -- operands.
  pub push_down-IsPushed :
      (fuel : ℕ) (x : Expression O) → depth x < fuel → IsPushed (push_down diagonal fuel x)
  unfolding push_down depth
  push_down-IsPushed zero x h = absurd (omega arith)
  push_down-IsPushed (suc fuel) (operand o) h = tt
  push_down-IsPushed (suc fuel) (add xs) h =
      map_children-ArePushed (push_down diagonal fuel) fuel (push_down-IsPushed fuel) xs
        (omega arith)
  push_down-IsPushed (suc fuel) (mul xs) h =
      map_children-ArePushed (push_down diagonal fuel) fuel (push_down-IsPushed fuel) xs
        (omega arith)
  push_down-IsPushed (suc fuel) (transpose (operand o)) h = tt
  push_down-IsPushed (suc fuel) (transpose (add xs)) h =
      push_down-IsPushed fuel (transpose_exp diagonal (add xs))
        (omega (arith, depth-transpose_exp (add xs)))
  push_down-IsPushed (suc fuel) (transpose (mul xs)) h =
      push_down-IsPushed fuel (transpose_exp diagonal (mul xs))
        (omega (arith, depth-transpose_exp (mul xs)))
  push_down-IsPushed (suc fuel) (transpose (transpose x)) h =
      push_down-IsPushed fuel (transpose_exp diagonal (transpose x))
        (omega (arith, depth-transpose_exp (transpose x)))
