-- ===== src/AlgebraicExpression/Distribute.antt =====
-- `_AlgebraicExpression_MulOverAdd`: what one change and all of them leave of the matrix.
use mathlib.Core.Path.{ap₂}
use redis_graph.Prelude.{ℕ, zero, suc, Option, none, some, ◌≡◌, refl, sym, ap, ◌∙◌}
use redis_graph.AlgebraicExpression.{
  Expression, operand, add, mul, transpose, Children, nil, cons, reverse, multiply_to_the_right,
  add_to_the_right, multiply_each, each_multiplied, multiplications, sum_from, sum_all, distribute,
  at_root, rebuilt, or_else, mul_over_add_once, first_changed, mul_over_add,
}
use redis_graph.AlgebraicExpression.Matrices.{
  Matrices, IsMatrices, value, sum, product, sum-append, sum-reverse,
}

module _ {M : Matrices} (L : IsMatrices M) {O : Type 0} (matrix : O → M.Matrix) where
  value-multiply :
      (l r : Expression O)
      → value M matrix (multiply_to_the_right l r) ≡ M.times (value M matrix l) (value M matrix r)
  unfolding value
  value-multiply l r = ap (M.times _) (L.times_one _)

  value-add :
      (l r : Expression O)
      → value M matrix (add_to_the_right l r) ≡ M.plus (value M matrix l) (value M matrix r)
  unfolding value
  value-add l r = ap (M.plus _) (L.plus_zero _)

  sum-multiply_each :
      (l : Expression O) (rs : Children O)
      → sum M matrix (multiply_each l rs) ≡ M.times (value M matrix l) (sum M matrix rs)
  unfolding multiply_each value
  sum-multiply_each l nil = sym (L.times_zero _)
  sum-multiply_each l (cons r rs) =
      ap₂ M.plus (value-multiply l r) (sum-multiply_each l rs) ∙ sym (L.times_plus _ _ _)

  sum-each_multiplied :
      (ls : Children O) (r : Expression O)
      → sum M matrix (each_multiplied ls r) ≡ M.times (sum M matrix ls) (value M matrix r)
  unfolding each_multiplied value
  sum-each_multiplied nil r = sym (L.zero_times _)
  sum-each_multiplied (cons l ls) r =
      ap₂ M.plus (value-multiply l r) (sum-each_multiplied ls r) ∙ sym (L.plus_times _ _ _)

  sum-multiplications :
      (ls rs : Children O)
      → sum M matrix (multiplications ls rs) ≡ M.times (sum M matrix ls) (sum M matrix rs)
  unfolding multiplications value
  sum-multiplications nil rs = sym (L.zero_times _)
  sum-multiplications (cons l ls) rs =
      sum-append L matrix (multiply_each l rs) (multiplications ls rs)
      ∙ ap₂ M.plus (sum-multiply_each l rs) (sum-multiplications ls rs)
      ∙ sym (L.plus_times _ _ _)

  value-sum_from :
      (x : Expression O) (xs : Children O)
      → value M matrix (sum_from x xs) ≡ M.plus (value M matrix x) (sum M matrix xs)
  unfolding sum_from value
  value-sum_from x nil = sym (L.plus_zero _)
  value-sum_from x (cons y ys) =
      value-sum_from (add_to_the_right x y) ys
      ∙ ap (λ v. M.plus v (sum M matrix ys)) (value-add x y)
      ∙ L.plus_assoc _ _ _

  value-sum_all : (xs : Children O) → value M matrix (sum_all xs) ≡ sum M matrix xs
  unfolding sum_all value
  value-sum_all nil = refl
  value-sum_all (cons x xs) = value-sum_from x xs

  -- What a change, if there is one, denotes.
  abbrev Denotes : Option (Expression O) → M.Matrix → Type 0
  Denotes none v = Unit
  Denotes (some x) v = value M matrix x ≡ v

  sum_on_left :
      (ls : Children O) (r : Expression O)
      → sum M matrix (each_multiplied (reverse ls) r) ≡ M.times (sum M matrix ls) (value M matrix r)
  sum_on_left ls r =
      sum-each_multiplied (reverse ls) r
      ∙ ap (λ v. M.times v (value M matrix r)) (sum-reverse L matrix ls)

  sum_on_right :
      (l : Expression O) (rs : Children O)
      → sum M matrix (multiply_each l (reverse rs)) ≡ M.times (value M matrix l) (sum M matrix rs)
  sum_on_right l rs = sum-multiply_each l (reverse rs) ∙ ap (M.times _) (sum-reverse L matrix rs)

  distribute-Denotes :
      (l r : Expression O)
      → Denotes (distribute l r) (M.times (value M matrix l) (value M matrix r))
  unfolding distribute value
  distribute-Denotes (add ls) (add rs) =
      value-sum_all (multiplications ls rs) ∙ sum-multiplications ls rs
  distribute-Denotes (add ls) r = sum_on_left ls r
  distribute-Denotes l (add rs) = sum_on_right l rs
  distribute-Denotes l r = tt

  at_root-Denotes : (xs : Children O) → Denotes (at_root (mul xs)) (product M matrix xs)
  unfolding at_root value
  at_root-Denotes (cons l (cons r nil)) =
      retarget (distribute l r) (ap (M.times _) (sym (L.times_one _))) (distribute-Denotes l r)
    where
      retarget : (o : Option (Expression O)) {v w : M.Matrix} → v ≡ w → Denotes o v → Denotes o w
      retarget none e h = tt
      retarget (some x) e h = h ∙ e
  at_root-Denotes xs = tt

  -- Changed children have the sum and the product of those in whose place they stand.
  abbrev KeepsBoth : Option (Children O) → Children O → Type 0
  KeepsBoth none xs = Unit
  KeepsBoth (some ys) xs =
      (sum M matrix ys ≡ sum M matrix xs) × (product M matrix ys ≡ product M matrix xs)

  cons-KeepsBoth :
      (x : Expression O) (xs : Children O) (o : Option (Expression O)) (o' : Option (Children O))
      → Denotes o (value M matrix x)
      → KeepsBoth o' xs
      → KeepsBoth (or_else (rebuilt (λ y. cons y xs) o) (rebuilt (cons x) o')) (cons x xs)
  unfolding value
  cons-KeepsBoth x xs (some y) o' h h' =
      (ap (λ v. M.plus v (sum M matrix xs)) h, ap (λ v. M.times v (product M matrix xs)) h)
  cons-KeepsBoth x xs none (some ys) h h' = (ap (M.plus _) h'.0, ap (M.times _) h'.1)
  cons-KeepsBoth x xs none none h h' = tt

  add-Denotes :
      (xs : Children O) (o : Option (Children O))
      → KeepsBoth o xs
      → Denotes (rebuilt add o) (sum M matrix xs)
  unfolding value
  add-Denotes xs none h = tt
  add-Denotes xs (some ys) h = h.0

  mul-Denotes :
      (xs : Children O) (o : Option (Expression O)) (o' : Option (Children O))
      → Denotes o (product M matrix xs)
      → KeepsBoth o' xs
      → Denotes (or_else o (rebuilt mul o')) (product M matrix xs)
  unfolding value
  mul-Denotes xs (some y) o' h h' = h
  mul-Denotes xs none (some ys) h h' = h'.1
  mul-Denotes xs none none h h' = tt

  transpose-Denotes :
      (x : Expression O) (o : Option (Expression O))
      → Denotes o (value M matrix x)
      → Denotes (rebuilt transpose o) (M.transposed (value M matrix x))
  unfolding value
  transpose-Denotes x none h = tt
  transpose-Denotes x (some y) h = ap M.transposed h

  mutual
    unfolding mul_over_add_once value

    once-Denotes : (x : Expression O) → Denotes (mul_over_add_once x) (value M matrix x)
    once-Denotes (operand o) = tt
    once-Denotes (add xs) = add-Denotes xs (first_changed xs) (first_changed-KeepsBoth xs)
    once-Denotes (mul xs) =
        mul-Denotes xs (at_root (mul xs)) (first_changed xs) (at_root-Denotes xs)
          (first_changed-KeepsBoth xs)
    once-Denotes (transpose x) = transpose-Denotes x (mul_over_add_once x) (once-Denotes x)

    first_changed-KeepsBoth : (xs : Children O) → KeepsBoth (first_changed xs) xs
    first_changed-KeepsBoth nil = tt
    first_changed-KeepsBoth (cons x xs) =
        cons-KeepsBoth x xs (mul_over_add_once x) (first_changed xs) (once-Denotes x)
          (first_changed-KeepsBoth xs)

  value-after :
      (f : Expression O → Expression O) (x : Expression O) (o : Option (Expression O))
      → ((y : Expression O) → value M matrix (f y) ≡ value M matrix y)
      → Denotes o (value M matrix x)
      → value M matrix (elim o [ none ↦ x | some y ↦ f y ]) ≡ value M matrix x
  value-after f x none h e = refl
  value-after f x (some y) h e = h y ∙ e

  -- Distributing products over sums changes no matrix, however many changes are made.
  pub value-mul_over_add :
      (fuel : ℕ) (x : Expression O) → value M matrix (mul_over_add fuel x) ≡ value M matrix x
  unfolding mul_over_add
  value-mul_over_add zero x = refl
  value-mul_over_add (suc fuel) x =
      value-after (mul_over_add fuel) x (mul_over_add_once x) (value-mul_over_add fuel)
        (once-Denotes x)
