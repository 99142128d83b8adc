-- ===== src/AlgebraicExpression/Weight.antt =====
-- The weight of an expression over matrices, which every change of `_AlgebraicExpression_MulOverAdd`
-- makes less, and the trees that this is said of.
use redis_graph.Prelude.{ℕ, suc, ◌+◌, ◌-◌, ◌*◌, ◌≤◌, ◌<◌, ◌≡◌, refl, arith}
use redis_graph.AlgebraicExpression.{
  Expression, operand, add, mul, transpose, Children, nil, cons, append, reverse,
}

module _ {O : Type 0} where
  abbrev pub count : Children O → ℕ
  count nil = 0
  count (cons x xs) = suc (count xs)

  abbrev mutual
    -- A product has two factors, and a sum has two terms or more.
    pub IsWellFormed : Expression O → Type 0
    IsWellFormed (operand o) = Unit
    IsWellFormed (add xs) = (2 ≤ count xs) × AreWellFormed xs
    IsWellFormed (mul xs) = (count xs ≡ 2) × AreWellFormed xs
    IsWellFormed (transpose x) = IsWellFormed x

    pub AreWellFormed : Children O → Type 0
    AreWellFormed nil = Unit
    AreWellFormed (cons x xs) = IsWellFormed x × AreWellFormed xs

  unfoldable mutual
    pub weight : Expression O → ℕ
    weight (operand o) = 2
    weight (add xs) = sum_weight xs + count xs - 1
    weight (mul xs) = mul_weight xs
    weight (transpose x) = suc (weight x)

    pub sum_weight : Children O → ℕ
    sum_weight nil = 0
    sum_weight (cons x xs) = weight x + sum_weight xs

    pub mul_weight : Children O → ℕ
    mul_weight nil = 1
    mul_weight (cons x xs) = weight x * mul_weight xs

  mutual
    unfolding weight

    pub weight_ge : (x : Expression O) → IsWellFormed x → 2 ≤ weight x
    weight_ge (operand o) w = omega arith
    weight_ge (add xs) w = omega (arith, sum_weight_ge xs w.1, w.0)
    weight_ge (mul xs) w = mul_weight_ge xs w.0 w.1
    weight_ge (transpose x) w = omega (arith, weight_ge x w)

    pub sum_weight_ge : (xs : Children O) → AreWellFormed xs → 2 * count xs ≤ sum_weight xs
    sum_weight_ge nil w = omega arith
    sum_weight_ge (cons x xs) w = omega (arith, weight_ge x w.0, sum_weight_ge xs w.1)

    mul_weight_ge : (xs : Children O) → count xs ≡ 2 → AreWellFormed xs → 2 ≤ mul_weight xs
    mul_weight_ge (cons x (cons y nil)) c w = grind (arith, weight_ge x w.0, weight_ge y w.1.0)
    mul_weight_ge nil c w = absurd (omega arith)
    mul_weight_ge (cons x nil) c w = absurd (omega arith)
    mul_weight_ge (cons x (cons y (cons z zs))) c w = absurd (omega arith)

  pub mul_weight_pos : (xs : Children O) → AreWellFormed xs → 0 < mul_weight xs
  unfolding weight
  mul_weight_pos nil w = omega arith
  mul_weight_pos (cons x xs) w = grind (arith, weight_ge x w.0, mul_weight_pos xs w.1)

  -- A part that is built of well-formed parts.
  pub count-append : (xs ys : Children O) → count (append xs ys) ≡ count xs + count ys
  unfolding append
  count-append nil ys = omega arith
  count-append (cons x xs) ys = omega (arith, count-append xs ys)

  pub sum_weight-append :
      (xs ys : Children O) → sum_weight (append xs ys) ≡ sum_weight xs + sum_weight ys
  unfolding append weight
  sum_weight-append nil ys = omega arith
  sum_weight-append (cons x xs) ys = omega (arith, sum_weight-append xs ys)

  pub append-AreWellFormed :
      (xs ys : Children O) → AreWellFormed xs → AreWellFormed ys → AreWellFormed (append xs ys)
  unfolding append
  append-AreWellFormed nil ys v w = w
  append-AreWellFormed (cons x xs) ys v w = (v.0, append-AreWellFormed xs ys v.1 w)

  pub reversed :
      (xs : Children O)
      → AreWellFormed xs
      → AreWellFormed (reverse xs)
        × (count (reverse xs) ≡ count xs)
        × (sum_weight (reverse xs) ≡ sum_weight xs)
  unfolding reverse weight
  reversed nil w = (tt, refl, refl)
  reversed (cons x xs) w =
      let (v, c, s) = reversed xs w.1 in
      (
        append-AreWellFormed (reverse xs) (cons x nil) v (w.0, tt),
        omega (arith, count-append (reverse xs) (cons x nil)),
        omega (arith, sum_weight-append (reverse xs) (cons x nil)),
      )
