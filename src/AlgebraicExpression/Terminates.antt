-- ===== src/AlgebraicExpression/Terminates.antt =====
-- `_AlgebraicExpression_MulOverAdd` comes to an end: every change makes an expression lighter.
use redis_graph.Prelude.{ℕ, zero, suc, ◌*◌, ◌≤◌, ◌<◌, Option, none, some, ◌≡◌, refl, arith, ◌∙◌}
use redis_graph.AlgebraicExpression.{
  Expression, operand, add, mul, transpose, Children, nil, cons, at_root, rebuilt, or_else,
  mul_over_add_once, first_changed, mul_over_add,
}
use redis_graph.AlgebraicExpression.Weight.{
  count, IsWellFormed, AreWellFormed, weight, sum_weight, mul_weight, weight_ge, mul_weight_pos,
}
use redis_graph.AlgebraicExpression.Lighter.{IsLighter, at_root-IsLighter}

scaled_lt : (a b c : ℕ) → a < b → 0 < c → a * c < b * c
scaled_lt a b c l p = grind arith

lt_scaled : (a b c : ℕ) → a < b → 0 < c → c * a < c * b
lt_scaled a b c l p = grind arith

module _ {O : Type 0} where
  -- Changed children are as many, well formed, and their sum and their product are lighter.
  abbrev AreLighter : Option (Children O) → Children O → Type 0
  AreLighter none xs = Unit
  AreLighter (some ys) xs =
      (count ys ≡ count xs)
      × AreWellFormed ys
      × (sum_weight ys < sum_weight xs)
      × (mul_weight ys < mul_weight xs)

  cons-AreLighter :
      (x : Expression O) (xs : Children O) (o : Option (Expression O)) (o' : Option (Children O))
      → IsWellFormed x
      → AreWellFormed xs
      → IsLighter o (weight x)
      → AreLighter o' xs
      → AreLighter (or_else (rebuilt (λ y. cons y xs) o) (rebuilt (cons x) o')) (cons x xs)
  unfolding weight
  cons-AreLighter x xs (some y) o' v w h h' = (
    refl,
    (h.0, w),
    omega arith,
    scaled_lt (weight y) (weight x) (mul_weight xs) h.1 (mul_weight_pos xs w),
  )
  cons-AreLighter x xs none (some ys) v w h h' = (
    omega (arith, h'.0),
    (v, h'.1),
    omega (arith, h'.2),
    lt_scaled (mul_weight ys) (mul_weight xs) (weight x) h'.3 (omega (arith, weight_ge x v)),
  )
  cons-AreLighter x xs none none v w h h' = tt

  mul-IsLighter :
      (xs : Children O) (o : Option (Expression O)) (o' : Option (Children O))
      → count xs ≡ 2
      → IsLighter o (mul_weight xs)
      → AreLighter o' xs
      → IsLighter (or_else o (rebuilt mul o')) (mul_weight xs)
  unfolding weight
  mul-IsLighter xs (some y) o' c h h' = h
  mul-IsLighter xs none (some ys) c h h' = ((h'.0 ∙ c, h'.1), h'.3)
  mul-IsLighter xs none none c h h' = tt

  add-IsLighter :
      (xs : Children O) (o : Option (Children O))
      → 2 ≤ count xs
      → AreLighter o xs
      → IsLighter (rebuilt add o) (weight (add xs))
  unfolding weight
  add-IsLighter xs none c h = tt
  add-IsLighter xs (some ys) c h = ((omega (arith, h.0), h.1), omega (arith, h.0, h.2))

  transpose-IsLighter :
      (x : Expression O) (o : Option (Expression O))
      → IsLighter o (weight x)
      → IsLighter (rebuilt transpose o) (suc (weight x))
  unfolding weight
  transpose-IsLighter x none h = tt
  transpose-IsLighter x (some y) h = (h.0, omega (arith, h.1))

  mutual
    unfolding mul_over_add_once weight

    once-IsLighter :
        (x : Expression O) → IsWellFormed x → IsLighter (mul_over_add_once x) (weight x)
    once-IsLighter (operand o) w = tt
    once-IsLighter (add xs) w =
        add-IsLighter xs (first_changed xs) w.0 (first_changed-AreLighter xs w.1)
    once-IsLighter (mul xs) w =
        mul-IsLighter xs (at_root (mul xs)) (first_changed xs) w.0 (at_root-IsLighter xs w)
          (first_changed-AreLighter xs w.1)
    once-IsLighter (transpose x) w =
        transpose-IsLighter x (mul_over_add_once x) (once-IsLighter x w)

    first_changed-AreLighter :
        (xs : Children O) → AreWellFormed xs → AreLighter (first_changed xs) xs
    first_changed-AreLighter nil w = tt
    first_changed-AreLighter (cons x xs) w =
        cons-AreLighter x xs (mul_over_add_once x) (first_changed xs) w.0 w.1 (once-IsLighter x w.0)
          (first_changed-AreLighter xs w.1)

  ended :
      (f : Expression O → Expression O) (x : Expression O) (n : ℕ) (o : Option (Expression O))
      → IsWellFormed x
      → IsLighter o n
      → mul_over_add_once x ≡ o
      → ((y : Expression O)
          → IsWellFormed y
          → weight y < n
          → IsWellFormed (f y) × (mul_over_add_once (f y) ≡ none))
      → IsWellFormed (elim o [ none ↦ x | some y ↦ f y ])
        × (mul_over_add_once (elim o [ none ↦ x | some y ↦ f y ]) ≡ none)
  ended f x n none w l e h = (w, e)
  ended f x n (some y) w l e h = h y l.0 l.1

  -- The loop comes to an end: of a well-formed expression, with as much fuel as it has weight,
  -- there is left a well-formed one that nothing is to change in.
  pub mul_over_add-ends :
      (fuel : ℕ) (x : Expression O)
      → IsWellFormed x
      → weight x ≤ fuel
      → IsWellFormed (mul_over_add fuel x) × (mul_over_add_once (mul_over_add fuel x) ≡ none)
  unfolding mul_over_add
  mul_over_add-ends zero x w h = absurd (omega (arith, weight_ge x w))
  mul_over_add-ends (suc fuel) x w h =
      ended (mul_over_add fuel) x (weight x) (mul_over_add_once x) w (once-IsLighter x w) refl
        (λ y v l. mul_over_add-ends fuel y v (omega arith))
