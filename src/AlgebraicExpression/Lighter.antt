-- ===== src/AlgebraicExpression/Lighter.antt =====
-- `__AlgebraicExpression_MulOverAdd` at a product: the sum that it makes is lighter.
use mathlib.Core.Path.{ap₂, subst}
use redis_graph.Prelude.{
  ℕ, suc, ◌+◌, ◌-◌, ◌*◌, ◌≤◌, ◌<◌, Option, none, some, ◌≡◌, refl, arith, ap, ◌∙◌,
}
use redis_graph.AlgebraicExpression.{
  Expression, add, mul, Children, nil, cons, reverse, add_to_the_right, multiply_each,
  each_multiplied, multiplications, sum_from, sum_all, distribute, at_root,
}
use redis_graph.AlgebraicExpression.Weight.{
  count, IsWellFormed, AreWellFormed, weight, sum_weight, weight_ge, sum_weight_ge, count-append,
  sum_weight-append, append-AreWellFormed, reversed,
}

-- The inequalities of the three ways to distribute, for sums of weights `s` and `t`.
left_lt : (s n r s' n' : ℕ) → 2 ≤ n → 2 ≤ r → n' ≡ n → s' ≡ s * r → s' + n' - 1 < (s + n - 1) * r
left_lt s n r s' n' hn hr e e' =
    by_terms (n - 1) (omega arith) (s + n - 1) (omega arith) (omega arith)
  where
    by_terms : (m : ℕ) → 1 ≤ m → (x : ℕ) → x ≡ s + m → n' ≡ suc m → s' + n' - 1 < x * r
    by_terms m h x q e = rw q (grind arith)

right_lt : (s n r s' n' : ℕ) → 2 ≤ n → 2 ≤ r → n' ≡ n → s' ≡ r * s → s' + n' - 1 < r * (s + n - 1)
right_lt s n r s' n' hn hr e e' = omega (arith, left_lt s n r s' n' hn hr e (omega (arith, e')))

both_lt :
    (s n t k w c : ℕ)
    → 2 ≤ n
    → 2 ≤ k
    → 2 * n ≤ s
    → 2 * k ≤ t
    → c ≡ n * k
    → w + 1 ≡ s * t + c
    → w < (s + n - 1) * (t + k - 1)
both_lt s n t k w c hn hk hs ht e e' =
    by_terms (n - 1) (k - 1) (s + n - 1) (t + k - 1) (omega arith) (omega arith) (omega arith)
      (omega arith) (omega arith) (omega arith)
      (e' ∙ ap (λ x. s * t + x) (e ∙ ap₂ ◌*◌ (omega arith) (omega arith)))
  where
    by_terms :
        (p q x y : ℕ)
        → x ≡ s + p
        → y ≡ t + q
        → 1 ≤ p
        → 1 ≤ q
        → 2 * suc p ≤ s
        → 2 * suc q ≤ t
        → w + 1 ≡ s * t + suc p * suc q
        → w < x * y
    by_terms p q x y ex ey hp hq hs ht e = rw ex (rw ey (grind arith))

module _ {O : Type 0} where
  products_left :
      (l : Expression O) (rs : Children O)
      → IsWellFormed l
      → AreWellFormed rs
      → AreWellFormed (multiply_each l rs)
        × (count (multiply_each l rs) ≡ count rs)
        × (sum_weight (multiply_each l rs) ≡ weight l * sum_weight rs)
  unfolding multiply_each weight
  products_left l nil v w = (tt, refl, omega arith)
  products_left l (cons r rs) v w =
      let (v', c, s) = products_left l rs v w.1 in
      (((refl, (v, (w.0, tt))), v'), ap suc c, grind (arith, s))

  products_right :
      (ls : Children O) (r : Expression O)
      → AreWellFormed ls
      → IsWellFormed r
      → AreWellFormed (each_multiplied ls r)
        × (count (each_multiplied ls r) ≡ count ls)
        × (sum_weight (each_multiplied ls r) ≡ sum_weight ls * weight r)
  unfolding each_multiplied weight
  products_right nil r v w = (tt, refl, omega arith)
  products_right (cons l ls) r v w =
      let (v', c, s) = products_right ls r v.1 w in
      (((refl, (v.0, (w, tt))), v'), ap suc c, grind (arith, s))

  all_products :
      (ls rs : Children O)
      → AreWellFormed ls
      → AreWellFormed rs
      → AreWellFormed (multiplications ls rs)
        × (count (multiplications ls rs) ≡ count ls * count rs)
        × (sum_weight (multiplications ls rs) ≡ sum_weight ls * sum_weight rs)
  unfolding multiplications weight
  all_products nil rs v w = (tt, omega arith, omega arith)
  all_products (cons l ls) rs v w =
      let (v', c, s) = all_products ls rs v.1 w in
      let (p, c', s') = products_left l rs v.0 w in
      (
        append-AreWellFormed (multiply_each l rs) (multiplications ls rs) p v',
        grind (arith, c, c', count-append (multiply_each l rs) (multiplications ls rs)),
        grind (arith, s, s', sum_weight-append (multiply_each l rs) (multiplications ls rs)),
      )

  summed :
      (x : Expression O) (xs : Children O)
      → IsWellFormed x
      → AreWellFormed xs
      → IsWellFormed (sum_from x xs)
        × (weight (sum_from x xs) ≡ weight x + sum_weight xs + count xs)
  unfolding sum_from weight
  summed x nil v w = (v, omega arith)
  summed x (cons y ys) v w =
      let (v', e) = summed (add_to_the_right x y) ys (omega arith, (v, (w.0, tt))) w.1 in
      (v', omega (arith, e))

  -- A change, if there is one, is well formed and lighter.
  abbrev pub IsLighter : Option (Expression O) → ℕ → Type 0
  IsLighter none n = Unit
  IsLighter (some y) n = IsWellFormed y × (weight y < n)

  left-IsLighter :
      (ls : Children O) (r : Expression O)
      → IsWellFormed (add ls)
      → IsWellFormed r
      → IsLighter (some (add (each_multiplied (reverse ls) r))) (weight (add ls) * weight r)
  unfolding weight
  left-IsLighter ls r v w =
      let (v', c, s) = reversed ls v.1 in
      let (p, c', s') = products_right (reverse ls) r v' w in
      (
        (omega (arith, c, c', v.0), p),
        left_lt _ _ _ _ _ v.0 (weight_ge r w) (c' ∙ c) (s' ∙ ap (λ t. t * weight r) s),
      )

  right-IsLighter :
      (l : Expression O) (rs : Children O)
      → IsWellFormed l
      → IsWellFormed (add rs)
      → IsLighter (some (add (multiply_each l (reverse rs)))) (weight l * weight (add rs))
  unfolding weight
  right-IsLighter l rs v w =
      let (w', c, s) = reversed rs w.1 in
      let (p, c', s') = products_left l (reverse rs) v w' in
      (
        (omega (arith, c, c', w.0), p),
        right_lt _ _ _ _ _ w.0 (weight_ge l v) (c' ∙ c) (s' ∙ ap (λ t. weight l * t) s),
      )

  sum_all-weight :
      (xs : Children O)
      → 1 ≤ count xs
      → AreWellFormed xs
      → IsWellFormed (sum_all xs) × (weight (sum_all xs) + 1 ≡ sum_weight xs + count xs)
  unfolding sum_all weight
  sum_all-weight nil h w = absurd (omega arith)
  sum_all-weight (cons x xs) h w = let (v, e) = summed x xs w.0 w.1 in (v, omega (arith, e))

  both-IsLighter :
      (ls rs : Children O)
      → IsWellFormed (add ls)
      → IsWellFormed (add rs)
      → IsLighter (some (sum_all (multiplications ls rs))) (weight (add ls) * weight (add rs))
  unfolding weight
  both-IsLighter ls rs v w =
      let (p, c, s) = all_products ls rs v.1 w.1 in
      let (p', e) = sum_all-weight (multiplications ls rs) (grind (arith, c, v.0, w.0)) p in
      (
        p',
        both_lt _ _ _ _ _ _ v.0 w.0 (sum_weight_ge ls v.1) (sum_weight_ge rs w.1) c
            (e ∙ ap (λ t. t + count (multiplications ls rs)) s),
      )

  distribute-IsLighter :
      (l r : Expression O)
      → IsWellFormed l
      → IsWellFormed r
      → IsLighter (distribute l r) (weight l * weight r)
  unfolding distribute
  distribute-IsLighter (add ls) (add rs) v w = both-IsLighter ls rs v w
  distribute-IsLighter (add ls) r v w = left-IsLighter ls r v w
  distribute-IsLighter l (add rs) v w = right-IsLighter l rs v w
  distribute-IsLighter l r v w = tt

  pub at_root-IsLighter :
      (xs : Children O) → IsWellFormed (mul xs) → IsLighter (at_root (mul xs)) (weight (mul xs))
  unfolding at_root weight
  at_root-IsLighter (cons l (cons r nil)) w =
      subst (λ n. IsLighter (distribute l r) n) (omega arith)
        (distribute-IsLighter l r w.1.0 w.1.1.0)
  at_root-IsLighter xs w = tt
