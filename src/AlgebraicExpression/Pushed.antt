-- ===== src/AlgebraicExpression/Pushed.antt =====
-- AlgebraicExpression_PushDownTranspose keeps an expression well formed, and transposes no diagonal
-- operand where none is transposed at first.
use redis_graph.Prelude.{
  ℕ, zero, suc, ◌≤◌, Bool, true, false, ◌≡◌, refl, ap, ◌∙◌, arith, if◌then◌else◌,
}
use redis_graph.AlgebraicExpression.{
  Expression, operand, add, mul, transpose, Children, nil, cons, append, reverse, map_children,
  transpose_exp, transpose_each, push_down,
}
use redis_graph.AlgebraicExpression.Weight.{IsWellFormed, AreWellFormed, count, count-append}

module _ {O : Type 0} (diagonal : O → Bool) (IsFresh : O → Type 0) where
  abbrev mutual
    -- A well-formed expression of fresh operands, in which no diagonal one is transposed on its own
    pub IsSound : Expression O → Type 0
    IsSound (operand o) = IsFresh o
    IsSound (add xs) = (2 ≤ count xs) × AreSound xs
    IsSound (mul xs) = (count xs ≡ 2) × AreSound xs
    IsSound (transpose (operand o)) = IsFresh o × (diagonal o ≡ false)
    IsSound (transpose x) = IsSound x

    pub AreSound : Children O → Type 0
    AreSound nil = Unit
    AreSound (cons x xs) = IsSound x × AreSound xs

  mutual
    pub sound-IsWellFormed : (x : Expression O) → IsSound x → IsWellFormed x
    sound-IsWellFormed (operand o) s = tt
    sound-IsWellFormed (add xs) s = (s.0, sound-AreWellFormed xs s.1)
    sound-IsWellFormed (mul xs) s = (s.0, sound-AreWellFormed xs s.1)
    sound-IsWellFormed (transpose (operand o)) s = tt
    sound-IsWellFormed (transpose (add xs)) s = (s.0, sound-AreWellFormed xs s.1)
    sound-IsWellFormed (transpose (mul xs)) s = (s.0, sound-AreWellFormed xs s.1)
    sound-IsWellFormed (transpose (transpose x)) s = sound-IsWellFormed (transpose x) s

    sound-AreWellFormed : (xs : Children O) → AreSound xs → AreWellFormed xs
    sound-AreWellFormed nil s = tt
    sound-AreWellFormed (cons x xs) s = (sound-IsWellFormed x s.0, sound-AreWellFormed xs s.1)

  append-AreSound : (xs ys : Children O) → AreSound xs → AreSound ys → AreSound (append xs ys)
  unfolding append
  append-AreSound nil ys s t = t
  append-AreSound (cons x xs) ys s t = (s.0, append-AreSound xs ys s.1 t)

  reversed-AreSound :
      (xs : Children O) → AreSound xs → AreSound (reverse xs) × (count (reverse xs) ≡ count xs)
  unfolding reverse
  reversed-AreSound nil s = (tt, refl)
  reversed-AreSound (cons x xs) s =
      let (t, c) = reversed-AreSound xs s.1 in
      (
        append-AreSound (reverse xs) (cons x nil) t (s.0, tt),
        omega (arith, c, count-append (reverse xs) (cons x nil)),
      )

  under_transpose : (x : Expression O) → IsSound (transpose x) → IsSound x
  under_transpose (operand o) s = s.0
  under_transpose (add xs) s = s
  under_transpose (mul xs) s = s
  under_transpose (transpose x) s = s

  transposed_operand :
      (o : O) (b : Bool)
      → diagonal o ≡ b
      → IsFresh o
      → IsSound (if b then operand o else transpose (operand o))
  transposed_operand o true e s = s
  transposed_operand o false e s = (s, e)

  mutual
    unfolding transpose_exp

    transpose_exp-IsSound : (x : Expression O) → IsSound x → IsSound (transpose_exp diagonal x)
    transpose_exp-IsSound (operand o) s = transposed_operand o (diagonal o) refl s
    transpose_exp-IsSound (add xs) s =
        let (t, c) = transpose_each-AreSound xs s.1 in (omega (arith, c, s.0), t)
    transpose_exp-IsSound (mul xs) s =
        let (t, c) = transpose_each-AreSound xs s.1 in
        let (t', c') = reversed-AreSound (transpose_each diagonal xs) t in (c' ∙ c ∙ s.0, t')
    transpose_exp-IsSound (transpose x) s = under_transpose x s

    transpose_each-AreSound :
        (xs : Children O)
        → AreSound xs
        → AreSound (transpose_each diagonal xs) × (count (transpose_each diagonal xs) ≡ count xs)
    transpose_each-AreSound nil s = (tt, refl)
    transpose_each-AreSound (cons x xs) s =
        let (t, c) = transpose_each-AreSound xs s.1 in ((transpose_exp-IsSound x s.0, t), ap suc c)

  map_children-AreSound :
      (f : Expression O → Expression O)
      → ((x : Expression O) → IsSound x → IsSound (f x))
      → (xs : Children O) → AreSound xs
      → AreSound (map_children f xs) × (count (map_children f xs) ≡ count xs)
  unfolding map_children
  map_children-AreSound f h nil s = (tt, refl)
  map_children-AreSound f h (cons x xs) s =
      let (t, c) = map_children-AreSound f h xs s.1 in ((h x s.0, t), ap suc c)

  -- Pushing the transposes down keeps an expression sound.
  pub push_down-IsSound :
      (fuel : ℕ) (x : Expression O) → IsSound x → IsSound (push_down diagonal fuel x)
  unfolding push_down
  push_down-IsSound zero x s = s
  push_down-IsSound (suc fuel) (operand o) s = s
  push_down-IsSound (suc fuel) (add xs) s =
      let (t, c) =
        map_children-AreSound (push_down diagonal fuel) (push_down-IsSound fuel) xs s.1 in
      (omega (arith, c, s.0), t)
  push_down-IsSound (suc fuel) (mul xs) s =
      let (t, c) =
        map_children-AreSound (push_down diagonal fuel) (push_down-IsSound fuel) xs s.1 in
      (c ∙ s.0, t)
  push_down-IsSound (suc fuel) (transpose (operand o)) s = s
  push_down-IsSound (suc fuel) (transpose (add xs)) s =
      push_down-IsSound fuel (transpose_exp diagonal (add xs)) (transpose_exp-IsSound (add xs) s)
  push_down-IsSound (suc fuel) (transpose (mul xs)) s =
      push_down-IsSound fuel (transpose_exp diagonal (mul xs)) (transpose_exp-IsSound (mul xs) s)
  push_down-IsSound (suc fuel) (transpose (transpose x)) s =
      push_down-IsSound fuel (transpose_exp diagonal (transpose x))
        (transpose_exp-IsSound (transpose x) s)
