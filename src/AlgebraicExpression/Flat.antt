-- ===== src/AlgebraicExpression/Flat.antt =====
-- The form of what AlgebraicExpression_Optimize leaves, which the evaluation asks for: sums of
-- products of operands and transposed operands, each product in one node.
use redis_graph.Prelude.{
  ℕ, suc, ◌+◌, ◌≤◌, Bool, true, false, ◌≡◌, refl, ap, arith, if◌then◌else◌, ltb,
}
use redis_graph.AlgebraicExpression.{
  Expression, operand, add, mul, transpose, Children, nil, cons, append, push_down, mul_over_add,
  collect_operands, collect_each, flatten_multiplications, flatten_each, is_multiplication,
  operation_count, operation_count_each,
}
use redis_graph.AlgebraicExpression.PushDown.{depth, push_down-IsPushed}
use redis_graph.AlgebraicExpression.Weight.{
  IsWellFormed, AreWellFormed, count, count-append, weight,
}
use redis_graph.AlgebraicExpression.Terminates.{mul_over_add-ends}
use redis_graph.AlgebraicExpression.Flatten.{
  IsProduct, AreProducts, IsDistributed, AreDistributed, once-IsDistributed,
}
use redis_graph.AlgebraicExpression.Optimize.{optimize}
use redis_graph.AlgebraicExpression.Pushed.{IsSound, sound-IsWellFormed, push_down-IsSound}
use redis_graph.AlgebraicExpression.Ready.{IsReady, AreReady, pushed-IsReady, mul_over_add-IsReady}

module _ {O : Type 0} (diagonal : O → Bool) (IsFresh : O → Type 0) where
  abbrev pub IsLeaf : Expression O → Type 0
  IsLeaf (operand o) = IsFresh o
  IsLeaf (transpose (operand o)) = IsFresh o × (diagonal o ≡ false)
  IsLeaf _ = ⊥

  abbrev pub AreLeaves : Children O → Type 0
  AreLeaves nil = Unit
  AreLeaves (cons x xs) = IsLeaf x × AreLeaves xs

  abbrev mutual
    pub IsFlat : Expression O → Type 0
    IsFlat (operand o) = IsFresh o
    IsFlat (add xs) = (2 ≤ count xs) × AreFlat xs
    IsFlat (mul xs) = (2 ≤ count xs) × AreLeaves xs
    IsFlat (transpose (operand o)) = IsFresh o × (diagonal o ≡ false)
    IsFlat (transpose _) = ⊥

    pub AreFlat : Children O → Type 0
    AreFlat nil = Unit
    AreFlat (cons x xs) = IsFlat x × AreFlat xs

  append-AreLeaves : (xs ys : Children O) → AreLeaves xs → AreLeaves ys → AreLeaves (append xs ys)
  unfolding append
  append-AreLeaves nil ys p q = q
  append-AreLeaves (cons x xs) ys p q = (p.0, append-AreLeaves xs ys p.1 q)

  mutual
    unfolding collect_operands

    collect_operands-AreLeaves :
        (x : Expression O)
        → IsReady diagonal IsFresh x
        → IsProduct x
        → IsWellFormed x
        → AreLeaves (collect_operands x) × (1 ≤ count (collect_operands x))
    collect_operands-AreLeaves (operand o) r p w = ((r, tt), omega arith)
    collect_operands-AreLeaves (add xs) r p w = absurd p
    collect_operands-AreLeaves (mul xs) r p w =
        let (l, c) = collect_each-AreLeaves xs r p w.1 in (l, omega (arith, c, w.0))
    collect_operands-AreLeaves (transpose (operand o)) r p w = ((r, tt), omega arith)
    collect_operands-AreLeaves (transpose (add xs)) r p w = absurd r
    collect_operands-AreLeaves (transpose (mul xs)) r p w = absurd r
    collect_operands-AreLeaves (transpose (transpose x)) r p w = absurd r

    collect_each-AreLeaves :
        (xs : Children O)
        → AreReady diagonal IsFresh xs
        → AreProducts xs
        → AreWellFormed xs
        → AreLeaves (collect_each xs) × (count xs ≤ count (collect_each xs))
    collect_each-AreLeaves nil r p w = (tt, omega arith)
    collect_each-AreLeaves (cons x xs) r p w =
        let (l, c) = collect_operands-AreLeaves x r.0 p.0 w.0 in
        let (l', c') = collect_each-AreLeaves xs r.1 p.1 w.1 in
        (
          append-AreLeaves (collect_operands x) (collect_each xs) l l',
          omega (arith, c, c', count-append (collect_operands x) (collect_each xs)),
        )

  -- A product without products in it is of leaves.
  product-IsLeaf :
      (x : Expression O)
      → IsReady diagonal IsFresh x
      → IsProduct x
      → operation_count x is_multiplication ≡ 0
      → IsLeaf x
  unfolding operation_count
  product-IsLeaf (operand o) r p e = r
  product-IsLeaf (add xs) r p e = absurd p
  product-IsLeaf (mul xs) r p e = absurd (omega arith)
  product-IsLeaf (transpose (operand o)) r p e = r
  product-IsLeaf (transpose (add xs)) r p e = absurd r
  product-IsLeaf (transpose (mul xs)) r p e = absurd r
  product-IsLeaf (transpose (transpose x)) r p e = absurd r

  products-AreLeaves :
      (xs : Children O)
      → AreReady diagonal IsFresh xs
      → AreProducts xs
      → operation_count_each xs is_multiplication ≡ 0
      → AreLeaves xs
  unfolding operation_count
  products-AreLeaves nil r p e = tt
  products-AreLeaves (cons x xs) r p e =
      (product-IsLeaf x r.0 p.0 (omega arith), products-AreLeaves xs r.1 p.1 (omega arith))

  IsFlat-product :
      (xs : Children O) (b : Bool)
      → ltb 1 (operation_count (mul xs) is_multiplication) ≡ b
      → AreReady diagonal IsFresh xs
      → AreProducts xs
      → (count xs ≡ 2) × AreWellFormed xs
      → IsFlat (if b then mul (collect_each xs) else mul xs)
  unfolding operation_count
  IsFlat-product xs true e r p w =
      let (l, c) = collect_each-AreLeaves xs r p w.1 in (omega (arith, c, w.0), l)
  IsFlat-product xs false e r p w = (
    omega (arith, w.0),
    products-AreLeaves xs r p (small (operation_count_each xs is_multiplication) e),
  )
    where
      small : (n : ℕ) → ltb 1 (1 + n) ≡ false → n ≡ 0
      small n e = ground arith

  mutual
    unfolding flatten_multiplications

    flatten_multiplications-IsFlat :
        (x : Expression O)
        → IsReady diagonal IsFresh x
        → IsDistributed x
        → IsWellFormed x
        → IsFlat (flatten_multiplications x)
    flatten_multiplications-IsFlat (operand o) r d w = r
    flatten_multiplications-IsFlat (add xs) r d w =
        let (f, c) = flatten_each-AreFlat xs r d w.1 in (omega (arith, c, w.0), f)
    flatten_multiplications-IsFlat (mul xs) r d w =
        IsFlat-product xs (ltb 1 (operation_count (mul xs) is_multiplication)) refl r d w
    flatten_multiplications-IsFlat (transpose (operand o)) r d w = r
    flatten_multiplications-IsFlat (transpose (add xs)) r d w = absurd r
    flatten_multiplications-IsFlat (transpose (mul xs)) r d w = absurd r
    flatten_multiplications-IsFlat (transpose (transpose x)) r d w = absurd r

    flatten_each-AreFlat :
        (xs : Children O)
        → AreReady diagonal IsFresh xs
        → AreDistributed xs
        → AreWellFormed xs
        → AreFlat (flatten_each xs) × (count (flatten_each xs) ≡ count xs)
    flatten_each-AreFlat nil r d w = (tt, refl)
    flatten_each-AreFlat (cons x xs) r d w =
        let (f, c) = flatten_each-AreFlat xs r.1 d.1 w.1 in
        ((flatten_multiplications-IsFlat x r.0 d.0 w.0, f), ap suc c)

  -- What is left of a sound expression is flat.
  pub optimize-IsFlat :
      (x : Expression O) → IsSound diagonal IsFresh x → IsFlat (optimize diagonal x)
  unfolding optimize
  optimize-IsFlat x s =
      let pushed = push_down diagonal (suc (depth x)) x in
      let s' = push_down-IsSound diagonal IsFresh (suc (depth x)) x s in
      let r =
        pushed-IsReady diagonal IsFresh pushed s'
          (push_down-IsPushed diagonal (suc (depth x)) x (omega arith)) in
      let (w, e) =
        mul_over_add-ends (weight pushed) pushed (sound-IsWellFormed diagonal IsFresh pushed s')
          (omega arith) in
      flatten_multiplications-IsFlat (mul_over_add (weight pushed) pushed)
        (mul_over_add-IsReady diagonal IsFresh (weight pushed) pushed r)
        (once-IsDistributed (mul_over_add (weight pushed) pushed) w e) w
