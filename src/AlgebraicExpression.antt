-- ===== src/AlgebraicExpression.antt =====
-- src/arithmetic/algebraic_expression: the expressions over matrices that a pattern of a query is
-- translated to, and their optimization (algebraic_expression_optimization.c). An operand is a
-- matrix with its aliases and label, a parameter here. An expression is owned by its parent, so a
-- node that is changed in place is the tree that a function returns. No code makes a node of type
-- AL_EXP_POW.
pub mod Matrices
pub mod PushDown
pub mod Distribute
pub mod Weight
pub mod Lighter
pub mod Terminates
pub mod Flatten
pub mod Optimize
pub mod Ready
pub mod Flat
pub mod Correct
mod Tests
pub mod Pushed
use redis_graph.Prelude.{
  ℕ, zero, suc, ◌+◌, Bool, true, false, ltb, Option, none, some, if◌then◌else◌,
}

-- struct AlgebraicExpression; the children of an operation are an array.
mutual
  pub data Expression (O : Type 0) : Type 0 where
    operand : O → Expression O
    add : Children O → Expression O
    mul : Children O → Expression O
    transpose : Expression O → Expression O

  pub data Children (O : Type 0) : Type 0 where
    nil : Children O
    cons : Expression O → Children O → Children O

module _ {O : Type 0} where
  unfoldable pub append : Children O → Children O → Children O
  append nil ys = ys
  append (cons x xs) ys = cons x (append xs ys)

  -- array_reverse
  unfoldable pub reverse : Children O → Children O
  unfolding append
  reverse nil = nil
  reverse (cons x xs) = append (reverse xs) (cons x nil)

  unfoldable pub map_children : (Expression O → Expression O) → Children O → Children O
  map_children f nil = nil
  map_children f (cons x xs) = cons (f x) (map_children f xs)

module _ {O : Type 0} (diagonal : O → Bool) where
  mutual
    unfolding append reverse

    -- `_Pushdown_TransposeExp`. The source reverses the factors of a product before it transposes
    -- each of them.
    pub transpose_exp : Expression O → Expression O
    transpose_exp (operand o) = if diagonal o then operand o else transpose (operand o)
    transpose_exp (add xs) = add (transpose_each xs)
    transpose_exp (mul xs) = mul (reverse (transpose_each xs))
    transpose_exp (transpose x) = x

    pub transpose_each : Children O → Children O
    transpose_each nil = nil
    transpose_each (cons x xs) = cons (transpose_exp x) (transpose_each xs)

  -- AlgebraicExpression_PushDownTranspose, on fuel
  pub push_down : ℕ → Expression O → Expression O
  unfolding transpose_exp map_children
  push_down zero root = root
  push_down (suc fuel) (operand o) = operand o
  push_down (suc fuel) (add xs) = add (map_children (push_down fuel) xs)
  push_down (suc fuel) (mul xs) = mul (map_children (push_down fuel) xs)
  push_down (suc fuel) (transpose (operand o)) = transpose (operand o)
  push_down (suc fuel) (transpose (add xs)) = push_down fuel (transpose_exp (add xs))
  push_down (suc fuel) (transpose (mul xs)) = push_down fuel (transpose_exp (mul xs))
  push_down (suc fuel) (transpose (transpose x)) = push_down fuel (transpose_exp (transpose x))

-- What a change of a part makes of the whole, and the first of two changes.
abbrev pub rebuilt : {A B : Type 0} → (A → B) → Option A → Option B
rebuilt f none = none
rebuilt f (some x) = some (f x)

abbrev pub or_else : {A : Type 0} → Option A → Option A → Option A
or_else none o = o
or_else (some x) o = some x

module _ {O : Type 0} where
  abbrev pub is_add : Expression O → Bool
  is_add (add xs) = true
  is_add _ = false

  -- The children of an addition
  abbrev pub terms : Expression O → Children O
  terms (add xs) = xs
  terms _ = nil

  -- `_AlgebraicExpression_MultiplyToTheRight` and `_AlgebraicExpression_AddToTheRight`
  abbrev pub multiply_to_the_right : Expression O → Expression O → Expression O
  multiply_to_the_right exp rhs = mul (cons exp (cons rhs nil))

  abbrev pub add_to_the_right : Expression O → Expression O → Expression O
  add_to_the_right exp rhs = add (cons exp (cons rhs nil))

  -- The products of one factor with each of some others, in their order.
  unfoldable pub multiply_each : Expression O → Children O → Children O
  multiply_each l nil = nil
  multiply_each l (cons r rs) = cons (multiply_to_the_right l r) (multiply_each l rs)

  unfoldable pub each_multiplied : Children O → Expression O → Children O
  each_multiplied nil r = nil
  each_multiplied (cons l ls) r = cons (multiply_to_the_right l r) (each_multiplied ls r)

  -- The array `multiplications`
  unfoldable pub multiplications : Children O → Children O → Children O
  unfolding multiply_each append
  multiplications nil rs = nil
  multiplications (cons l ls) rs = append (multiply_each l rs) (multiplications ls rs)

  -- The loop that sums them; `add` is what is summed so far.
  unfoldable pub sum_from : Expression O → Children O → Expression O
  sum_from sum nil = sum
  sum_from sum (cons x xs) = sum_from (add_to_the_right sum x) xs

  -- An addition has children, so there is a first product.
  unfoldable pub sum_all : Children O → Expression O
  unfolding sum_from
  sum_all nil = add nil
  sum_all (cons x xs) = sum_from x xs

  -- The branches of `__AlgebraicExpression_MulOverAdd` for the two children of a product, which
  -- the source asserts to be all. The terms of a sum are taken from the last one.
  unfoldable pub distribute : Expression O → Expression O → Option (Expression O)
  unfolding multiplications sum_all each_multiplied multiply_each reverse
  distribute l r =
      if is_add l
      then (if is_add r
          then some (sum_all (multiplications (terms l) (terms r)))
          else some (add (each_multiplied (reverse (terms l)) r)))
      else if is_add r
      then some (add (multiply_each l (reverse (terms r))))
      else none

  unfoldable pub at_root : Expression O → Option (Expression O)
  unfolding distribute
  at_root (mul (cons l (cons r nil))) = distribute l r
  at_root _ = none

  unfoldable mutual
    unfolding at_root

    -- `__AlgebraicExpression_MulOverAdd`: the tree after one change, if there is one to make.
    pub mul_over_add_once : Expression O → Option (Expression O)
    mul_over_add_once (operand o) = none
    mul_over_add_once (add xs) = rebuilt add (first_changed xs)
    mul_over_add_once (mul xs) = or_else (at_root (mul xs)) (rebuilt mul (first_changed xs))
    mul_over_add_once (transpose x) = rebuilt transpose (mul_over_add_once x)

    pub first_changed : Children O → Option (Children O)
    first_changed nil = none
    first_changed (cons x xs) =
        or_else (rebuilt (λ y. cons y xs) (mul_over_add_once x))
          (rebuilt (cons x) (first_changed xs))

  -- `_AlgebraicExpression_MulOverAdd`, on fuel
  unfoldable pub mul_over_add : ℕ → Expression O → Expression O
  unfolding mul_over_add_once
  mul_over_add zero root = root
  mul_over_add (suc fuel) root = elim (mul_over_add_once root) [
    | none ↦ root
    | some root' ↦ mul_over_add fuel root'
  ]

-- AL_EXP_OP
pub data Operation : Type 0 where
  addition : Operation
  multiplication : Operation
  transposition : Operation

abbrev pub is_multiplication : Operation → Bool
is_multiplication multiplication = true
is_multiplication _ = false

module _ {O : Type 0} where
  unfoldable mutual
    -- AlgebraicExpression_OperationCount, where `mask` tells which operations are asked for.
    pub operation_count : Expression O → (Operation → Bool) → ℕ
    operation_count (operand o) mask = 0
    operation_count (add xs) mask = (if mask addition then 1 else 0) + operation_count_each xs mask
    operation_count (mul xs) mask =
        (if mask multiplication then 1 else 0) + operation_count_each xs mask
    operation_count (transpose x) mask =
        (if mask transposition then 1 else 0) + operation_count x mask

    pub operation_count_each : Children O → (Operation → Bool) → ℕ
    operation_count_each nil mask = 0
    operation_count_each (cons x xs) mask = operation_count x mask + operation_count_each xs mask

  unfoldable mutual
    unfolding append

    -- `_AlgebraicExpression_CollectOperands`: what it appends to the operands. A transpose is one
    -- of them.
    pub collect_operands : Expression O → Children O
    collect_operands (operand o) = cons (operand o) nil
    collect_operands (add xs) = collect_each xs
    collect_operands (mul xs) = collect_each xs
    collect_operands (transpose x) = cons (transpose x) nil

    pub collect_each : Children O → Children O
    collect_each nil = nil
    collect_each (cons x xs) = append (collect_operands x) (collect_each xs)

  unfoldable mutual
    unfolding operation_count collect_operands

    -- `_AlgebraicExpression_FlattenMultiplications`
    pub flatten_multiplications : Expression O → Expression O
    flatten_multiplications (operand o) = operand o
    flatten_multiplications (add xs) = add (flatten_each xs)
    flatten_multiplications (mul xs) =
        if ltb 1 (operation_count (mul xs) is_multiplication)
        then mul (collect_operands (mul xs))
        else mul xs
    flatten_multiplications (transpose x) = transpose (flatten_multiplications x)

    pub flatten_each : Children O → Children O
    flatten_each nil = nil
    flatten_each (cons x xs) = cons (flatten_multiplications x) (flatten_each xs)
