-- ===== src/AlgebraicExpression/Flatten.antt =====
-- `_AlgebraicExpression_FlattenMultiplications` after `_AlgebraicExpression_MulOverAdd`: what a tree
-- is like that has nothing to distribute, and what collecting the operands of its products leaves.
use mathlib.Core.Path.{ap₂}
use redis_graph.Prelude.{Option, none, some, ◌≡◌, refl, ap, ◌∙◌, arith, ltb, Bool-cases, inl, inr}
use redis_graph.AlgebraicExpression.{
  Expression, operand, add, mul, transpose, Children, nil, cons, distribute, at_root, rebuilt,
  or_else, mul_over_add_once, first_changed, collect_operands, collect_each,
  flatten_multiplications, flatten_each, is_multiplication, operation_count,
}
use redis_graph.AlgebraicExpression.Matrices.{
  Matrices, IsMatrices, value, sum, product, product-append,
}
use redis_graph.AlgebraicExpression.Weight.{IsWellFormed, AreWellFormed, count}

-- Where nothing of either is changed, and what nothing is made of is nothing.
neither : {A : Type 0} (o o' : Option A) → or_else o o' ≡ none → (o ≡ none) × (o' ≡ none)
neither none o' e = (refl, e)
neither (some x) o' e = ground arith

of_nothing : {A B : Type 0} (f : A → B) (o : Option A) → rebuilt f o ≡ none → o ≡ none
of_nothing f none e = refl
of_nothing f (some x) e = ground arith

module _ {O : Type 0} where
  abbrev mutual
    -- A product of operands, of transposes and of such products
    pub IsProduct : Expression O → Type 0
    IsProduct (operand o) = Unit
    IsProduct (add xs) = ⊥
    IsProduct (mul xs) = AreProducts xs
    IsProduct (transpose x) = Unit

    pub AreProducts : Children O → Type 0
    AreProducts nil = Unit
    AreProducts (cons x xs) = IsProduct x × AreProducts xs

  abbrev mutual
    -- Nowhere is there a sum under a product, but perhaps under a transpose in it.
    pub IsDistributed : Expression O → Type 0
    IsDistributed (operand o) = Unit
    IsDistributed (add xs) = AreDistributed xs
    IsDistributed (mul xs) = AreProducts xs
    IsDistributed (transpose x) = IsDistributed x

    pub AreDistributed : Children O → Type 0
    AreDistributed nil = Unit
    AreDistributed (cons x xs) = IsDistributed x × AreDistributed xs

  factor-IsProduct : (l r : Expression O) → distribute l r ≡ none → IsDistributed l → IsProduct l
  unfolding distribute
  factor-IsProduct (operand o) r e d = tt
  factor-IsProduct (add ls) (operand o) e d = ground arith
  factor-IsProduct (add ls) (add rs) e d = ground arith
  factor-IsProduct (add ls) (mul rs) e d = ground arith
  factor-IsProduct (add ls) (transpose r) e d = ground arith
  factor-IsProduct (mul ls) r e d = d
  factor-IsProduct (transpose l) r e d = tt

  factor_right-IsProduct :
      (l r : Expression O) → distribute l r ≡ none → IsDistributed r → IsProduct r
  unfolding distribute
  factor_right-IsProduct l (operand o) e d = tt
  factor_right-IsProduct (operand o) (add ls) e d = ground arith
  factor_right-IsProduct (add rs) (add ls) e d = ground arith
  factor_right-IsProduct (mul rs) (add ls) e d = ground arith
  factor_right-IsProduct (transpose r) (add ls) e d = ground arith
  factor_right-IsProduct l (mul ls) e d = d
  factor_right-IsProduct l (transpose r) e d = tt

  mutual
    unfolding mul_over_add_once at_root

    -- Where there is nothing to change, the products are over the sums nowhere.
    pub once-IsDistributed :
        (x : Expression O) → IsWellFormed x → mul_over_add_once x ≡ none → IsDistributed x
    once-IsDistributed (operand o) w e = tt
    once-IsDistributed (add xs) w e =
        first_changed-AreDistributed xs w.1 (of_nothing add (first_changed xs) e)
    once-IsDistributed (mul xs) w e =
        let (e', e'') = neither (at_root (mul xs)) (rebuilt mul (first_changed xs)) e in
        factors xs w.0 e'
          (first_changed-AreDistributed xs w.1 (of_nothing mul (first_changed xs) e''))
      where
        factors :
            (xs : Children O)
            → count xs ≡ 2
            → at_root (mul xs) ≡ none
            → AreDistributed xs
            → AreProducts xs
        factors (cons l (cons r nil)) c e d =
            (factor-IsProduct l r e d.0, (factor_right-IsProduct l r e d.1.0, tt))
        factors nil c e d = absurd (omega arith)
        factors (cons x nil) c e d = absurd (omega arith)
        factors (cons x (cons y (cons z zs))) c e d = absurd (omega arith)
    once-IsDistributed (transpose x) w e =
        once-IsDistributed x w (of_nothing transpose (mul_over_add_once x) e)

    first_changed-AreDistributed :
        (xs : Children O) → AreWellFormed xs → first_changed xs ≡ none → AreDistributed xs
    first_changed-AreDistributed nil w e = tt
    first_changed-AreDistributed (cons x xs) w e =
        let (e', e'') =
          neither (rebuilt (λ y. cons y xs) (mul_over_add_once x))
            (rebuilt (cons x) (first_changed xs)) e in
        (
          once-IsDistributed x w.0 (of_nothing (λ y. cons y xs) (mul_over_add_once x) e'),
          first_changed-AreDistributed xs w.1 (of_nothing (cons x) (first_changed xs) e''),
        )

module _ {M : Matrices} (L : IsMatrices M) {O : Type 0} (matrix : O → M.Matrix) where
  mutual
    unfolding collect_operands value

    product-collect_operands :
        (x : Expression O) → IsProduct x → product M matrix (collect_operands x) ≡ value M matrix x
    product-collect_operands (operand o) p = L.times_one _
    product-collect_operands (add xs) p = absurd p
    product-collect_operands (mul xs) p = product-collect_each xs p
    product-collect_operands (transpose x) p = L.times_one _

    product-collect_each :
        (xs : Children O)
        → AreProducts xs
        → product M matrix (collect_each xs) ≡ product M matrix xs
    product-collect_each nil p = refl
    product-collect_each (cons x xs) p =
        product-append L matrix (collect_operands x) (collect_each xs)
        ∙ ap₂ M.times (product-collect_operands x p.0) (product-collect_each xs p.1)

  mutual
    unfolding flatten_multiplications value

    -- Flattening the products changes no matrix where no sum is under a product.
    pub value-flatten_multiplications :
        (x : Expression O)
        → IsDistributed x
        → value M matrix (flatten_multiplications x) ≡ value M matrix x
    value-flatten_multiplications (operand o) d = refl
    value-flatten_multiplications (add xs) d = sum-flatten_each xs d
    value-flatten_multiplications (mul xs) d =
        elim (Bool-cases (ltb 1 (operation_count (mul xs) is_multiplication))) [
          | inl e ↦ rw e (product-collect_each xs d)
          | inr e ↦ rw e refl
        ]
    value-flatten_multiplications (transpose x) d =
        ap M.transposed (value-flatten_multiplications x d)

    sum-flatten_each :
        (xs : Children O) → AreDistributed xs → sum M matrix (flatten_each xs) ≡ sum M matrix xs
    sum-flatten_each nil d = refl
    sum-flatten_each (cons x xs) d =
        ap₂ M.plus (value-flatten_multiplications x d.0) (sum-flatten_each xs d.1)
