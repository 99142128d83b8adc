-- ===== src/AlgebraicExpression/Ready.antt =====
-- What `_AlgebraicExpression_MulOverAdd` keeps: transposes stand on operands that are not diagonal.
use redis_graph.Prelude.{ℕ, zero, suc, Bool, false, Option, none, some, ◌≡◌}
use redis_graph.AlgebraicExpression.{
  Expression, operand, add, mul, transpose, Children, nil, cons, append, reverse, multiply_each,
  each_multiplied, multiplications, sum_from, sum_all, add_to_the_right, distribute, at_root,
  rebuilt, or_else, mul_over_add_once, first_changed, mul_over_add,
}
use redis_graph.AlgebraicExpression.PushDown.{IsPushed, ArePushed}
use redis_graph.AlgebraicExpression.Pushed.{IsSound, AreSound}

module _ {O : Type 0} (diagonal : O → Bool) (IsFresh : O → Type 0) where
  abbrev mutual
    pub IsReady : Expression O → Type 0
    IsReady (operand o) = IsFresh o
    IsReady (add xs) = AreReady xs
    IsReady (mul xs) = AreReady xs
    IsReady (transpose (operand o)) = IsFresh o × (diagonal o ≡ false)
    IsReady (transpose _) = ⊥

    pub AreReady : Children O → Type 0
    AreReady nil = Unit
    AreReady (cons x xs) = IsReady x × AreReady xs

  mutual
    pub pushed-IsReady : (x : Expression O) → IsSound diagonal IsFresh x → IsPushed x → IsReady x
    pushed-IsReady (operand o) s p = s
    pushed-IsReady (add xs) s p = pushed-AreReady xs s.1 p
    pushed-IsReady (mul xs) s p = pushed-AreReady xs s.1 p
    pushed-IsReady (transpose (operand o)) s p = s
    pushed-IsReady (transpose (add xs)) s p = absurd p
    pushed-IsReady (transpose (mul xs)) s p = absurd p
    pushed-IsReady (transpose (transpose x)) s p = absurd p

    pushed-AreReady : (xs : Children O) → AreSound diagonal IsFresh xs → ArePushed xs → AreReady xs
    pushed-AreReady nil s p = tt
    pushed-AreReady (cons x xs) s p = (pushed-IsReady x s.0 p.0, pushed-AreReady xs s.1 p.1)

  append-AreReady : (xs ys : Children O) → AreReady xs → AreReady ys → AreReady (append xs ys)
  unfolding append
  append-AreReady nil ys p q = q
  append-AreReady (cons x xs) ys p q = (p.0, append-AreReady xs ys p.1 q)

  reverse-AreReady : (xs : Children O) → AreReady xs → AreReady (reverse xs)
  unfolding reverse
  reverse-AreReady nil p = tt
  reverse-AreReady (cons x xs) p =
      append-AreReady (reverse xs) (cons x nil) (reverse-AreReady xs p.1) (p.0, tt)

  multiply_each-AreReady :
      (l : Expression O) (rs : Children O) → IsReady l → AreReady rs → AreReady (multiply_each l rs)
  unfolding multiply_each
  multiply_each-AreReady l nil p q = tt
  multiply_each-AreReady l (cons r rs) p q = ((p, (q.0, tt)), multiply_each-AreReady l rs p q.1)

  each_multiplied-AreReady :
      (ls : Children O) (r : Expression O)
      → AreReady ls
      → IsReady r
      → AreReady (each_multiplied ls r)
  unfolding each_multiplied
  each_multiplied-AreReady nil r p q = tt
  each_multiplied-AreReady (cons l ls) r p q = ((p.0, (q, tt)), each_multiplied-AreReady ls r p.1 q)

  multiplications-AreReady :
      (ls rs : Children O) → AreReady ls → AreReady rs → AreReady (multiplications ls rs)
  unfolding multiplications
  multiplications-AreReady nil rs p q = tt
  multiplications-AreReady (cons l ls) rs p q =
      append-AreReady (multiply_each l rs) (multiplications ls rs)
        (multiply_each-AreReady l rs p.0 q) (multiplications-AreReady ls rs p.1 q)

  sum_from-IsReady :
      (x : Expression O) (xs : Children O) → IsReady x → AreReady xs → IsReady (sum_from x xs)
  unfolding sum_from
  sum_from-IsReady x nil p q = p
  sum_from-IsReady x (cons y ys) p q = sum_from-IsReady (add_to_the_right x y) ys (p, (q.0, tt)) q.1

  sum_all-IsReady : (xs : Children O) → AreReady xs → IsReady (sum_all xs)
  unfolding sum_all
  sum_all-IsReady nil p = tt
  sum_all-IsReady (cons x xs) p = sum_from-IsReady x xs p.0 p.1

  abbrev IsReadyIfSome : Option (Expression O) → Type 0
  IsReadyIfSome none = Unit
  IsReadyIfSome (some x) = IsReady x

  abbrev AreReadyIfSome : Option (Children O) → Type 0
  AreReadyIfSome none = Unit
  AreReadyIfSome (some xs) = AreReady xs

  distribute-IsReady : (l r : Expression O) → IsReady l → IsReady r → IsReadyIfSome (distribute l r)
  unfolding distribute
  distribute-IsReady (add ls) (add rs) p q =
      sum_all-IsReady (multiplications ls rs) (multiplications-AreReady ls rs p q)
  distribute-IsReady (add ls) r p q =
      each_multiplied-AreReady (reverse ls) r (reverse-AreReady ls p) q
  distribute-IsReady l (add rs) p q =
      multiply_each-AreReady l (reverse rs) p (reverse-AreReady rs q)
  distribute-IsReady l r p q = tt

  at_root-IsReady : (xs : Children O) → AreReady xs → IsReadyIfSome (at_root (mul xs))
  unfolding at_root
  at_root-IsReady (cons l (cons r nil)) p = distribute-IsReady l r p.0 p.1.0
  at_root-IsReady xs p = tt

  cons-AreReady :
      (x : Expression O) (xs : Children O) (o : Option (Expression O)) (o' : Option (Children O))
      → IsReady x
      → AreReady xs
      → IsReadyIfSome o
      → AreReadyIfSome o'
      → AreReadyIfSome (or_else (rebuilt (λ y. cons y xs) o) (rebuilt (cons x) o'))
  cons-AreReady x xs (some y) o' p q h h' = (h, q)
  cons-AreReady x xs none (some ys) p q h h' = (p, h')
  cons-AreReady x xs none none p q h h' = tt

  add-IsReady : (o : Option (Children O)) → AreReadyIfSome o → IsReadyIfSome (rebuilt add o)
  add-IsReady none h = tt
  add-IsReady (some ys) h = h

  mul-IsReady :
      (o : Option (Expression O)) (o' : Option (Children O))
      → IsReadyIfSome o
      → AreReadyIfSome o'
      → IsReadyIfSome (or_else o (rebuilt mul o'))
  mul-IsReady (some y) o' h h' = h
  mul-IsReady none (some ys) h h' = h'
  mul-IsReady none none h h' = tt

  mutual
    unfolding mul_over_add_once

    once-IsReady : (x : Expression O) → IsReady x → IsReadyIfSome (mul_over_add_once x)
    once-IsReady (operand o) p = tt
    once-IsReady (add xs) p = add-IsReady (first_changed xs) (first_changed-AreReady xs p)
    once-IsReady (mul xs) p =
        mul-IsReady (at_root (mul xs)) (first_changed xs) (at_root-IsReady xs p)
          (first_changed-AreReady xs p)
    once-IsReady (transpose (operand o)) p = tt
    once-IsReady (transpose (add xs)) p = absurd p
    once-IsReady (transpose (mul xs)) p = absurd p
    once-IsReady (transpose (transpose x)) p = absurd p

    first_changed-AreReady : (xs : Children O) → AreReady xs → AreReadyIfSome (first_changed xs)
    first_changed-AreReady nil p = tt
    first_changed-AreReady (cons x xs) p =
        cons-AreReady x xs (mul_over_add_once x) (first_changed xs) p.0 p.1 (once-IsReady x p.0)
          (first_changed-AreReady xs p.1)

  after-IsReady :
      (f : Expression O → Expression O) (x : Expression O) (o : Option (Expression O))
      → IsReady x
      → IsReadyIfSome o
      → ((y : Expression O) → IsReady y → IsReady (f y))
      → IsReady (elim o [ none ↦ x | some y ↦ f y ])
  after-IsReady f x none p q h = p
  after-IsReady f x (some y) p q h = h y q

  pub mul_over_add-IsReady :
      (fuel : ℕ) (x : Expression O) → IsReady x → IsReady (mul_over_add fuel x)
  unfolding mul_over_add
  mul_over_add-IsReady zero x p = p
  mul_over_add-IsReady (suc fuel) x p =
      after-IsReady (mul_over_add fuel) x (mul_over_add_once x) p (once-IsReady x p)
        (mul_over_add-IsReady fuel)
