-- ===== src/FilterTree/DeMorgan/Negate.antt =====
-- The result of a filter after FilterTree_DeMorgan, on ordered values and on others.
use redis_graph.Prelude.{
  ℕ, suc, ◌%◌, ◌≡◌, refl, ap, sym, ◌∙◌, Bool, true, false, ◌==◌, if◌then◌else◌, some, arith,
}
use mathlib.Core.Path.{ap₂}
use redis_graph.Value.{
  Payloads, SiValue, boolean, null, Sign, Flag, disjoint, compared_nan, compare_values,
}
use redis_graph.BooleanFuncs.{ar_not}
use redis_graph.FilterTree.{
  Operator, or_op, xor_op, and_op, xnor_op, not_op, equal_op, nequal_op, lt_op, gt_op, le_op, ge_op,
  FtResult, filter_null, filter_fail, filter_pass, filter_of, apply_filter, apply_condition,
  apply_value, apply_filters, Expressions, FilterTree, null_tree, exp, pred, cond,
}
use redis_graph.FilterTree.Laws.{
  IsTruth, IsComparison, IsConnective, IsOrdered, IsExpressions, IsLogical,
}
use redis_graph.FilterTree.DeMorgan.{negate_operator, apply_negate, de_morgan}

-- NOT on results, and the parity that the code counts.
abbrev pub negated : FtResult → FtResult
negated filter_null = filter_null
negated filter_fail = filter_pass
negated filter_pass = filter_fail

abbrev pub negated_if : Bool → FtResult → FtResult
negated_if true t = negated t
negated_if false t = t

abbrev pub odd : ℕ → Bool
odd n = n % 2 == 1

negated_if-odd-suc :
    (n : ℕ) (t : FtResult) → negated_if (odd (suc n)) t ≡ negated_if (odd n) (negated t)
negated_if-odd-suc n filter_null = ground arith
negated_if-odd-suc n filter_fail = ground arith
negated_if-odd-suc n filter_pass = ground arith

apply_value-ar_not :
    {P : Payloads} (v : SiValue P) → IsTruth v → apply_value (ar_not v) ≡ negated (apply_value v)
unfolding ar_not apply_value
apply_value-ar_not null h = refl
apply_value-ar_not (boolean true) h = refl
apply_value-ar_not (boolean false) h = refl
apply_value-ar_not _ h = absurd h

filter_of-negate :
    (op : Operator) (c : Sign × Flag)
    → IsComparison op
    → IsOrdered c.1
    → filter_of (negate_operator op) c ≡ negated (filter_of op c)
unfolding filter_of negate_operator
filter_of-negate equal_op (s, f) h o = ground arith
filter_of-negate nequal_op (s, f) h o = ground arith
filter_of-negate lt_op (s, f) h o = ground arith
filter_of-negate gt_op (s, f) h o = ground arith
filter_of-negate le_op (s, f) h o = ground arith
filter_of-negate ge_op (s, f) h o = ground arith
filter_of-negate _ c h o = absurd h

apply_condition-negate :
    (op : Operator) (a b : FtResult)
    → IsConnective op
    → apply_condition (negate_operator op) (negated a) (negated b)
      ≡ negated (apply_condition op a b)
unfolding apply_condition negate_operator
apply_condition-negate and_op a b h = ground arith
apply_condition-negate or_op a b h = ground arith
apply_condition-negate xor_op a b h = ground arith
apply_condition-negate xnor_op a b h = ground arith
apply_condition-negate _ a b h = absurd h

apply_condition-not : (a b : FtResult) → apply_condition not_op a b ≡ negated a
unfolding apply_condition
apply_condition-not a b = ground arith

-- A connective and its operands negated together, if the count is odd.
apply_condition-negate_if :
    (p : Bool) (op : Operator) (a b : FtResult)
    → IsConnective op
    → apply_condition (if p then negate_operator op else op) (negated_if p a) (negated_if p b)
      ≡ negated_if p (apply_condition op a b)
apply_condition-negate_if true op a b h = apply_condition-negate op a b h
apply_condition-negate_if false op a b h = refl

module _ {P : Payloads} {E : Expressions P} (L : IsExpressions E) (r : E.Record) where
  exp-negate_if :
      (p : Bool) (e : E.Exp)
      → IsTruth (E.evaluate e (some r))
      → apply_value (E.evaluate (if p then E.new_not e else e) (some r))
        ≡ negated_if p (apply_value (E.evaluate e (some r)))
  exp-negate_if true e h =
      ap apply_value (L.evaluate-not e r h) ∙ apply_value-ar_not (E.evaluate e (some r)) h
  exp-negate_if false e h = refl

  pred-negate_if :
      (p : Bool) (op : Operator) (c : Sign × Flag)
      → IsComparison op
      → IsOrdered c.1
      → filter_of (if p then negate_operator op else op) c ≡ negated_if p (filter_of op c)
  pred-negate_if true op c h o = filter_of-negate op c h o
  pred-negate_if false op c h o = refl

  -- Negating a tree under a count of NOTs negates its result when the count is odd.
  pub apply_negate_lem :
      (t : FilterTree E) (n : ℕ)
      → IsLogical E r t
      → apply_filters E (apply_negate E t n) r ≡ negated_if (odd n) (apply_filters E t r)
  unfolding apply_negate apply_filters
  apply_negate_lem null_tree n h = absurd h
  apply_negate_lem (exp e) n h = exp-negate_if (odd n) e h
  apply_negate_lem (pred op lhs rhs) n h = pred-negate_if (odd n) op _ h.0 h.1
  apply_negate_lem (cond not_op left right) n h =
      apply_negate_lem left (suc n) h
      ∙ negated_if-odd-suc n (apply_filters E left r)
      ∙ ap (negated_if (odd n)) (sym (apply_condition-not _ _))
  apply_negate_lem (cond op left right) n h =
      rw (apply_negate_lem left n h.1, apply_negate_lem right n h.2)
        (apply_condition-negate_if (odd n) op _ _ h.0)

  -- Where the leaves are truth values or NULL and the comparisons are of ordered values or NULL,
  -- the filter that De Morgan's rewriting makes has the result of the filter.
  pub de_morgan_lem :
      (t : FilterTree E) → IsLogical E r t → apply_filters E (de_morgan E t) r ≡ apply_filters E t r
  unfolding de_morgan apply_filters
  de_morgan_lem null_tree h = absurd h
  de_morgan_lem (exp e) h = refl
  de_morgan_lem (pred op lhs rhs) h = refl
  de_morgan_lem (cond not_op left right) h =
      apply_negate_lem left 1 h ∙ sym (apply_condition-not _ _)
  de_morgan_lem (cond op left right) h =
      ap₂ (apply_condition op) (de_morgan_lem left h.1) (de_morgan_lem right h.2)

-- The four operators that order their operands.
abbrev pub IsOrder : Operator → Type 0
IsOrder lt_op = Unit
IsOrder gt_op = Unit
IsOrder le_op = Unit
IsOrder ge_op = Unit
IsOrder _ = ⊥

abbrev pub IsUnordered : Flag → Type 0
IsUnordered disjoint = Unit
IsUnordered compared_nan = Unit
IsUnordered _ = ⊥

filter_of-unordered :
    (op : Operator) (c : Sign × Flag)
    → IsOrder op
    → IsUnordered c.1
    → (filter_of op c ≡ filter_fail) × (filter_of (negate_operator op) c ≡ filter_fail)
unfolding filter_of negate_operator
filter_of-unordered lt_op (s, f) h u = (ground arith, ground arith)
filter_of-unordered gt_op (s, f) h u = (ground arith, ground arith)
filter_of-unordered le_op (s, f) h u = (ground arith, ground arith)
filter_of-unordered ge_op (s, f) h u = (ground arith, ground arith)
filter_of-unordered _ c h u = absurd h

module _ {P : Payloads} (E : Expressions P) (r : E.Record) where
  -- On values of disjoint types, or with a NaN, the negation of an ordering comparison passes as it
  -- is written, and fails once De Morgan's rewriting negated the operator in its place.
  pub de_morgan_unordered :
      (op : Operator) (lhs rhs : E.Exp) (right : FilterTree E)
      → IsOrder op
      → IsUnordered (compare_values (E.evaluate lhs (some r)) (E.evaluate rhs (some r))).1
      → (apply_filters E (cond not_op (pred op lhs rhs) right) r ≡ filter_pass)
        × (apply_filters E (de_morgan E (cond not_op (pred op lhs rhs) right)) r ≡ filter_fail)
  unfolding apply_filters apply_filter apply_condition de_morgan apply_negate
  de_morgan_unordered op lhs rhs right h u = (rw (both.0), both.1)
    where
      both :
          (filter_of op (compare_values (E.evaluate lhs (some r)) (E.evaluate rhs (some r)))
            ≡ filter_fail)
          × (filter_of
                (negate_operator op)
                (compare_values (E.evaluate lhs (some r)) (E.evaluate rhs (some r)))
              ≡ filter_fail)
      both = filter_of-unordered op _ h u
