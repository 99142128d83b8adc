-- ===== src/FilterTree/Compact/Keeps.antt =====
-- FilterTree_Compact on a whole tree: its result and its answer.
use redis_graph.Prelude.{
  ◌≡◌, refl, sym, Bool, true, false, ◌&&◌, none, some, arith, if◌then◌else◌, Bool-cases, inl, inr,
}
use redis_graph.Value.{Payloads, SiValue, null, is_null}
use redis_graph.FilterTree.{
  Operator, or_op, xor_op, and_op, xnor_op, FtResult, apply_condition, apply_value, apply_filters,
  Expressions, FilterTree, null_tree, exp, pred, cond,
}
use redis_graph.FilterTree.Laws.{IsTruth, IsExpressions, IsPositive}
use redis_graph.FilterTree.Compact.{
  value_of, is_static, set_exp, and_value, or_value, xor_value, compact_and, compact_or,
  compact_xor, compact_pred, xor_operator, compact,
}
use redis_graph.FilterTree.Compact.Tables.{
  Truth, none_truth, bool_truth, truth, apply_value-value_of, value_of-IsTruth, and_value_sound,
  or_value_sound, xor_value_sound, xor_null, and_fail, and_pass, or_fail, or_pass,
}
use redis_graph.FilterTree.Compact.Step

module _ {P : Payloads} (E : Expressions P) (L : IsExpressions E) (r : E.Record) where
  abbrev Compacted : FtResult → Bool × FilterTree E → Type 0
  Compacted = Step.Compacted E L r

  and-Compacted :
      {a b : FtResult} (c d : Bool × FilterTree E)
      → Compacted a c
      → Compacted b d
      → Compacted (apply_condition and_op a b) (compact_and E c d)
  unfolding compact_and
  and-Compacted (false, s) (false, t) k l = Step.kept-Compacted E L r and_op k l
  and-Compacted (true, s) (true, t) k l =
      Step.both-Compacted E L r and_op (and_value E) (and_value_sound E) k l
  and-Compacted (true, s) (false, t) k l =
      Step.left-Compacted E L r and_op false _ (truth _ (Step.known E L r k).0)
        (Step.known E L r k).1 k l (and_fail _).0 (and_pass _).0
  and-Compacted (false, s) (true, t) k l =
      Step.right-Compacted E L r and_op false _ (truth _ (Step.known E L r l).0)
        (Step.known E L r l).1 k l (and_fail _).1 (and_pass _).1

  or-Compacted :
      {a b : FtResult} (c d : Bool × FilterTree E)
      → Compacted a c
      → Compacted b d
      → Compacted (apply_condition or_op a b) (compact_or E c d)
  unfolding compact_or
  or-Compacted (false, s) (false, t) k l = Step.kept-Compacted E L r or_op k l
  or-Compacted (true, s) (true, t) k l =
      Step.both-Compacted E L r or_op (λ v w. or_value E w v) (or_value_sound E) k l
  or-Compacted (true, s) (false, t) k l =
      Step.left-Compacted E L r or_op true _ (truth _ (Step.known E L r k).0) (Step.known E L r k).1
        k l (or_pass _).0 (or_fail _).0
  or-Compacted (false, s) (true, t) k l =
      Step.right-Compacted E L r or_op true _ (truth _ (Step.known E L r l).0)
        (Step.known E L r l).1 k l (or_pass _).1 (or_fail _).1

  -- XOR and XNOR with one constant child reduce on NULL alone.
  xor_left-Compacted :
      (xnor : Bool) (v : SiValue P)
      → Truth v
      → {a b : FtResult} {s t : FilterTree E} → apply_value v ≡ a
      → Compacted a (true, s)
      → Compacted b (false, t)
      → Compacted
          (apply_condition (xor_operator E xnor) a b)
          (if is_null v then set_exp E v else (false, cond (xor_operator E xnor) s t))
  unfolding apply_value
  xor_left-Compacted xnor v none_truth {b = b} e k l =
      Step.changed-Compacted E L r (Step.const-Compacted E L r null tt)
        (rw (← e) (sym (xor_null E xnor b).0))
  xor_left-Compacted xnor v (bool_truth x) e k l =
      Step.kept-Compacted E L r (xor_operator E xnor) k l

  xor_right-Compacted :
      (xnor : Bool) (v : SiValue P)
      → Truth v
      → {a b : FtResult} {s t : FilterTree E} → apply_value v ≡ b
      → Compacted a (false, s)
      → Compacted b (true, t)
      → Compacted
          (apply_condition (xor_operator E xnor) a b)
          (if is_null v then set_exp E v else (false, cond (xor_operator E xnor) s t))
  unfolding apply_value
  xor_right-Compacted xnor v none_truth {a = a} e k l =
      Step.changed-Compacted E L r (Step.const-Compacted E L r null tt)
        (rw (← e) (sym (xor_null E xnor a).1))
  xor_right-Compacted xnor v (bool_truth x) e k l =
      Step.kept-Compacted E L r (xor_operator E xnor) k l

  xor-Compacted :
      (xnor : Bool) {a b : FtResult} (c d : Bool × FilterTree E)
      → Compacted a c
      → Compacted b d
      → Compacted (apply_condition (xor_operator E xnor) a b) (compact_xor E xnor c d)
  unfolding compact_xor
  xor-Compacted xnor (false, s) (false, t) k l = Step.kept-Compacted E L r (xor_operator E xnor) k l
  xor-Compacted xnor (true, s) (true, t) k l =
      Step.both-Compacted E L r (xor_operator E xnor) (xor_value E xnor) (xor_value_sound E xnor) k
        l
  xor-Compacted xnor (true, s) (false, t) k l =
      xor_left-Compacted xnor _ (truth _ (Step.known E L r k).0) (Step.known E L r k).1 k l
  xor-Compacted xnor (false, s) (true, t) k l =
      xor_right-Compacted xnor _ (truth _ (Step.known E L r l).0) (Step.known E L r l).1 k l

  both_static :
      (lhs rhs : E.Exp)
      → is_static E lhs && is_static E rhs ≡ true
      → (is_static E lhs ≡ true) × (is_static E rhs ≡ true)
  both_static lhs rhs h = (ground arith, ground arith)

  pred-Compacted :
      (op : Operator) (lhs rhs : E.Exp)
      → Compacted (apply_filters E (pred op lhs rhs) r) (compact_pred E op lhs rhs)
  unfolding compact_pred apply_filters
  pred-Compacted op lhs rhs = elim (Bool-cases (is_static E lhs && is_static E rhs)) [
    | inl e ↦
        rw
          (
            e,
            L.evaluate_static lhs r (both_static lhs rhs e).0,
            L.evaluate_static rhs r (both_static lhs rhs e).1,
          )
          (Step.changed-Compacted E L r
            (Step.const-Compacted E L r (value_of _) (value_of-IsTruth P _))
            (apply_value-value_of P _))
    | inr e ↦ rw e (record { result = refl; constant = λ e. cc })
  ]

  exp-Compacted :
      (e : E.Exp)
      → IsTruth (E.evaluate e (some r))
      → Compacted (apply_filters E (exp e) r) (is_static E e, exp e)
  exp-Compacted e h = record {
    result = refl;
    constant = λ s. (e, refl, s, rw (sym (L.evaluate_static e r s)) h);
  }

  compact-Compacted :
      (t : FilterTree E) → IsPositive E r t → Compacted (apply_filters E t r) (compact E t)
  unfolding compact apply_filters
  compact-Compacted null_tree h = absurd h
  compact-Compacted (exp e) h = exp-Compacted e h
  compact-Compacted (pred op lhs rhs) h = pred-Compacted op lhs rhs
  compact-Compacted (cond and_op left right) h =
      and-Compacted (compact E left) (compact E right) (compact-Compacted left h.1)
        (compact-Compacted right h.2)
  compact-Compacted (cond or_op left right) h =
      or-Compacted (compact E left) (compact E right) (compact-Compacted left h.1)
        (compact-Compacted right h.2)
  compact-Compacted (cond xor_op left right) h =
      xor-Compacted false (compact E left) (compact E right) (compact-Compacted left h.1)
        (compact-Compacted right h.2)
  compact-Compacted (cond xnor_op left right) h =
      xor-Compacted true (compact E left) (compact E right) (compact-Compacted left h.1)
        (compact-Compacted right h.2)
  compact-Compacted (cond _ left right) h = absurd h.0

  -- Compaction keeps the result of a filter on a record where its leaves are truth values or NULL
  -- and no condition is a NOT.
  pub compact_lem :
      (t : FilterTree E)
      → IsPositive E r t
      → apply_filters E (compact E t).1 r ≡ apply_filters E t r
  compact_lem t h = (compact-Compacted t h).result

  -- Where compaction answers true for a filter whose leaves on a record are truth values or NULL
  -- and no condition of which is a NOT, what is left is one expression, a constant or a parameter,
  -- whose value is a truth value or NULL.
  pub compact-constant :
      (t : FilterTree E)
      → IsPositive E r t
      → (compact E t).0 ≡ true
      → (e : E.Exp) × ((compact E t).1 ≡ exp e)
        × (is_static E e ≡ true)
        × IsTruth (E.evaluate e none)
  compact-constant t h s = (compact-Compacted t h).constant s
