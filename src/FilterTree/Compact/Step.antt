-- ===== src/FilterTree/Compact/Step.antt =====
-- What compacting a subtree gives, and how AND and OR combine it.
use mathlib.Core.Path.{ap₂}
use redis_graph.Prelude.{◌≡◌, refl, ap, sym, ◌∙◌, Bool, true, false, not, none, if◌then◌else◌}
use redis_graph.Value.{Payloads, SiValue, is_null}
use redis_graph.FilterTree.{
  Operator, of_bool, FtResult, apply_condition, apply_value, apply_filters, Expressions, FilterTree,
  exp, cond,
}
use redis_graph.FilterTree.Laws.{IsTruth, IsExpressions}
use redis_graph.FilterTree.Compact.{is_true, same_bool, is_static, constant_value, set_exp}
use redis_graph.FilterTree.Compact.Tables.{Truth, none_truth, bool_truth}

module _ {P : Payloads} (E : Expressions P) (L : IsExpressions E) (r : E.Record) where
  -- What compacting a subtree gives: the result on `r`, and, if it answers true, a static
  -- expression of a truth value.
  pub record Compacted (before : FtResult) (c : Bool × FilterTree E) : Type 0 where
    pub result : apply_filters E c.1 r ≡ before
    pub constant :
        c.0 ≡ true
        → (e : E.Exp) × (c.1 ≡ exp e) × (is_static E e ≡ true) × IsTruth (E.evaluate e none)

  pub const-Compacted : (v : SiValue P) → IsTruth v → Compacted (apply_value v) (set_exp E v)
  unfolding apply_filters
  const-Compacted v h = record {
    result = ap apply_value (L.evaluate-const v r);
    constant =
        λ _. (E.new_const v, refl, rw (L.is_constant-const v), rw (L.evaluate-const_none v) h);
  }

  pub changed-Compacted :
      {a b : FtResult} {c : Bool × FilterTree E} → Compacted a c → a ≡ b → Compacted b c
  changed-Compacted k e = record { result = k.result ∙ e; constant = k.constant }

  pub kept-Compacted :
      (op : Operator) {a b : FtResult} {c d : Bool × FilterTree E}
      → Compacted a c
      → Compacted b d
      → Compacted (apply_condition op a b) (false, cond op c.1 d.1)
  unfolding apply_filters
  kept-Compacted op k l = record {
    result = ap₂ (apply_condition op) k.result l.result;
    constant = λ e. cc;
  }

  -- The value of a subtree that answered true.
  pub known :
      {a : FtResult} {t : FilterTree E}
      → Compacted a (true, t)
      → IsTruth (constant_value E t) × (apply_value (constant_value E t) ≡ a)
  unfolding constant_value apply_filters
  known {a} {t} k = go (k.constant refl)
    where
      go :
          (e : E.Exp) × (t ≡ exp e) × (is_static E e ≡ true) × IsTruth (E.evaluate e none)
          → IsTruth (constant_value E t) × (apply_value (constant_value E t) ≡ a)
      go (e, p, s, h) = (
        rw p h,
        rw (ap (constant_value E) p) (
            ap apply_value (sym (L.evaluate_static e r s))
            ∙ ap (λ u. apply_filters E u r) (sym p)
            ∙ k.result),
      )

  -- Two constant children become the constant that a table of values gives.
  pub both-Compacted :
      (op : Operator) (table : SiValue P → SiValue P → SiValue P)
      → ((v w : SiValue P)
          → IsTruth v
          → IsTruth w
          → IsTruth (table v w)
            × (apply_value (table v w) ≡ apply_condition op (apply_value v) (apply_value w)))
      → {a b : FtResult} {s t : FilterTree E} → Compacted a (true, s)
      → Compacted b (true, t)
      → Compacted
          (apply_condition op a b)
          (set_exp E (table (constant_value E s) (constant_value E t)))
  both-Compacted op table sound {a} {b} {s} {t} k l =
      changed-Compacted (const-Compacted (table _ _) (both.0))
        (both.1 ∙ ap₂ (apply_condition op) (known k).1 (known l).1)
    where
      both :
          IsTruth (table (constant_value E s) (constant_value E t))
          × (apply_value (table (constant_value E s) (constant_value E t))
              ≡ apply_condition op
                  (apply_value (constant_value E s))
                  (apply_value (constant_value E t)))
      both = sound _ _ (known k).0 (known l).0

  -- AND and OR with one constant child: `dominant` decides, the other truth value drops out.
  pub left-Compacted :
      (op : Operator) (dominant : Bool) (v : SiValue P)
      → Truth v
      → {a b : FtResult} {s t : FilterTree E} → apply_value v ≡ a
      → Compacted a (true, s)
      → Compacted b (false, t)
      → apply_condition op (of_bool dominant) b ≡ of_bool dominant
      → apply_condition op (of_bool (not dominant)) b ≡ b
      → Compacted (apply_condition op a b) (
          if is_null v
          then (false, cond op s t)
          else if same_bool dominant (is_true v)
          then (true, s)
          else (false, t))
  unfolding apply_value
  left-Compacted op dominant v none_truth e k l wins drops = kept-Compacted op k l
  left-Compacted op true v (bool_truth true) e k l wins drops = changed-Compacted k (cc)
  left-Compacted op true v (bool_truth false) e k l wins drops = changed-Compacted l (cc)
  left-Compacted op false v (bool_truth true) e k l wins drops = changed-Compacted l (cc)
  left-Compacted op false v (bool_truth false) e k l wins drops = changed-Compacted k (cc)

  pub right-Compacted :
      (op : Operator) (dominant : Bool) (v : SiValue P)
      → Truth v
      → {a b : FtResult} {s t : FilterTree E} → apply_value v ≡ b
      → Compacted a (false, s)
      → Compacted b (true, t)
      → apply_condition op a (of_bool dominant) ≡ of_bool dominant
      → apply_condition op a (of_bool (not dominant)) ≡ a
      → Compacted (apply_condition op a b) (
          if is_null v
          then (false, cond op s t)
          else if same_bool dominant (is_true v)
          then (true, t)
          else (false, s))
  unfolding apply_value
  right-Compacted op dominant v none_truth e k l wins drops = kept-Compacted op k l
  right-Compacted op true v (bool_truth true) e k l wins drops = changed-Compacted l (cc)
  right-Compacted op true v (bool_truth false) e k l wins drops = changed-Compacted k (cc)
  right-Compacted op false v (bool_truth true) e k l wins drops = changed-Compacted k (cc)
  right-Compacted op false v (bool_truth false) e k l wins drops = changed-Compacted l (cc)
