-- ===== src/FilterTree/Compact/Tables.antt =====
-- The tables of values that compaction evaluates, and the tables of results.
use redis_graph.Prelude.{◌≡◌, refl, Bool, true, false, arith}
use redis_graph.Value.{Payloads, SiValue, boolean, null}
use redis_graph.FilterTree.{
  or_op, and_op, FtResult, filter_null, filter_fail, filter_pass, apply_condition, apply_value,
  Expressions,
}
use redis_graph.FilterTree.Laws.{IsTruth}
use redis_graph.FilterTree.Compact.{value_of, and_value, or_value, xor_value, xor_operator}

module _ (P : Payloads) where
  pub apply_value-value_of : (t : FtResult) → apply_value (value_of {P = P} t) ≡ t
  unfolding apply_value
  apply_value-value_of filter_null = refl
  apply_value-value_of filter_fail = refl
  apply_value-value_of filter_pass = refl

  pub value_of-IsTruth : (t : FtResult) → IsTruth (value_of {P = P} t)
  value_of-IsTruth filter_null = tt
  value_of-IsTruth filter_fail = tt
  value_of-IsTruth filter_pass = tt

module _ {P : Payloads} where
  -- A truth value is one of three.
  pub data Truth : SiValue P → Type 0 where
    none_truth : Truth null
    bool_truth : (b : Bool) → Truth (boolean b)

  pub truth : (v : SiValue P) → IsTruth v → Truth v
  truth null h = none_truth
  truth (boolean b) h = bool_truth b
  truth _ h = absurd h

module _ {P : Payloads} (E : Expressions P) where
  and_value_sound_of :
      {v w : SiValue P}
      → Truth v
      → Truth w
      → IsTruth (and_value E v w)
        × (apply_value (and_value E v w) ≡ apply_condition and_op (apply_value v) (apply_value w))
  unfolding and_value apply_value apply_condition
  and_value_sound_of none_truth none_truth = (tt, refl)
  and_value_sound_of none_truth (bool_truth true) = (tt, refl)
  and_value_sound_of none_truth (bool_truth false) = (tt, refl)
  and_value_sound_of (bool_truth true) none_truth = (tt, refl)
  and_value_sound_of (bool_truth true) (bool_truth true) = (tt, refl)
  and_value_sound_of (bool_truth true) (bool_truth false) = (tt, refl)
  and_value_sound_of (bool_truth false) none_truth = (tt, refl)
  and_value_sound_of (bool_truth false) (bool_truth true) = (tt, refl)
  and_value_sound_of (bool_truth false) (bool_truth false) = (tt, refl)

  pub and_value_sound :
      (v w : SiValue P)
      → IsTruth v
      → IsTruth w
      → IsTruth (and_value E v w)
        × (apply_value (and_value E v w) ≡ apply_condition and_op (apply_value v) (apply_value w))
  and_value_sound v w hv hw = and_value_sound_of (truth v hv) (truth w hw)

  or_value_sound_of :
      {v w : SiValue P}
      → Truth v
      → Truth w
      → IsTruth (or_value E w v)
        × (apply_value (or_value E w v) ≡ apply_condition or_op (apply_value v) (apply_value w))
  unfolding or_value apply_value apply_condition
  or_value_sound_of none_truth none_truth = (tt, refl)
  or_value_sound_of none_truth (bool_truth true) = (tt, refl)
  or_value_sound_of none_truth (bool_truth false) = (tt, refl)
  or_value_sound_of (bool_truth true) none_truth = (tt, refl)
  or_value_sound_of (bool_truth true) (bool_truth true) = (tt, refl)
  or_value_sound_of (bool_truth true) (bool_truth false) = (tt, refl)
  or_value_sound_of (bool_truth false) none_truth = (tt, refl)
  or_value_sound_of (bool_truth false) (bool_truth true) = (tt, refl)
  or_value_sound_of (bool_truth false) (bool_truth false) = (tt, refl)

  pub or_value_sound :
      (v w : SiValue P)
      → IsTruth v
      → IsTruth w
      → IsTruth (or_value E w v)
        × (apply_value (or_value E w v) ≡ apply_condition or_op (apply_value v) (apply_value w))
  or_value_sound v w hv hw = or_value_sound_of (truth v hv) (truth w hw)

  xor_value_sound_of :
      (xnor : Bool) {v w : SiValue P}
      → Truth v
      → Truth w
      → IsTruth (xor_value E xnor v w)
        × (apply_value (xor_value E xnor v w)
            ≡ apply_condition (xor_operator E xnor) (apply_value v) (apply_value w))
  unfolding xor_value apply_value apply_condition
  xor_value_sound_of true none_truth none_truth = (tt, refl)
  xor_value_sound_of true none_truth (bool_truth true) = (tt, refl)
  xor_value_sound_of true none_truth (bool_truth false) = (tt, refl)
  xor_value_sound_of true (bool_truth true) none_truth = (tt, refl)
  xor_value_sound_of true (bool_truth true) (bool_truth true) = (tt, refl)
  xor_value_sound_of true (bool_truth true) (bool_truth false) = (tt, refl)
  xor_value_sound_of true (bool_truth false) none_truth = (tt, refl)
  xor_value_sound_of true (bool_truth false) (bool_truth true) = (tt, refl)
  xor_value_sound_of true (bool_truth false) (bool_truth false) = (tt, refl)
  xor_value_sound_of false none_truth none_truth = (tt, refl)
  xor_value_sound_of false none_truth (bool_truth true) = (tt, refl)
  xor_value_sound_of false none_truth (bool_truth false) = (tt, refl)
  xor_value_sound_of false (bool_truth true) none_truth = (tt, refl)
  xor_value_sound_of false (bool_truth true) (bool_truth true) = (tt, refl)
  xor_value_sound_of false (bool_truth true) (bool_truth false) = (tt, refl)
  xor_value_sound_of false (bool_truth false) none_truth = (tt, refl)
  xor_value_sound_of false (bool_truth false) (bool_truth true) = (tt, refl)
  xor_value_sound_of false (bool_truth false) (bool_truth false) = (tt, refl)

  pub xor_value_sound :
      (xnor : Bool) (v w : SiValue P)
      → IsTruth v
      → IsTruth w
      → IsTruth (xor_value E xnor v w)
        × (apply_value (xor_value E xnor v w)
            ≡ apply_condition (xor_operator E xnor) (apply_value v) (apply_value w))
  xor_value_sound xnor v w hv hw = xor_value_sound_of xnor (truth v hv) (truth w hw)

  pub xor_null :
      (xnor : Bool) (b : FtResult)
      → (apply_condition (xor_operator E xnor) filter_null b ≡ filter_null)
        × (apply_condition (xor_operator E xnor) b filter_null ≡ filter_null)
  unfolding apply_condition
  xor_null true b = (ground arith, ground arith)
  xor_null false b = (ground arith, ground arith)

pub and_fail :
    (b : FtResult)
    → (apply_condition and_op filter_fail b ≡ filter_fail)
      × (apply_condition and_op b filter_fail ≡ filter_fail)
unfolding apply_condition
and_fail b = (ground arith, ground arith)

pub and_pass :
    (b : FtResult)
    → (apply_condition and_op filter_pass b ≡ b) × (apply_condition and_op b filter_pass ≡ b)
unfolding apply_condition
and_pass b = (ground arith, ground arith)

pub or_pass :
    (b : FtResult)
    → (apply_condition or_op filter_pass b ≡ filter_pass)
      × (apply_condition or_op b filter_pass ≡ filter_pass)
unfolding apply_condition
or_pass b = (ground arith, ground arith)

pub or_fail :
    (b : FtResult)
    → (apply_condition or_op filter_fail b ≡ b) × (apply_condition or_op b filter_fail ≡ b)
unfolding apply_condition
or_fail b = (ground arith, ground arith)
