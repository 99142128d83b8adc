-- ===== src/BooleanFuncs.antt =====
-- src/arithmetic/boolean_funcs/boolean_funcs.c: the logical functions and comparisons of
-- expressions, over the value types that they are registered with.
use redis_graph.Prelude.{Bool, true, false, not, ◌&&◌}
use redis_graph.Value.{
  Payloads, SiValue, boolean, null, Sign, negative, equal, positive, Flag, ordinary, disjoint,
  compared_null, compared_nan, compare_values,
}

-- Tests on the sign of a comparison.
abbrev pub is_positive : Sign → Bool
is_positive positive = true
is_positive _ = false

abbrev pub is_negative : Sign → Bool
is_negative negative = true
is_negative _ = false

module _ {P : Payloads} where
  -- AR_AND; a.longval & b.longval of two booleans
  unfoldable pub ar_and : SiValue P → SiValue P → SiValue P
  ar_and null (boolean false) = boolean false
  ar_and null b = null
  ar_and (boolean false) null = boolean false
  ar_and a null = null
  ar_and (boolean a) (boolean b) = boolean (a && b)
  ar_and a b = null

  -- AR_OR, whose bits 1 and 2 stand for true and for null
  unfoldable pub ar_or : SiValue P → SiValue P → SiValue P
  ar_or (boolean true) b = boolean true
  ar_or a (boolean true) = boolean true
  ar_or (boolean false) (boolean false) = boolean false
  ar_or a b = null

  -- AR_XOR
  unfoldable pub ar_xor : SiValue P → SiValue P → SiValue P
  ar_xor null b = null
  ar_xor a null = null
  ar_xor (boolean true) (boolean b) = boolean (not b)
  ar_xor (boolean false) (boolean b) = boolean b
  ar_xor a b = null

  -- AR_NOT, which is registered for booleans and NULL
  unfoldable pub ar_not : SiValue P → SiValue P
  ar_not null = null
  ar_not (boolean b) = boolean (not b)
  ar_not a = boolean false

  -- AR_GT, AR_GE, AR_LT and AR_LE, from the comparison and the test on its sign
  abbrev pub order_value : (Sign → Bool) → Sign × Flag → SiValue P
  order_value test (s, compared_null) = null
  order_value test (s, disjoint) = null
  order_value test (s, compared_nan) = boolean false
  order_value test (s, ordinary) = boolean (test s)

  unfoldable pub ar_gt : SiValue P → SiValue P → SiValue P
  ar_gt a b = order_value is_positive (compare_values a b)

  unfoldable pub ar_ge : SiValue P → SiValue P → SiValue P
  ar_ge a b = order_value (λ s. not (is_negative s)) (compare_values a b)

  unfoldable pub ar_lt : SiValue P → SiValue P → SiValue P
  ar_lt a b = order_value is_negative (compare_values a b)

  unfoldable pub ar_le : SiValue P → SiValue P → SiValue P
  ar_le a b = order_value (λ s. not (is_positive s)) (compare_values a b)

  -- AR_EQ and AR_NE answer for disjoint types too.
  abbrev pub equality_value : Bool → Sign × Flag → SiValue P
  equality_value same (s, compared_null) = null
  equality_value same (s, disjoint) = boolean (not same)
  equality_value same (s, compared_nan) = boolean (not same)
  equality_value same (equal, ordinary) = boolean same
  equality_value same (s, ordinary) = boolean (not same)

  unfoldable pub ar_eq : SiValue P → SiValue P → SiValue P
  ar_eq a b = equality_value true (compare_values a b)

  unfoldable pub ar_ne : SiValue P → SiValue P → SiValue P
  ar_ne a b = equality_value false (compare_values a b)
