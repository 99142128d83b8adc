-- ===== src/Value/Order.antt =====
-- The comparisons of SIValue_Compare in src/value.c: of integers, strings, entities and NULL.
use Prim.Native.Nat.{compare}
use redis_graph.Prelude.{
  ℕ, ◌+◌, ◌%◌, ◌^◌, ◌≤◌, ◌<◌, ◌≡◌, ◌↔◌, true, ◌||◌, List, [], ◌∷◌, arith, ==_iff,
}
use redis_graph.Value.{
  negative, equal, compared_null, Payloads, SiValue, is_null, sign_of, int_sign, difference_sign,
  strcmp, compare_values, type_difference,
}

-- The bits of an int64_t as a number that keeps its order: -2 ^ 63 is 0.
abbrev pub biased : ℕ → ℕ
biased a = (a + 2 ^ 63) % 2 ^ 64

-- Where the difference of two int64_t is an int64_t, its sign tells their order.
pub int_sign_lem :
    (a b : ℕ)
    → a < 2 ^ 64
    → b < 2 ^ 64
    → biased a < biased b + 2 ^ 63
    → biased b ≤ biased a + 2 ^ 63
    → int_sign a b ≡ sign_of (compare (biased a) (biased b))
unfolding int_sign
int_sign_lem a b ha hb hi lo = ground arith

-- Where the difference of two int64_t is above every int64_t, the comparison answers that the
-- greater integer is the smaller one.
pub int_sign_overflow :
    (a b : ℕ) → a < 2 ^ 64 → b < 2 ^ 64 → biased b + 2 ^ 63 ≤ biased a → int_sign a b ≡ negative
unfolding int_sign
int_sign_overflow a b ha hb hi = ground arith

-- Where ids differ by less than 2 ^ 31, the sign of their difference tells their order.
pub difference_sign_lem :
    (a b : ℕ) → a < b + 2 ^ 31 → b < a + 2 ^ 31 → difference_sign a b ≡ sign_of (compare a b)
unfolding difference_sign
difference_sign_lem a b hi lo = ground arith

-- strcmp finds two strings equal where they are the same bytes.
pub strcmp_iff : (xs ys : List ℕ) → (strcmp xs ys ≡ equal) ↔ (xs ≡ ys)
unfolding strcmp
strcmp_iff [] [] = ground arith
strcmp_iff [] (y ∷ ys) = ground arith
strcmp_iff (x ∷ xs) [] = ground arith
strcmp_iff (x ∷ xs) (y ∷ ys) = ground (arith, strcmp_iff xs ys, ==_iff x y)

-- A comparison of which one side is NULL is flagged so, whatever the other side is.
pub compare_values-null :
    {P : Payloads} (a b : SiValue P)
    → is_null a || is_null b ≡ true
    → (compare_values a b).1 ≡ compared_null
unfolding compare_values type_difference
compare_values-null a b h = ground arith
