-- ===== src/Value.antt =====
-- The dynamically typed values of src/value.h and their comparison in src/value.c.
pub mod Order
pub mod Sample
use Prim.Native.Nat.{compare, Ordering}
use redis_graph.Prelude.Grid.{bit}
use redis_graph.Prelude.{
  ℕ, zero, suc, ◌+◌, ◌-◌, ◌%◌, ◌^◌, Bool, true, false, not, ◌&&◌, ◌||◌, List, [], ◌∷◌, leb, ltb,
  ◌==◌, if◌then◌else◌,
}

-- The sign of an `int` that a comparison returns.
pub data Sign : Type 0 where
  negative equal positive : Sign

-- What `disjointOrNull` is set to: 0, DISJOINT, COMPARED_NULL or COMPARED_NAN.
pub data Flag : Type 0 where
  ordinary disjoint compared_null compared_nan : Flag

-- The types of payload whose comparison is another part's: doubles, which are the processor's,
-- points, paths (datatypes/path/sipath.c) and maps (datatypes/map.c).
pub record Payloads : Type 1 where
  pub Double : Type 0
  pub is_nan : Double → Bool
  -- (double) of an int64_t, given by its bits
  pub double_of_int : ℕ → Double
  -- SIGN (a - b)
  pub double_sign : Double → Double → Sign
  pub Point : Type 0
  pub point_compare : Point → Point → Sign
  pub PathValue : Type 0
  pub path_compare : PathValue → PathValue → Sign
  pub Map : Type 0
  pub map_compare : Map → Map → Sign × Flag

-- SIValue. An integer is the 64 bits of an int64_t, a string its bytes without the final NUL, an
-- entity its id. Values of the date and time types are never made.
mutual
  pub data SiValue (P : Payloads) : Type 0 where
    map : P.Map → SiValue P
    node : ℕ → SiValue P
    edge : ℕ → SiValue P
    array : Values P → SiValue P
    path : P.PathValue → SiValue P
    string : List ℕ → SiValue P
    boolean : Bool → SiValue P
    int : ℕ → SiValue P
    double : P.Double → SiValue P
    null : SiValue P
    ptr : ℕ → SiValue P
    point : P.Point → SiValue P

  pub data Values (P : Payloads) : Type 0 where
    nil : Values P
    cons : SiValue P → Values P → Values P

-- The sign of a difference of two numbers, computed without wrapping.
abbrev pub sign_of : Ordering → Sign
sign_of Ordering.lt = negative
sign_of Ordering.eq = equal
sign_of Ordering.gt = positive

-- SIGN of the int64_t difference of two int64_t: the subtraction wraps.
unfoldable pub int_sign : ℕ → ℕ → Sign
int_sign a b =
    let diff = (a + 2 ^ 64 - b) % 2 ^ 64 in
    if diff == 0 then equal else if ltb diff (2 ^ 63) then positive else negative

-- The sign of an unsigned difference that is returned as an `int`, which has its low 32 bits:
-- of entity ids, and of array lengths.
unfoldable pub difference_sign : ℕ → ℕ → Sign
difference_sign a b =
    let diff = (a + 2 ^ 64 - b) % 2 ^ 64 % 2 ^ 32 in
    if diff == 0 then equal else if ltb diff (2 ^ 31) then positive else negative

-- strcmp
unfoldable pub strcmp : List ℕ → List ℕ → Sign
strcmp [] [] = equal
strcmp [] (y ∷ ys) = negative
strcmp (x ∷ xs) [] = positive
strcmp (x ∷ xs) (y ∷ ys) =
    let rest = strcmp xs ys in if x == y then rest else if ltb x y then negative else positive

module _ {P : Payloads} where
  -- SI_TYPE, by the position of its bit
  abbrev pub type_rank : SiValue P → ℕ
  type_rank (map m) = 0
  type_rank (node n) = 1
  type_rank (edge e) = 2
  type_rank (array xs) = 3
  type_rank (path p) = 4
  type_rank (string s) = 11
  type_rank (boolean b) = 12
  type_rank (int n) = 13
  type_rank (double d) = 14
  type_rank null = 15
  type_rank (ptr p) = 16
  type_rank (point p) = 17

  abbrev pub is_null : SiValue P → Bool
  is_null null = true
  is_null _ = false

  -- SIArray_Length
  abbrev pub array_length : Values P → ℕ
  array_length nil = 0
  array_length (cons x xs) = suc (array_length xs)

  -- The end of SIValue_Compare, for values of types that are not compared.
  unfoldable pub type_difference : SiValue P → SiValue P → Sign × Flag
  type_difference a b = (
    sign_of (compare (type_rank a) (type_rank b)),
    if is_null a || is_null b then compared_null else disjoint,
  )

unfoldable pub compare_doubles : (P : Payloads) → P.Double → P.Double → Sign × Flag
compare_doubles P a b =
    (P.double_sign a b, if P.is_nan a || P.is_nan b then compared_nan else ordinary)

-- The variables of the loop of SIArray_Compare.
pub record Tally : Type 0 where
  pub not_equal : Sign
  pub null_counter : ℕ
  pub not_equal_counter : ℕ

-- The first difference that is met is kept.
abbrev pub first_difference : Sign → Sign → Sign
first_difference equal s = s
first_difference negative s = negative
first_difference positive s = positive

-- One round of that loop.
abbrev pub tally : Tally → Sign × Flag → Tally
tally t (equal, ordinary) = t
tally t (s, compared_null) = record {
  not_equal = first_difference t.not_equal s;
  null_counter = t.null_counter + 1;
  not_equal_counter = t.not_equal_counter + 1;
}
tally t (s, flag) = record t {
  not_equal = first_difference t.not_equal s;
  not_equal_counter = t.not_equal_counter + 1;
}

abbrev pub fresh_tally : Tally
fresh_tally = record { not_equal = equal; null_counter = 0; not_equal_counter = 0 }

abbrev pub is_equal : Sign → Bool
is_equal equal = true
is_equal _ = false

-- The end of SIArray_Compare, from the loop's variables and the two lengths.
conclude : Tally → ℕ → ℕ → Sign × Flag
unfolding difference_sign
conclude t a_len b_len =
    let min_length = (if leb a_len b_len then a_len else b_len) in
    if (t.not_equal_counter == min_length) && ltb t.null_counter t.not_equal_counter
    then (t.not_equal, ordinary)
    else if ltb 0 t.null_counter && (a_len == b_len)
    then (t.not_equal, compared_null)
    else if not (is_equal t.not_equal)
    then (t.not_equal, ordinary)
    else (difference_sign a_len b_len, ordinary)

unfoldable mutual
  unfolding int_sign difference_sign strcmp type_difference compare_doubles conclude

  -- SIValue_Compare, with the flag that it sets
  pub compare_values : {P : Payloads} → SiValue P → SiValue P → Sign × Flag
  compare_values (int a) (int b) = (int_sign a b, ordinary)
  compare_values (boolean a) (boolean b) = (int_sign (bit a) (bit b), ordinary)
  compare_values {P} (double a) (double b) = compare_doubles P a b
  compare_values (string a) (string b) = (strcmp a b, ordinary)
  compare_values (node a) (node b) = (difference_sign a b, ordinary)
  compare_values (edge a) (edge b) = (difference_sign a b, ordinary)
  compare_values (array xs) (array ys) =
      if (array_length xs == 0) && (array_length ys == 0)
      then (equal, ordinary)
      else conclude (compare_items xs ys fresh_tally) (array_length xs) (array_length ys)
  compare_values {P} (path a) (path b) = (P.path_compare a b, ordinary)
  compare_values {P} (map a) (map b) = P.map_compare a b
  compare_values {P} (point a) (point b) = (P.point_compare a b, ordinary)
  compare_values {P} (int a) (double b) = compare_doubles P (P.double_of_int a) b
  compare_values {P} (double a) (int b) = compare_doubles P a (P.double_of_int b)
  compare_values a b = type_difference a b

  -- The loop of SIArray_Compare
  pub compare_items : {P : Payloads} → Values P → Values P → Tally → Tally
  compare_items nil ys t = t
  compare_items (cons x xs) nil t = t
  compare_items (cons x xs) (cons y ys) t = compare_items xs ys (tally t (compare_values x y))
