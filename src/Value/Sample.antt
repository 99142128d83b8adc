-- ===== src/Value/Sample.antt =====
-- Concrete payloads of values, for runs of the comparisons.
use Prim.Native.Nat.{compare}
use redis_graph.Prelude.{ℕ, Bool, true, false, Option, none, some}
use redis_graph.Value.{Payloads, Sign, equal, ordinary, sign_of}

-- A double is a natural number or NaN.
abbrev nan_sign : Option ℕ → Option ℕ → Sign
nan_sign (some a) (some b) = sign_of (compare a b)
nan_sign a b = equal

abbrev is_none : Option ℕ → Bool
is_none none = true
is_none (some a) = false

abbrev pub payloads : Payloads
payloads = record {
  Double = Option ℕ;
  is_nan = is_none;
  double_of_int = λ n. some n;
  double_sign = nan_sign;
  Point = Unit;
  point_compare = λ a b. equal;
  PathValue = Unit;
  path_compare = λ a b. equal;
  Map = Unit;
  map_compare = λ a b. (equal, ordinary);
}
