-- ===== src/AlgebraicExpression/Tests.antt =====
-- Expressions over matrices of two nodes.
use redis_graph.Prelude.{
  Option, ℕ, Bool, true, false, ◌&&◌, ◌||◌, if◌then◌else◌, none, some, ◌≡◌, refl, arith,
}
use redis_graph.AlgebraicExpression.{
  Expression, operand, add, mul, transpose, nil, cons, mul_over_add, mul_over_add_once,
}
use redis_graph.AlgebraicExpression.Matrices.{Matrices, IsMatrices, value}
use redis_graph.AlgebraicExpression.Weight.{IsWellFormed, weight}
use redis_graph.AlgebraicExpression.Terminates.{mul_over_add-ends}
use redis_graph.AlgebraicExpression.Optimize.{optimize, Operand, is_diagonal}
use redis_graph.AlgebraicExpression.Pushed.{IsSound, sound-IsWellFormed}
use redis_graph.AlgebraicExpression.Flat.{IsFlat, optimize-IsFlat}
use redis_graph.AlgebraicExpression.Correct.{value-optimize}

record Square : Type 0 where
  a : Bool
  b : Bool
  c : Bool
  d : Bool

abbrev dot : Bool → Bool → Bool → Bool → Bool
dot a b x y = (a && x) || (b && y)

abbrev squares : Matrices
squares = record {
  Matrix = Square;
  zero = record { a = false; b = false; c = false; d = false };
  one = record { a = true; b = false; c = false; d = true };
  plus = λ m n. record { a = m.a || n.a; b = m.b || n.b; c = m.c || n.c; d = m.d || n.d };
  times = λ m n. record {
    a = dot m.a m.b n.a n.c;
    b = dot m.a m.b n.b n.d;
    c = dot m.c m.d n.a n.c;
    d = dot m.c m.d n.b n.d;
  };
  transposed = λ m. record { a = m.a; b = m.c; c = m.b; d = m.d };
}

dot_assoc :
    (a1 a2 b1 b2 b3 b4 c1 c2 : Bool)
    → dot (dot a1 a2 b1 b3) (dot a1 a2 b2 b4) c1 c2 ≡ dot a1 a2 (dot b1 b2 c1 c2) (dot b3 b4 c1 c2)
dot_assoc a1 a2 b1 b2 b3 b4 c1 c2 = ground arith

dot_plus :
    (a1 a2 b1 b2 c1 c2 : Bool)
    → dot a1 a2 (b1 || c1) (b2 || c2) ≡ (dot a1 a2 b1 b2 || dot a1 a2 c1 c2)
dot_plus a1 a2 b1 b2 c1 c2 = ground arith

plus_dot :
    (a1 a2 b1 b2 c1 c2 : Bool)
    → dot (a1 || b1) (a2 || b2) c1 c2 ≡ (dot a1 a2 c1 c2 || dot b1 b2 c1 c2)
plus_dot a1 a2 b1 b2 c1 c2 = ground arith

same : {m n : Square} → m.a ≡ n.a → m.b ≡ n.b → m.c ≡ n.c → m.d ≡ n.d → m ≡ n
same ea eb ec ed = λ i. record { a = ea i; b = eb i; c = ec i; d = ed i }

squares-IsMatrices : IsMatrices squares
squares-IsMatrices = record {
  plus_zero = λ a. same (ground arith) (ground arith) (ground arith) (ground arith);
  zero_plus = λ a. same (ground arith) (ground arith) (ground arith) (ground arith);
  plus_comm = λ a b. same (ground arith) (ground arith) (ground arith) (ground arith);
  plus_assoc = λ a b c. same (ground arith) (ground arith) (ground arith) (ground arith);
  times_one = λ a. same (ground arith) (ground arith) (ground arith) (ground arith);
  one_times = λ a. same (ground arith) (ground arith) (ground arith) (ground arith);
  times_assoc =
      λ a b c. same (search dot_assoc) (search dot_assoc) (search dot_assoc) (search dot_assoc);
  times_zero = λ a. same (ground arith) (ground arith) (ground arith) (ground arith);
  zero_times = λ a. same (ground arith) (ground arith) (ground arith) (ground arith);
  times_plus =
      λ a b c. same (search dot_plus) (search dot_plus) (search dot_plus) (search dot_plus);
  plus_times =
      λ a b c. same (search plus_dot) (search plus_dot) (search plus_dot) (search plus_dot);
  transposed_twice = λ a. refl;
  transposed_plus = λ a b. refl;
  transposed_times = λ a b. same (ground arith) (ground arith) (ground arith) (ground arith);
  transposed_zero = refl;
  transposed_one = refl;
}

abbrev label_operand : Operand Square ℕ ℕ
label_operand = record {
  diagonal = true;
  src = some 1;
  dest = some 1;
  edge = none;
  label = some 7;
  matrix = none;
}

abbrev edge_operand : Operand Square ℕ ℕ
edge_operand = record {
  diagonal = false;
  src = some 1;
  dest = some 2;
  edge = some 3;
  label = some 8;
  matrix = none;
}

abbrev any_operand : Operand Square ℕ ℕ
any_operand = record {
  diagonal = false;
  src = some 1;
  dest = some 2;
  edge = none;
  label = none;
  matrix = none;
}

-- A filter that is multiplied from the left, as a traversal does; it has its matrix.
abbrev filter_operand : Operand Square ℕ ℕ
filter_operand = record {
  diagonal = false;
  src = some 1;
  dest = some 1;
  edge = none;
  label = none;
  matrix = some (record { a = false; b = true; c = false; d = false });
}

-- The filter, and the transpose of a label times the sum of two relations
abbrev pattern : Expression (Operand Square ℕ ℕ)
pattern = mul (
    cons (operand filter_operand) (
      cons
        (transpose (
          mul (
            cons (operand label_operand) (
              cons (add (cons (operand edge_operand) (cons (transpose (operand any_operand)) nil)))
                nil))))
        nil))

abbrev held : Option Square → Square
held none = record { a = false; b = true; c = false; d = false }
held (some m) = m

-- The matrices of the operands: that of the label, the one an operand has, or else that of a
-- relation from the first node to the second
abbrev matrix_of : Operand Square ℕ ℕ → Square
matrix_of o =
    if o.diagonal then record { a = true; b = false; c = false; d = false } else held o.matrix

matrix_of-symmetric :
    (o : Operand Square ℕ ℕ) → is_diagonal o ≡ true → squares.transposed (matrix_of o) ≡ matrix_of o
matrix_of-symmetric o e = ground (arith, e)

pattern-IsSound : IsSound is_diagonal (λ o. Unit {0}) pattern
pattern-IsSound = (refl, (tt, ((refl, (tt, ((omega arith, (tt, ((tt, refl), tt))), tt))), tt)))

value-optimize_example :
    value squares matrix_of (optimize is_diagonal pattern) ≡ value squares matrix_of pattern
value-optimize_example =
    value-optimize squares-IsMatrices matrix_of is_diagonal matrix_of-symmetric (λ o. Unit {0})
      pattern pattern-IsSound

optimize-IsFlat_example : IsFlat is_diagonal (λ o. Unit {0}) (optimize is_diagonal pattern)
optimize-IsFlat_example = optimize-IsFlat is_diagonal (λ o. Unit {0}) pattern pattern-IsSound

mul_over_add-ends_example :
    IsWellFormed (mul_over_add (weight pattern) pattern)
    × (mul_over_add_once (mul_over_add (weight pattern) pattern) ≡ none)
mul_over_add-ends_example =
    mul_over_add-ends (weight pattern) pattern
      (sound-IsWellFormed is_diagonal (λ o. Unit {0}) pattern pattern-IsSound) (omega arith)
