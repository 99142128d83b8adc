-- ===== src/Arrays/Occurrences.antt =====
-- How often a number stands in an array, and what removing one element does to that.
use redis_graph.Prelude.{
  ℕ, zero, suc, ◌+◌, ◌-◌, ◌<◌, ◌≡◌, refl, ap, List, [], ◌∷◌, ◌++◌, arith, lt→ltb, ◌==◌, length,
  length-set, set, Bool-cases, inl, inr,
}
use redis_graph.Prelude.Grid.{bit}
use redis_graph.Arrays.{last, drop_last, array_del_fast, position}

unfoldable pub occurrences : ℕ → List ℕ → ℕ
occurrences a [] = 0
occurrences a (x ∷ xs) = bit (x == a) + occurrences a xs

pub occurrences-append :
    (a : ℕ) (xs ys : List ℕ) → occurrences a (xs ++ ys) ≡ occurrences a xs + occurrences a ys
unfolding occurrences
occurrences-append a [] ys = omega arith
occurrences-append a (x ∷ xs) ys = omega (arith, occurrences-append a xs ys)

pub position_lt : (v : ℕ) (xs : List ℕ) → 0 < occurrences v xs → position v xs < length xs
unfolding occurrences position
position_lt v [] h = absurd (omega arith)
position_lt v (x ∷ xs) h = ground (arith, position_lt v xs)

-- Overwriting the first `v` by `y`.
occurrences-set :
    (a v y : ℕ) (xs : List ℕ)
    → 0 < occurrences v xs
    → occurrences a (set xs (position v xs) y) + bit (v == a) ≡ occurrences a xs + bit (y == a)
unfolding occurrences position
occurrences-set a v y [] h = absurd (omega arith)
occurrences-set a v y (x ∷ xs) h = elim (Bool-cases (x == v)) [
  | inl e ↦ rw e (ground arith)
  | inr e ↦ rw e (ground (arith, occurrences-set a v y xs))
]

occurrences-drop_last :
    (a d : ℕ) (xs : List ℕ)
    → 0 < length xs
    → occurrences a (drop_last xs) + bit (last d xs == a) ≡ occurrences a xs
unfolding occurrences drop_last last
occurrences-drop_last a d [] h = absurd (omega arith)
occurrences-drop_last a d (x ∷ []) h = omega arith
occurrences-drop_last a d (x ∷ y ∷ ys) h =
    omega (arith, occurrences-drop_last a x (y ∷ ys) (omega arith))

-- Writing the last element somewhere keeps it the last element.
last-set : (x : ℕ) (xs : List ℕ) (i d : ℕ) → last d (set (x ∷ xs) i (last x xs)) ≡ last x xs
unfolding last
last-set x [] zero d = refl
last-set x [] (suc i) d = refl
last-set x (y ∷ ys) zero d = refl
last-set x (y ∷ ys) (suc i) d = last-set y ys i x

length-drop_last : (xs : List ℕ) → length (drop_last xs) ≡ length xs - 1
unfolding drop_last
length-drop_last [] = refl
length-drop_last (x ∷ []) = refl
length-drop_last (x ∷ y ∷ ys) = omega (arith, length-drop_last (y ∷ ys))

array_del_fast-cons :
    (x y : ℕ) (ys : List ℕ) (i : ℕ)
    → array_del_fast (x ∷ y ∷ ys) i ≡ drop_last (set (x ∷ y ∷ ys) i (last y ys))
unfolding array_del_fast
array_del_fast-cons x y ys i = ground (arith, lt→ltb 1 (length (x ∷ y ∷ ys)) (omega arith))

pub length-array_del_fast : (xs : List ℕ) (i : ℕ) → length (array_del_fast xs i) ≡ length xs - 1
unfolding array_del_fast
length-array_del_fast [] i = refl
length-array_del_fast (x ∷ []) i = refl
length-array_del_fast (x ∷ y ∷ ys) i = omega (
  arith,
  ap length (array_del_fast-cons x y ys i),
  length-drop_last (set (x ∷ y ∷ ys) i (last y ys)),
  length-set (x ∷ y ∷ ys) i (last y ys),
)

-- Removing an element that is in an array takes away one occurrence of it, and of nothing else.
pub occurrences-array_del_fast :
    (a v : ℕ) (xs : List ℕ)
    → 0 < occurrences v xs
    → occurrences a (array_del_fast xs (position v xs)) + bit (v == a) ≡ occurrences a xs
occurrences-array_del_fast a v [] h = unfold occurrences in absurd (omega arith)
occurrences-array_del_fast a v (x ∷ []) h =
    unfold array_del_fast occurrences drop_last in ground arith
occurrences-array_del_fast a v (x ∷ y ∷ ys) h =
    unfold last in
    omega (
      arith,
      ap (occurrences a) (array_del_fast-cons x y ys (position v (x ∷ y ∷ ys))),
      occurrences-set a v (last y ys) (x ∷ y ∷ ys) h,
      occurrences-drop_last a x (set (x ∷ y ∷ ys) (position v (x ∷ y ∷ ys)) (last y ys)),
      ap (λ z. bit (z == a)) (last-set x (y ∷ ys) (position v (x ∷ y ∷ ys)) x),
      length-set (x ∷ y ∷ ys) (position v (x ∷ y ∷ ys)) (last y ys),
    )
