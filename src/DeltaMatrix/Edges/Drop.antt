-- ===== src/DeltaMatrix/Edges/Drop.antt =====
-- What removing one edge makes of an entry, and of the ids in it.
use redis_graph.Prelude.{
  ℕ, ◌+◌, ◌<◌, ◌≡◌, ◌≢◌, refl, true, Option, none, some, List, [], ◌∷◌, arith, ◌==◌, length,
  is_some,
}
use redis_graph.Prelude.Grid.{bit}
use redis_graph.Arrays.{array_del_fast, position}
use redis_graph.Arrays.Occurrences.{occurrences, occurrences-array_del_fast, length-array_del_fast}
use redis_graph.DeltaMatrix.Edges.{Edge, single, multi, freed, ids, shrink, remove_entry_from_array}
use redis_graph.DeltaMatrix.Edges.Live.{WellFormed}

-- What is left of an entry without the edge `w`: nothing of a single edge.
abbrev pub dropped : Option Edge → ℕ → Option Edge
dropped (some (multi xs)) w = some (remove_entry_from_array xs w)
dropped _ w = none

ids-shrink : (xs : List ℕ) → ids (some (shrink xs)) ≡ xs
ids-shrink [] = refl
ids-shrink (x ∷ []) = refl
ids-shrink (x ∷ y ∷ ys) = refl

shrink-WellFormed : (xs : List ℕ) → 0 < length xs → WellFormed (some (shrink xs))
shrink-WellFormed [] h = elim h [ ]
shrink-WellFormed (x ∷ []) h = tt
shrink-WellFormed (x ∷ y ∷ ys) h = omega arith

pub dropped-WellFormed : (e : Option Edge) (w : ℕ) → WellFormed e → WellFormed (dropped e w)
unfolding remove_entry_from_array
dropped-WellFormed (some (multi xs)) w h =
    shrink-WellFormed (array_del_fast xs (position w xs))
      (omega (arith, length-array_del_fast xs (position w xs)))
dropped-WellFormed none w h = tt
dropped-WellFormed (some (single x)) w h = tt
dropped-WellFormed (some freed) w h = tt

pub occurrences-dropped :
    (a w : ℕ) (e : Option Edge)
    → 0 < occurrences w (ids e)
    → occurrences a (ids (dropped e w)) + bit (w == a) ≡ occurrences a (ids e)
unfolding remove_entry_from_array
occurrences-dropped a w none h = unfold occurrences in absurd (omega arith)
occurrences-dropped a w (some (single x)) h = unfold occurrences in ground arith
occurrences-dropped a w (some (multi xs)) h =
    rw (ids-shrink (array_del_fast xs (position w xs))) (occurrences-array_del_fast a w xs h)
occurrences-dropped a w (some freed) h = unfold occurrences in absurd (omega arith)

pub is_some_of_occurrences :
    (w : ℕ) (e : Option Edge) → 0 < occurrences w (ids e) → is_some e ≡ true
unfolding occurrences
is_some_of_occurrences w none h = absurd (omega arith)
is_some_of_occurrences w (some e) h = refl

pub not_freed : (e : Option Edge) → WellFormed e → e ≢ some freed
not_freed none h p = cc
not_freed (some (single x)) h p = cc
not_freed (some (multi xs)) h p = cc
not_freed (some freed) h p = h
