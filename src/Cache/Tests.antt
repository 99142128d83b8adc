-- ===== src/Cache/Tests.antt =====
-- Caches of two entries whose keys are numbers.
use redis_graph.Prelude.{
  ℕ, suc, ◌≤◌, ◌<◌, ◌==◌, if◌then◌else◌, Option, none, some, ◌≡◌, ◌≢◌, ◌⊎◌, refl, arith, List, [],
  ◌∷◌,
}
use native.Mathlib.Decide.{ℕ_discrete}
use mathlib.Core.Logic.{inl, inr}
use redis_graph.Cache.{Rax, IsRax, Cache, set_value, get_value, new, map_value}
use redis_graph.Cache.Valid.{IsValid}
use redis_graph.Cache.Calls.{Call, set, get, set_get, after_calls, after_calls-IsValid}
use redis_graph.Cache.Evicts.{held, IsLeastUsed, held-set_value, get_value_lem}

-- A rax as a function
abbrev table : Rax ℕ
table = record {
  Tree = ℕ → Option ℕ;
  empty = λ k. none;
  find = λ t k. t k;
  insert = λ t k i k'. if k' == k then some i else t k';
  remove = λ t k k'. if k' == k then none else t k';
}

other : {A : Type 0} (k k' : ℕ) (x y : A) → k' ≢ k → (if k' == k then x else y) ≡ y
other k k' x y h = ground arith

same : {A : Type 0} (k : ℕ) (x y : A) → (if k == k then x else y) ≡ x
same k x y = ground arith

table-IsRax : IsRax table
table-IsRax = record {
  find_empty = λ k. refl;
  find_insert = λ t k i. same k (some i) (t k);
  find_insert_other = λ t k k' i h. other k k' (some i) (t k') h;
  find_remove = λ t k. same k none (t k);
  find_remove_other = λ t k k' h. other k k' none (t k') h;
}

decide : (k k' : ℕ) → k ≡ k' ⊎ k ≢ k'
decide k k' = elim (ℕ_discrete k k') [ yes e ↦ inl e | no h ↦ inr h ]

abbrev same_copy : ℕ → ℕ
same_copy v = v

-- Two entries, of which the first is used again: it is the second that must go.
abbrev calls : List (Call table ℕ)
calls = set 7 70 ∷ set_get 8 80 ∷ get 7 ∷ []

abbrev full : Cache table ℕ
full = after_calls table ℕ same_copy (new table ℕ 2) calls

full-IsValid : IsValid table ℕ full
full-IsValid = after_calls-IsValid table-IsRax ℕ decide same_copy 2 calls (omega arith)

after_calls-IsValid_example : IsValid table ℕ (after_calls table ℕ same_copy (new table ℕ 2) calls)
after_calls-IsValid_example =
    after_calls-IsValid table-IsRax ℕ decide same_copy 2 calls (omega arith)

absent : table.find full.lookup 9 ≡ none
unfolding after_calls
absent = refl

held-set_value_example :
    (held table ℕ (set_value table ℕ full 9 90).1 9 ≡ some 90)
    × ((k' : ℕ)
        → k' ≢ 9
        → (held table ℕ (set_value table ℕ full 9 90).1 k' ≡ held table ℕ full k')
          ⊎ (IsLeastUsed table ℕ full k'
              × (table.find (set_value table ℕ full 9 90).1.lookup k' ≡ none)))
    × ((set_value table ℕ full 9 90).1.size
        ≡ (if full.size == full.capacity then full.size else suc full.size))
held-set_value_example = held-set_value table-IsRax ℕ decide full 9 90 full-IsValid absent

evicted_key : held table ℕ (set_value table ℕ full 9 90).1 8 ≡ none
unfolding after_calls
evicted_key = refl

kept_key : held table ℕ (set_value table ℕ full 9 90).1 7 ≡ some 70
unfolding after_calls
kept_key = refl

get_value_lem_example :
    ((get_value table ℕ same_copy full 8).0 ≡ map_value table ℕ same_copy (held table ℕ full 8))
    × ((k' : ℕ) → held table ℕ (get_value table ℕ same_copy full 8).1 k' ≡ held table ℕ full k')
    × ((i j : ℕ)
        → table.find full.lookup 8 ≡ some i
        → j < full.size
        → ((get_value table ℕ same_copy full 8).1.entries j).lru
          ≤ ((get_value table ℕ same_copy full 8).1.entries i).lru)
get_value_lem_example = get_value_lem table-IsRax ℕ decide same_copy full 8 full-IsValid
