-- ===== src/AttributeSet/Tests.antt =====
-- Sets of two attributes.
use redis_graph.Prelude.{
  ℕ, ◌≤◌, ◌<◌, ◌^◌, false, ◌==◌, if◌then◌else◌, none, some, List, [], ◌∷◌, ◌≡◌, refl, arith,
}
use redis_graph.Value.{int, null}
use redis_graph.Value.Sample.{payloads}
use redis_graph.AttributeSet.{Attribute, AttributeSet, get, find, set_allow_null}
use redis_graph.AttributeSet.Changes.{IsValid, change, stored, set_allow_null_lem}
use redis_graph.AttributeSet.Bounds.{set_all, count-set_all}
use redis_graph.AttributeSet.{count}

abbrev pair : List (Attribute payloads)
pair = record { id = 3; value = int 5 } ∷ record { id = 7; value = int 9 } ∷ []

abbrev two : AttributeSet payloads
two = record { read_only = false; attributes = some pair }

two_below : (j : ℕ) → 65535 ≤ j → find j pair ≡ none
unfolding find
two_below j h = ground arith

two-IsValid : IsValid two
unfolding find
two-IsValid = record { distinct = (refl, (refl, tt)); below = two_below }

set_allow_null_lem_example :
    ((set_allow_null two 3 null).0 ≡ change (get two 3) null)
    × ((j : ℕ)
        → get (set_allow_null two 3 null).1 j
          ≡ (if 3 == j then stored (get two 3) null else get two j))
    × IsValid (set_allow_null two 3 null).1
set_allow_null_lem_example = set_allow_null_lem two 3 null two-IsValid refl (omega arith)

removed : (set_allow_null two 3 null).1.attributes ≡ some (record { id = 7; value = int 9 } ∷ [])
unfolding set_allow_null
removed = refl

abbrev settings : List (Attribute payloads)
settings =
    record { id = 3; value = int 5 }
    ∷ record { id = 7; value = int 9 }
    ∷ record { id = 3; value = null }
    ∷ []

count-set_all_example :
    IsValid (set_all (record { read_only = false; attributes = none }) settings)
    × (count (set_all (record { read_only = false; attributes = none }) settings) < 2 ^ 16)
count-set_all_example = count-set_all settings (omega arith, (omega arith, (omega arith, tt)))
