-- ===== src/AttributeSet.antt =====
-- src/graph/entities/attribute_set.c: the attributes of a node or an edge. The most significant bit
-- of the pointer to a set marks it as read-only. A clone of a value is that value here, and a set
-- has as many attributes as it counts. Where an assertion of the source excludes a call, the
-- function says what becomes of the set in a release build, if that is defined.
pub mod Lists
pub mod Changes
pub mod Bounds
mod Tests
use redis_graph.Prelude.{
  ℕ, zero, suc, Bool, true, false, not, ◌||◌, ◌==◌, if◌then◌else◌, Option, none, some, is_some,
  List, [], ◌∷◌, ◌++◌, length, set, get_elem?,
}
use redis_graph.Arrays.{last, drop_last}
use redis_graph.Value.{Payloads, SiValue, null, is_null, is_equal, compare_values}

-- Attribute
pub record Attribute (P : Payloads) : Type 0 where
  pub id : ℕ
  pub value : SiValue P

-- AttributeSet; a pointer that is NULL has no attributes.
pub record AttributeSet (P : Payloads) : Type 0 where
  pub read_only : Bool
  pub attributes : Option (List (Attribute P))

-- AttributeSetChangeType
pub data ChangeType : Type 0 where
  no_change added updated deleted : ChangeType

-- ATTRIBUTE_ID_NONE
abbrev pub id_none : ℕ
id_none = 65535

abbrev pub bumped : Option ℕ → Option ℕ
bumped none = none
bumped (some i) = some (suc i)

module _ {P : Payloads} where
  abbrev pub attributes_of : Option (List (Attribute P)) → List (Attribute P)
  attributes_of none = []
  attributes_of (some xs) = xs

  -- AttributeSet_Count
  abbrev pub count : AttributeSet P → ℕ
  count s = length (attributes_of s.attributes)

  -- The loop of AttributeSet_Get
  unfoldable pub find : ℕ → List (Attribute P) → Option (SiValue P)
  find id [] = none
  find id (x ∷ xs) = if x.id == id then some x.value else find id xs

  -- AttributeSet_Get; ATTRIBUTE_NOTFOUND is none.
  abbrev pub get : AttributeSet P → ℕ → Option (SiValue P)
  get s id = if id == id_none then none else find id (attributes_of s.attributes)

  -- AttributeSet_GetIdx
  abbrev pub get_idx : AttributeSet P → ℕ → Option (Attribute P)
  get_idx s i = get_elem? (attributes_of s.attributes) i

  -- AttributeSet_Free
  abbrev pub free : AttributeSet P → AttributeSet P
  free s = if s.read_only then s else record s { attributes = none }

  -- The search loop of `_AttributeSet_Remove`
  unfoldable pub locate : ℕ → List (Attribute P) → Option ℕ
  locate id [] = none
  locate id (x ∷ xs) = if x.id == id then some 0 else bumped (locate id xs)

  -- The attribute at an index is overwritten with the last one, and the set shrinks.
  abbrev pub overwrite : List (Attribute P) → ℕ → List (Attribute P)
  overwrite [] i = []
  overwrite (x ∷ xs) i = drop_last (set (x ∷ xs) i (last x xs))

  abbrev pub remove_at : AttributeSet P → Option ℕ → Bool × AttributeSet P
  remove_at s none = (false, s)
  remove_at s (some i) = (
    true,
    if count s == 1
        then free s
        else record s { attributes = some (overwrite (attributes_of s.attributes) i) },
  )

  -- `_AttributeSet_Remove`. The caller's set is not NULL.
  unfoldable pub remove : AttributeSet P → ℕ → Bool × AttributeSet P
  unfolding locate last drop_last
  remove s id = remove_at s (locate id (attributes_of s.attributes))

  -- AttributeSet_AddPrepare, and the writes to the room that it makes
  abbrev pub append : AttributeSet P → List (Attribute P) → AttributeSet P
  append s ys = record s { attributes = some (attributes_of s.attributes ++ ys) }

  -- AttributeSet_AddNoClone, of the `ids` with their `values`
  unfoldable pub add_no_clone : AttributeSet P → List (Attribute P) → AttributeSet P
  add_no_clone s ys = if s.read_only then s else append s ys

  -- AttributeSet_Add
  unfoldable pub add : AttributeSet P → ℕ → SiValue P → AttributeSet P
  add s id v = if s.read_only then s else append s (record { id = id; value = v } ∷ [])

  -- A write through the pointer that AttributeSet_Get returns
  unfoldable pub write : List (Attribute P) → ℕ → SiValue P → List (Attribute P)
  write [] id v = []
  write (x ∷ xs) id v = if x.id == id then record x { value = v } ∷ xs else x ∷ write xs id v

  abbrev pub write_current : AttributeSet P → ℕ → SiValue P → AttributeSet P
  write_current s id v = record s { attributes = some (write (attributes_of s.attributes) id v) }

  -- AttributeSet_UpdateNoClone. The attribute is in the set, and its value is another one.
  unfoldable pub update_no_clone : AttributeSet P → ℕ → SiValue P → Bool × AttributeSet P
  unfolding remove write
  update_no_clone s id v =
      if s.read_only
      then (false, s)
      else if is_null v
      then remove s id
      else (true, write_current s id v)

  -- The value that AttributeSet_Get's pointer points to
  abbrev pub value_or_null : Option (SiValue P) → SiValue P
  value_or_null none = null
  value_or_null (some v) = v

  -- SIValue_Compare (a, b, NULL) == 0
  abbrev pub same : SiValue P → SiValue P → Bool
  same a b = is_equal (compare_values a b).0

  -- AttributeSet_Update. The attribute is in the set.
  unfoldable pub update : AttributeSet P → ℕ → SiValue P → Bool × AttributeSet P
  unfolding remove write
  update s id v =
      if s.read_only
      then (false, s)
      else if is_null v
      then remove s id
      else if same (value_or_null (get s id)) v
      then (false, s)
      else (true, write_current s id v)

  abbrev pub after_update :
      SiValue P → Bool × AttributeSet P → AttributeSet P → ChangeType × AttributeSet P
  after_update v (true, s') s = (if is_null v then deleted else updated, s')
  after_update v (false, s') s = (no_change, s)

  -- AttributeSet_Set_Allow_Null
  unfoldable pub set_allow_null : AttributeSet P → ℕ → SiValue P → ChangeType × AttributeSet P
  unfolding update find
  set_allow_null s id v =
      if s.read_only
      then (no_change, s)
      else if is_some (get s id)
      then after_update v (update s id v) s
      else if is_null v
      then (no_change, s)
      else (added, append s (record { id = id; value = v } ∷ []))

  -- AttributeSet_ShallowClone
  abbrev pub shallow_clone : AttributeSet P → AttributeSet P
  shallow_clone s = record s { read_only = false }

  -- ATTRIBUTE_SET_MARK_READONLY
  abbrev pub mark_read_only : AttributeSet P → AttributeSet P
  mark_read_only s = record s { read_only = true }
