-- ===== src/Cache/Calls.antt =====
-- Every cache that calls of Cache_New, Cache_SetValue, Cache_GetValue
-- and Cache_SetGetValue lead to is valid.
use redis_graph.Prelude.{
  ℕ, ◌-◌, ◌∙◌, sym, ◌<◌, true, false, ◌==◌, Option, none, some, ◌≡◌, ◌≢◌, ◌⊎◌, refl, arith, List,
  [], ◌∷◌, ==_iff, Bool-cases, Option-cases, inl, inr,
}
use redis_graph.Cache.{
  Rax, IsRax, Cache, set_value, set_get_value, new, touch, get_value, take_entry, place_of_new,
  populate, find_min_lru,
}
use redis_graph.Cache.Valid.{
  IsValid, populate-IsValid, room-IsFree, last_lt, min_upto_le, removed_other, distinct,
}

module _ {K : Type 0} (R : Rax K) (V : Type 0) where
  pub data Call : Type 0 where
    set : K → V → Call
    get : K → Call
    set_get : K → V → Call

  -- The cache after a call, and after several
  abbrev pub call : (V → V) → Cache R V → Call → Cache R V
  call copy_item c (set k v) = (set_value R V c k v).1
  call copy_item c (get k) = (get_value R V copy_item c k).1
  call copy_item c (set_get k v) = (set_get_value R V copy_item c k v).1

  unfoldable pub after_calls : (V → V) → Cache R V → List Call → Cache R V
  unfolding set_value get_value set_get_value
  after_calls copy_item c [] = c
  after_calls copy_item c (x ∷ xs) = after_calls copy_item (call copy_item c x) xs

module _ {K : Type 0} {R : Rax K} (L : IsRax R) (V : Type 0)
    (decide : (k k' : K) → k ≡ k' ⊎ k ≢ k') where
  new-IsValid : (capacity : ℕ) → 0 < capacity → IsValid R V (new R V capacity)
  new-IsValid capacity h = record {
    has_room = h;
    size_le = omega arith;
    found = λ k i e. absurd (none-ne-some (L.find_empty k) e);
    holds = λ i lt. absurd (omega arith);
    valued = λ i lt. absurd (omega arith);
    recent = λ i lt. absurd (omega arith);
  }
    where
      none-ne-some : {o : Option ℕ} {i : ℕ} → o ≡ none → o ≡ some i → ⊥
      none-ne-some e e' = ground arith

  touch-IsValid :
      (c : Cache R V) (place : ℕ) → IsValid R V c → place < c.size → IsValid R V (touch R V c place)
  touch-IsValid c place v lt = record {
    has_room = v.has_room;
    size_le = v.size_le;
    found = λ k i e.
        let (lt', key) = v.found k i e in
        elim (Bool-cases (i == place)) [
          | inl h ↦ (lt', rw h (rw ((==_iff i place).0 h) at key))
          | inr h ↦ (lt', rw h key)
        ];
    holds = λ i lt'.
        let (k, key, e) = v.holds i lt' in
        elim (Bool-cases (i == place)) [
          | inl h ↦ (k, rw h (rw ((==_iff i place).0 h) at key), e)
          | inr h ↦ (k, rw h key, e)
        ];
    valued = λ i lt'. elim (Bool-cases (i == place)) [
      | inl h ↦ rw h (v.valued place lt)
      | inr h ↦ rw h (v.valued i lt')
    ];
    recent = λ i lt'. elim (Bool-cases (i == place)) [
      | inl h ↦ rw h (omega arith)
      | inr h ↦ rw h (omega (arith, v.recent i lt'))
    ];
  }

  -- The entry that an eviction finds is in use.
  pub least_lt :
      (c : Cache R V)
      → IsValid R V c
      → (c.size == c.capacity) ≡ true
      → find_min_lru R V c.entries c.capacity < c.size
  least_lt c h e =
      last_lt L V decide c.size c.capacity h.has_room
        (min_upto_le L V decide c.entries (c.capacity - 1)) ((==_iff c.size c.capacity).0 e)

  pub room-absent :
      (c : Cache R V) (k : K)
      → IsValid R V c
      → R.find c.lookup k ≡ none
      → R.find (take_entry R V c).lookup k ≡ none
  room-absent c k h e = elim (Bool-cases (c.size == c.capacity)) [
    | inl full ↦
        let (k', key, e') = h.holds (find_min_lru R V c.entries c.capacity) (least_lt c h full) in
        rw full (removed_other L c.lookup k' k key (λ q. distinct R c.lookup k k' e e' (sym q)) ∙ e)
    | inr room ↦ rw room e
  ]

  pub set_value-absent :
      (c : Cache R V) (k : K) (v : V)
      → R.find c.lookup k ≡ none
      → set_value R V c k v ≡ (true, populate R V (take_entry R V c) (place_of_new R V c) k v)
  unfolding set_value
  set_value-absent c k v e = rw (e, set_value) refl

  pub set_value-present :
      (c : Cache R V) (k : K) (v : V) {place : ℕ}
      → R.find c.lookup k ≡ some place
      → set_value R V c k v ≡ (false, c)
  unfolding set_value
  set_value-present c k v e = rw (e, set_value) refl

  pub set_value-IsValid :
      (c : Cache R V) (k : K) (v : V) → IsValid R V c → IsValid R V (set_value R V c k v).1
  set_value-IsValid c k v h = elim (Option-cases (R.find c.lookup k)) [
    | inl e ↦ rw (set_value-absent c k v e) (
        populate-IsValid L V decide (take_entry R V c) (place_of_new R V c) k v
          (room-IsFree L V decide c h) (room-absent c k h e))
    | inr (place, e) ↦ rw (set_value-present c k v e) h
  ]

  pub get_value-IsValid :
      (copy_item : V → V) (c : Cache R V) (k : K)
      → IsValid R V c
      → IsValid R V (get_value R V copy_item c k).1
  unfolding get_value
  get_value-IsValid copy_item c k h = elim (Option-cases (R.find c.lookup k)) [
    | inl e ↦ rw (e, get_value) h
    | inr (place, e) ↦ rw (e, get_value) (touch-IsValid c place h (h.found k place e).0)
  ]

  set_get_value-IsValid :
      (copy_item : V → V) (c : Cache R V) (k : K) (v : V)
      → IsValid R V c
      → IsValid R V (set_get_value R V copy_item c k v).1
  unfolding set_get_value
  set_get_value-IsValid copy_item c k v h = set_value-IsValid c k v h

  calls-IsValid :
      (copy_item : V → V) (c : Cache R V) (calls : List (Call R V))
      → IsValid R V c
      → IsValid R V (after_calls R V copy_item c calls)
  unfolding after_calls
  calls-IsValid copy_item c [] h = h
  calls-IsValid copy_item c (set k v ∷ calls) h =
      calls-IsValid copy_item (set_value R V c k v).1 calls (set_value-IsValid c k v h)
  calls-IsValid copy_item c (get k ∷ calls) h =
      calls-IsValid copy_item (get_value R V copy_item c k).1 calls
        (get_value-IsValid copy_item c k h)
  calls-IsValid copy_item c (set_get k v ∷ calls) h =
      calls-IsValid copy_item (set_get_value R V copy_item c k v).1 calls
        (set_get_value-IsValid copy_item c k v h)

  -- After any calls on a new cache that has room for an entry, the lookup and the array agree.
  pub after_calls-IsValid :
      (copy_item : V → V) (capacity : ℕ) (calls : List (Call R V))
      → 0 < capacity
      → IsValid R V (after_calls R V copy_item (new R V capacity) calls)
  after_calls-IsValid copy_item capacity calls h =
      calls-IsValid copy_item (new R V capacity) calls (new-IsValid capacity h)
