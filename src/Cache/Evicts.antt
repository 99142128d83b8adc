-- ===== src/Cache/Evicts.antt =====
-- What the cache holds after Cache_SetValue and Cache_GetValue, and which entry makes room.
use redis_graph.Prelude.{
  some_inj, ℕ, zero, suc, ◌-◌, ◌≤◌, ◌<◌, true, false, ltb, ltb→lt, ==_refl, ◌==◌, if◌then◌else◌,
  Option, none, some, ◌≡◌, ◌≢◌, ◌⊎◌, refl, sym, ap, ◌∙◌, arith, ==_iff, Bool-cases, Option-cases,
  inl, inr,
}
use redis_graph.Cache.{
  Rax, IsRax, Cache, CacheEntry, set_value, get_value, touch, take_entry, place_of_new, populate,
  min_upto, find_min_lru, map_value, evict_at,
}
use redis_graph.Cache.Valid.{IsValid, IsFree, removed_other, apart_by_key, room-IsFree}
use redis_graph.Cache.Calls.{set_value-absent, least_lt}

module _ {K : Type 0} (R : Rax K) (V : Type 0) where
  abbrev pub value_at : (ℕ → CacheEntry R V) → Option ℕ → Option V
  value_at entries none = none
  value_at entries (some i) = (entries i).value

  -- The value under a key
  abbrev pub held : Cache R V → K → Option V
  held c k = value_at c.entries (R.find c.lookup k)

  -- A full cache whose entry under a key was used no later than any other.
  abbrev pub IsLeastUsed : Cache R V → K → Type 0
  IsLeastUsed c k =
      (c.size ≡ c.capacity)
      × (i : ℕ) × (R.find c.lookup k ≡ some i)
      × ((j : ℕ) → j < c.size → (c.entries i).lru ≤ (c.entries j).lru)

module _ {K : Type 0} {R : Rax K} (L : IsRax R) (V : Type 0)
    (decide : (k k' : K) → k ≡ k' ⊎ k ≢ k') where
  before : (j n : ℕ) → j ≤ suc n → (j == suc n) ≡ false → j ≤ n
  before j n h q = ground arith

  not_below : (a b : ℕ) → ltb a b ≡ false → b ≤ a
  not_below a b e = ground arith

  last_le : (j size capacity : ℕ) → j < size → size ≤ capacity → j ≤ capacity - 1
  last_le j size capacity lt h = omega arith

  size_of_room :
      (c : Cache R V)
      → (take_entry R V c).size ≡ (if c.size == c.capacity then c.size else suc c.size)
  size_of_room c = ground arith

  min_upto-le :
      (entries : ℕ → CacheEntry R V) (n j : ℕ)
      → j ≤ n
      → (entries (min_upto R V entries n)).lru ≤ (entries j).lru
  unfolding min_upto
  min_upto-le entries zero j h = let e : j ≡ 0 = omega arith in rw e (omega arith)
  min_upto-le entries (suc n) j h =
      elim (Bool-cases (ltb (entries (suc n)).lru (entries (min_upto R V entries n)).lru)) [
        | inl e ↦ rw e (elim (Bool-cases (j == suc n)) [
          | inl q ↦ rw ((==_iff j (suc n)).0 q) (omega arith)
          | inr q ↦ omega (
            arith,
            min_upto-le entries n j (before j n h q),
            ltb→lt (entries (suc n)).lru (entries (min_upto R V entries n)).lru e,
          )
        ])
        | inr e ↦ rw e (elim (Bool-cases (j == suc n)) [
          | inl q ↦ rw ((==_iff j (suc n)).0 q) (not_below _ _ e)
          | inr q ↦ min_upto-le entries n j (before j n h q)
        ])
      ]

  -- A key that an insertion in a free place does not concern keeps its value.
  kept :
      (c : Cache R V) (place : ℕ) (k k' : K) (v : V)
      → IsFree R V c place
      → k' ≢ k
      → held R V (populate R V c place k v) k' ≡ held R V c k'
  kept c place k k' v f ne =
      ap (value_at R V (populate R V c place k v).entries)
        (L.find_insert_other c.lookup k k' place ne)
      ∙ elim (Option-cases (R.find c.lookup k')) [
        | inl e ↦ rw e refl
        | inr (i, e) ↦ rw e (rw ((f.found k' i e).2, value_at) refl)
      ]

  inserted :
      (c : Cache R V) (place : ℕ) (k : K) (v : V) → held R V (populate R V c place k v) k ≡ some v
  inserted c place k v = rw (L.find_insert c.lookup k place) (rw (==_refl place, value_at) refl)

  evicted :
      (c : Cache R V) (place : ℕ) (k' : K)
      → IsValid R V c
      → (c.size == c.capacity) ≡ true
      → place < c.size
      → ((j : ℕ) → j < c.size → (c.entries place).lru ≤ (c.entries j).lru)
      → (held R V (evict_at R V c place) k' ≡ held R V c k')
        ⊎ (IsLeastUsed R V c k' × (R.find (evict_at R V c place).lookup k' ≡ none))
  evicted c place k' h full lt least =
      let (k, key, e) = h.holds place lt in
      elim (decide k' k) [
        | inl q ↦ inr (
            (
              ((==_iff c.size c.capacity).0 full, place, ap (R.find c.lookup) q ∙ e, least),
              rw key (ap (R.find (R.remove c.lookup k)) q ∙ L.find_remove c.lookup k),
            ))
        | inr q ↦ inl (
            ap (value_at R V (evict_at R V c place).entries) (removed_other L c.lookup k k' key q)
            ∙ elim (Option-cases (R.find c.lookup k')) [
              | inl e' ↦ rw e' refl
              | inr (i, e') ↦
                  rw e' (rw (apart_by_key c.entries key (h.found k' i e').1 q, value_at) refl)
            ])
      ]

  kept_in_room :
      (c : Cache R V) (k' : K)
      → IsValid R V c
      → (held R V (take_entry R V c) k' ≡ held R V c k')
        ⊎ (IsLeastUsed R V c k' × (R.find (take_entry R V c).lookup k' ≡ none))
  kept_in_room c k' h = elim (Bool-cases (c.size == c.capacity)) [
    | inl full ↦ rw full (
        evicted c (find_min_lru R V c.entries c.capacity) k' h full (least_lt L V decide c h full)
          (λ j lt.
            min_upto-le c.entries (c.capacity - 1) j (last_le j c.size c.capacity lt h.size_le)))
    | inr room ↦ rw room (inl refl)
  ]

  -- A new key is added to a valid cache: it has its value; every other key has the value that it
  -- had, or it was the least recently used one of a full cache and is no longer found; the size
  -- grows by one unless the cache was full.
  pub held-set_value :
      (c : Cache R V) (k : K) (v : V)
      → IsValid R V c
      → R.find c.lookup k ≡ none
      → (held R V (set_value R V c k v).1 k ≡ some v)
        × ((k' : K)
            → k' ≢ k
            → (held R V (set_value R V c k v).1 k' ≡ held R V c k')
              ⊎ (IsLeastUsed R V c k' × (R.find (set_value R V c k v).1.lookup k' ≡ none)))
        × ((set_value R V c k v).1.size ≡ (if c.size == c.capacity then c.size else suc c.size))
  held-set_value c k v h absent = rw (set_value-absent L V decide c k v absent) (
    inserted (take_entry R V c) (place_of_new R V c) k v,
    (λ k' ne. elim (kept_in_room c k' h) [
      | inl e ↦
          inl (
            kept (take_entry R V c) (place_of_new R V c) k k' v (room-IsFree L V decide c h) ne ∙ e)
      | inr (l, e) ↦
          inr (l, L.find_insert_other (take_entry R V c).lookup k k' (place_of_new R V c) ne ∙ e)
    ]),
    size_of_room c,
  )

  touched :
      (c : Cache R V) (place : ℕ) (o : Option ℕ)
      → value_at R V (touch R V c place).entries o ≡ value_at R V c.entries o
  touched c place none = refl
  touched c place (some i) = elim (Bool-cases (i == place)) [
    | inl q ↦ rw (q, value_at) (ap (λ j. (c.entries j).value) (sym ((==_iff i place).0 q)))
    | inr q ↦ rw (q, value_at) refl
  ]

  latest :
      (c : Cache R V) (place i j : ℕ)
      → IsValid R V c
      → i ≡ place
      → j < c.size
      → ((touch R V c place).entries j).lru ≤ ((touch R V c place).entries i).lru
  latest c place i j h e lt = rw ((==_iff i place).1 e) (elim (Bool-cases (j == place)) [
    | inl q ↦ rw q (omega arith)
    | inr q ↦ rw q (omega (arith, h.recent j lt))
  ])

  none-ne-some : {i : ℕ} → none ≡ some i → ⊥
  none-ne-some e = ground arith

  -- A key that is found in a valid cache is answered by a copy of its value; every key keeps its
  -- value; and no entry was used later than the one of the key.
  pub get_value_lem :
      (copy_item : V → V) (c : Cache R V) (k : K)
      → IsValid R V c
      → ((get_value R V copy_item c k).0 ≡ map_value R V copy_item (held R V c k))
        × ((k' : K) → held R V (get_value R V copy_item c k).1 k' ≡ held R V c k')
        × ((i j : ℕ)
            → R.find c.lookup k ≡ some i
            → j < c.size
            → ((get_value R V copy_item c k).1.entries j).lru
              ≤ ((get_value R V copy_item c k).1.entries i).lru)
  unfolding get_value
  get_value_lem copy_item c k h = elim (Option-cases (R.find c.lookup k)) [
    | inl e ↦ rw (e, get_value) (refl, (λ k'. refl), λ i j e' lt. absurd (none-ne-some e'))
    | inr (place, e) ↦
        rw (e, get_value)
          (
            refl,
            (λ k'. touched c place (R.find c.lookup k')),
            λ i j e' lt. latest c place i j h (some_inj (sym e')) lt,
          )
  ]
