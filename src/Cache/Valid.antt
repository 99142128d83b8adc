-- ===== src/Cache/Valid.antt =====
-- The invariant of the cache, which its operations keep: the lookup and the array agree.
use redis_graph.Prelude.{
  some_inj, ℕ, zero, suc, ◌-◌, ◌≤◌, ◌<◌, true, false, ltb, ◌==◌, Option, none, some, is_some, ◌≡◌,
  ◌≢◌, ◌⊎◌, refl, sym, ap, ◌∙◌, arith, ==_iff, Bool-cases, inl, inr,
}
use redis_graph.Cache.{
  Rax, IsRax, Cache, CacheEntry, put_entry, min_upto, find_min_lru, evict_at, place_of_new,
  take_entry, populate, remove_key,
}

-- A key under which nothing is found is no key under which something is.
pub distinct :
    {K : Type 0} (R : Rax K) (t : R.Tree) (k k' : K) {i : ℕ}
    → R.find t k ≡ none
    → R.find t k' ≡ some i
    → k' ≢ k
distinct R t k k' e e' h = ground (arith, e, e', ap (R.find t) h)

placed_same :
    {K : Type 0} {R : Rax K} (L : IsRax R) (t : R.Tree) (k k' : K) {place i : ℕ}
    → k' ≡ k
    → R.find (R.insert t k place) k' ≡ some i
    → i ≡ place
placed_same {R = R} L t k k' {place} {i} h e =
    some_inj (sym e ∙ ap (R.find (R.insert t k place)) h ∙ L.find_insert t k place)

pub removed_other :
    {K : Type 0} {R : Rax K} (L : IsRax R) (t : R.Tree) (k k' : K) {o : Option K}
    → o ≡ some k
    → k' ≢ k
    → R.find (remove_key R t o) k' ≡ R.find t k'
removed_other L t k k' e ne = rw e (L.find_remove_other t k k' ne)

pub removed_apart :
    {K : Type 0} {R : Rax K} (L : IsRax R) (t : R.Tree) (k k' : K) {o : Option K} {i : ℕ}
    → o ≡ some k
    → R.find (remove_key R t o) k' ≡ some i
    → k' ≢ k
removed_apart {R = R} L t k k' {o} e e' h = none-ne-some (
    sym (L.find_remove t k)
    ∙ ap (R.find (R.remove t k)) (sym h)
    ∙ ap (λ o. R.find (remove_key R t o) k') (sym e)
    ∙ e')
  where
    none-ne-some : {i : ℕ} → none ≡ some i → ⊥
    none-ne-some e = ground arith

-- Two keys of one entry are one, and two places of one key too.
pub apart_by_key :
    {K : Type 0} {R : Rax K} {V : Type 0} (entries : ℕ → CacheEntry R V) {i place : ℕ} {k k' : K}
    → (entries place).key ≡ some k
    → (entries i).key ≡ some k'
    → k' ≢ k
    → (i == place) ≡ false
apart_by_key entries {i} {place} e e' ne = elim (Bool-cases (i == place)) [
  | inl h ↦ absurd (ne (some_inj (sym e' ∙ ap (λ j. (entries j).key) ((==_iff i place).0 h) ∙ e)))
  | inr h ↦ h
]

apart_by_place :
    {K : Type 0} (R : Rax K) (t : R.Tree) {i place : ℕ} {k k' : K}
    → R.find t k ≡ some place
    → R.find t k' ≡ some i
    → (i == place) ≡ false
    → k' ≢ k
apart_by_place R t {i} {place} e e' ne h =
    true_false (sym ((==_iff i place).1 (some_inj (sym e' ∙ ap (R.find t) h ∙ e))) ∙ ne)
  where
    true_false : true ≡ false → ⊥
    true_false e = ground arith

module _ {K : Type 0} (R : Rax K) (V : Type 0) where
  -- The entries before `size` are in use, each with a key under which the lookup gives its place and
  -- with a value, and used no later than the counter says; all that the lookup gives are those.
  pub record IsValid (c : Cache R V) : Type 0 where
    pub has_room : 0 < c.capacity
    pub size_le : c.size ≤ c.capacity
    pub found :
        (k : K) (i : ℕ) → R.find c.lookup k ≡ some i → (i < c.size) × ((c.entries i).key ≡ some k)
    pub holds :
        (i : ℕ) → i < c.size → (k : K) × ((c.entries i).key ≡ some k) × (R.find c.lookup k ≡ some i)
    pub valued : (i : ℕ) → i < c.size → is_some (c.entries i).value ≡ true
    pub recent : (i : ℕ) → i < c.size → (c.entries i).lru ≤ c.counter

  -- The same but for one place, which is free.
  pub record IsFree (c : Cache R V) (place : ℕ) : Type 0 where
    pub has_room : 0 < c.capacity
    pub size_le : c.size ≤ c.capacity
    pub place_lt : place < c.size
    pub found :
        (k : K) (i : ℕ)
        → R.find c.lookup k ≡ some i
        → (i < c.size) × ((c.entries i).key ≡ some k) × ((i == place) ≡ false)
    pub holds :
        (i : ℕ)
        → i < c.size
        → (i == place) ≡ false
        → (k : K) × ((c.entries i).key ≡ some k) × (R.find c.lookup k ≡ some i)
    pub valued : (i : ℕ) → i < c.size → (i == place) ≡ false → is_some (c.entries i).value ≡ true
    pub recent : (i : ℕ) → i < c.size → (i == place) ≡ false → (c.entries i).lru ≤ c.counter

  pub put_entry_same :
      (entries : ℕ → CacheEntry R V) (place i : ℕ) (e : CacheEntry R V)
      → (i == place) ≡ true
      → put_entry R V entries place e i ≡ e
  put_entry_same entries place i e h = rw h refl

  pub put_entry_other :
      (entries : ℕ → CacheEntry R V) (place i : ℕ) (e : CacheEntry R V)
      → (i == place) ≡ false
      → put_entry R V entries place e i ≡ entries i
  put_entry_other entries place i e h = rw h refl

module _ {K : Type 0} {R : Rax K} (L : IsRax R) (V : Type 0)
    (decide : (k k' : K) → k ≡ k' ⊎ k ≢ k') where
  pub populate-IsValid :
      (c : Cache R V) (place : ℕ) (k : K) (v : V)
      → IsFree R V c place
      → R.find c.lookup k ≡ none
      → IsValid R V (populate R V c place k v)
  populate-IsValid c place k v f absent = record {
    has_room = f.has_room;
    size_le = f.size_le;
    found = λ k' i e. elim (decide k' k) [
      | inl h ↦
          let at = placed_same L c.lookup k k' h e in
          (omega (arith, f.place_lt, at), rw ((==_iff i place).1 at) (ap some (sym h)))
      | inr h ↦
          let (lt, key, ne) = f.found k' i (sym (L.find_insert_other c.lookup k k' place h) ∙ e) in
          (lt, rw ne key)
    ];
    holds = λ i lt. elim (Bool-cases (i == place)) [
      | inl h ↦
          rw h (k, refl, L.find_insert c.lookup k place ∙ ap some (sym ((==_iff i place).0 h)))
      | inr h ↦
          let (k', key, e) = f.holds i lt h in
          rw h (
            k',
            key,
            L.find_insert_other c.lookup k k' place (distinct R c.lookup k k' absent e) ∙ e,
          )
    ];
    valued = λ i lt. elim (Bool-cases (i == place)) [
      | inl h ↦ rw h refl
      | inr h ↦ rw h (f.valued i lt h)
    ];
    recent = λ i lt. elim (Bool-cases (i == place)) [
      | inl h ↦ rw h (omega arith)
      | inr h ↦ rw h (omega (arith, f.recent i lt h))
    ];
  }

  next-IsFree :
      (c : Cache R V)
      → IsValid R V c
      → (c.size == c.capacity) ≡ false
      → IsFree R V (record c { size = suc c.size }) c.size
  next-IsFree c v e = record {
    has_room = v.has_room;
    size_le = ground (arith, v.size_le);
    place_lt = omega arith;
    found = λ k i e'. let (lt, key) = v.found k i e' in (omega arith, key, ground arith);
    holds = λ i lt ne. v.holds i (ground arith);
    valued = λ i lt ne. v.valued i (ground arith);
    recent = λ i lt ne. v.recent i (ground arith);
  }

  pub min_upto_le : (entries : ℕ → CacheEntry R V) (n : ℕ) → min_upto R V entries n ≤ n
  unfolding min_upto
  min_upto_le entries zero = omega arith
  min_upto_le entries (suc n) =
      elim (Bool-cases (ltb (entries (suc n)).lru (entries (min_upto R V entries n)).lru)) [
        | inl e ↦ rw e (omega arith)
        | inr e ↦ rw e (omega (arith, min_upto_le entries n))
      ]

  pub last_lt :
      (size capacity : ℕ) {m : ℕ} → 0 < capacity → m ≤ capacity - 1 → size ≡ capacity → m < size
  last_lt size capacity h l e = omega arith

  -- What an eviction takes from the lookup is the key of the entry.
  evicted-IsFree :
      (c : Cache R V) (place : ℕ)
      → IsValid R V c
      → place < c.size
      → IsFree R V (evict_at R V c place) place
  evicted-IsFree c place v lt =
      let (k, key, e) = v.holds place lt in
      record {
        has_room = v.has_room;
        size_le = v.size_le;
        place_lt = lt;
        found = λ k' i e'.
            let ne = removed_apart L c.lookup k k' key e' in
            let (lt', key') = v.found k' i (sym (removed_other L c.lookup k k' key ne) ∙ e') in
            let h = apart_by_key c.entries key key' ne in (lt', rw h key', h);
        holds = λ i lt' ne.
            let (k', key', e') = v.holds i lt' in
            (
              k',
              rw ne key',
              removed_other L c.lookup k k' key (apart_by_place R c.lookup e e' ne) ∙ e',
            );
        valued = λ i lt' ne. rw ne (v.valued i lt');
        recent = λ i lt' ne. rw ne (v.recent i lt');
      }

  pub room-IsFree :
      (c : Cache R V) → IsValid R V c → IsFree R V (take_entry R V c) (place_of_new R V c)
  room-IsFree c v = elim (Bool-cases (c.size == c.capacity)) [
    | inl e ↦ rw e (
        evicted-IsFree c (find_min_lru R V c.entries c.capacity) v (
          last_lt c.size c.capacity v.has_room (min_upto_le c.entries (c.capacity - 1))
            ((==_iff c.size c.capacity).0 e)))
    | inr e ↦ rw e (next-IsFree c v e)
  ]
