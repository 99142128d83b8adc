-- ===== src/Cache.antt =====
-- src/util/cache: the cache of parsed queries (cache.c, cache_array.c). The lookup from keys to
-- entries is a rax, a tree of Redis, and is a parameter. An entry is given by its place in the array.
-- The operations run one after the other, as under the write lock.
pub mod Calls
pub mod Valid
pub mod Evicts
mod Tests
use redis_graph.Prelude.{
  ℕ, zero, suc, ◌+◌, ◌-◌, Bool, true, false, ltb, ◌==◌, if◌then◌else◌, Option, none, some, ◌≡◌, ◌≢◌,
}

-- What the cache uses of a rax whose values are places of entries: raxNew, raxFind, raxInsert and
-- raxRemove
pub record Rax (K : Type 0) : Type 1 where
  pub Tree : Type 0
  pub empty : Tree
  pub find : Tree → K → Option ℕ
  pub insert : Tree → K → ℕ → Tree
  pub remove : Tree → K → Tree

pub record IsRax {K : Type 0} (R : Rax K) : Type 0 where
  pub find_empty : (k : K) → R.find R.empty k ≡ none
  pub find_insert : (t : R.Tree) (k : K) (i : ℕ) → R.find (R.insert t k i) k ≡ some i
  pub find_insert_other :
      (t : R.Tree) (k k' : K) (i : ℕ) → k' ≢ k → R.find (R.insert t k i) k' ≡ R.find t k'
  pub find_remove : (t : R.Tree) (k : K) → R.find (R.remove t k) k ≡ none
  pub find_remove_other : (t : R.Tree) (k k' : K) → k' ≢ k → R.find (R.remove t k) k' ≡ R.find t k'

module _ {K : Type 0} (R : Rax K) where
  abbrev pub remove_key : R.Tree → Option K → R.Tree
  remove_key t none = t
  remove_key t (some k) = R.remove t k

module _ {K : Type 0} (R : Rax K) (V : Type 0) where
  -- struct CacheEntry
  pub record CacheEntry : Type 0 where
    pub key : Option K
    pub value : Option V
    pub lru : ℕ

  -- struct Cache
  pub record Cache : Type 0 where
    pub capacity : ℕ
    pub size : ℕ
    pub counter : ℕ
    pub lookup : R.Tree
    pub entries : ℕ → CacheEntry

  abbrev pub put_entry : (ℕ → CacheEntry) → ℕ → CacheEntry → ℕ → CacheEntry
  put_entry entries place e i = if i == place then e else entries i

  -- The loop of CacheArray_FindMinLRU, after the entry at a place
  unfoldable pub min_upto : (ℕ → CacheEntry) → ℕ → ℕ
  min_upto entries zero = 0
  min_upto entries (suc i) =
      let m = min_upto entries i in if ltb (entries (suc i)).lru (entries m).lru then suc i else m

  -- CacheArray_FindMinLRU
  abbrev pub find_min_lru : (ℕ → CacheEntry) → ℕ → ℕ
  find_min_lru entries capacity = min_upto entries (capacity - 1)

  -- CacheArray_CleanEntry and the calloc of the array
  abbrev pub clean_entry : CacheEntry
  clean_entry = record { key = none; value = none; lru = 0 }

  -- `_CacheEvictLRU`, at the place of the entry that it finds
  abbrev pub evict_at : Cache → ℕ → Cache
  evict_at c place = record c {
    lookup = remove_key R c.lookup (c.entries place).key;
    entries = put_entry c.entries place clean_entry;
  }

  -- The place that a new entry gets, and the cache in which it is free
  abbrev pub place_of_new : Cache → ℕ
  place_of_new c = if c.size == c.capacity then find_min_lru c.entries c.capacity else c.size

  abbrev pub take_entry : Cache → Cache
  take_entry c =
      if c.size == c.capacity
      then evict_at c (find_min_lru c.entries c.capacity)
      else record c { size = suc c.size }

  -- CacheArray_PopulateEntry and the insertion into the rax
  abbrev pub populate : Cache → ℕ → K → V → Cache
  populate c place k v = record c {
    counter = suc c.counter;
    lookup = R.insert c.lookup k place;
    entries =
        put_entry c.entries place (record { key = some k; value = some v; lru = suc c.counter });
  }

  -- `_Cache_SetValue`
  unfoldable pub set_value : Cache → K → V → Bool × Cache
  unfolding min_upto
  set_value c k v = elim (R.find c.lookup k) [
    | some place ↦ (false, c)
    | none ↦ (true, populate (take_entry c) (place_of_new c) k v)
  ]

  -- Cache_New
  abbrev pub new : ℕ → Cache
  new capacity = record {
    capacity = capacity;
    size = 0;
    counter = 0;
    lookup = R.empty;
    entries = λ i. clean_entry;
  }

  abbrev pub map_value : (V → V) → Option V → Option V
  map_value copy none = none
  map_value copy (some v) = some (copy v)

  abbrev pub touch : Cache → ℕ → Cache
  touch c place = record c {
    counter = suc c.counter;
    entries = put_entry c.entries place (record (c.entries place) { lru = suc c.counter });
  }

  -- Cache_GetValue, where `copy_item` copies a value
  unfoldable pub get_value : (V → V) → Cache → K → Option V × Cache
  get_value copy_item c k = elim (R.find c.lookup k) [
    | some place ↦ (map_value copy_item (c.entries place).value, touch c place)
    | none ↦ (none, c)
  ]

  -- Cache_SetGetValue
  unfoldable pub set_get_value : (V → V) → Cache → K → V → V × Cache
  unfolding set_value
  set_get_value copy_item c k v =
      let (added, c') = set_value c k v in (if added then copy_item v else v, c')
