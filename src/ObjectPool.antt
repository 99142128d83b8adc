-- ===== src/ObjectPool.antt =====
-- src/util/object_pool/object_pool.c: a pool of items that are used again once they are deleted. The
-- blocks are one list of slots: the item with index `idx` stands in block idx / POOL_BLOCK_CAP at
-- position idx % POOL_BLOCK_CAP, and an item is named by the position of its slot.
pub mod Handed
pub mod Calls
mod Tests
use redis_graph.Prelude.{
  ℕ, ◌+◌, ◌-◌, ◌*◌, ◌/◌, List, [], ◌∷◌, ◌++◌, Option, none, some, get_elem?, set, replicate, leb,
  if◌then◌else◌,
}

-- POOL_BLOCK_CAP
abbrev pub pool_block_cap : ℕ
pool_block_cap = 256

-- The header of an item, which holds its index, and the item
pub record Slot (A : Type 0) : Type 0 where
  pub item_id : ℕ
  pub item : A

-- struct ObjectPool. `deleted_idx` holds the array from its end, where indices are appended and
-- popped; a block is zeroed when it is made. The destructor is the identity where it is NULL.
pub record ObjectPool (A : Type 0) : Type 0 where
  pub item_count : ℕ
  pub item_cap : ℕ
  pub block_count : ℕ
  pub slots : List (Slot A)
  pub deleted_idx : List ℕ
  pub zeroed : A
  pub destructor : A → A

-- ITEM_COUNT_TO_BLOCK_COUNT, without the rounding of large numbers to a double
abbrev pub block_count_of : ℕ → ℕ
block_count_of n = (n + pool_block_cap - 1) / pool_block_cap

module _ {A : Type 0} where
  -- `_ObjectPool_AddBlocks`
  unfoldable pub add_blocks : ObjectPool A → ℕ → ObjectPool A
  add_blocks pool count = record pool {
    block_count = pool.block_count + count;
    slots =
        pool.slots
        ++ replicate (count * pool_block_cap) (record { item_id = 0; item = pool.zeroed });
    item_cap = (pool.block_count + count) * pool_block_cap;
  }

  -- ObjectPool_New
  unfoldable pub new : ℕ → A → (A → A) → ObjectPool A
  unfolding add_blocks
  new item_cap zeroed destructor =
      add_blocks
        (record {
          item_count = 0;
          item_cap = 0;
          block_count = 0;
          slots = [];
          deleted_idx = [];
          zeroed = zeroed;
          destructor = destructor;
        })
        (block_count_of item_cap)

  abbrev pub cleared : Option (Slot A) → List (Slot A) → ℕ → A → List (Slot A)
  cleared none slots idx zeroed = slots
  cleared (some s) slots idx zeroed = set slots idx (record s { item = zeroed })

  abbrev pub numbered : Option (Slot A) → List (Slot A) → ℕ → List (Slot A)
  numbered none slots idx = slots
  numbered (some s) slots idx = set slots idx (record s { item_id = idx })

  -- `_ObjectPool_ReuseItem`, with the index that was popped
  abbrev pub reuse_item : ObjectPool A → ℕ → List ℕ → ObjectPool A
  reuse_item pool idx rest = record pool {
    item_count = pool.item_count + 1;
    deleted_idx = rest;
    slots = cleared (get_elem? pool.slots idx) pool.slots idx pool.zeroed;
  }

  -- The capacity is doubled where every slot holds an item.
  unfoldable pub with_room : ObjectPool A → ObjectPool A
  unfolding add_blocks
  with_room pool =
      if leb pool.item_cap pool.item_count
      then add_blocks pool (block_count_of pool.item_cap)
      else pool

  abbrev pub take_item : ObjectPool A → ℕ × ObjectPool A
  take_item pool = (
    pool.item_count,
    record pool {
      item_count = pool.item_count + 1;
      slots = numbered (get_elem? pool.slots pool.item_count) pool.slots pool.item_count;
    },
  )

  abbrev pub item_from : ObjectPool A → List ℕ → ℕ × ObjectPool A
  item_from pool [] = take_item (with_room pool)
  item_from pool (idx ∷ rest) = (idx, reuse_item pool idx rest)

  -- ObjectPool_NewItem
  unfoldable pub new_item : ObjectPool A → ℕ × ObjectPool A
  unfolding with_room
  new_item pool = item_from pool pool.deleted_idx

  abbrev pub deleted_at : ObjectPool A → Option (Slot A) → ℕ → ObjectPool A
  deleted_at pool none pos = pool
  deleted_at pool (some s) pos = record pool {
    item_count = pool.item_count - 1;
    deleted_idx = s.item_id ∷ pool.deleted_idx;
    slots = set pool.slots pos (record s { item = pool.destructor s.item });
  }

  -- ObjectPool_DeleteItem, of the item at a position
  unfoldable pub delete_item : ObjectPool A → ℕ → ObjectPool A
  delete_item pool pos = deleted_at pool (get_elem? pool.slots pos) pos
