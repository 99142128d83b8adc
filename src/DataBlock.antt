-- ===== src/DataBlock.antt =====
-- src/util/datablock/datablock.c: the store of the graph's nodes and edges, whose slots are used
-- again. The blocks are one list of slots: the item with index `idx` stands in block idx / blockCap
-- at position idx % blockCap, and a block is zeroed when it is made.
pub mod Valid
pub mod Reserved
pub mod Items
pub mod Scan
mod Tests
use redis_graph.Prelude.{
  ℕ, zero, suc, ◌+◌, ◌-◌, ◌*◌, ◌/◌, ◌%◌, ◌^◌, Bool, true, false, not, ◌&&◌, List, [], ◌∷◌, ◌++◌,
  Option, none, some, length, get_elem?, set, replicate, leb, ltb, ◌==◌, if◌then◌else◌,
}

-- DataBlockItemHeader, and the item after it
pub record Slot {ℓ} (A : Type ℓ) : Type ℓ where
  pub deleted : Bool
  pub item : A

-- A slot of a block that was just made.
abbrev pub fresh_slot {ℓ} : {A : Type ℓ} → A → Slot A
fresh_slot zeroed = record { deleted = false; item = zeroed }

-- struct DataBlock. `deleted_idx` holds the array from its end, where indices are appended and
-- popped. The destructor is the identity where the pointer is NULL.
pub record DataBlock {ℓ} (A : Type ℓ) : Type ℓ where
  pub item_count : ℕ
  pub item_cap : ℕ
  pub block_cap : ℕ
  pub block_count : ℕ
  pub slots : List (Slot A)
  pub deleted_idx : List ℕ
  pub zeroed : A
  pub destructor : A → A

-- What a read of a slot yields; `beyond` stands for memory after the last block.
pub data Fetched {ℓ} (A : Type ℓ) : Type ℓ where
  missing : Fetched A
  found : A → Fetched A
  beyond : Fetched A

-- ITEM_COUNT_TO_BLOCK_COUNT, without the rounding of large numbers to a double
unfoldable pub item_count_to_block_count : ℕ → ℕ → ℕ
item_count_to_block_count n cap = (n + cap - 1) / cap

abbrev pub popped : List ℕ → List ℕ
popped [] = []
popped (i ∷ rest) = rest

module _ {ℓ} {A : Type ℓ} where
  -- `_DataBlock_AddBlocks`
  unfoldable pub add_blocks : DataBlock A → ℕ → DataBlock A
  add_blocks db count = record db {
    block_count = db.block_count + count;
    slots = db.slots ++ replicate (count * db.block_cap) (fresh_slot db.zeroed);
    item_cap = (db.block_count + count) * db.block_cap;
  }

  -- What DataBlock_New makes before it adds blocks.
  abbrev pub without_blocks : ℕ → A → (A → A) → DataBlock A
  without_blocks block_cap zeroed destructor = record {
    item_count = 0;
    item_cap = 0;
    block_cap = block_cap;
    block_count = 0;
    slots = [];
    deleted_idx = [];
    zeroed = zeroed;
    destructor = destructor;
  }

  -- DataBlock_New
  unfoldable pub new : ℕ → ℕ → A → (A → A) → DataBlock A
  unfolding add_blocks item_count_to_block_count
  new block_cap item_cap zeroed destructor =
      add_blocks (without_blocks block_cap zeroed destructor)
        (item_count_to_block_count item_cap block_cap)

  -- `_DataBlock_IndexOutOfBounds`
  abbrev pub index_out_of_bounds : DataBlock A → ℕ → Bool
  index_out_of_bounds db idx = leb (db.item_count + length db.deleted_idx) idx

  abbrev pub fetched : Option (Slot A) → Fetched A
  fetched none = beyond
  fetched (some s) = if s.deleted then missing else found s.item

  -- DataBlock_GetItem
  unfoldable pub get_item : DataBlock A → ℕ → Fetched A
  get_item db idx = if index_out_of_bounds db idx then missing else fetched (get_elem? db.slots idx)

  -- DataBlock_GetReservedIdx
  unfoldable pub get_reserved_idx : DataBlock A → ℕ → ℕ
  get_reserved_idx db n = elim (get_elem? db.deleted_idx n) [
    | some i ↦ i
    | none ↦ db.item_count + n
  ]

  abbrev pub marked : Bool → Option (Slot A) → List (Slot A) → ℕ → List (Slot A)
  marked b none slots idx = slots
  marked b (some s) slots idx = set slots idx (record s { deleted = b })

  -- MARK_HEADER_AS_DELETED and MARK_HEADER_AS_NOT_DELETED
  abbrev pub mark : Bool → List (Slot A) → ℕ → List (Slot A)
  mark b slots idx = marked b (get_elem? slots idx) slots idx

  -- DataBlock_Accommodate; a block never counts more items than its capacity.
  pub accommodate : DataBlock A → ℕ → DataBlock A
  unfolding add_blocks item_count_to_block_count
  accommodate db k =
      if ltb (db.item_cap - db.item_count) k
      then add_blocks db
          (item_count_to_block_count (k - (db.item_cap - db.item_count)) db.block_cap)
      else db

  -- DataBlock_Ensure
  unfoldable pub ensure : DataBlock A → ℕ → DataBlock A
  unfolding add_blocks item_count_to_block_count
  ensure db idx =
      if ltb idx db.item_cap
      then db
      else add_blocks db (item_count_to_block_count (1 + idx - db.item_cap) db.block_cap)

  -- The block that is added when every slot holds an item.
  unfoldable pub make_room : DataBlock A → DataBlock A
  unfolding add_blocks
  make_room db = if leb db.item_cap db.item_count then add_blocks db 1 else db

  -- The index that an allocation takes; `pos` is a `uint`.
  abbrev pub next_pos : DataBlock A → ℕ
  next_pos db = elim db.deleted_idx [ [] ↦ db.item_count % 2 ^ 32 | i ∷ rest ↦ i % 2 ^ 32 ]

  abbrev pub take_slot : DataBlock A → ℕ × DataBlock A
  take_slot db = (
    next_pos db,
    record db {
      item_count = db.item_count + 1;
      deleted_idx = popped db.deleted_idx;
      slots = mark false db.slots (next_pos db);
    },
  )

  -- DataBlock_AllocateItem, with the index that it stores
  unfoldable pub allocate_item : DataBlock A → ℕ × DataBlock A
  unfolding make_room
  allocate_item db = take_slot (make_room db)

  abbrev pub destroyed : DataBlock A → Option (Slot A) → ℕ → DataBlock A
  destroyed db none idx = db
  destroyed db (some s) idx = if s.deleted then db else record db {
    item_count = db.item_count - 1;
    deleted_idx = idx ∷ db.deleted_idx;
    slots = set db.slots idx (record { deleted = true; item = db.destructor s.item });
  }

  -- DataBlock_DeleteItem; the source asserts that the index is in bounds.
  unfoldable pub delete_item : DataBlock A → ℕ → DataBlock A
  delete_item db idx = destroyed db (get_elem? db.slots idx) idx

  -- DataBlock_AllocateItemOutOfOrder
  pub allocate_item_out_of_order : DataBlock A → ℕ → DataBlock A
  unfolding ensure
  allocate_item_out_of_order db idx =
      let db' = ensure db idx in
      record db' { slots = mark false db'.slots idx; item_count = db'.item_count + 1 }

  -- DataBlock_MarkAsDeletedOutOfOrder
  pub mark_as_deleted_out_of_order : DataBlock A → ℕ → DataBlock A
  unfolding ensure
  mark_as_deleted_out_of_order db idx =
      let db' = ensure db idx in
      record db' { slots = mark true db'.slots idx; deleted_idx = idx ∷ db'.deleted_idx }
