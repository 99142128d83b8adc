-- ===== src/CircularBuffer.antt =====
-- src/util/circular_buffer.c: a queue of a fixed number of slots. Pointers and offsets into the slots
-- are multiples of the size of an item, so they are counted in items here; `end_marker` is the
-- capacity. The operations are taken one after the other, so every exchange of `write` succeeds.
pub mod Contents
pub mod Queue
pub mod Latest
mod Tests
use redis_graph.Prelude.{
  ℕ, zero, suc, ◌+◌, ◌-◌, Bool, true, false, leb, ◌==◌, if◌then◌else◌, Option, none, some,
}

-- The read position after another
abbrev pub next_read : ℕ → ℕ → ℕ
next_read capacity read = if leb capacity (suc read) then 0 else suc read

-- Where the oldest of `n` items is. The offset to it is an int in the source: where it is negative
-- it is counted from the end.
abbrev pub oldest : ℕ → ℕ → ℕ → ℕ
oldest capacity write n = if leb n write then write - n else capacity - (n - write)

module _ (A : Type 0) where
  -- struct _CircularBuffer; `slots` is its data. What a slot holds before it is written is not defined by the source.
  pub record CircularBuffer : Type 0 where
    pub read : ℕ
    pub write : ℕ
    pub item_count : ℕ
    pub item_cap : ℕ
    pub slots : ℕ → A

module _ {A : Type 0} where
  -- memcpy to a slot
  abbrev pub update : (ℕ → A) → ℕ → A → ℕ → A
  update slots slot item i = if i == slot then item else slots i

  -- CircularBuffer_New
  abbrev pub new : (ℕ → A) → ℕ → CircularBuffer A
  new slots capacity = record {
    read = 0;
    write = 0;
    item_count = 0;
    item_cap = capacity;
    slots = slots;
  }

  -- CircularBuffer_Empty and CircularBuffer_Full
  abbrev pub is_empty : CircularBuffer A → Bool
  is_empty cb = cb.item_count == 0

  abbrev pub is_full : CircularBuffer A → Bool
  is_full cb = cb.item_count == cb.item_cap

  -- CircularBuffer_ResetReader
  unfoldable pub reset_reader : CircularBuffer A → CircularBuffer A
  reset_reader cb = record cb { read = oldest cb.item_cap cb.write cb.item_count }

  -- Where the next item is written, and what `write` is then: an offset at the end or after it
  -- circles back.
  abbrev pub wrapped : CircularBuffer A → ℕ
  wrapped cb = if leb cb.item_cap cb.write then cb.write - cb.item_cap else cb.write

  -- CircularBuffer_Add
  unfoldable pub push : CircularBuffer A → A → Bool × CircularBuffer A
  push cb item =
      if leb cb.item_cap cb.item_count then (false, record cb { item_count = cb.item_cap }) else (
        true,
        record cb {
          item_count = suc cb.item_count;
          write = suc (wrapped cb);
          slots = update cb.slots (wrapped cb) item;
        },
      )

  -- CircularBuffer_Reserve: a slot, which the caller fills. The oldest item is overwritten where
  -- the buffer is full.
  unfoldable pub reserve : CircularBuffer A → ℕ × CircularBuffer A
  reserve cb = (
    wrapped cb,
    record cb {
      item_count = if leb cb.item_cap cb.item_count then cb.item_cap else suc cb.item_count;
      write = suc (wrapped cb);
    },
  )

  -- What the caller does with the slot (QueriesLog_AddQuery)
  abbrev pub fill : ℕ × CircularBuffer A → A → CircularBuffer A
  fill (slot, cb) item = record cb { slots = update cb.slots slot item }

  -- CircularBuffer_Read
  unfoldable pub pop : CircularBuffer A → Option A × CircularBuffer A
  pop cb = if is_empty cb then (none, cb) else (
    some (cb.slots cb.read),
    record cb { item_count = cb.item_count - 1; read = next_read cb.item_cap cb.read },
  )
