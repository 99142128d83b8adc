-- ===== src/CircularBuffer/Latest.antt =====
-- CircularBuffer_Reserve and CircularBuffer_ResetReader, as the log of queries uses them
-- (src/queries_log/queries_log.c): the buffer keeps the latest items.
use redis_graph.Prelude.{
  ℕ, zero, suc, ◌-◌, ◌≤◌, ◌<◌, true, leb, if◌then◌else◌, ◌≡◌, refl, sym, ap, ◌∙◌, arith, List, [],
  ◌∷◌, ◌++◌, Bool-cases, inl, inr,
}
use redis_graph.CircularBuffer.{
  CircularBuffer, update, next_read, oldest, reserve, fill, reset_reader,
}
use redis_graph.CircularBuffer.Contents.{
  contents, contents_from, contents_from-update, slot_of, slot_of-suc, next_read_lt,
}

-- The slot that is written after `write`
abbrev slot_at : ℕ → ℕ → ℕ
slot_at capacity write = if leb capacity write then write - capacity else write

slot_at_lt :
    (capacity write : ℕ) → 0 < capacity → write ≤ capacity → slot_at capacity write < capacity
slot_at_lt capacity write h h' = ground arith

oldest_lt :
    (capacity w n : ℕ) → n < capacity → w < capacity → oldest capacity (suc w) (suc n) < capacity
oldest_lt capacity w n h h' = ground arith

oldest-slot_of :
    (capacity w n : ℕ)
    → n < capacity
    → w < capacity
    → w ≡ slot_of capacity (oldest capacity (suc w) (suc n)) n
oldest-slot_of capacity w n h h' = ground arith

oldest_same :
    (capacity write n : ℕ)
    → n < capacity
    → write ≤ capacity
    → 0 < n
    → oldest capacity (suc (slot_at capacity write)) (suc n) ≡ oldest capacity write n
oldest_same capacity write n h h' h'' = ground arith

oldest_of_full :
    (capacity write : ℕ)
    → 0 < capacity
    → write ≤ capacity
    → oldest capacity write capacity ≡ slot_at capacity write
oldest_of_full capacity write h h' = ground arith

next_read_of_full :
    (capacity w : ℕ) → w < capacity → oldest capacity (suc w) capacity ≡ next_read capacity w
next_read_of_full capacity w h = ground arith

full_count : (capacity n : ℕ) → leb capacity n ≡ true → n ≤ capacity → n ≡ capacity
full_count capacity n e h = ground arith

module _ {A : Type 0} where
  -- There are no more items than slots, and the write position is that of a slot or the end.
  pub record IsWritable (cb : CircularBuffer A) : Type 0 where
    pub has_room : 0 < cb.item_cap
    pub count_le : cb.item_count ≤ cb.item_cap
    pub write_le : cb.write ≤ cb.item_cap

  -- The list without its first item
  abbrev pub drop_first : List A → List A
  drop_first [] = []
  drop_first (x ∷ xs) = xs

  -- What is kept of the items, oldest first, when one more is written
  abbrev pub keep : ℕ → ℕ → List A → A → List A
  keep capacity n xs item =
      if leb capacity n then drop_first xs ++ (item ∷ []) else xs ++ (item ∷ [])

  pub reserve-IsWritable :
      (cb : CircularBuffer A) (item : A) → IsWritable cb → IsWritable (fill (reserve cb) item)
  unfolding reserve
  reserve-IsWritable cb item w = record {
    has_room = w.has_room;
    count_le = ground (arith, w.count_le);
    write_le = ground (arith, w.has_room, w.write_le);
  }

  same_items :
      (slots : ℕ → A) (capacity n r r' : ℕ)
      → (0 < n → r ≡ r')
      → contents_from slots capacity r n ≡ contents_from slots capacity r' n
  unfolding contents_from
  same_items slots capacity zero r r' h = refl
  same_items slots capacity (suc n) r r' h =
      ap (λ i. contents_from slots capacity i (suc n)) (h (omega arith))

  one_more :
      (slots : ℕ → A) (item : A) (capacity write n : ℕ)
      → n < capacity
      → write ≤ capacity
      → contents_from
          (update slots (slot_at capacity write) item)
          capacity
          (oldest capacity (suc (slot_at capacity write)) (suc n))
          (suc n)
        ≡ contents_from slots capacity (oldest capacity write n) n ++ (item ∷ [])
  one_more slots item capacity write n h h' =
      let lt = slot_at_lt capacity write (omega arith) h' in
      contents_from-update slots capacity item n
        (oldest capacity (suc (slot_at capacity write)) (suc n)) (slot_at capacity write)
        (oldest_lt capacity (slot_at capacity write) n h lt) h
        (oldest-slot_of capacity (slot_at capacity write) n h lt)
      ∙ ap (λ xs. xs ++ (item ∷ []))
          (same_items slots capacity n _ _ (oldest_same capacity write n h h'))

  in_full :
      (slots : ℕ → A) (item : A) (capacity w : ℕ)
      → w < capacity
      → contents_from (update slots w item) capacity (next_read capacity w) capacity
        ≡ drop_first (contents_from slots capacity w capacity) ++ (item ∷ [])
  unfolding contents_from
  in_full slots item zero w h = absurd (omega arith)
  in_full slots item (suc m) w h =
      contents_from-update slots (suc m) item m (next_read (suc m) w) w (next_read_lt (suc m) w h)
        (omega arith) (sym (slot_of_full (suc m) w h) ∙ slot_of-suc (suc m) w m h (omega arith))
    where
      slot_of_full : (capacity w : ℕ) → w < capacity → slot_of capacity w capacity ≡ w
      slot_of_full capacity w h = ground arith

  one_out :
      (slots : ℕ → A) (item : A) (capacity write : ℕ)
      → 0 < capacity
      → write ≤ capacity
      → contents_from
          (update slots (slot_at capacity write) item)
          capacity
          (oldest capacity (suc (slot_at capacity write)) capacity)
          capacity
        ≡ drop_first (contents_from slots capacity (oldest capacity write capacity) capacity)
          ++ (item ∷ [])
  one_out slots item capacity write h h' =
      let lt = slot_at_lt capacity write h h' in
      rw
        (next_read_of_full capacity (slot_at capacity write) lt, oldest_of_full capacity write h h')
        (in_full slots item capacity (slot_at capacity write) lt)

  -- A reserved slot, filled: the reader that is then reset finds the items that it would have found
  -- before, but for the oldest one of a full buffer, and the new item as the last.
  pub contents-reserve :
      (cb : CircularBuffer A) (item : A)
      → IsWritable cb
      → contents (reset_reader (fill (reserve cb) item))
        ≡ keep cb.item_cap cb.item_count (contents (reset_reader cb)) item
  unfolding reserve reset_reader contents_from
  contents-reserve cb item w = elim (Bool-cases (leb cb.item_cap cb.item_count)) [
    | inl e ↦
        rw (e, full_count cb.item_cap cb.item_count e w.count_le)
          (one_out cb.slots item cb.item_cap cb.write w.has_room w.write_le)
    | inr e ↦
        rw e (one_more cb.slots item cb.item_cap cb.write cb.item_count (ground arith) w.write_le)
  ]
