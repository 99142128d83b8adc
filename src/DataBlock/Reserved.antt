-- ===== src/DataBlock/Reserved.antt =====
-- DataBlock_AllocateItem, and the indices of DataBlock_GetReservedIdx.
use redis_graph.Prelude.{
  ℕ, zero, suc, ◌+◌, ◌^◌, ◌≤◌, ◌<◌, ◌≡◌, refl, true, false, List, [], ◌∷◌, none, some, length,
  get_elem?, leb, ◌==◌, if◌then◌else◌, arith, Bool-cases, inl, inr, ◌⊎◌, sym, ◌∙◌, ap,
}
use redis_graph.Prelude.Grid.{bit}
use redis_graph.Arrays.Occurrences.{occurrences}
use redis_graph.DataBlock.{
  DataBlock, add_blocks, make_room, allocate_item, next_pos, popped, take_slot, get_reserved_idx,
}
use redis_graph.DataBlock.Valid.{
  IsValid, deleted_at, deleted_at_lt, deleted_at-mark, length-mark, make_room-IsValid,
  make_room-fits,
}

pub List-cases {ℓ} :
    {A : Type ℓ} (xs : List A) → (xs ≡ []) ⊎ ((x : A) × (rest : List A) × (xs ≡ x ∷ rest))
List-cases [] = inl refl
List-cases (x ∷ xs) = inr (x, xs, refl)

-- Every index fits a `uint`.
abbrev pub IsNarrow {ℓ} : {A : Type ℓ} → DataBlock A → Type 0
IsNarrow db = db.item_cap ≤ 2 ^ 32

module _ {ℓ} {A : Type ℓ} (db : DataBlock A) (v : IsValid db) where
  -- Room for one more item.
  abbrev HasRoom : Type 0
  HasRoom = db.item_count < db.item_cap

  pub listed_lt : (i : ℕ) → 0 < occurrences i db.deleted_idx → deleted_at db.slots i ≡ true
  listed_lt i h = ground (arith, v.listed i)

  listed_head : (x : ℕ) (rest : List ℕ) → db.deleted_idx ≡ x ∷ rest → deleted_at db.slots x ≡ true
  unfolding occurrences
  listed_head x rest e = listed_lt x (rw e (ground arith))

  -- An allocation takes the index after the last slot that was used, or the one deleted last.
  pub next_pos-cases :
      HasRoom
      → IsNarrow db
      → ((db.deleted_idx ≡ []) × (next_pos db ≡ db.item_count))
        ⊎ ((rest : List ℕ) × (db.deleted_idx ≡ next_pos db ∷ rest))
  next_pos-cases room narrow = elim (List-cases db.deleted_idx) [
    | inl e ↦ inl (e, rw e (omega arith))
    | inr (x, rest, e) ↦
        let small = deleted_at_lt db.slots x (listed_head x rest e) in
        let pos : next_pos db ≡ x = rw e (omega (arith, small, v.length_slots, narrow)) in
        inr (rest, e ∙ ap (λ y. y ∷ rest) (sym pos))
  ]

  pub next_pos_lt : HasRoom → IsNarrow db → next_pos db < length db.slots
  next_pos_lt room narrow = elim (next_pos-cases room narrow) [
    | inl (e, p) ↦ omega (arith, p, room, v.length_slots)
    | inr (rest, e) ↦ deleted_at_lt db.slots (next_pos db) (listed_head (next_pos db) rest e)
  ]

  -- The index is no longer listed.
  occurrences-popped :
      HasRoom
      → IsNarrow db
      → (j : ℕ)
      → occurrences j (popped db.deleted_idx)
        ≡ bit (if next_pos db == j then false else deleted_at db.slots j)
  unfolding occurrences
  occurrences-popped room narrow j = elim (next_pos-cases room narrow) [
    | inl (e, p) ↦
        ground (arith, v.listed j, ap (occurrences j) e, ap (λ d. occurrences j (popped d)) e)
    | inr (rest, e) ↦
        ground (arith, v.listed j, ap (occurrences j) e, ap (λ d. occurrences j (popped d)) e)
  ]

  used_le :
      HasRoom
      → IsNarrow db
      → db.item_count + length db.deleted_idx ≤ db.item_count + 1 + length (popped db.deleted_idx)
  used_le room narrow = elim (List-cases db.deleted_idx) [
    | inl e ↦ rw e (omega arith)
    | inr (x, rest, e) ↦ rw e (omega arith)
  ]

  used_fits : HasRoom → db.item_count + 1 + length (popped db.deleted_idx) ≤ db.item_cap
  used_fits room = elim (List-cases db.deleted_idx) [
    | inl e ↦ rw e (omega (arith, room))
    | inr (x, rest, e) ↦ omega (arith, v.fits, ap length e, ap (λ d. length (popped d)) e)
  ]

  pub take_slot-IsValid : HasRoom → IsNarrow db → IsValid (take_slot db).1
  take_slot-IsValid room narrow = record {
    cap_pos = v.cap_pos;
    cap = v.cap;
    length_slots = length-mark false db.slots (next_pos db) ∙ v.length_slots;
    fits = used_fits room;
    listed = λ j.
        occurrences-popped room narrow j
        ∙ ap bit (sym (deleted_at-mark false db.slots (next_pos db) j (next_pos_lt room narrow)));
    fresh = λ j h. ground (
      arith,
      deleted_at-mark false db.slots (next_pos db) j (next_pos_lt room narrow),
      v.fresh j,
      used_le room narrow,
    );
  }

  reserved-zero : HasRoom → IsNarrow db → get_reserved_idx db 0 ≡ next_pos db
  unfolding get_reserved_idx
  reserved-zero room narrow = elim (next_pos-cases room narrow) [
    | inl (e, p) ↦
        omega (arith, p, ap (λ d. elim (get_elem? d 0) [ some i ↦ i | none ↦ db.item_count + 0 ]) e)
    | inr (rest, e) ↦ ap (λ d. elim (get_elem? d 0) [ some i ↦ i | none ↦ db.item_count + 0 ]) e
  ]

  reserved-suc : (n : ℕ) → get_reserved_idx db (suc n) ≡ get_reserved_idx (take_slot db).1 n
  unfolding get_reserved_idx
  reserved-suc n = elim (List-cases db.deleted_idx) [
    | inl e ↦ rw e (omega arith)
    | inr (x, rest, e) ↦
        let shift : db.item_count + suc n ≡ db.item_count + 1 + n = omega arith in
        rw e (ap (λ m. elim (get_elem? rest n) [ some i ↦ i | none ↦ m ]) shift)
  ]

-- An allocation keeps the invariant of a data block, where indices fit the `uint` that holds them.
pub allocate_item-IsValid {ℓ} :
    {A : Type ℓ} (db : DataBlock A)
    → IsValid db
    → IsNarrow (make_room db)
    → IsValid (allocate_item db).1
unfolding allocate_item
allocate_item-IsValid db v narrow =
    take_slot-IsValid (make_room db) (make_room-IsValid db v) (make_room-fits db v) narrow

reserved-make_room {ℓ} :
    {A : Type ℓ} (db : DataBlock A) (n : ℕ)
    → get_reserved_idx (make_room db) n ≡ get_reserved_idx db n
unfolding make_room add_blocks get_reserved_idx
reserved-make_room db n = elim (Bool-cases (leb db.item_cap db.item_count)) [
  | inl e ↦ rw e refl
  | inr e ↦ rw e refl
]

-- The result of `n` more allocations.
pub allocated {ℓ} : {A : Type ℓ} → ℕ → DataBlock A → DataBlock A
allocated zero db = db
allocated (suc n) db = allocated n (allocate_item db).1

-- No allocation among the first `n` and the one after them leaves an index without a `uint`.
unfoldable pub StaysNarrow {ℓ} : {A : Type ℓ} → ℕ → DataBlock A → Type 0
StaysNarrow zero db = IsNarrow (make_room db)
StaysNarrow (suc n) db = IsNarrow (make_room db) × StaysNarrow n (allocate_item db).1

-- In a valid block whose indices fit a `uint`, the index that is reserved for the allocation after
-- `n` others is the index that this allocation takes.
pub get_reserved_idx-allocated {ℓ} :
    {A : Type ℓ} (n : ℕ) (db : DataBlock A)
    → IsValid db
    → StaysNarrow n db
    → get_reserved_idx db n ≡ (allocate_item (allocated n db)).0
unfolding allocate_item allocated StaysNarrow
get_reserved_idx-allocated zero db v narrow =
    sym (reserved-make_room db 0)
    ∙ reserved-zero (make_room db) (make_room-IsValid db v) (make_room-fits db v) narrow
get_reserved_idx-allocated (suc n) db v narrow =
    sym (reserved-make_room db (suc n))
    ∙ reserved-suc (make_room db) (make_room-IsValid db v) n
    ∙ get_reserved_idx-allocated n (allocate_item db).1 (allocate_item-IsValid db v narrow.0)
        narrow.1
