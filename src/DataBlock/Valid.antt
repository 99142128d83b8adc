-- ===== src/DataBlock/Valid.antt =====
-- The invariant of a data block, and how blocks that are added keep it: an index is listed as
-- deleted once where its slot is marked so.
use redis_graph.Prelude.{
  ℕ, zero, suc, ◌+◌, ◌*◌, ◌≤◌, ◌<◌, ◌≡◌, refl, Bool, true, false, List, [], ◌∷◌, ◌++◌, Option, none,
  some, length, get_elem?, set, replicate, leb, ◌==◌, if◌then◌else◌, arith, length-append,
  length-replicate, length-set, Option-cases, inl, inr,
}
use redis_graph.Prelude.Grid.{bit}
use redis_graph.Arrays.Occurrences.{occurrences}
use redis_graph.DataBlock.{
  Slot, fresh_slot, without_blocks, item_count_to_block_count, DataBlock, add_blocks, new,
  make_room, mark,
}

module _ {ℓ} {A : Type ℓ} where
  abbrev pub is_deleted : Option (Slot A) → Bool
  is_deleted none = false
  is_deleted (some s) = s.deleted

  abbrev pub deleted_at : List (Slot A) → ℕ → Bool
  deleted_at slots i = is_deleted (get_elem? slots i)

  pub record IsValid (db : DataBlock A) : Type 0 where
    pub cap_pos : 0 < db.block_cap
    pub cap : db.item_cap ≡ db.block_count * db.block_cap
    pub length_slots : length db.slots ≡ db.item_cap
    pub fits : db.item_count + length db.deleted_idx ≤ db.item_cap
    pub listed : (i : ℕ) → occurrences i db.deleted_idx ≡ bit (deleted_at db.slots i)
    -- The slots that were never allocated are not marked.
    pub fresh : (i : ℕ) → db.item_count + length db.deleted_idx ≤ i → deleted_at db.slots i ≡ false

  deleted_at-replicate : (n i : ℕ) (a : A) → deleted_at (replicate n (fresh_slot a)) i ≡ false
  deleted_at-replicate zero i a = refl
  deleted_at-replicate (suc n) zero a = refl
  deleted_at-replicate (suc n) (suc i) a = deleted_at-replicate n i a

  deleted_at-append :
      (xs : List (Slot A)) (n i : ℕ) (a : A)
      → deleted_at (xs ++ replicate n (fresh_slot a)) i ≡ deleted_at xs i
  deleted_at-append [] n i a = deleted_at-replicate n i a
  deleted_at-append (x ∷ xs) n zero a = refl
  deleted_at-append (x ∷ xs) n (suc i) a = deleted_at-append xs n i a

  pub add_blocks-IsValid : (db : DataBlock A) (n : ℕ) → IsValid db → IsValid (add_blocks db n)
  unfolding add_blocks
  add_blocks-IsValid db n v = record {
    cap_pos = v.cap_pos;
    cap = refl;
    length_slots = omega (
      arith,
      v.length_slots,
      v.cap,
      length-append db.slots (replicate (n * db.block_cap) (fresh_slot db.zeroed)),
      length-replicate (n * db.block_cap) (fresh_slot db.zeroed),
    );
    fits = omega (arith, v.fits, v.cap);
    listed = λ i. rw (deleted_at-append db.slots (n * db.block_cap) i db.zeroed) (v.listed i);
    fresh = λ i h. rw (deleted_at-append db.slots (n * db.block_cap) i db.zeroed) (v.fresh i h);
  }

  -- A new block of any capacity is valid, where a block holds items.
  pub new-IsValid :
      (block_cap item_cap : ℕ) (zeroed : A) (destructor : A → A)
      → 0 < block_cap
      → IsValid (new block_cap item_cap zeroed destructor)
  unfolding new occurrences
  new-IsValid block_cap item_cap zeroed destructor h =
      add_blocks-IsValid (without_blocks block_cap zeroed destructor)
        (item_count_to_block_count item_cap block_cap)
        (record {
          cap_pos = h;
          cap = omega arith;
          length_slots = refl;
          fits = omega arith;
          listed = λ i. refl;
          fresh = λ i l. refl;
        })

  pub make_room-IsValid : (db : DataBlock A) → IsValid db → IsValid (make_room db)
  unfolding make_room
  make_room-IsValid db v =
      elim (leb db.item_cap db.item_count) as (λ b. IsValid (if b then add_blocks db 1 else db)) [
        | true ↦ add_blocks-IsValid db 1 v
        | false ↦ v
      ]

  -- After an allocation made room, the items that are listed as deleted and a new one fit.
  pub make_room-fits :
      (db : DataBlock A) → IsValid db → (make_room db).item_count < (make_room db).item_cap
  unfolding make_room add_blocks
  make_room-fits db v = ground (arith, v.cap_pos, v.cap, v.fits)

  pub deleted_at_lt : (slots : List (Slot A)) (i : ℕ) → deleted_at slots i ≡ true → i < length slots
  deleted_at_lt [] i h = absurd (ground arith)
  deleted_at_lt (x ∷ xs) zero h = omega arith
  deleted_at_lt (x ∷ xs) (suc i) h = omega (arith, deleted_at_lt xs i h)

  pub deleted_at-set :
      (slots : List (Slot A)) (i j : ℕ) (s : Slot A)
      → i < length slots
      → deleted_at (set slots i s) j ≡ (if i == j then s.deleted else deleted_at slots j)
  deleted_at-set [] i j s h = absurd (omega arith)
  deleted_at-set (x ∷ xs) zero zero s h = ground arith
  deleted_at-set (x ∷ xs) zero (suc j) s h = ground arith
  deleted_at-set (x ∷ xs) (suc i) zero s h = ground arith
  deleted_at-set (x ∷ xs) (suc i) (suc j) s h =
      ground (arith, deleted_at-set xs i j s (omega arith))

  pub get_elem?-some :
      (slots : List (Slot A)) (i : ℕ)
      → i < length slots
      → (s : Slot A) × (get_elem? slots i ≡ some s)
  get_elem?-some [] i h = absurd (omega arith)
  get_elem?-some (x ∷ xs) zero h = (x, refl)
  get_elem?-some (x ∷ xs) (suc i) h = get_elem?-some xs i (omega arith)

  pub deleted_at-mark :
      (b : Bool) (slots : List (Slot A)) (i j : ℕ)
      → i < length slots
      → deleted_at (mark b slots i) j ≡ (if i == j then b else deleted_at slots j)
  deleted_at-mark b slots i j h =
      let (s, e) = get_elem?-some slots i h in rw e (deleted_at-set slots i j _ h)

  pub length-mark :
      (b : Bool) (slots : List (Slot A)) (i : ℕ) → length (mark b slots i) ≡ length slots
  length-mark b slots i = elim (Option-cases (get_elem? slots i)) [
    | inl e ↦ rw e refl
    | inr (s, e) ↦ rw e (length-set slots i _)
  ]
