-- ===== src/DataBlock/Items.antt =====
-- DataBlock_DeleteItem, and what DataBlock_GetItem finds.
use redis_graph.Prelude.{
  get_elem?-set, leb, ℕ, ◌+◌, ◌-◌, ◌≤◌, ◌<◌, ◌≡◌, ◌≢◌, refl, true, false, List, [], ◌∷◌, some,
  length, get_elem?, set, ◌==◌, if◌then◌else◌, arith, length-set, Bool-cases, inl, inr, ==_iff, ◌∙◌,
  ap,
}
use redis_graph.Prelude.Grid.{
  bit, sum_below, sum_below-balance, sum_below-zero, sum_below-position, sum_below_lt,
}
use redis_graph.Arrays.Occurrences.{occurrences}
use redis_graph.DataBlock.{
  Slot, DataBlock, missing, beyond, get_item, fetched, delete_item, destroyed,
}
use redis_graph.DataBlock.Valid.{IsValid, deleted_at, get_elem?-some, deleted_at-set}

-- A list of numbers below a bound is as long as its counts sum up to.
pub sum_below-occurrences :
    (n : ℕ) (xs : List ℕ)
    → ((i : ℕ) → n ≤ i → occurrences i xs ≡ 0)
    → sum_below n (λ i. occurrences i xs) ≡ length xs
unfolding occurrences
sum_below-occurrences n [] h = sum_below-zero n _ (λ i. refl)
sum_below-occurrences n (x ∷ xs) h = ground (
  arith,
  sum_below-position n x,
  sum_below-occurrences n xs (λ i l. ground (arith, h i l)),
  h x,
  sum_below-balance n (λ i. bit (x == i) + occurrences i xs) (λ i. 0) (λ i. bit (x == i))
      (λ i. occurrences i xs) (λ i. omega arith),
  sum_below-zero n (λ i. 0) (λ i. refl),
)

module _ {ℓ} {A : Type ℓ} (db : DataBlock A) (v : IsValid db) (idx : ℕ) where
  -- Where a slot holds an item, items are counted.
  item_count_pos :
      idx < db.item_count + length db.deleted_idx
      → deleted_at db.slots idx ≡ false
      → 0 < db.item_count
  item_count_pos l live = omega (
    arith,
    sum_below_lt (db.item_count + length db.deleted_idx) (λ i. occurrences i db.deleted_idx) idx
        (λ i. ground (arith, v.listed i)) (ground (arith, v.listed idx)) l,
    sum_below-occurrences (db.item_count + length db.deleted_idx) db.deleted_idx
        (λ i h. ground (arith, v.listed i, v.fresh i h)),
  )

  -- The slot of an item is marked and listed.
  deleted-IsValid :
      (s : Slot A)
      → idx < db.item_count + length db.deleted_idx
      → deleted_at db.slots idx ≡ false
      → IsValid record db {
        item_count = db.item_count - 1;
        deleted_idx = idx ∷ db.deleted_idx;
        slots = set db.slots idx (record { deleted = true; item = db.destructor s.item });
      }
  unfolding occurrences
  deleted-IsValid s l live = record {
    cap_pos = v.cap_pos;
    cap = v.cap;
    length_slots = length-set db.slots idx _ ∙ v.length_slots;
    fits = omega (arith, v.fits, item_count_pos l live);
    listed = λ i. ground (
      arith,
      v.listed i,
      live,
      deleted_at-set db.slots idx i (record { deleted = true; item = db.destructor s.item })
          (omega (arith, l, v.fits, v.length_slots)),
    );
    fresh = λ i h. ground (
      arith,
      v.fresh i,
      item_count_pos l live,
      deleted_at-set db.slots idx i (record { deleted = true; item = db.destructor s.item })
          (omega (arith, l, v.fits, v.length_slots)),
    );
  }

  -- A deletion keeps the invariant of a data block, at any index that was allocated, whether its
  -- item is deleted already or not.
  pub delete_item-IsValid :
      idx < db.item_count + length db.deleted_idx → IsValid (delete_item db idx)
  unfolding delete_item
  delete_item-IsValid l =
      let (s, e) = get_elem?-some db.slots idx (omega (arith, l, v.fits, v.length_slots)) in
      let at : deleted_at db.slots idx ≡ s.deleted = rw e refl in
      rw e
        elim (Bool-cases s.deleted) [ inl d ↦ rw d v | inr d ↦ rw d (deleted-IsValid s l (at ∙ d)) ]

  fetched_after :
      (s : Slot A) (j : ℕ)
      → get_elem? db.slots idx ≡ some s
      → idx < length db.slots
      → fetched (get_elem? (destroyed db (some s) idx).slots j)
        ≡ (if idx == j then missing else fetched (get_elem? db.slots j))
  fetched_after s j e l = elim (Bool-cases s.deleted) [
    | inl d ↦ rw d (ground (arith, e, d, ==_iff idx j))
    | inr d ↦ rw d (
        ground (
          arith,
          get_elem?-set db.slots idx j s (record { deleted = true; item = db.destructor s.item }) e,
        ))
  ]

  -- As many indices were allocated after a deletion as before it.
  same_bound :
      (s : Slot A)
      → deleted_at db.slots idx ≡ s.deleted
      → idx < db.item_count + length db.deleted_idx
      → (destroyed db (some s) idx).item_count + length (destroyed db (some s) idx).deleted_idx
        ≡ db.item_count + length db.deleted_idx
  same_bound s at l = elim (Bool-cases s.deleted) [
    | inl d ↦ rw d refl
    | inr d ↦ rw d (omega (arith, item_count_pos l (at ∙ d)))
  ]

  -- In a valid data block, a deleted item is not found, and every other index finds what it found
  -- before, in bounds or not; the index deleted is one that was allocated.
  pub get_item-delete_item :
      idx < db.item_count + length db.deleted_idx
      → (j : ℕ) → get_item (delete_item db idx) j ≡ (if idx == j then missing else get_item db j)
  unfolding delete_item get_item
  get_item-delete_item l j =
      let inside : idx < length db.slots = omega (arith, l, v.fits, v.length_slots) in
      let (s, e) = get_elem?-some db.slots idx inside in
      let at : deleted_at db.slots idx ≡ s.deleted = rw e refl in
      rw (e, same_bound s at l) (ground (arith, fetched_after s j e inside))

  -- No read of a valid data block leaves its blocks.
  pub get_item_inside : (j : ℕ) → get_item db j ≢ beyond
  unfolding get_item
  get_item_inside j h = elim (Bool-cases (leb (db.item_count + length db.deleted_idx) j)) [
    | inl c ↦ ground (arith, h, c)
    | inr c ↦
        let (s, e) = get_elem?-some db.slots j (ground (arith, c, v.fits, v.length_slots)) in
        elim (Bool-cases s.deleted) [
          | inl d ↦ ground (arith, h, c, ap fetched e, d)
          | inr d ↦ ground (arith, h, c, ap fetched e, d)
        ]
  ]
