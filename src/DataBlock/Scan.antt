-- ===== src/DataBlock/Scan.antt =====
-- src/util/datablock/datablock_iterator.c: the iterator over a data block. The slots from the
-- current block and position on are one list.
use redis_graph.Prelude.{
  ℕ, zero, suc, ◌+◌, ◌≤◌, ◌≡◌, refl, ap, ◌∙◌, sym, not, ◌&&◌, List, [], ◌∷◌, Option, none, some,
  length, ltb, if◌then◌else◌, arith, Bool-cases, inl, inr,
}
use redis_graph.Prelude.Grid.{bit, sum_below, sum_below-balance, sum_below-zero}
use redis_graph.Arrays.Occurrences.{occurrences}
use redis_graph.DataBlock.{Slot, DataBlock}
use redis_graph.DataBlock.Valid.{IsValid, deleted_at}
use redis_graph.DataBlock.Items.{sum_below-occurrences}

-- struct DataBlockIterator
pub record Iterator {ℓ} (A : Type ℓ) : Type ℓ where
  pub rest : List (Slot A)
  pub current_pos : ℕ
  pub end_pos : ℕ

sum_below-suc : (n : ℕ) (f : ℕ → ℕ) → sum_below (suc n) f ≡ f 0 + sum_below n (λ i. f (suc i))
unfolding sum_below
sum_below-suc zero f = omega arith
sum_below-suc (suc n) f = omega (arith, sum_below-suc n f)

module _ {ℓ} {A : Type ℓ} where
  abbrev pub at_pos : List (Slot A) → ℕ → ℕ → Iterator A
  at_pos rest pos end_pos = record { rest = rest; current_pos = pos; end_pos = end_pos }

  -- DataBlock_Scan
  abbrev pub scan : DataBlock A → Iterator A
  scan db = at_pos db.slots 0 (db.item_count + length db.deleted_idx)

  -- The loop of DataBlockIterator_Next: the item with its index, and the iterator after it.
  pub next_from : List (Slot A) → ℕ → ℕ → Option (ℕ × A) × Iterator A
  next_from [] pos end_pos = (none, at_pos [] pos end_pos)
  next_from (s ∷ rest) pos end_pos =
      let later = next_from rest (suc pos) end_pos in
      if not (ltb pos end_pos)
      then (none, at_pos (s ∷ rest) pos end_pos)
      else if s.deleted
      then later
      else (some (pos, s.item), at_pos rest (suc pos) end_pos)

  -- DataBlockIterator_Next
  abbrev pub next : Iterator A → Option (ℕ × A) × Iterator A
  unfolding next_from
  next iter = next_from iter.rest iter.current_pos iter.end_pos

  -- The items that a caller sees who asks for the next one until there is none, or `n` times.
  pub drain : ℕ → Iterator A → List (ℕ × A)
  drain zero iter = []
  drain (suc n) iter =
      let (found, after) = next iter in
      let later = drain n after in elim found [ none ↦ [] | some item ↦ item ∷ later ]

  -- The items below an index that are not deleted, with their indices.
  pub live_items : List (Slot A) → ℕ → ℕ → List (ℕ × A)
  live_items [] pos end_pos = []
  live_items (s ∷ rest) pos end_pos =
      let later = live_items rest (suc pos) end_pos in
      if ltb pos end_pos && not s.deleted then (pos, s.item) ∷ later else later

  live_items_past :
      (rest : List (Slot A)) (pos end_pos : ℕ) → end_pos ≤ pos → live_items rest pos end_pos ≡ []
  unfolding live_items
  live_items_past [] pos end_pos h = refl
  live_items_past (s ∷ rest) pos end_pos h =
      ground (arith, live_items_past rest (suc pos) end_pos (omega arith))

  drain_of_next : (n : ℕ) (it it' : Iterator A) → next it ≡ next it' → drain n it ≡ drain n it'
  unfolding drain
  drain_of_next zero it it' h = refl
  drain_of_next (suc n) it it' h =
      ap (λ r. elim r.0 [ none ↦ [] | some item ↦ item ∷ drain n r.1 ]) h

  pub drain_lem :
      (n : ℕ) (rest : List (Slot A)) (pos end_pos : ℕ)
      → length rest ≤ n
      → drain n (at_pos rest pos end_pos) ≡ live_items rest pos end_pos
  unfolding drain live_items next_from
  drain_lem zero [] pos end_pos h = refl
  drain_lem (suc n) [] pos end_pos h = refl
  drain_lem zero (s ∷ rest) pos end_pos h = absurd (omega arith)
  drain_lem (suc n) (s ∷ rest) pos end_pos h = elim (Bool-cases (ltb pos end_pos)) [
    | inl e ↦ elim (Bool-cases s.deleted) [
      | inl d ↦
          drain_of_next (suc n) (at_pos (s ∷ rest) pos end_pos) (at_pos rest (suc pos) end_pos)
            (ground (arith, e, d))
          ∙ drain_lem (suc n) rest (suc pos) end_pos (omega arith)
          ∙ ground (arith, e, d)
      | inr d ↦
          let found : next (at_pos (s ∷ rest) pos end_pos)
              ≡ (some (pos, s.item), at_pos rest (suc pos) end_pos) =
            ground (arith, e, d) in
          ap (λ r. elim r.0 [ none ↦ [] | some item ↦ item ∷ drain n r.1 ]) found
          ∙ ap (λ l. (pos, s.item) ∷ l) (drain_lem n rest (suc pos) end_pos (omega arith))
          ∙ ground (arith, e, d)
    ]
    | inr e ↦
        let ended : next (at_pos (s ∷ rest) pos end_pos) ≡ (none, at_pos (s ∷ rest) pos end_pos) =
          ground (arith, e) in
        ap (λ r. elim r.0 [ none ↦ [] | some item ↦ item ∷ drain n r.1 ]) ended
        ∙ sym (live_items_past (s ∷ rest) pos end_pos (ground (arith, e)))
  ]

  length-live_items :
      (rest : List (Slot A)) (pos k : ℕ)
      → k ≤ length rest
      → length (live_items rest pos (pos + k)) + sum_below k (λ i. bit (deleted_at rest i)) ≡ k
  unfolding live_items sum_below
  length-live_items rest pos zero h =
      omega (arith, ap length (live_items_past rest pos (pos + 0) (omega arith)))
  length-live_items [] pos (suc k) h = absurd (omega arith)
  length-live_items (s ∷ rest) pos (suc k) h =
      let shift : pos + suc k ≡ suc pos + k = omega arith in
      ground (
        arith,
        length-live_items rest (suc pos) k (omega arith),
        ap (λ m. length (live_items rest (suc pos) m)) shift,
        sum_below-suc k (λ i. bit (deleted_at (s ∷ rest) i)),
      )

-- On a valid data block, and asked at least as often as there are slots, an iterator yields the
-- items that are not deleted, in the order of their indices; it yields as many as the block counts.
pub drain-scan {ℓ} :
    {A : Type ℓ} (db : DataBlock A) (n : ℕ)
    → IsValid db
    → length db.slots ≤ n
    → (drain n (scan db) ≡ live_items db.slots 0 (db.item_count + length db.deleted_idx))
      × (length (drain n (scan db)) ≡ db.item_count)
drain-scan db n v h =
    let used : ℕ = db.item_count + length db.deleted_idx in
    let from_zero : 0 + used ≡ used = omega arith in
    let all : drain n (scan db) ≡ live_items db.slots 0 used = drain_lem n db.slots 0 used h in
    (
      all,
      ap length all
          ∙ omega (
            arith,
            length-live_items db.slots 0 used (omega (arith, v.fits, v.length_slots)),
            ap (λ m. length (live_items db.slots 0 m)) from_zero,
            sum_below-occurrences used db.deleted_idx
                (λ i l. ground (arith, v.listed i, v.fresh i l)),
            sum_below-balance used (λ i. bit (deleted_at db.slots i)) (λ i. 0)
                (λ i. occurrences i db.deleted_idx) (λ i. 0) (λ i. omega (arith, v.listed i)),
            sum_below-zero used (λ i. 0) (λ i. refl),
          ),
    )
