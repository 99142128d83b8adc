-- ===== src/ObjectPool/Handed.antt =====
-- The items of a pool that are handed out: none is handed out again before it is deleted.
use redis_graph.Prelude.{
  replicate, get_elem?-append, ℕ, suc, ◌+◌, ◌-◌, ◌*◌, ◌≤◌, ◌<◌, ◌≡◌, ◌∙◌, refl, sym, ap, ◌==◌, ltb,
  leb, Option, none, some, List, [], ◌∷◌, length, get_elem?, length-append, length-replicate,
  length-set, get_elem?-set, in_range, Option-cases, Bool-cases, inl, inr, arith,
}
use redis_graph.Prelude.Grid.{bit, sum_below_lt}
use redis_graph.Arrays.Occurrences.{occurrences}
use redis_graph.DataBlock.Items.{sum_below-occurrences}
use redis_graph.ObjectPool.{
  Slot, ObjectPool, pool_block_cap, block_count_of, add_blocks, with_room, take_item, reuse_item,
  item_from, new, new_item, delete_item,
}

-- How often each item is handed out once one more is, and once one was given back
abbrev pub more : (ℕ → ℕ) → ℕ → ℕ → ℕ
more held x i = bit (x == i) + held i

abbrev pub fewer : (ℕ → ℕ) → ℕ → ℕ → ℕ
fewer held x i = held i - bit (x == i)

module _ {A : Type 0} where
  -- The index in the header of a slot
  abbrev pub id_at : Option (Slot A) → ℕ → ℕ
  id_at none i = i
  id_at (some s) i = s.item_id

  -- `held` tells how often each item is handed out: the items that were ever taken are handed out
  -- once or listed as deleted once, and know their index.
  pub record IsValid (pool : ObjectPool A) (held : ℕ → ℕ) : Type 0 where
    pub cap : pool.item_cap ≡ pool.block_count * pool_block_cap
    pub blocks : 0 < pool.block_count
    pub length_slots : length pool.slots ≡ pool.item_cap
    pub fits : pool.item_count + length pool.deleted_idx ≤ pool.item_cap
    pub shared :
        (i : ℕ)
        → held i + occurrences i pool.deleted_idx
          ≡ bit (ltb i (pool.item_count + length pool.deleted_idx))
    pub numbers :
        (i : ℕ)
        → i < pool.item_count + length pool.deleted_idx
        → id_at (get_elem? pool.slots i) i ≡ i

  module _ (pool : ObjectPool A) (held : ℕ → ℕ) (v : IsValid pool held) where
    abbrev taken : ℕ
    taken = pool.item_count + length pool.deleted_idx

    held_taken : (x : ℕ) → 0 < held x → (x < taken) × (occurrences x pool.deleted_idx ≡ 0)
    held_taken x h = (ground (arith, v.shared x), ground (arith, v.shared x))

    item_count_pos : (x : ℕ) → 0 < held x → 0 < pool.item_count
    item_count_pos x h = omega (
      arith,
      sum_below_lt taken (λ i. occurrences i pool.deleted_idx) x (λ i. ground (arith, v.shared i))
          (held_taken x h).1 (held_taken x h).0,
      sum_below-occurrences taken pool.deleted_idx (λ i l. ground (arith, v.shared i)),
    )

    -- An item that is handed out knows its index.
    slot_held :
        (x : ℕ) → 0 < held x → (s : Slot A) × (get_elem? pool.slots x ≡ some s) × (s.item_id ≡ x)
    slot_held x h = elim (Option-cases (get_elem? pool.slots x)) [
      | inl e ↦
          absurd
            (in_range pool.slots x (omega (arith, (held_taken x h).0, v.fits, v.length_slots)) e)
      | inr (s, e) ↦ (s, e, sym (ap (λ o. id_at o x) e) ∙ v.numbers x (held_taken x h).0)
    ]

    -- An item that is handed out is deleted: it is handed out no more.
    pub delete_item-IsValid : (x : ℕ) → 0 < held x → IsValid (delete_item pool x) (fewer held x)
    unfolding delete_item occurrences
    delete_item-IsValid x h =
        let (s, e, n) = slot_held x h in
        let pos = item_count_pos x h in
        let s' : Slot A = record s { item = pool.destructor s.item } in
        rw e (record {
          cap = v.cap;
          blocks = v.blocks;
          length_slots = length-set pool.slots x s' ∙ v.length_slots;
          fits = omega (arith, pos, v.fits);
          shared = λ i. ground (arith, n, pos, h, v.shared i);
          numbers = λ i l.
              rw (get_elem?-set pool.slots x i s s' e)
                (ground (arith, n, v.numbers i (omega (arith, pos, l))));
        })

    -- The next item that is handed out again is one that was deleted.
    reuse-IsValid :
        (x : ℕ) (rest : List ℕ)
        → pool.deleted_idx ≡ x ∷ rest
        → (held x ≡ 0) × IsValid (reuse_item pool x rest) (more held x)
    unfolding occurrences
    reuse-IsValid x rest d =
        let size : length pool.deleted_idx ≡ suc (length rest) = ap length d in
        let share : (i : ℕ)
            → held i + (bit (x == i) + occurrences i rest)
              ≡ bit (ltb i (pool.item_count + length pool.deleted_idx)) =
          λ i. sym (ap (λ l. held i + occurrences i l) d) ∙ v.shared i in
        let lt : x < taken = ground (arith, share x) in
        elim (Option-cases (get_elem? pool.slots x)) [
          | inl e ↦ absurd (in_range pool.slots x (omega (arith, lt, v.fits, v.length_slots)) e)
          | inr (s, e) ↦
              let s' : Slot A = record s { item = pool.zeroed } in
              let n : s.item_id ≡ x = sym (ap (λ o. id_at o x) e) ∙ v.numbers x lt in
              (
                ground (arith, share x),
                rw e (record {
                  cap = v.cap;
                  blocks = v.blocks;
                  length_slots = length-set pool.slots x s' ∙ v.length_slots;
                  fits = omega (arith, size, v.fits);
                  shared = λ i. ground (arith, size, share i);
                  numbers = λ i l.
                      rw (get_elem?-set pool.slots x i s s' e)
                        (ground (arith, n, v.numbers i (omega (arith, size, l))));
                }),
              )
        ]

    -- An item that was never taken is numbered with its index.
    take-IsValid :
        pool.deleted_idx ≡ []
        → pool.item_count < pool.item_cap
        → (held pool.item_count ≡ 0) × IsValid (take_item pool).1 (more held pool.item_count)
    unfolding occurrences
    take-IsValid d room =
        let size : length pool.deleted_idx ≡ 0 = ap length d in
        elim (Option-cases (get_elem? pool.slots pool.item_count)) [
          | inl e ↦
              absurd (in_range pool.slots pool.item_count (omega (arith, room, v.length_slots)) e)
          | inr (s, e) ↦
              let s' : Slot A = record s { item_id = pool.item_count } in
              (
                ground (arith, size, v.shared pool.item_count),
                rw e (record {
                  cap = v.cap;
                  blocks = v.blocks;
                  length_slots = length-set pool.slots pool.item_count s' ∙ v.length_slots;
                  fits = omega (arith, size, room);
                  shared = λ i. ground (arith, size, v.shared i);
                  numbers = λ i l.
                      rw (get_elem?-set pool.slots pool.item_count i s s' e)
                        (ground (arith, size, v.numbers i));
                }),
              )
        ]

    add_blocks-IsValid : (count : ℕ) → IsValid (add_blocks pool count) held
    unfolding add_blocks
    add_blocks-IsValid count =
        let fresh : List (Slot A) =
          replicate (count * pool_block_cap) (record { item_id = 0; item = pool.zeroed }) in
        let size : length fresh ≡ count * pool_block_cap =
          length-replicate (count * pool_block_cap) _ in
        record {
          cap = refl;
          blocks = omega (arith, v.blocks);
          length_slots = omega (arith, length-append pool.slots fresh, size, v.length_slots, v.cap);
          fits = omega (arith, v.fits, v.cap);
          shared = v.shared;
          numbers = λ i l.
              ap (λ o. id_at o i)
                (get_elem?-append pool.slots fresh i (omega (arith, l, v.fits, v.length_slots)))
              ∙ v.numbers i l;
        }

    -- Where every slot is taken, doubling the capacity makes room.
    with_room-IsValid :
        IsValid (with_room pool) held
        × ((with_room pool).deleted_idx ≡ pool.deleted_idx)
        × ((with_room pool).item_count < (with_room pool).item_cap)
    unfolding with_room add_blocks
    with_room-IsValid = elim (Bool-cases (leb pool.item_cap pool.item_count)) [
      | inl e ↦ rw e (
        add_blocks-IsValid (block_count_of pool.item_cap),
        refl,
        ground (arith, v.cap, v.blocks, v.fits),
      )
      | inr e ↦ rw e (v, refl, ground (arith, e))
    ]

  item_from-IsValid :
      (pool : ObjectPool A) (held : ℕ → ℕ)
      → IsValid pool held
      → (ds : List ℕ) → pool.deleted_idx ≡ ds
      → (held (item_from pool ds).0 ≡ 0)
        × IsValid (item_from pool ds).1 (more held (item_from pool ds).0)
  item_from-IsValid pool held v [] d =
      let (w, e, r) = with_room-IsValid pool held v in
      take-IsValid (with_room pool) held w (e ∙ d) r
  item_from-IsValid pool held v (x ∷ rest) d = reuse-IsValid pool held v x rest d

  -- A new item of a valid pool is not handed out already; then it is, and the pool is valid.
  pub new_item-IsValid :
      (pool : ObjectPool A) (held : ℕ → ℕ)
      → IsValid pool held
      → (held (new_item pool).0 ≡ 0) × IsValid (new_item pool).1 (more held (new_item pool).0)
  unfolding new_item
  new_item-IsValid pool held v = item_from-IsValid pool held v pool.deleted_idx refl

  -- A pool that was just made has handed out nothing.
  pub new-IsValid :
      (item_cap : ℕ) (zeroed : A) (destructor : A → A)
      → 0 < item_cap
      → IsValid (new item_cap zeroed destructor) (λ i. 0)
  unfolding new add_blocks occurrences
  new-IsValid item_cap zeroed destructor pos = record {
    cap = refl;
    blocks = omega (arith, pos);
    length_slots = omega (
      arith,
      length-replicate {A = Slot A} (block_count_of item_cap * pool_block_cap)
          (record { item_id = 0; item = zeroed }),
    );
    fits = omega arith;
    shared = λ i. ground arith;
    numbers = λ i l. absurd (omega (arith, l));
  }
