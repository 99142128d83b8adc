-- ===== src/AttributeSet/Bounds.antt =====
-- The count of attributes, a uint16_t, does not wrap: a set has no more attributes than there are
-- ids.
use redis_graph.Prelude.{
  ℕ, ◌+◌, ◌≤◌, ◌<◌, ◌^◌, Bool, true, false, ◌==◌, ltb, Option, none, some, is_some, List, [], ◌∷◌,
  length, ◌≡◌, refl, sym, ap, ◌∙◌, arith, Bool-cases, inl, inr, ==_iff, lt→ltb, ltb→lt,
}
use redis_graph.Prelude.Grid.{
  bit, sum_below, sum_below-balance, sum_below-zero, sum_below-position, sum_below_le,
}
use redis_graph.Value.{Payloads, SiValue}
use redis_graph.AttributeSet.{
  Attribute, AttributeSet, id_none, attributes_of, find, set_allow_null, count, remove_at, remove,
  update, after_update, locate,
}
use redis_graph.AttributeSet.Lists.{IsDistinct}
use redis_graph.AttributeSet.Changes.{IsValid, set_allow_null_lem}

bit_le : (b : Bool) → bit b ≤ 1
bit_le true = omega arith
bit_le false = omega arith

module _ {P : Payloads} where
  abbrev found_bit : List (Attribute P) → ℕ → ℕ
  found_bit xs i = bit (is_some (find i xs))

  one_more :
      (x : Attribute P) (xs : List (Attribute P)) (i : ℕ)
      → find x.id xs ≡ none
      → found_bit (x ∷ xs) i + 0 ≡ bit (x.id == i) + found_bit xs i
  unfolding find
  one_more x xs i e = elim (Bool-cases (x.id == i)) [
    | inl q ↦ rw q (rw (sym (ap (λ k. find k xs) ((==_iff x.id i).0 q)) ∙ e) refl)
    | inr q ↦ rw q (omega arith)
  ]

  tail_below :
      (n : ℕ) (x : Attribute P) (xs : List (Attribute P))
      → find x.id xs ≡ none
      → ((j : ℕ) → n ≤ j → find j (x ∷ xs) ≡ none)
      → (x.id < n) × ((j : ℕ) → n ≤ j → find j xs ≡ none)
  unfolding find
  tail_below n x xs e h = (
    elim (Bool-cases (ltb x.id n)) [
      | inl q ↦ ltb→lt x.id n q
      | inr q ↦ absurd (ground (arith, h x.id))
    ],
    λ j l. ground (arith, h j),
  )

  length-sum :
      (n : ℕ) (xs : List (Attribute P))
      → IsDistinct xs
      → ((j : ℕ) → n ≤ j → find j xs ≡ none)
      → sum_below n (found_bit xs) ≡ length xs
  unfolding find
  length-sum n [] d h = sum_below-zero n (found_bit []) (λ i. refl)
  length-sum n (x ∷ xs) d h =
      let (lt, h') = tail_below n x xs d.0 h in
      omega (
        arith,
        sum_below-balance n (found_bit (x ∷ xs)) (λ i. 0) (λ i. bit (x.id == i)) (found_bit xs)
            (λ i. one_more x xs i d.0),
        sum_below-zero n (λ i. 0) (λ i. refl),
        sum_below-position n x.id ∙ ap bit (lt→ltb x.id n lt),
        length-sum n xs d.1 h',
      )

  -- A set that may be written to stays so.
  after_update_mark :
      (v : SiValue P) (r : Bool × AttributeSet P) (s : AttributeSet P)
      → r.1.read_only ≡ false
      → s.read_only ≡ false
      → (after_update v r s).1.read_only ≡ false
  after_update_mark v (true, s') s h h' = h
  after_update_mark v (false, s') s h h' = h'

  remove_mark :
      (s : AttributeSet P) (id : ℕ) → s.read_only ≡ false → (remove s id).1.read_only ≡ false
  unfolding remove
  remove_mark s id h = at (locate id (attributes_of s.attributes))
    where
      at : (o : Option ℕ) → (remove_at s o).1.read_only ≡ false
      at none = h
      at (some i) = ground arith

  update_mark :
      (s : AttributeSet P) (id : ℕ) (v : SiValue P)
      → s.read_only ≡ false
      → (update s id v).1.read_only ≡ false
  unfolding update
  update_mark s id v h = ground (arith, remove_mark s id)

  set_mark :
      (s : AttributeSet P) (id : ℕ) (v : SiValue P)
      → s.read_only ≡ false
      → (set_allow_null s id v).1.read_only ≡ false
  unfolding set_allow_null
  set_mark s id v h = ground (arith, after_update_mark v (update s id v) s, update_mark s id v)

  -- The set after several attributes were set
  unfoldable pub set_all : AttributeSet P → List (Attribute P) → AttributeSet P
  unfolding set_allow_null
  set_all s [] = s
  set_all s (x ∷ xs) = set_all (set_allow_null s x.id x.value).1 xs

  abbrev pub AreIds : List (Attribute P) → Type 0
  AreIds [] = Unit
  AreIds (x ∷ xs) = (x.id < id_none) × AreIds xs

  set_all-IsValid :
      (s : AttributeSet P) (xs : List (Attribute P))
      → IsValid s
      → s.read_only ≡ false
      → AreIds xs
      → IsValid (set_all s xs)
  unfolding set_all
  set_all-IsValid s [] h w i = h
  set_all-IsValid s (x ∷ xs) h w i =
      set_all-IsValid (set_allow_null s x.id x.value).1 xs
        (set_allow_null_lem s x.id x.value h w i.0).2 (set_mark s x.id x.value w) i.1

  -- From a pointer that is NULL, whatever attributes are set: the set is valid, and the number of
  -- its attributes fits the uint16_t that counts them.
  pub count-set_all :
      (xs : List (Attribute P))
      → AreIds xs
      → IsValid (set_all (record { read_only = false; attributes = none }) xs)
        × (count (set_all (record { read_only = false; attributes = none }) xs) < 2 ^ 16)
  unfolding find
  count-set_all xs i =
      let s : AttributeSet P = set_all (record { read_only = false; attributes = none }) xs in
      let h : IsValid s =
        set_all-IsValid (record { read_only = false; attributes = none }) xs
          (record { distinct = tt; below = λ j l. refl }) refl i in
      (
        h,
        omega (
          arith,
          length-sum id_none (attributes_of s.attributes) h.distinct h.below,
          sum_below_le id_none (found_bit (attributes_of s.attributes))
              (λ j. bit_le (is_some (find j (attributes_of s.attributes)))),
        ),
      )
