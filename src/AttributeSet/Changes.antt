-- ===== src/AttributeSet/Changes.antt =====
-- What an attribute set holds after a change, and which change is reported.
use redis_graph.Prelude.{
  ℕ, suc, ◌≤◌, ◌<◌, Bool, true, false, ◌==◌, if◌then◌else◌, Option, none, some, is_some, List, [],
  ◌∷◌, length, ◌≡◌, refl, sym, ap, ◌∙◌, arith, Bool-cases, Option-cases, inl, inr, ==_iff,
}
use mathlib.Core.Path.{subst}
use redis_graph.Value.{Payloads, SiValue, is_null}
use redis_graph.AttributeSet.{
  Attribute, AttributeSet, ChangeType, no_change, added, updated, deleted, id_none, attributes_of,
  find, get, locate, overwrite, remove, update, set_allow_null, same, after_update,
}
use redis_graph.AttributeSet.Lists.{
  IsDistinct, find-append, append-IsDistinct, find-write, write-IsDistinct, overwrite_lem,
  is_some-locate,
}

two-not_one : (n : ℕ) → (suc (suc n) == 1) ≡ false
two-not_one n = ground arith

apart : (id j : ℕ) → id < id_none → id_none ≤ j → (id == j) ≡ false
apart id j lt l = ground arith

module _ {P : Payloads} where
  -- The value that a set holds once `v` was set over what it held, and the change that this is
  abbrev pub stored : Option (SiValue P) → SiValue P → Option (SiValue P)
  stored none v = if is_null v then none else some v
  stored (some old) v = if is_null v then none else if same old v then some old else some v

  abbrev pub change : Option (SiValue P) → SiValue P → ChangeType
  change none v = if is_null v then no_change else added
  change (some old) v = if is_null v then deleted else if same old v then no_change else updated

  abbrev writable : Option (List (Attribute P)) → AttributeSet P
  writable o = record { read_only = false; attributes = o }

  -- What is left of a list that an id is removed from
  abbrev IsRemoved : ℕ → List (Attribute P) → Bool × AttributeSet P → Type 0
  IsRemoved id xs r =
      (r.0 ≡ true)
      × IsDistinct (attributes_of r.1.attributes)
      × ((j : ℕ) → find j (attributes_of r.1.attributes) ≡ (if id == j then none else find j xs))

  remove_located :
      (xs : List (Attribute P)) (id i : ℕ)
      → locate id xs ≡ some i
      → remove (writable (some xs)) id
        ≡ (true, if length xs == 1 then writable none else writable (some (overwrite xs i)))
  unfolding remove
  remove_located xs id i e = rw (e, remove) refl

  located :
      (id : ℕ) (xs : List (Attribute P))
      → is_some (find id xs) ≡ true
      → (i : ℕ) × (locate id xs ≡ some i)
  located id xs p = elim (Option-cases (locate id xs)) [
    | inl e ↦ absurd (none_not (sym (is_some-locate id xs ∙ p) ∙ ap is_some e))
    | inr (i, e) ↦ (i, e)
  ]
    where
      none_not : true ≡ false → ⊥
      none_not e = ground arith

  only_one :
      (id j : ℕ) (x : Attribute P)
      → is_some (find id (x ∷ [])) ≡ true
      → none ≡ (if id == j then none else find j (x ∷ []))
  unfolding find
  only_one id j x p = ground arith

  remove_of :
      (o : Option (List (Attribute P))) (id : ℕ)
      → IsDistinct (attributes_of o)
      → is_some (find id (attributes_of o)) ≡ true
      → IsRemoved id (attributes_of o) (remove (writable o) id)
  unfolding remove find
  remove_of none id d p = ground arith
  remove_of (some []) id d p = ground arith
  remove_of (some (x ∷ [])) id d p =
      let (i, e) = located id (x ∷ []) p in
      rw (remove_located (x ∷ []) id i e) (refl, tt, λ j. only_one id j x p)
  remove_of (some (x ∷ y ∷ ys)) id d p =
      let (i, e) = located id (x ∷ y ∷ ys) p in
      let (d', f) = overwrite_lem id i x (y ∷ ys) d e in
      rw (remove_located (x ∷ y ∷ ys) id i e, two-not_one (length ys)) (refl, d', f)

  -- A set of distinct attributes after a change of one, at the list of what it held
  abbrev IsChanged : ℕ → SiValue P → List (Attribute P) → ChangeType × AttributeSet P → Type 0
  IsChanged id v xs r =
      (r.0 ≡ change (find id xs) v)
      × IsDistinct (attributes_of r.1.attributes)
      × ((j : ℕ)
          → find j (attributes_of r.1.attributes)
            ≡ (if id == j then stored (find id xs) v else find j xs))

  after_change :
      (v : SiValue P) (r : Bool × AttributeSet P) (s : AttributeSet P)
      → r.0 ≡ true
      → after_update v r s ≡ (if is_null v then deleted else updated, r.1)
  after_change v (true, s') s h = refl
  after_change v (false, s') s h = ground arith

  unchanged :
      (id j : ℕ) (xs : List (Attribute P)) {o : Option (SiValue P)}
      → find id xs ≡ o
      → find j xs ≡ (if id == j then o else find j xs)
  unchanged id j xs e = elim (Bool-cases (id == j)) [
    | inl q ↦ rw q (ap (λ k. find k xs) (sym ((==_iff id j).0 q)) ∙ e)
    | inr q ↦ rw q refl
  ]

  set_null_over :
      (o : Option (List (Attribute P))) (id : ℕ) (v old : SiValue P)
      → IsDistinct (attributes_of o)
      → (id == id_none) ≡ false
      → find id (attributes_of o) ≡ some old
      → is_null v ≡ true
      → IsChanged id v (attributes_of o) (set_allow_null (writable o) id v)
  unfolding set_allow_null update
  set_null_over o id v old d ne e n =
      let r = remove_of o id d (ap is_some e) in
      rw (ne, e, n, set_allow_null, update)
        (rw (after_change v (remove (writable o) id) (writable o) r.0, n) (refl, r.1, r.2))

  set_over :
      (o : Option (List (Attribute P))) (id : ℕ) (v old : SiValue P)
      → IsDistinct (attributes_of o)
      → (id == id_none) ≡ false
      → find id (attributes_of o) ≡ some old
      → is_null v ≡ false
      → IsChanged id v (attributes_of o) (set_allow_null (writable o) id v)
  unfolding set_allow_null update
  set_over o id v old d ne e n = elim (Bool-cases (same old v)) [
    | inl q ↦
        rw (ne, e, n, q, set_allow_null, update) (refl, d, λ j. unchanged id j (attributes_of o) e)
    | inr q ↦
        rw (ne, e, n, q, set_allow_null, update)
          (
            rw n refl,
            write-IsDistinct id v (attributes_of o) d,
            λ j. find-write j id v (attributes_of o) (ap is_some e),
          )
  ]

  set_absent :
      (o : Option (List (Attribute P))) (id : ℕ) (v : SiValue P)
      → IsDistinct (attributes_of o)
      → (id == id_none) ≡ false
      → find id (attributes_of o) ≡ none
      → IsChanged id v (attributes_of o) (set_allow_null (writable o) id v)
  unfolding set_allow_null update
  set_absent o id v d ne e = elim (Bool-cases (is_null v)) [
    | inl n ↦
        rw (ne, e, n, set_allow_null, update) (refl, d, λ j. unchanged id j (attributes_of o) e)
    | inr n ↦
        rw (ne, e, n, set_allow_null, update)
          (
            refl,
            append-IsDistinct (attributes_of o) (record { id = id; value = v }) e d,
            λ j. find-append j (attributes_of o) (record { id = id; value = v }) e,
          )
  ]

  set_writable :
      (o : Option (List (Attribute P))) (id : ℕ) (v : SiValue P)
      → IsDistinct (attributes_of o)
      → (id == id_none) ≡ false
      → IsChanged id v (attributes_of o) (set_allow_null (writable o) id v)
  set_writable o id v d ne = elim (Option-cases (find id (attributes_of o))) [
    | inl e ↦ set_absent o id v d ne e
    | inr (old, e) ↦ elim (Bool-cases (is_null v)) [
      | inl n ↦ set_null_over o id v old d ne e n
      | inr n ↦ set_over o id v old d ne e n
    ]
  ]

  -- A set that may be changed: its ids are distinct and below ATTRIBUTE_ID_NONE.
  pub record IsValid (s : AttributeSet P) : Type 0 where
    pub distinct : IsDistinct (attributes_of s.attributes)
    pub below : (j : ℕ) → id_none ≤ j → find j (attributes_of s.attributes) ≡ none

  pub set_allow_null-IsChanged :
      (s : AttributeSet P) (id : ℕ) (v : SiValue P)
      → IsValid s
      → s.read_only ≡ false
      → id < id_none
      → IsChanged id v (attributes_of s.attributes) (set_allow_null s id v)
  set_allow_null-IsChanged s id v h w lt =
      subst
        (λ b.
          IsChanged id v (attributes_of s.attributes)
            (set_allow_null (record { read_only = b; attributes = s.attributes }) id v))
        (sym w) (set_writable s.attributes id v h.distinct (ground arith))

  -- An attribute of a valid set that is not read-only is set: the change that is reported is the
  -- one that was made; the attribute is found with the value that was set, none if that is NULL, or
  -- with the old value if that compares as equal; every other attribute is found as before; and the
  -- set is valid.
  pub set_allow_null_lem :
      (s : AttributeSet P) (id : ℕ) (v : SiValue P)
      → IsValid s
      → s.read_only ≡ false
      → id < id_none
      → ((set_allow_null s id v).0 ≡ change (get s id) v)
        × ((j : ℕ)
            → get (set_allow_null s id v).1 j ≡ (if id == j then stored (get s id) v else get s j))
        × IsValid (set_allow_null s id v).1
  set_allow_null_lem s id v h w lt =
      let (c, d, f) = set_allow_null-IsChanged s id v h w lt in
      let ne : (id == id_none) ≡ false = ground arith in
      rw ne (
        c,
        (λ j. elim (Bool-cases (j == id_none)) [
          | inl q ↦ let away : (id == j) ≡ false = ground arith in rw (q, away) refl
          | inr q ↦ rw q (f j)
        ]),
        record { distinct = d; below = λ j l. f j ∙ rw (apart id j lt l) (h.below j l) },
      )
