-- ===== src/AttributeSet/Lists.antt =====
-- What is found in a list of attributes that changed.
use redis_graph.Prelude.{
  ℕ, zero, suc, Bool, true, false, ◌==◌, if◌then◌else◌, Option, none, some, is_some, List, [], ◌∷◌,
  ◌++◌, ◌≡◌, refl, ◌∙◌, arith, Bool-cases, inl, inr,
}
use redis_graph.Arrays.{last, drop_last}
use redis_graph.Value.{Payloads, SiValue}
use redis_graph.AttributeSet.{Attribute, find, locate, overwrite, write, bumped}

module _ {P : Payloads} where
  -- No id stands in a list twice.
  abbrev pub IsDistinct : List (Attribute P) → Type 0
  IsDistinct [] = Unit
  IsDistinct (x ∷ xs) = (find x.id xs ≡ none) × IsDistinct xs

  pub find-append :
      (j : ℕ) (xs : List (Attribute P)) (y : Attribute P)
      → find y.id xs ≡ none
      → find j (xs ++ (y ∷ [])) ≡ (if y.id == j then some y.value else find j xs)
  unfolding find
  find-append j [] y h = refl
  find-append j (x ∷ xs) y h = ground (arith, find-append j xs y)

  pub append-IsDistinct :
      (xs : List (Attribute P)) (y : Attribute P)
      → find y.id xs ≡ none
      → IsDistinct xs
      → IsDistinct (xs ++ (y ∷ []))
  unfolding find
  append-IsDistinct [] y h d = (refl, tt)
  append-IsDistinct (x ∷ xs) y h d =
      (ground (arith, find-append x.id xs y), append-IsDistinct xs y (ground arith) d.1)

  pub find-write :
      (j id : ℕ) (v : SiValue P) (xs : List (Attribute P))
      → is_some (find id xs) ≡ true
      → find j (write xs id v) ≡ (if id == j then some v else find j xs)
  unfolding find write
  find-write j id v [] h = ground arith
  find-write j id v (x ∷ xs) h = ground (arith, find-write j id v xs)

  write_absent :
      (j id : ℕ) (v : SiValue P) (xs : List (Attribute P))
      → find j xs ≡ none
      → find j (write xs id v) ≡ none
  unfolding find write
  write_absent j id v [] h = refl
  write_absent j id v (x ∷ xs) h = ground (arith, write_absent j id v xs)

  pub write-IsDistinct :
      (id : ℕ) (v : SiValue P) (xs : List (Attribute P))
      → IsDistinct xs
      → IsDistinct (write xs id v)
  unfolding find write
  write-IsDistinct id v [] d = tt
  write-IsDistinct id v (x ∷ xs) d = elim (Bool-cases (x.id == id)) [
    | inl e ↦ rw (e, write) d
    | inr e ↦ rw (e, write) (write_absent x.id id v xs d.0, write-IsDistinct id v xs d.1)
  ]

  -- The last attribute, and those before it
  pub find-last :
      (j : ℕ) (x : Attribute P) (xs : List (Attribute P))
      → IsDistinct (x ∷ xs)
      → find j (x ∷ xs)
        ≡ (if (last x xs).id == j then some (last x xs).value else find j (drop_last (x ∷ xs)))
  unfolding find last drop_last
  find-last j x [] d = refl
  find-last j x (y ∷ ys) d = ground (arith, find-last j y ys d.1, find-last x.id y ys d.1)

  drop_last_absent :
      (j : ℕ) (x : Attribute P) (xs : List (Attribute P))
      → find j (x ∷ xs) ≡ none
      → find j (drop_last (x ∷ xs)) ≡ none
  unfolding find drop_last
  drop_last_absent j x [] h = refl
  drop_last_absent j x (y ∷ ys) h = ground (arith, drop_last_absent j y ys)

  drop_last-IsDistinct :
      (x : Attribute P) (xs : List (Attribute P))
      → IsDistinct (x ∷ xs)
      → IsDistinct (drop_last (x ∷ xs)) × (find (last x xs).id (drop_last (x ∷ xs)) ≡ none)
  unfolding find drop_last last
  drop_last-IsDistinct x [] d = (tt, refl)
  drop_last-IsDistinct x (y ∷ ys) d =
      let (e, n) = drop_last-IsDistinct y ys d.1 in
      ((drop_last_absent x.id y ys d.0, e), ground (arith, n, find-last x.id y ys d.1))

  located_first :
      (id : ℕ) (x : Attribute P) (xs : List (Attribute P)) → locate id (x ∷ xs) ≡ some 0 → x.id ≡ id
  unfolding locate
  located_first id x xs e = ground arith

  located_later :
      (id i : ℕ) (x : Attribute P) (xs : List (Attribute P))
      → locate id (x ∷ xs) ≡ some (suc i)
      → ((x.id == id) ≡ false) × (locate id xs ≡ some i)
  unfolding locate
  located_later id i x xs e = ground arith

  overwrite_later :
      (x y : Attribute P) (ys : List (Attribute P)) (i : ℕ)
      → overwrite (x ∷ y ∷ ys) (suc i) ≡ x ∷ overwrite (y ∷ ys) i
  unfolding drop_last last
  overwrite_later x y ys zero = refl
  overwrite_later x y ys (suc i) = refl

  absent_if : (b : Bool) {o : Option (SiValue P)} → o ≡ none → (if b then none else o) ≡ none
  absent_if true e = refl
  absent_if false e = e

  -- The list whose attribute of an id is overwritten with the last one: nothing is found for that
  -- id, and all else is found as before.
  pub overwrite_lem :
      (id i : ℕ) (x : Attribute P) (xs : List (Attribute P))
      → IsDistinct (x ∷ xs)
      → locate id (x ∷ xs) ≡ some i
      → IsDistinct (overwrite (x ∷ xs) i)
        × ((j : ℕ) → find j (overwrite (x ∷ xs) i) ≡ (if id == j then none else find j (x ∷ xs)))
  unfolding find locate drop_last last
  overwrite_lem id zero x [] d e = (tt, λ j. ground arith)
  overwrite_lem id (suc i) x [] d e = ground arith
  overwrite_lem id zero x (y ∷ ys) d e =
      let (d', n) = drop_last-IsDistinct y ys d.1 in
      ((n, d'), λ j. ground (arith, located_first id x (y ∷ ys) e, d.0, find-last j y ys d.1))
  overwrite_lem id (suc i) x (y ∷ ys) d e =
      let (ne, e') = located_later id i x (y ∷ ys) e in
      let (d', f) = overwrite_lem id i y ys d.1 e' in
      rw (overwrite_later x y ys i)
        ((f x.id ∙ absent_if (id == x.id) d.0, d'), λ j. ground (arith, f j))

  -- An id is located where its value is found.
  pub is_some-locate :
      (id : ℕ) (xs : List (Attribute P)) → is_some (locate id xs) ≡ is_some (find id xs)
  unfolding locate find
  is_some-locate id [] = refl
  is_some-locate id (x ∷ xs) = elim (Bool-cases (x.id == id)) [
    | inl e ↦ rw e refl
    | inr e ↦ rw e (is_some-bumped (locate id xs) ∙ is_some-locate id xs)
  ]
    where
      is_some-bumped : (o : Option ℕ) → is_some (bumped o) ≡ is_some o
      is_some-bumped none = refl
      is_some-bumped (some i) = refl
