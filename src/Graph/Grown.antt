-- ===== src/Graph/Grown.antt =====
-- What a matrix may become when it is synchronized: it grows, and it shows what it showed.
use redis_graph.Prelude.{
  ℕ, ◌≤◌, ◌<◌, ◌≡◌, ◌∙◌, refl, Bool, true, false, ◌&&◌, ltb, Option, none, is_some, if◌then◌else◌,
  arith, Option-cases, inl, inr,
}
use redis_graph.GraphBlas.{GraphBlas, IsGraphBlas}
use redis_graph.DeltaMatrix.{Delta, extract_element, wait, resize, nrows, ncols}
use redis_graph.DeltaMatrix.Valid.{IsValid}
use redis_graph.DeltaMatrix.Sync.{wait-Same}
use redis_graph.DeltaMatrix.Shape.{resize-IsValid, extract_element-resize}
use redis_graph.Graph.{is_sized}

module _ {G : GraphBlas} where
  pub record Fits {A : Type 0} (dims : ℕ) (C : Delta G A) : Type 0 where
    pub rows : G.nrows C.matrix ≤ dims
    pub cols : G.ncols C.matrix ≤ dims

  -- `D` is valid, fits, shows the same entries as `C` and is no smaller.
  pub record Grown {A : Type 0} (dims : ℕ) (C D : Delta G A) : Type 0 where
    pub valid : IsValid G D
    pub fits : Fits dims D
    pub entries : (k l : ℕ) → extract_element G D k l ≡ extract_element G C k l

  pub record IsSized {A : Type 0} (dims : ℕ) (C : Delta G A) : Type 0 where
    pub rows : G.nrows C.matrix ≡ dims
    pub cols : G.ncols C.matrix ≡ dims

module _ {G : GraphBlas} (L : IsGraphBlas G) {A : Type 0} where
  -- An entry stands inside its matrix.
  pub inside :
      (C : Delta G A) (k l : ℕ)
      → IsValid G C
      → is_some (extract_element G C k l) ≡ true
      → (k < G.nrows C.matrix) × (l < G.ncols C.matrix)
  unfolding extract_element
  inside C k l v h = ground (
    arith,
    h,
    L.extract_bounds A C.delta_plus k l,
    L.extract_bounds A C.matrix k l,
    v.plus_rows,
    v.plus_cols,
  )

  pub entries-resize :
      (dims : ℕ) (C : Delta G A) (k l : ℕ)
      → IsValid G C
      → Fits dims C
      → extract_element G (resize G C dims dims) k l ≡ extract_element G C k l
  entries-resize dims C k l v f = elim (Option-cases (extract_element G C k l)) [
    | inl e ↦
        extract_element-resize L C dims dims k l
        ∙ rw e (if_none (ltb k dims && ltb l dims) none refl)
    | inr (x, e) ↦
        let b = inside C k l v (rw e refl) in
        let s : (ltb k dims && ltb l dims) ≡ true = ground (arith, f.rows, f.cols) in
        extract_element-resize L C dims dims k l ∙ rw s refl
  ]
    where
      if_none : (b : Bool) (o : Option A) → o ≡ none → (if b then o else none) ≡ none
      if_none true o h = h
      if_none false o h = refl

  pub Grown-refl : (dims : ℕ) (C : Delta G A) → IsValid G C → Fits dims C → Grown dims C C
  Grown-refl dims C v f = record { valid = v; fits = f; entries = λ k l. refl }

  pub shape-resize : (dims : ℕ) (C : Delta G A) → IsSized dims (resize G C dims dims)
  unfolding resize
  shape-resize dims C = record {
    rows = omega (arith, L.shape-resize A C.matrix dims dims);
    cols = omega (arith, L.shape-resize A C.matrix dims dims);
  }

  Fits-IsSized : (dims : ℕ) (C : Delta G A) → IsSized dims C → Fits dims C
  Fits-IsSized dims C s = record { rows = omega (arith, s.rows); cols = omega (arith, s.cols) }

  pub resize-Grown :
      (dims : ℕ) (C : Delta G A) → IsValid G C → Fits dims C → Grown dims C (resize G C dims dims)
  resize-Grown dims C v f = record {
    valid = resize-IsValid L C dims dims v;
    fits = Fits-IsSized dims (resize G C dims dims) (shape-resize dims C);
    entries = λ k l. entries-resize dims C k l v f;
  }

  pub is_sized-IsSized : (dims : ℕ) (C : Delta G A) → is_sized G C dims ≡ true → IsSized dims C
  unfolding nrows ncols
  is_sized-IsSized dims C h = record { rows = ground (arith, h); cols = ground (arith, h) }

  pub wait-Grown :
      (dims : ℕ) (C D : Delta G A) (limit : ℕ)
      → Grown dims C D
      → Grown dims C (wait G D false limit)
  wait-Grown dims C D limit g =
      let s = wait-Same L D false limit g.valid in
      record {
        valid = s.valid;
        fits = record {
          rows = omega (arith, s.rows, g.fits.rows);
          cols = omega (arith, s.cols, g.fits.cols);
        };
        entries = λ k l. s.entries k l ∙ g.entries k l;
      }

  pub wait-IsSized :
      (dims : ℕ) (D : Delta G A) (limit : ℕ)
      → IsValid G D
      → IsSized dims D
      → IsSized dims (wait G D false limit)
  wait-IsSized dims D limit v z =
      let s = wait-Same L D false limit v in
      record { rows = s.rows ∙ z.rows; cols = s.cols ∙ z.cols }
