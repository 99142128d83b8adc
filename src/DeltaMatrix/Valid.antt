-- ===== src/DeltaMatrix/Valid.antt =====
-- The invariant of delta matrices, from RG_Matrix_validateState, and the setting and removing of
-- entries of a boolean matrix.
use redis_graph.Prelude.{
  ℕ, ◌<◌, ◌≡◌, refl, Bool, true, ◌&&◌, none, some, arith, ◌==◌, if◌then◌else◌,
}
use redis_graph.GraphBlas.{GraphBlas, IsGraphBlas}
use redis_graph.DeltaMatrix.{
  Delta, init, extract_element, set_element_bool, remove_element_bool, validate_state,
}

-- The debug assertions hold at every position, and the three matrices have one shape.
pub record IsValid (G : GraphBlas) {A : Type 0} (C : Delta G A) : Type 0 where
  pub state : (k l : ℕ) → validate_state G C k l ≡ true
  pub plus_rows : G.nrows C.delta_plus ≡ G.nrows C.matrix
  pub plus_cols : G.ncols C.delta_plus ≡ G.ncols C.matrix
  pub minus_rows : G.nrows C.delta_minus ≡ G.nrows C.matrix
  pub minus_cols : G.ncols C.delta_minus ≡ G.ncols C.matrix

module _ {G : GraphBlas} (L : IsGraphBlas G) where
  -- A new matrix is valid, has no entry and has the dimensions that were asked for.
  pub init-IsValid : (A : Type 0) (r c : ℕ) → IsValid G (init G A r c)
  unfolding init validate_state
  init-IsValid A r c = record {
    state = λ k l. ground (arith, L.extract-new A r c k l, L.extract-new Unit r c k l);
    plus_rows = omega arith;
    plus_cols = omega arith;
    minus_rows = omega (arith, L.shape-new A r c, L.shape-new Unit r c);
    minus_cols = omega (arith, L.shape-new A r c, L.shape-new Unit r c);
  }

  pub extract_element-init :
      (A : Type 0) (r c k l : ℕ) → extract_element G (init G A r c) k l ≡ none
  unfolding init extract_element
  extract_element-init A r c k l =
      ground (arith, L.extract-new A r c k l, L.extract-new Unit r c k l)

  module _ (C : Delta G (Unit {0})) (i j : ℕ) (v : IsValid G C) where
    set_element_bool-state :
        (k l : ℕ)
        → i < G.nrows C.matrix
        → j < G.ncols C.matrix
        → validate_state G (set_element_bool G C i j) k l ≡ true
    unfolding set_element_bool validate_state
    set_element_bool-state k l hi hj = ground (
      arith,
      L.extract-set Unit C.delta_plus tt i j k l,
      L.extract-remove Unit C.delta_minus i j k l,
      v.state k l,
      v.state i j,
    )

    -- Setting an entry inside a valid boolean matrix shows it, and every other position shows what
    -- it showed.
    pub extract_element-set_element_bool :
        (k l : ℕ)
        → i < G.nrows C.matrix
        → j < G.ncols C.matrix
        → extract_element G (set_element_bool G C i j) k l
          ≡ (if (i == k) && (j == l) then some tt else extract_element G C k l)
    unfolding set_element_bool validate_state extract_element
    extract_element-set_element_bool k l hi hj = ground (
      arith,
      L.extract-set Unit C.delta_plus tt i j k l,
      L.extract-remove Unit C.delta_minus i j k l,
      v.state k l,
      v.state i j,
    )

    -- Setting an entry inside a valid boolean matrix leaves a valid matrix.
    pub set_element_bool-IsValid :
        i < G.nrows C.matrix → j < G.ncols C.matrix → IsValid G (set_element_bool G C i j)
    set_element_bool-IsValid hi hj = record {
      state = λ k l. set_element_bool-state k l hi hj;
      plus_rows =
          unfold set_element_bool in
          ground (arith, v.plus_rows, L.shape-set Unit C.delta_plus tt i j);
      plus_cols =
          unfold set_element_bool in
          ground (arith, v.plus_cols, L.shape-set Unit C.delta_plus tt i j);
      minus_rows =
          unfold set_element_bool in
          ground (arith, v.minus_rows, L.shape-remove Unit C.delta_minus i j);
      minus_cols =
          unfold set_element_bool in
          ground (arith, v.minus_cols, L.shape-remove Unit C.delta_minus i j);
    }

    remove_element_bool-state :
        (k l : ℕ)
        → i < G.nrows C.matrix
        → j < G.ncols C.matrix
        → validate_state G (remove_element_bool G C i j) k l ≡ true
    unfolding remove_element_bool validate_state
    remove_element_bool-state k l hi hj = ground (
      arith,
      L.extract-set Unit C.delta_minus tt i j k l,
      L.extract-remove Unit C.delta_plus i j k l,
      v.state k l,
      v.state i j,
    )

    -- Removing an entry inside a valid boolean matrix hides it, and every other position shows what
    -- it showed.
    pub extract_element-remove_element_bool :
        (k l : ℕ)
        → i < G.nrows C.matrix
        → j < G.ncols C.matrix
        → extract_element G (remove_element_bool G C i j) k l
          ≡ (if (i == k) && (j == l) then none else extract_element G C k l)
    unfolding remove_element_bool validate_state extract_element
    extract_element-remove_element_bool k l hi hj = ground (
      arith,
      L.extract-set Unit C.delta_minus tt i j k l,
      L.extract-remove Unit C.delta_plus i j k l,
      v.state k l,
      v.state i j,
    )

    -- Removing an entry inside a valid boolean matrix leaves a valid matrix.
    pub remove_element_bool-IsValid :
        i < G.nrows C.matrix → j < G.ncols C.matrix → IsValid G (remove_element_bool G C i j)
    remove_element_bool-IsValid hi hj = record {
      state = λ k l. remove_element_bool-state k l hi hj;
      plus_rows =
          unfold remove_element_bool in
          ground (arith, v.plus_rows, L.shape-remove Unit C.delta_plus i j);
      plus_cols =
          unfold remove_element_bool in
          ground (arith, v.plus_cols, L.shape-remove Unit C.delta_plus i j);
      minus_rows =
          unfold remove_element_bool in
          ground (arith, v.minus_rows, L.shape-set Unit C.delta_minus tt i j);
      minus_cols =
          unfold remove_element_bool in
          ground (arith, v.minus_cols, L.shape-set Unit C.delta_minus tt i j);
    }

-- The dirty flag has no part in the invariant or in what a matrix shows.
module _ {G : GraphBlas} {A : Type 0} (C : Delta G A) (b : Bool) where
  pub dirty-IsValid : IsValid G C → IsValid G (record C { dirty = b })
  unfolding validate_state
  dirty-IsValid v = record {
    state = v.state;
    plus_rows = v.plus_rows;
    plus_cols = v.plus_cols;
    minus_rows = v.minus_rows;
    minus_cols = v.minus_cols;
  }

  pub extract_element-dirty :
      (k l : ℕ) → extract_element G (record C { dirty = b }) k l ≡ extract_element G C k l
  unfolding extract_element
  extract_element-dirty k l = refl

module _ {G : GraphBlas} (L : IsGraphBlas G) (C : Delta G (Unit {0})) (i j : ℕ) where
  pub shape-set_element_bool :
      (G.nrows (set_element_bool G C i j).matrix ≡ G.nrows C.matrix)
      × (G.ncols (set_element_bool G C i j).matrix ≡ G.ncols C.matrix)
  unfolding set_element_bool
  shape-set_element_bool = (ground arith, ground arith)

  pub shape-remove_element_bool :
      (G.nrows (remove_element_bool G C i j).matrix ≡ G.nrows C.matrix)
      × (G.ncols (remove_element_bool G C i j).matrix ≡ G.ncols C.matrix)
  unfolding remove_element_bool
  shape-remove_element_bool = (ground arith, ground arith)
