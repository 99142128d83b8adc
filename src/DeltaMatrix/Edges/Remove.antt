-- ===== src/DeltaMatrix/Edges/Remove.antt =====
-- RG_Matrix_removeElement_UINT64: the whole entry at a position is removed.
use redis_graph.Prelude.{
  ℕ, ◌<◌, ◌≡◌, true, false, ◌&&◌, none, arith, ◌==◌, if◌then◌else◌, is_some, Bool-cases, inl, inr,
  Option-cases,
}
use mathlib.Core.Option
use redis_graph.GraphBlas.{GraphBlas, IsGraphBlas}
use redis_graph.DeltaMatrix.{extract_element, validate_state, remove_element_bool}
use redis_graph.DeltaMatrix.Valid.{
  IsValid, remove_element_bool-IsValid, extract_element-remove_element_bool, dirty-IsValid,
  extract_element-dirty, shape-remove_element_bool,
}
use redis_graph.DeltaMatrix.Edges.{
  Edge, success, no_value, free_edge, EdgeMatrix, extract_edge, free_entry, remove_element_uint64,
}
use redis_graph.DeltaMatrix.Edges.Live.{WellFormed, IsLive}

module _ {G : GraphBlas} (L : IsGraphBlas G) (m : G.Matrix Edge) (i j : ℕ) where
  shape-free_entry :
      (G.nrows (free_entry G m i j) ≡ G.nrows m) × (G.ncols (free_entry G m i j) ≡ G.ncols m)
  unfolding free_entry
  shape-free_entry = elim (Option-cases (G.extract m i j)) [
    | inl e ↦ rw (e, free_entry) (omega arith)
    | inr (x, e) ↦ rw (e, free_entry) (L.shape-set Edge m (free_edge x) i j)
  ]

  -- Freeing the array of an entry leaves the entry in place, and every other entry as it was.
  extract-free_entry :
      (k l : ℕ)
      → i < G.nrows m
      → j < G.ncols m
      → G.extract (free_entry G m i j) k l
        ≡ (if (i == k) && (j == l) then Option.map free_edge (G.extract m i j) else G.extract m k l)
  unfolding free_entry
  extract-free_entry k l hi hj = elim (Option-cases (G.extract m i j)) [
    | inl e ↦ ground (arith, e)
    | inr (x, e) ↦ ground (arith, e, L.extract-set Edge m (free_edge x) i j k l)
  ]

  is_some-free_entry :
      (k l : ℕ)
      → i < G.nrows m
      → j < G.ncols m
      → is_some (G.extract (free_entry G m i j) k l) ≡ is_some (G.extract m k l)
  is_some-free_entry k l hi hj = ground (arith, extract-free_entry k l hi hj)

  extract-free_entry_ne :
      (k l : ℕ)
      → i < G.nrows m
      → j < G.ncols m
      → (i == k) && (j == l) ≡ false
      → G.extract (free_entry G m i j) k l ≡ G.extract m k l
  extract-free_entry_ne k l hi hj ne = rw (extract-free_entry k l hi hj, ne)

module _ {G : GraphBlas} (L : IsGraphBlas G) (C : EdgeMatrix G) (i j : ℕ) (v : IsLive G C) where
  remove-state :
      (k l : ℕ)
      → i < G.nrows C.own.matrix
      → j < G.ncols C.own.matrix
      → validate_state G (remove_element_uint64 G C i j).1.own k l ≡ true
  unfolding remove_element_uint64 validate_state
  remove-state k l hi hj = ground (
    arith,
    L.extract-set Unit C.own.delta_minus tt i j k l,
    is_some-free_entry L C.own.matrix i j k l,
    L.extract-remove Edge (free_entry G C.own.delta_plus i j) i j k l,
    is_some-free_entry L C.own.delta_plus i j k l,
    v.own_valid.plus_rows,
    v.own_valid.plus_cols,
    v.own_valid.minus_rows,
    v.own_valid.minus_cols,
    v.own_valid.state k l,
    v.own_valid.state i j,
  )

  -- In a matrix of edges that satisfies the invariant, removing the entry at a position inside the
  -- matrix leaves no entry there, and every other entry as it was.
  pub extract_edge-remove :
      (k l : ℕ)
      → i < G.nrows C.own.matrix
      → j < G.ncols C.own.matrix
      → extract_edge G (remove_element_uint64 G C i j).1 k l
        ≡ (if (i == k) && (j == l) then none else extract_edge G C k l)
  unfolding remove_element_uint64 validate_state extract_element
  extract_edge-remove k l hi hj = ground (
    arith,
    L.extract-set Unit C.own.delta_minus tt i j k l,
    extract-free_entry_ne L C.own.matrix i j k l,
    L.extract-remove Edge (free_entry G C.own.delta_plus i j) i j k l,
    extract-free_entry_ne L C.own.delta_plus i j k l,
    v.own_valid.plus_rows,
    v.own_valid.plus_cols,
    v.own_valid.minus_rows,
    v.own_valid.minus_cols,
    v.own_valid.state k l,
    v.own_valid.state i j,
  )

  -- The result tells whether there was an entry.
  pub info-remove :
      (remove_element_uint64 G C i j).0
      ≡ (if is_some (extract_edge G C i j) then success else no_value)
  unfolding remove_element_uint64 validate_state extract_element
  info-remove = ground (arith, v.own_valid.state i j)

  transposed-remove :
      (remove_element_uint64 G C i j).1.transposed
      ≡ record (remove_element_bool G C.transposed j i) { dirty = true }
  unfolding remove_element_uint64 remove_element_bool
  transposed-remove = ground arith

  shape-own :
      (G.nrows (remove_element_uint64 G C i j).1.own.matrix ≡ G.nrows C.own.matrix)
      × (G.ncols (remove_element_uint64 G C i j).1.own.matrix ≡ G.ncols C.own.matrix)
  unfolding remove_element_uint64
  shape-own = (
    ground (arith, shape-free_entry L C.own.matrix i j),
    ground (arith, shape-free_entry L C.own.matrix i j),
  )

  shape-plus :
      (G.nrows (remove_element_uint64 G C i j).1.own.delta_plus ≡ G.nrows C.own.delta_plus)
      × (G.ncols (remove_element_uint64 G C i j).1.own.delta_plus ≡ G.ncols C.own.delta_plus)
  unfolding remove_element_uint64
  shape-plus = (
    ground (
      arith,
      shape-free_entry L C.own.delta_plus i j,
      L.shape-remove Edge (free_entry G C.own.delta_plus i j) i j,
    ),
    ground (
      arith,
      shape-free_entry L C.own.delta_plus i j,
      L.shape-remove Edge (free_entry G C.own.delta_plus i j) i j,
    ),
  )

  shape-minus :
      (G.nrows (remove_element_uint64 G C i j).1.own.delta_minus ≡ G.nrows C.own.delta_minus)
      × (G.ncols (remove_element_uint64 G C i j).1.own.delta_minus ≡ G.ncols C.own.delta_minus)
  unfolding remove_element_uint64
  shape-minus = (
    ground (arith, L.shape-set Unit C.own.delta_minus tt i j),
    ground (arith, L.shape-set Unit C.own.delta_minus tt i j),
  )

  remove-own-IsValid :
      i < G.nrows C.own.matrix
      → j < G.ncols C.own.matrix
      → IsValid G (remove_element_uint64 G C i j).1.own
  remove-own-IsValid hi hj = record {
    state = λ k l. remove-state k l hi hj;
    plus_rows = omega (arith, shape-own, shape-plus, v.own_valid.plus_rows);
    plus_cols = omega (arith, shape-own, shape-plus, v.own_valid.plus_cols);
    minus_rows = omega (arith, shape-own, shape-minus, v.own_valid.minus_rows);
    minus_cols = omega (arith, shape-own, shape-minus, v.own_valid.minus_cols);
  }

  WellFormed-if :
      (k l : ℕ) → WellFormed (if (i == k) && (j == l) then none else extract_edge G C k l)
  WellFormed-if k l = elim (Bool-cases ((i == k) && (j == l))) [
    | inl e ↦ rw e tt
    | inr e ↦ rw e (v.well_formed k l)
  ]

  -- Removing the entry at a position inside the matrix keeps the invariant of the matrix of edges
  -- and of its transpose: what was freed is never shown, and the transpose loses the entry too.
  pub remove_element_uint64-IsLive :
      i < G.nrows C.own.matrix
      → j < G.ncols C.own.matrix
      → IsLive G (remove_element_uint64 G C i j).1
  remove_element_uint64-IsLive hi hj = record {
    own_valid = remove-own-IsValid hi hj;
    transposed_valid = rw transposed-remove (
        dirty-IsValid _ true (
          remove_element_bool-IsValid L C.transposed j i v.transposed_valid (omega (arith, v.rows))
            (omega (arith, v.cols))));
    rows =
        rw transposed-remove
          (omega (arith, v.rows, shape-own, shape-remove_element_bool L C.transposed j i));
    cols =
        rw transposed-remove
          (omega (arith, v.cols, shape-own, shape-remove_element_bool L C.transposed j i));
    linked = λ k l.
        rw (transposed-remove, extract_element-dirty _ true l k)
          (ground (
            arith,
            extract_edge-remove k l hi hj,
            extract_element-remove_element_bool L C.transposed j i v.transposed_valid l k,
            v.linked k l,
            v.rows,
            v.cols,
          ));
    well_formed = λ k l. rw (extract_edge-remove k l hi hj) (WellFormed-if k l);
  }
