-- ===== src/DeltaMatrix/Edges/Add.antt =====
-- RG_Matrix_setElement_UINT64: an edge is added to the entry at its position.
use redis_graph.Prelude.{
  ℕ, ◌<◌, ◌≡◌, refl, true, ◌&&◌, Option, none, some, [], ◌∷◌, ◌++◌, arith, ◌==◌, if◌then◌else◌,
  Bool, false, Bool-cases, inl, inr, length-append,
}
use redis_graph.GraphBlas.{GraphBlas, IsGraphBlas, accumulated}
use redis_graph.DeltaMatrix.{extract_element, validate_state, set_element_bool}
use redis_graph.DeltaMatrix.Valid.{
  IsValid, set_element_bool-IsValid, extract_element-set_element_bool, dirty-IsValid,
  extract_element-dirty, shape-set_element_bool,
}
use redis_graph.DeltaMatrix.Edges.{
  Edge, single, multi, freed, ids, edge_accum, EdgeMatrix, extract_edge, set_element_uint64,
}
use redis_graph.DeltaMatrix.Edges.Live.{WellFormed, IsLive}

-- What adding the edge `x` makes of an entry.
abbrev pub added : Option Edge → ℕ → Edge
added e x = accumulated edge_accum e (single x)

ids-added : (e : Option Edge) (x : ℕ) → WellFormed e → ids (some (added e x)) ≡ ids e ++ x ∷ []
ids-added none x h = refl
ids-added (some (single y)) x h = refl
ids-added (some (multi ys)) x h = refl
ids-added (some freed) x h = absurd h

added-WellFormed : (e : Option Edge) (x : ℕ) → WellFormed e → WellFormed (some (added e x))
added-WellFormed none x h = tt
added-WellFormed (some (single y)) x h = omega arith
added-WellFormed (some (multi ys)) x h = omega (arith, length-append ys (x ∷ []))
added-WellFormed (some freed) x h = absurd h

module _ {G : GraphBlas} (L : IsGraphBlas G) (C : EdgeMatrix G) (x i j : ℕ) (v : IsLive G C) where
  set-state :
      (k l : ℕ)
      → i < G.nrows C.own.matrix
      → j < G.ncols C.own.matrix
      → validate_state G (set_element_uint64 G C x i j).own k l ≡ true
  unfolding set_element_uint64 validate_state
  set-state k l hi hj = ground (
    arith,
    L.extract-set Edge C.own.matrix (single x) i j k l,
    L.extract-remove Unit C.own.delta_minus i j k l,
    L.extract-accumulate Edge edge_accum C.own.matrix (single x) i j k l,
    L.extract-accumulate Edge edge_accum C.own.delta_plus (single x) i j k l,
    v.own_valid.plus_rows,
    v.own_valid.plus_cols,
    v.own_valid.state k l,
    v.own_valid.state i j,
  )

  -- The edge joins the entry at its position.
  pub extract_edge-set :
      (k l : ℕ)
      → i < G.nrows C.own.matrix
      → j < G.ncols C.own.matrix
      → extract_edge G (set_element_uint64 G C x i j) k l ≡ (
          if (i == k) && (j == l)
          then some (added (extract_edge G C i j) x)
          else extract_edge G C k l)
  unfolding set_element_uint64 validate_state extract_element
  extract_edge-set k l hi hj = ground (
    arith,
    L.extract-set Edge C.own.matrix (single x) i j k l,
    L.extract-remove Unit C.own.delta_minus i j k l,
    L.extract-accumulate Edge edge_accum C.own.matrix (single x) i j k l,
    L.extract-accumulate Edge edge_accum C.own.delta_plus (single x) i j k l,
    v.own_valid.plus_rows,
    v.own_valid.plus_cols,
    v.own_valid.state k l,
    v.own_valid.state i j,
  )

  WellFormed-if :
      (k l : ℕ)
      → WellFormed (
          if (i == k) && (j == l)
          then some (added (extract_edge G C i j) x)
          else extract_edge G C k l)
  WellFormed-if k l = elim (Bool-cases ((i == k) && (j == l))) [
    | inl e ↦ rw e (added-WellFormed (extract_edge G C i j) x (v.well_formed i j))
    | inr e ↦ rw e (v.well_formed k l)
  ]

  pub shape-own :
      (G.nrows (set_element_uint64 G C x i j).own.matrix ≡ G.nrows C.own.matrix)
      × (G.ncols (set_element_uint64 G C x i j).own.matrix ≡ G.ncols C.own.matrix)
  unfolding set_element_uint64
  shape-own = (
    ground (
      arith,
      L.shape-set Edge C.own.matrix (single x) i j,
      L.shape-accumulate Edge edge_accum C.own.matrix (single x) i j,
    ),
    ground (
      arith,
      L.shape-set Edge C.own.matrix (single x) i j,
      L.shape-accumulate Edge edge_accum C.own.matrix (single x) i j,
    ),
  )

  transposed-set :
      (set_element_uint64 G C x i j).transposed
      ≡ record (set_element_bool G C.transposed j i) { dirty = true }
  unfolding set_element_uint64
  transposed-set = ground arith

  set-own-IsValid :
      i < G.nrows C.own.matrix
      → j < G.ncols C.own.matrix
      → IsValid G (set_element_uint64 G C x i j).own
  set-own-IsValid hi hj = record {
    state = λ k l. set-state k l hi hj;
    plus_rows =
        unfold set_element_uint64 in
        ground (
          arith,
          v.own_valid.plus_rows,
          L.shape-set Edge C.own.matrix (single x) i j,
          L.shape-remove Unit C.own.delta_minus i j,
          L.shape-accumulate Edge edge_accum C.own.matrix (single x) i j,
          L.shape-accumulate Edge edge_accum C.own.delta_plus (single x) i j,
        );
    plus_cols =
        unfold set_element_uint64 in
        ground (
          arith,
          v.own_valid.plus_cols,
          L.shape-set Edge C.own.matrix (single x) i j,
          L.shape-remove Unit C.own.delta_minus i j,
          L.shape-accumulate Edge edge_accum C.own.matrix (single x) i j,
          L.shape-accumulate Edge edge_accum C.own.delta_plus (single x) i j,
        );
    minus_rows =
        unfold set_element_uint64 in
        ground (
          arith,
          v.own_valid.minus_rows,
          L.shape-set Edge C.own.matrix (single x) i j,
          L.shape-remove Unit C.own.delta_minus i j,
          L.shape-accumulate Edge edge_accum C.own.matrix (single x) i j,
          L.shape-accumulate Edge edge_accum C.own.delta_plus (single x) i j,
        );
    minus_cols =
        unfold set_element_uint64 in
        ground (
          arith,
          v.own_valid.minus_cols,
          L.shape-set Edge C.own.matrix (single x) i j,
          L.shape-remove Unit C.own.delta_minus i j,
          L.shape-accumulate Edge edge_accum C.own.matrix (single x) i j,
          L.shape-accumulate Edge edge_accum C.own.delta_plus (single x) i j,
        );
  }

  -- Adding an edge inside the matrix keeps the invariant of the matrix of edges and of its
  -- transpose.
  pub set_element_uint64-IsLive :
      i < G.nrows C.own.matrix → j < G.ncols C.own.matrix → IsLive G (set_element_uint64 G C x i j)
  set_element_uint64-IsLive hi hj = record {
    own_valid = set-own-IsValid hi hj;
    transposed_valid = rw transposed-set (
        dirty-IsValid _ true (
          set_element_bool-IsValid L C.transposed j i v.transposed_valid (omega (arith, v.rows))
            (omega (arith, v.cols))));
    rows =
        rw transposed-set
          (omega (arith, v.rows, shape-own, shape-set_element_bool L C.transposed j i));
    cols =
        rw transposed-set
          (omega (arith, v.cols, shape-own, shape-set_element_bool L C.transposed j i));
    linked = λ k l.
        rw (transposed-set, extract_element-dirty _ true l k)
          (ground (
            arith,
            extract_edge-set k l hi hj,
            extract_element-set_element_bool L C.transposed j i v.transposed_valid l k,
            v.linked k l,
            v.rows,
            v.cols,
          ));
    well_formed = λ k l. rw (extract_edge-set k l hi hj) (WellFormed-if k l);
  }

  -- In a matrix of edges that satisfies the invariant, an edge that is added inside the matrix is
  -- appended to those at its position, and every other position keeps its edges.
  pub ids-set_element_uint64 :
      (k l : ℕ)
      → i < G.nrows C.own.matrix
      → j < G.ncols C.own.matrix
      → ids (extract_edge G (set_element_uint64 G C x i j) k l) ≡ (
          if (i == k) && (j == l)
          then ids (extract_edge G C i j) ++ x ∷ []
          else ids (extract_edge G C k l))
  ids-set_element_uint64 k l hi hj =
      rw (extract_edge-set k l hi hj) (ids-if ((i == k) && (j == l)) (extract_edge G C k l))
    where
      ids-if :
          (b : Bool) (e : Option Edge)
          → ids (if b then some (added (extract_edge G C i j) x) else e)
            ≡ (if b then ids (extract_edge G C i j) ++ x ∷ [] else ids e)
      ids-if true e = ids-added (extract_edge G C i j) x (v.well_formed i j)
      ids-if false e = refl
