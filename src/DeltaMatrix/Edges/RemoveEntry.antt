-- ===== src/DeltaMatrix/Edges/RemoveEntry.antt =====
-- RG_Matrix_removeEntry_UINT64: one edge of the entry at a position is removed.
use redis_graph.Prelude.{
  ℕ, ◌+◌, ◌<◌, ◌≡◌, refl, ◌∙◌, Bool, true, false, not, ◌&&◌, none, arith, ◌==◌, if◌then◌else◌,
  is_some,
}
use redis_graph.Prelude.Grid.{bit}
use redis_graph.GraphBlas.{GraphBlas, IsGraphBlas}
use redis_graph.Arrays.Occurrences.{occurrences}
use redis_graph.DeltaMatrix.{extract_element, validate_state, remove_element_bool}
use redis_graph.DeltaMatrix.Valid.{
  IsValid, remove_element_bool-IsValid, extract_element-remove_element_bool, dirty-IsValid,
  extract_element-dirty, shape-remove_element_bool,
}
use redis_graph.DeltaMatrix.Edges.{
  Edge, ids, Info, success, EdgeMatrix, extract_edge, remove_entry_from_array, remove_entry_uint64,
}
use redis_graph.DeltaMatrix.Edges.Live.{WellFormed, IsLive}
use redis_graph.DeltaMatrix.Edges.Drop.{
  dropped, dropped-WellFormed, occurrences-dropped, is_some_of_occurrences,
}
use redis_graph.DeltaMatrix.Edges.Removal.{
  Removal, last_of_m, one_of_m, last_of_plus, one_of_plus, remove_entry-Removal,
  Removal-own-IsValid, Removal-entries,
}

module _ {G : GraphBlas} (L : IsGraphBlas G) (C : EdgeMatrix G) (i j w : ℕ) (v : IsLive G C)
    (hi : i < G.nrows C.own.matrix) (hj : j < G.ncols C.own.matrix) where
  pub Removal-shape :
      {r : Info × Bool × EdgeMatrix G}
      → Removal C i j w r
      → (G.nrows r.2.own.matrix ≡ G.nrows C.own.matrix)
        × (G.ncols r.2.own.matrix ≡ G.ncols C.own.matrix)
        × (G.nrows r.2.transposed.matrix ≡ G.nrows C.transposed.matrix)
        × (G.ncols r.2.transposed.matrix ≡ G.ncols C.transposed.matrix)
  Removal-shape (last_of_m x e) = omega (arith, shape-remove_element_bool L C.transposed j i)
  Removal-shape (one_of_m xs e) =
      omega (arith, L.shape-set Edge C.own.matrix (remove_entry_from_array xs w) i j)
  Removal-shape (last_of_plus x e f) = omega (arith, shape-remove_element_bool L C.transposed j i)
  Removal-shape (one_of_plus xs e f) = omega arith

  transposed_removed : IsValid G (record (remove_element_bool G C.transposed j i) { dirty = true })
  transposed_removed = dirty-IsValid _ true (
      remove_element_bool-IsValid L C.transposed j i v.transposed_valid (omega (arith, v.rows))
        (omega (arith, v.cols)))

  Removal-transposed-IsValid :
      {r : Info × Bool × EdgeMatrix G} → Removal C i j w r → IsValid G r.2.transposed
  Removal-transposed-IsValid (last_of_m x e) = transposed_removed
  Removal-transposed-IsValid (one_of_m xs e) = v.transposed_valid
  Removal-transposed-IsValid (last_of_plus x e f) = transposed_removed
  Removal-transposed-IsValid (one_of_plus xs e f) = v.transposed_valid

  -- The flag tells whether the entry is gone; only then the transpose loses its entry.
  Removal-flag :
      {r : Info × Bool × EdgeMatrix G}
      → Removal C i j w r
      → is_some (extract_edge G C i j) ≡ true
      → r.1 ≡ not (is_some (dropped (extract_edge G C i j) w))
  unfolding extract_element validate_state
  Removal-flag (last_of_m x e) shown = ground (arith, e, v.own_valid.state i j)
  Removal-flag (one_of_m xs e) shown = ground (arith, e, v.own_valid.state i j)
  Removal-flag (last_of_plus x e f) shown = ground (arith, e, f, v.own_valid.state i j)
  Removal-flag (one_of_plus xs e f) shown = ground (arith, e, f, v.own_valid.state i j)

  Removal-info : {r : Info × Bool × EdgeMatrix G} → Removal C i j w r → r.0 ≡ success
  Removal-info (last_of_m x e) = refl
  Removal-info (one_of_m xs e) = refl
  Removal-info (last_of_plus x e f) = refl
  Removal-info (one_of_plus xs e f) = refl

  transposed_gone :
      (k l : ℕ)
      → extract_element G (record (remove_element_bool G C.transposed j i) { dirty = true }) l k
        ≡ (if (j == l) && (i == k) then none else extract_element G C.transposed l k)
  transposed_gone k l =
      extract_element-dirty _ true l k
      ∙ extract_element-remove_element_bool L C.transposed j i v.transposed_valid l k
          (omega (arith, v.rows)) (omega (arith, v.cols))

  Removal-transposed :
      {r : Info × Bool × EdgeMatrix G}
      → Removal C i j w r
      → (k l : ℕ)
      → extract_element G r.2.transposed l k
        ≡ (if r.1 && (i == k) && (j == l) then none else extract_element G C.transposed l k)
  Removal-transposed (last_of_m x e) k l = ground (arith, transposed_gone k l)
  Removal-transposed (one_of_m xs e) k l = refl
  Removal-transposed (last_of_plus x e f) k l = ground (arith, transposed_gone k l)
  Removal-transposed (one_of_plus xs e f) k l = refl

  Removal-IsLive :
      {r : Info × Bool × EdgeMatrix G}
      → Removal C i j w r
      → is_some (extract_edge G C i j) ≡ true
      → IsLive G r.2
  Removal-IsLive {r} c shown = record {
    own_valid = Removal-own-IsValid C i j w L v hi hj c;
    transposed_valid = Removal-transposed-IsValid c;
    rows = omega (arith, Removal-shape c, v.rows);
    cols = omega (arith, Removal-shape c, v.cols);
    linked = λ k l. ground (
      arith,
      Removal-transposed c k l,
      Removal-entries C i j w L v hi hj c k l,
      Removal-flag c shown,
      v.linked k l,
    );
    well_formed = λ k l.
        rw (Removal-entries C i j w L v hi hj c k l) (if_WellFormed ((i == k) && (j == l)) k l);
  }
    where
      if_WellFormed :
          (b : Bool) (k l : ℕ)
          → WellFormed (if b then dropped (extract_edge G C i j) w else extract_edge G C k l)
      if_WellFormed true k l = dropped-WellFormed (extract_edge G C i j) w (v.well_formed i j)
      if_WellFormed false k l = v.well_formed k l

  module _ (present : 0 < occurrences w (ids (extract_edge G C i j))) where
    pub case : Removal C i j w (remove_entry_uint64 G C i j w)
    case = remove_entry-Removal C i j w v (is_some_of_occurrences w _ present)

    -- Removing an edge that its position inside the matrix holds keeps the invariant of the matrix
    -- of edges and of its transpose.
    pub remove_entry_uint64-IsLive : IsLive G (remove_entry_uint64 G C i j w).2
    remove_entry_uint64-IsLive = Removal-IsLive case (is_some_of_occurrences w _ present)

    entry_after :
        extract_edge G (remove_entry_uint64 G C i j w).2 i j ≡ dropped (extract_edge G C i j) w
    entry_after = ground (arith, Removal-entries C i j w L v hi hj case i j)

    -- In a matrix of edges that satisfies the invariant, removing an edge that its position inside
    -- the matrix holds succeeds; the flag tells whether the entry is gone with it; the position
    -- loses one occurrence of that edge and of no other; every other position keeps its entry.
    pub remove_entry_uint64_lem :
        (a k l : ℕ)
        → ((remove_entry_uint64 G C i j w).0 ≡ success)
          × ((remove_entry_uint64 G C i j w).1
              ≡ not (is_some (extract_edge G (remove_entry_uint64 G C i j w).2 i j)))
          × (occurrences a (ids (extract_edge G (remove_entry_uint64 G C i j w).2 i j))
                + bit (w == a)
              ≡ occurrences a (ids (extract_edge G C i j)))
          × (extract_edge G (remove_entry_uint64 G C i j w).2 k l ≡ (
              if (i == k) && (j == l)
              then extract_edge G (remove_entry_uint64 G C i j w).2 i j
              else extract_edge G C k l))
    remove_entry_uint64_lem a k l = (
      Removal-info case,
      rw entry_after (Removal-flag case (is_some_of_occurrences w _ present)),
      rw entry_after (occurrences-dropped a w (extract_edge G C i j) present),
      rw (entry_after, Removal-entries C i j w L v hi hj case k l) refl,
    )
