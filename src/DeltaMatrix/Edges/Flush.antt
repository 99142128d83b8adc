-- ===== src/DeltaMatrix/Edges/Flush.antt =====
-- RG_Matrix_wait and RG_Matrix_resize of a matrix of edges, which do the same to its transpose.
use redis_graph.Prelude.{ℕ, ◌≡◌, Bool, true, false, ◌&&◌, none, arith, ltb, if◌then◌else◌}
use redis_graph.GraphBlas.{GraphBlas, IsGraphBlas}
use redis_graph.DeltaMatrix.{wait, resize}
use redis_graph.DeltaMatrix.Valid.{dirty-IsValid, extract_element-dirty}
use redis_graph.DeltaMatrix.Sync.{Same, wait-Same}
use redis_graph.DeltaMatrix.Shape.{resize-IsValid, extract_element-resize}
use redis_graph.DeltaMatrix.Edges.{Edge, EdgeMatrix, extract_edge, wait_both, resize_both}
use redis_graph.DeltaMatrix.Edges.Live.{WellFormed, IsLive}

module _ {G : GraphBlas} (L : IsGraphBlas G) (C : EdgeMatrix G) (v : IsLive G C) where
  -- A wait, forced or not, keeps the invariant of a matrix of edges and its transpose, and shows
  -- the same edges at every position.
  pub wait_both-IsLive :
      (force : Bool) (limit : ℕ)
      → IsLive G (wait_both G C force limit)
        × ((k l : ℕ) → extract_edge G (wait_both G C force limit) k l ≡ extract_edge G C k l)
  unfolding wait_both
  wait_both-IsLive force limit = (
    record {
      own_valid = own.valid;
      transposed_valid = dirty-IsValid _ false trans.valid;
      rows = omega (arith, own.cols, trans.rows, v.rows);
      cols = omega (arith, own.rows, trans.cols, v.cols);
      linked = λ k l.
          rw
            (
              extract_element-dirty (wait G C.transposed force limit) false l k,
              own.entries k l,
              trans.entries l k,
            )
            (v.linked k l);
      well_formed = λ k l. rw (own.entries k l) (v.well_formed k l);
    },
    own.entries,
  )
    where
      own : Same L C.own (wait G C.own force limit)
      own = wait-Same L C.own force limit v.own_valid

      trans : Same L C.transposed (wait G C.transposed force limit)
      trans = wait-Same L C.transposed force limit v.transposed_valid

  if_WellFormed : (b : Bool) (k l : ℕ) → WellFormed (if b then extract_edge G C k l else none)
  if_WellFormed true k l = v.well_formed k l
  if_WellFormed false k l = tt

  -- Resizing keeps the invariant of a matrix of edges and its transpose.
  pub resize_both-IsLive : (r c : ℕ) → IsLive G (resize_both G C r c)
  unfolding resize_both
  resize_both-IsLive r c = record {
    own_valid = resize-IsValid L C.own r c v.own_valid;
    transposed_valid = resize-IsValid L C.transposed c r v.transposed_valid;
    rows =
        unfold resize in
        omega (
          arith,
          L.shape-resize Edge C.own.matrix r c,
          L.shape-resize Unit C.transposed.matrix c r,
        );
    cols =
        unfold resize in
        omega (
          arith,
          L.shape-resize Edge C.own.matrix r c,
          L.shape-resize Unit C.transposed.matrix c r,
        );
    linked = λ k l. ground (
      arith,
      extract_element-resize L C.own r c k l,
      extract_element-resize L C.transposed c r l k,
      v.linked k l,
    );
    well_formed =
        λ k l. rw (extract_element-resize L C.own r c k l) (if_WellFormed (ltb k r && ltb l c) k l);
  }
