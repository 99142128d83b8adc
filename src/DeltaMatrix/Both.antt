-- ===== src/DeltaMatrix/Both.antt =====
-- A boolean matrix of src/graph/rg_matrix with a transpose: Graph_New gives the adjacency matrix one.
-- Setting and removing an element marks each of the two matrices dirty by itself.
use redis_graph.Prelude.{ℕ, ◌<◌, ◌≡◌, Bool, false, arith, is_some}
use redis_graph.GraphBlas.{GraphBlas, IsGraphBlas}
use redis_graph.DeltaMatrix.{
  Delta, init, extract_element, set_dirty, set_element_bool, remove_element_bool, wait, resize,
}
use redis_graph.DeltaMatrix.Valid.{
  IsValid, init-IsValid, extract_element-init, set_element_bool-IsValid,
  extract_element-set_element_bool, shape-set_element_bool, remove_element_bool-IsValid,
  extract_element-remove_element_bool, shape-remove_element_bool, dirty-IsValid,
  extract_element-dirty,
}
use redis_graph.DeltaMatrix.Sync.{Same, wait-Same}
use redis_graph.DeltaMatrix.Shape.{resize-IsValid, extract_element-resize}

-- struct _RG_Matrix of type GrB_BOOL, with its transpose
pub record BothMatrix (G : GraphBlas) : Type 0 where
  pub own : Delta G (Unit {0})
  pub transposed : Delta G (Unit {0})

module _ (G : GraphBlas) where
  -- RG_Matrix_new, for the matrix and for its transpose
  unfoldable pub new_both : ℕ → ℕ → BothMatrix G
  new_both nrows ncols = record {
    own = init G (Unit {0}) nrows ncols;
    transposed = init G (Unit {0}) ncols nrows;
  }

  -- RG_Matrix_setDirty
  unfoldable pub dirty_both : BothMatrix G → BothMatrix G
  unfolding set_dirty
  dirty_both C = record { own = set_dirty G C.own; transposed = set_dirty G C.transposed }

  -- RG_Matrix_setElement_BOOL
  unfoldable pub set_both : BothMatrix G → ℕ → ℕ → BothMatrix G
  unfolding set_element_bool
  set_both C i j = record {
    own = set_element_bool G C.own i j;
    transposed = set_element_bool G C.transposed j i;
  }

  -- RG_Matrix_removeElement_BOOL
  unfoldable pub remove_both : BothMatrix G → ℕ → ℕ → BothMatrix G
  remove_both C i j = record {
    own = remove_element_bool G C.own i j;
    transposed = remove_element_bool G C.transposed j i;
  }

  -- RG_Matrix_wait
  unfoldable pub wait_each : BothMatrix G → Bool → ℕ → BothMatrix G
  wait_each A force_sync limit = record {
    own = wait G A.own force_sync limit;
    transposed = record (wait G A.transposed force_sync limit) { dirty = false };
  }

  -- RG_Matrix_resize
  unfoldable pub resize_each : BothMatrix G → ℕ → ℕ → BothMatrix G
  unfolding resize
  resize_each C nrows_new ncols_new = record {
    own = resize G C.own nrows_new ncols_new;
    transposed = resize G C.transposed ncols_new nrows_new;
  }

-- Both matrices are valid, and the transpose has an entry exactly where the matrix has one.
pub record IsMirrored (G : GraphBlas) (C : BothMatrix G) : Type 0 where
  pub own_valid : IsValid G C.own
  pub transposed_valid : IsValid G C.transposed
  pub rows : G.nrows C.transposed.matrix ≡ G.ncols C.own.matrix
  pub cols : G.ncols C.transposed.matrix ≡ G.nrows C.own.matrix
  pub mirrored :
      (k l : ℕ)
      → is_some (extract_element G C.transposed l k) ≡ is_some (extract_element G C.own k l)

module _ {G : GraphBlas} (L : IsGraphBlas G) where
  pub new_both-IsMirrored : (r c : ℕ) → IsMirrored G (new_both G r c)
  unfolding new_both
  new_both-IsMirrored r c = record {
    own_valid = init-IsValid L Unit r c;
    transposed_valid = init-IsValid L Unit c r;
    rows = unfold init in omega (arith, L.shape-new Unit c r, L.shape-new Unit r c);
    cols = unfold init in omega (arith, L.shape-new Unit c r, L.shape-new Unit r c);
    mirrored = λ k l. rw (extract_element-init L Unit c r l k, extract_element-init L Unit r c k l);
  }

  module _ (C : BothMatrix G) (v : IsMirrored G C) where
    module _ (i j : ℕ) (hi : i < G.nrows C.own.matrix) (hj : j < G.ncols C.own.matrix) where
      hi' : i < G.ncols C.transposed.matrix
      hi' = omega (arith, v.cols)

      hj' : j < G.nrows C.transposed.matrix
      hj' = omega (arith, v.rows)

      pub set_both-IsMirrored : IsMirrored G (set_both G C i j)
      unfolding set_both
      set_both-IsMirrored = record {
        own_valid = set_element_bool-IsValid L C.own i j v.own_valid hi hj;
        transposed_valid = set_element_bool-IsValid L C.transposed j i v.transposed_valid hj' hi';
        rows = omega (
          arith,
          v.rows,
          shape-set_element_bool L C.own i j,
          shape-set_element_bool L C.transposed j i,
        );
        cols = omega (
          arith,
          v.cols,
          shape-set_element_bool L C.own i j,
          shape-set_element_bool L C.transposed j i,
        );
        mirrored = λ k l. ground (
          arith,
          extract_element-set_element_bool L C.own i j v.own_valid k l hi hj,
          extract_element-set_element_bool L C.transposed j i v.transposed_valid l k hj' hi',
          v.mirrored k l,
        );
      }

      pub remove_both-IsMirrored : IsMirrored G (remove_both G C i j)
      unfolding remove_both
      remove_both-IsMirrored = record {
        own_valid = remove_element_bool-IsValid L C.own i j v.own_valid hi hj;
        transposed_valid =
            remove_element_bool-IsValid L C.transposed j i v.transposed_valid hj' hi';
        rows = omega (
          arith,
          v.rows,
          shape-remove_element_bool L C.own i j,
          shape-remove_element_bool L C.transposed j i,
        );
        cols = omega (
          arith,
          v.cols,
          shape-remove_element_bool L C.own i j,
          shape-remove_element_bool L C.transposed j i,
        );
        mirrored = λ k l. ground (
          arith,
          extract_element-remove_element_bool L C.own i j v.own_valid k l hi hj,
          extract_element-remove_element_bool L C.transposed j i v.transposed_valid l k hj' hi',
          v.mirrored k l,
        );
      }

    pub wait_each-IsMirrored : (force : Bool) (limit : ℕ) → IsMirrored G (wait_each G C force limit)
    unfolding wait_each
    wait_each-IsMirrored force limit = record {
      own_valid = own.valid;
      transposed_valid = dirty-IsValid _ false trans.valid;
      rows = omega (arith, own.cols, trans.rows, v.rows);
      cols = omega (arith, own.rows, trans.cols, v.cols);
      mirrored = λ k l.
          rw
            (
              extract_element-dirty (wait G C.transposed force limit) false l k,
              own.entries k l,
              trans.entries l k,
            )
            (v.mirrored k l);
    }
      where
        own : Same L C.own (wait G C.own force limit)
        own = wait-Same L C.own force limit v.own_valid

        trans : Same L C.transposed (wait G C.transposed force limit)
        trans = wait-Same L C.transposed force limit v.transposed_valid

    pub resize_each-IsMirrored : (r c : ℕ) → IsMirrored G (resize_each G C r c)
    unfolding resize_each
    resize_each-IsMirrored r c = record {
      own_valid = resize-IsValid L C.own r c v.own_valid;
      transposed_valid = resize-IsValid L C.transposed c r v.transposed_valid;
      rows =
          unfold resize in
          omega (
            arith,
            L.shape-resize Unit C.own.matrix r c,
            L.shape-resize Unit C.transposed.matrix c r,
          );
      cols =
          unfold resize in
          omega (
            arith,
            L.shape-resize Unit C.own.matrix r c,
            L.shape-resize Unit C.transposed.matrix c r,
          );
      mirrored = λ k l. ground (
        arith,
        extract_element-resize L C.own r c k l,
        extract_element-resize L C.transposed c r l k,
        v.mirrored k l,
      );
    }
