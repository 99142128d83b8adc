-- ===== src/DeltaMatrix.antt =====
-- RG_Matrix of src/graph/rg_matrix, and the functions that are the same for both entry types.
-- A matrix has no transpose here: DeltaMatrix/Both adds one to a matrix of type GrB_BOOL, and
-- DeltaMatrix/Edges to one of type GrB_UINT64. The calls that the source asserts to return GrB_SUCCESS
-- return the new matrix only. The mutex is not modelled.
pub mod Valid
pub mod Sync
pub mod Edges
pub mod Both
mod Tests
pub mod Export
pub mod Shape
use redis_graph.Prelude.{
  ℕ, ◌+◌, ◌-◌, ◌%◌, ◌^◌, Bool, true, false, not, ◌&&◌, ◌||◌, Option, none, some, ltb, leb, ◌==◌,
  if◌then◌else◌, is_some,
}
use redis_graph.GraphBlas.{GraphBlas}

-- struct _RG_Matrix, without its transpose
pub record Delta (G : GraphBlas) (A : Type 0) : Type 0 where
  pub dirty : Bool
  pub matrix : G.Matrix A
  pub delta_plus : G.Matrix A
  pub delta_minus : G.Matrix (Unit {0})

module _ (G : GraphBlas) where
  -- _RG_Matrix_init
  unfoldable pub init : (A : Type 0) → ℕ → ℕ → Delta G A
  init A nrows ncols = record {
    dirty = false;
    matrix = G.new A nrows ncols;
    delta_plus = G.new A nrows ncols;
    delta_minus = G.new (Unit {0}) nrows ncols;
  }

  unfoldable pub set_dirty : {A : Type 0} → Delta G A → Delta G A
  set_dirty C = record C { dirty = true }

  -- RG_Matrix_extractElement_BOOL and RG_Matrix_extractElement_UINT64 differ in the type only.
  unfoldable pub extract_element : {A : Type 0} → Delta G A → ℕ → ℕ → Option A
  extract_element C i j = elim (G.extract C.delta_plus i j) [
    | some x ↦ some x
    | none ↦ elim (G.extract C.delta_minus i j) [ some _ ↦ none | none ↦ G.extract C.matrix i j ]
  ]

  unfoldable pub set_element_bool : Delta G (Unit {0}) → ℕ → ℕ → Delta G (Unit {0})
  unfolding set_dirty
  set_element_bool C i j =
      if is_some (G.extract C.delta_minus i j)
      then set_dirty (record C { delta_minus = G.remove C.delta_minus i j })
      else if is_some (G.extract C.matrix i j)
      then set_dirty C
      else set_dirty (record C { delta_plus = G.set C.delta_plus tt i j })

  pub remove_element_bool : Delta G (Unit {0}) → ℕ → ℕ → Delta G (Unit {0})
  unfolding set_dirty
  remove_element_bool C i j =
      if is_some (G.extract C.matrix i j)
      then set_dirty (record C { delta_minus = G.set C.delta_minus tt i j })
      else set_dirty (record C { delta_plus = G.remove C.delta_plus i j })

  -- What RG_Matrix_validateState asserts of one position in a debug build.
  pub validate_state : {A : Type 0} → Delta G A → ℕ → ℕ → Bool
  validate_state C i j =
      not (existing_entry && pending_addition && pending_deletion)
      && not (not existing_entry && not pending_addition && pending_deletion)
      && not (existing_entry && pending_addition && not pending_deletion)
      && not (not existing_entry && pending_addition && pending_deletion)
    where
      existing_entry : Bool
      existing_entry = is_some (G.extract C.matrix i j)

      pending_addition : Bool
      pending_addition = is_some (G.extract C.delta_plus i j)

      pending_deletion : Bool
      pending_deletion = is_some (G.extract C.delta_minus i j)

  pub sync_deletions : {A : Type 0} → Delta G A → Delta G A
  sync_deletions C = record C {
    matrix = G.copy_unmasked C.delta_minus C.matrix;
    delta_minus = G.clear C.delta_minus;
  }

  pub sync_additions : {A : Type 0} → Delta G A → Delta G A
  sync_additions C = record C {
    matrix = G.assign C.matrix C.delta_plus;
    delta_plus = G.clear C.delta_plus;
  }

  -- GrB_wait changes no entry.
  pub sync : {A : Type 0} → Delta G A → Bool → ℕ → Delta G A
  unfolding sync_deletions sync_additions
  sync C force_sync delta_max_pending_changes =
      if force_sync
      then sync_additions (sync_deletions C)
      else (let dp_nvals = G.nvals C.delta_plus in
          let dm_nvals = G.nvals C.delta_minus in
          let C' = if leb delta_max_pending_changes dm_nvals then sync_deletions C else C in
          if leb delta_max_pending_changes dp_nvals then sync_additions C' else C')

  -- RG_Matrix_wait of a matrix without a transpose; the last argument is the configuration's
  -- DELTA_MAX_PENDING_CHANGES.
  pub wait : {A : Type 0} → Delta G A → Bool → ℕ → Delta G A
  unfolding sync
  wait A force_sync delta_max_pending_changes =
      let A' = sync A force_sync delta_max_pending_changes in record A' { dirty = false }

  pub export : {A : Type 0} → Delta G A → G.Matrix A
  export C =
      let additions = ltb 0 (G.nvals C.delta_plus) in
      let deletions = ltb 0 (G.nvals C.delta_minus) in
      let a = if deletions then G.copy_unmasked C.delta_minus C.matrix else G.copy C.matrix in
      if additions then G.ewise_add a C.delta_plus else a

  -- RG_Matrix_resize of a matrix without a transpose
  unfoldable pub resize : {A : Type 0} → Delta G A → ℕ → ℕ → Delta G A
  resize C nrows_new ncols_new = record C {
    matrix = G.resize C.matrix nrows_new ncols_new;
    delta_plus = G.resize C.delta_plus nrows_new ncols_new;
    delta_minus = G.resize C.delta_minus nrows_new ncols_new;
  }

  unfoldable pub is_dirty : {A : Type 0} → Delta G A → Bool
  is_dirty C =
      if C.dirty
      then true
      else G.pending C.matrix || G.pending C.delta_minus || G.pending C.delta_plus

  -- RG_Matrix_pending of a matrix without a transpose
  pub has_pending : {A : Type 0} → Delta G A → Bool
  has_pending C = G.pending C.matrix || G.pending C.delta_plus || G.pending C.delta_minus

  -- the sum is a uint64_t
  pub synced : {A : Type 0} → Delta G A → Bool
  synced C = if C.dirty then false else (G.nvals C.delta_plus + G.nvals C.delta_minus) % 2 ^ 64 == 0

  unfoldable pub nrows : {A : Type 0} → Delta G A → ℕ
  nrows C = G.nrows C.matrix

  unfoldable pub ncols : {A : Type 0} → Delta G A → ℕ
  ncols C = G.ncols C.matrix

  -- a uint64_t sum and difference
  pub nvals : {A : Type 0} → Delta G A → ℕ
  nvals A = (G.nvals A.matrix + G.nvals A.delta_plus + 2 ^ 64 - G.nvals A.delta_minus) % 2 ^ 64

  -- RG_Matrix_clear of a matrix without a transpose: the source clears `m` three times.
  pub clear : {A : Type 0} → Delta G A → Delta G A
  clear A = record A { dirty = false; matrix = G.clear (G.clear (G.clear A.matrix)) }

  copy_matrix : G.Matrix (Unit {0}) → G.Matrix (Unit {0}) → G.Matrix (Unit {0})
  copy_matrix source out = if ltb 0 (G.nvals source) then G.copy source else G.clear out

  pub copy : Delta G (Unit {0}) → Delta G (Unit {0}) → Delta G (Unit {0})
  unfolding copy_matrix
  copy C A = record C {
    matrix = copy_matrix A.matrix C.matrix;
    delta_plus = copy_matrix A.delta_plus C.delta_plus;
    delta_minus = copy_matrix A.delta_minus C.delta_minus;
  }

  -- One operand of RG_eWiseAdd: the matrix itself when nothing is pending.
  flushed : {A : Type 0} → Delta G A → G.Matrix A
  unfolding export
  flushed A =
      if ltb 0 (G.nvals A.delta_minus) || ltb 0 (G.nvals A.delta_plus) then export A else A.matrix

  -- RG_eWiseAdd with an ANY_PAIR semiring
  pub ewise_add : {A : Type 0} → Delta G A → Delta G A → Delta G A → Delta G A
  unfolding flushed
  ewise_add C A B = record C { matrix = G.ewise_add (flushed A) (flushed B) }
