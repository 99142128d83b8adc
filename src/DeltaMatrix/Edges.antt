-- ===== src/DeltaMatrix/Edges.antt =====
-- The GrB_UINT64 matrices of src/graph/rg_matrix: an entry is the id of one edge, or an array of
-- the ids of parallel edges, and a boolean transpose is kept beside the matrix.
-- An array is owned by its entry alone, so an entry stands for its array: a change of the array
-- in place is a change of the entry, and freeing the array leaves the entry `freed`.
pub mod Live
pub mod Add
pub mod Remove
pub mod Drop
pub mod Removal
pub mod RemoveEntry
pub mod Flush
mod Tests
use redis_graph.Prelude.{
  ℕ, ◌+◌, Bool, true, false, not, ◌&&◌, ◌||◌, Option, none, some, List, [], ◌∷◌, ◌++◌,
  if◌then◌else◌, is_some,
}
use redis_graph.GraphBlas.{GraphBlas}
use redis_graph.Arrays.{array_del_fast, position}
use redis_graph.DeltaMatrix.{
  Delta, init, set_dirty, extract_element, set_element_bool, remove_element_bool, wait, resize,
  clear, has_pending,
}

-- A uint64_t whose top bit is clear (SINGLE_EDGE), or set over the address of an array.
pub data Edge : Type 0 where
  single : ℕ → Edge
  multi : List ℕ → Edge
  freed : Edge

-- The edges of an entry.
abbrev pub ids : Option Edge → List ℕ
ids none = []
ids (some (single x)) = x ∷ []
ids (some (multi xs)) = xs
ids (some freed) = []

-- GrB_SUCCESS and GrB_NO_VALUE
pub data Info : Type 0 where
  success no_value : Info

-- `_edge_accum`. Its second argument is the id that is added; an array that was freed stays so.
abbrev pub edge_accum : Edge → Edge → Edge
edge_accum (single x) (single y) = multi (x ∷ y ∷ [])
edge_accum (multi xs) (single y) = multi (xs ++ y ∷ [])
edge_accum _ _ = freed

-- What `array_free` leaves of an entry.
abbrev pub free_edge : Edge → Edge
free_edge (single x) = single x
free_edge _ = freed

-- An array left with one id becomes that id.
abbrev shrink : List ℕ → Edge
shrink [] = multi []
shrink (x ∷ []) = single x
shrink (x ∷ y ∷ ys) = multi (x ∷ y ∷ ys)

-- `_removeEntryFromMultiValArr`
pub remove_entry_from_array : List ℕ → ℕ → Edge
remove_entry_from_array entries entry = shrink (array_del_fast entries (position entry entries))

-- struct _RG_Matrix of type GrB_UINT64
pub record EdgeMatrix (G : GraphBlas) : Type 0 where
  pub own : Delta G Edge
  pub transposed : Delta G (Unit {0})

module _ (G : GraphBlas) where
  unfoldable pub new : ℕ → ℕ → EdgeMatrix G
  new nrows ncols = record {
    own = init G Edge nrows ncols;
    transposed = init G (Unit {0}) ncols nrows;
  }

  -- RG_Matrix_setDirty with a transpose
  unfoldable pub set_dirty_both : EdgeMatrix G → EdgeMatrix G
  unfolding set_dirty
  set_dirty_both C = record { own = set_dirty G C.own; transposed = set_dirty G C.transposed }

  -- RG_Matrix_extractElement_UINT64
  abbrev pub extract_edge : EdgeMatrix G → ℕ → ℕ → Option Edge
  extract_edge C i j = extract_element G C.own i j

  unfoldable pub set_multi_edge_entry : G.Matrix Edge → ℕ → ℕ → ℕ → G.Matrix Edge
  set_multi_edge_entry A x i j = G.accumulate edge_accum A (single x) i j

  unfoldable pub set_element_uint64 : EdgeMatrix G → ℕ → ℕ → ℕ → EdgeMatrix G
  unfolding set_dirty_both set_multi_edge_entry
  set_element_uint64 C x i j =
      let t = set_element_bool G C.transposed j i in
      let m = C.own.matrix in
      let dp = C.own.delta_plus in
      let dm = C.own.delta_minus in
      if is_some (G.extract dm i j)
      then set_dirty_both (record {
        own = record (C.own) { matrix = G.set m (single x) i j; delta_minus = G.remove dm i j };
        transposed = t;
      })
      else if is_some (G.extract m i j)
      then set_dirty_both (record {
        own = record (C.own) { matrix = set_multi_edge_entry m x i j };
        transposed = t;
      })
      else set_dirty_both (record {
        own = record (C.own) { delta_plus = set_multi_edge_entry dp x i j };
        transposed = t;
      })

  -- array_free of the entry at one position, if it has one
  free_entry : G.Matrix Edge → ℕ → ℕ → G.Matrix Edge
  free_entry A i j = elim (G.extract A i j) [ none ↦ A | some e ↦ G.set A (free_edge e) i j ]

  pub remove_element_uint64 : EdgeMatrix G → ℕ → ℕ → Info × EdgeMatrix G
  unfolding set_dirty_both free_entry
  remove_element_uint64 C i j =
      let t = remove_element_bool G C.transposed j i in
      let m = C.own.matrix in
      let dp = C.own.delta_plus in
      let dm = C.own.delta_minus in
      let in_dp = is_some (G.extract dp i j) in
      let in_m = is_some (G.extract m i j) && not (is_some (G.extract dm i j)) in
      let m' = if in_m then free_entry m i j else m in
      let dm' = if in_m then G.set dm tt i j else dm in
      let dp' = if in_dp then G.remove (free_entry dp i j) i j else dp in
      if not (in_m || in_dp) then (no_value, record C { transposed = t }) else (
        success,
        set_dirty_both (record {
          own = record (C.own) { matrix = m'; delta_minus = dm'; delta_plus = dp' };
          transposed = t;
        }),
      )

  -- The branch of RG_Matrix_removeEntry_UINT64 for an entry of M. The flag is `*entry_deleted`.
  remove_from_m : EdgeMatrix G → ℕ → ℕ → ℕ → Edge → Info × Bool × EdgeMatrix G
  unfolding set_dirty_both remove_entry_from_array
  remove_from_m C i j v (single x) = (
    success,
    true,
    set_dirty_both (record {
      own = record (C.own) { delta_minus = G.set C.own.delta_minus tt i j };
      transposed = remove_element_bool G C.transposed j i;
    }),
  )
  remove_from_m C i j v (multi entries) = (
    success,
    false,
    record C {
      own = record (C.own) { matrix = G.set C.own.matrix (remove_entry_from_array entries v) i j };
    },
  )
  remove_from_m C i j v freed = (success, false, C)

  -- The branch for an entry of delta-plus.
  remove_from_dp : EdgeMatrix G → ℕ → ℕ → ℕ → Edge → Info × Bool × EdgeMatrix G
  unfolding set_dirty_both remove_entry_from_array
  remove_from_dp C i j v (single x) = (
    success,
    true,
    set_dirty_both (record {
      own = record (C.own) { delta_plus = G.remove C.own.delta_plus i j };
      transposed = remove_element_bool G C.transposed j i;
    }),
  )
  remove_from_dp C i j v (multi entries) = (
    success,
    false,
    record C {
      own = record (C.own) {
        delta_plus = G.set C.own.delta_plus (remove_entry_from_array entries v) i j;
      };
    },
  )
  remove_from_dp C i j v freed = (success, false, C)

  pub remove_entry_uint64 : EdgeMatrix G → ℕ → ℕ → ℕ → Info × Bool × EdgeMatrix G
  unfolding remove_from_m remove_from_dp
  remove_entry_uint64 C i j v = elim (G.extract C.own.matrix i j) [
    | some m_x ↦ remove_from_m C i j v m_x
    | none ↦ elim (G.extract C.own.delta_plus i j) [
      | some dp_x ↦ remove_from_dp C i j v dp_x
      | none ↦ (no_value, false, C)
    ]
  ]

  -- RG_Matrix_wait with a transpose
  unfoldable pub wait_both : EdgeMatrix G → Bool → ℕ → EdgeMatrix G
  wait_both A force_sync limit = record {
    own = wait G A.own force_sync limit;
    transposed = record (wait G A.transposed force_sync limit) { dirty = false };
  }

  -- RG_Matrix_resize with a transpose
  unfoldable pub resize_both : EdgeMatrix G → ℕ → ℕ → EdgeMatrix G
  resize_both C nrows_new ncols_new = record {
    own = resize G C.own nrows_new ncols_new;
    transposed = resize G C.transposed ncols_new nrows_new;
  }
