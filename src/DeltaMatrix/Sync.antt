-- ===== src/DeltaMatrix/Sync.antt =====
-- Flushing pending changes: src/graph/rg_matrix/rg_wait.c, and RG_Matrix_Synced.
use redis_graph.Prelude.{ℕ, ◌≡◌, Bool, true, false, arith, leb, if◌then◌else◌}
use redis_graph.GraphBlas.{GraphBlas, IsGraphBlas}
use redis_graph.GraphBlas.Count.{nvals_of_none}
use redis_graph.DeltaMatrix.{
  Delta, extract_element, validate_state, sync_deletions, sync_additions, sync, wait, synced,
}
use redis_graph.DeltaMatrix.Valid.{IsValid}

module _ {G : GraphBlas} (L : IsGraphBlas G) {A : Type 0} where
  sync_deletions-state :
      (C : Delta G A) (k l : ℕ) → IsValid G C → validate_state G (sync_deletions G C) k l ≡ true
  unfolding sync_deletions validate_state
  sync_deletions-state C k l v = ground (
    arith,
    L.extract-copy_unmasked A C.delta_minus C.matrix k l,
    L.extract-clear Unit C.delta_minus k l,
    v.state k l,
    v.minus_rows,
    v.minus_cols,
  )

  extract_element-sync_deletions :
      (C : Delta G A) (k l : ℕ)
      → IsValid G C
      → extract_element G (sync_deletions G C) k l ≡ extract_element G C k l
  unfolding sync_deletions validate_state extract_element
  extract_element-sync_deletions C k l v = ground (
    arith,
    L.extract-copy_unmasked A C.delta_minus C.matrix k l,
    L.extract-clear Unit C.delta_minus k l,
    v.state k l,
    v.minus_rows,
    v.minus_cols,
  )

  sync_additions-state :
      (C : Delta G A) (k l : ℕ) → IsValid G C → validate_state G (sync_additions G C) k l ≡ true
  unfolding sync_additions validate_state
  sync_additions-state C k l v = ground (
    arith,
    L.extract-assign A C.matrix C.delta_plus k l,
    L.extract-clear A C.delta_plus k l,
    v.state k l,
    v.plus_rows,
    v.plus_cols,
  )

  extract_element-sync_additions :
      (C : Delta G A) (k l : ℕ)
      → IsValid G C
      → extract_element G (sync_additions G C) k l ≡ extract_element G C k l
  unfolding sync_additions validate_state extract_element
  extract_element-sync_additions C k l v = ground (
    arith,
    L.extract-assign A C.matrix C.delta_plus k l,
    L.extract-clear A C.delta_plus k l,
    v.state k l,
    v.plus_rows,
    v.plus_cols,
  )

  sync_deletions-IsValid : (C : Delta G A) → IsValid G C → IsValid G (sync_deletions G C)
  sync_deletions-IsValid C v = record {
    state = λ k l. sync_deletions-state C k l v;
    plus_rows =
        unfold sync_deletions in
        omega (arith, v.plus_rows, L.shape-copy_unmasked A C.delta_minus C.matrix);
    plus_cols =
        unfold sync_deletions in
        omega (arith, v.plus_cols, L.shape-copy_unmasked A C.delta_minus C.matrix);
    minus_rows =
        unfold sync_deletions in
        omega (
          arith,
          v.minus_rows,
          L.shape-copy_unmasked A C.delta_minus C.matrix,
          L.shape-clear Unit C.delta_minus,
        );
    minus_cols =
        unfold sync_deletions in
        omega (
          arith,
          v.minus_cols,
          L.shape-copy_unmasked A C.delta_minus C.matrix,
          L.shape-clear Unit C.delta_minus,
        );
  }

  sync_additions-IsValid : (C : Delta G A) → IsValid G C → IsValid G (sync_additions G C)
  sync_additions-IsValid C v = record {
    state = λ k l. sync_additions-state C k l v;
    plus_rows =
        unfold sync_additions in
        omega (
          arith,
          v.plus_rows,
          L.shape-assign A C.matrix C.delta_plus,
          L.shape-clear A C.delta_plus,
        );
    plus_cols =
        unfold sync_additions in
        omega (
          arith,
          v.plus_cols,
          L.shape-assign A C.matrix C.delta_plus,
          L.shape-clear A C.delta_plus,
        );
    minus_rows =
        unfold sync_additions in
        omega (arith, v.minus_rows, L.shape-assign A C.matrix C.delta_plus);
    minus_cols =
        unfold sync_additions in
        omega (arith, v.minus_cols, L.shape-assign A C.matrix C.delta_plus);
  }

  -- `D` is valid, shows the same entries as `C` and has its shape.
  pub record Same (C D : Delta G A) : Type 0 where
    pub valid : IsValid G D
    pub entries : (k l : ℕ) → extract_element G D k l ≡ extract_element G C k l
    pub rows : G.nrows D.matrix ≡ G.nrows C.matrix
    pub cols : G.ncols D.matrix ≡ G.ncols C.matrix

  Same-refl : (C : Delta G A) → IsValid G C → Same C C
  Same-refl C v = record { valid = v; entries = λ k l. cc; rows = omega arith; cols = omega arith }

  Same-deletions : (C D : Delta G A) → Same C D → Same C (sync_deletions G D)
  Same-deletions C D s = record {
    valid = sync_deletions-IsValid D s.valid;
    entries = λ k l. cc (extract_element-sync_deletions D k l s.valid, s.entries k l);
    rows =
        unfold sync_deletions in
        omega (arith, s.rows, L.shape-copy_unmasked A D.delta_minus D.matrix);
    cols =
        unfold sync_deletions in
        omega (arith, s.cols, L.shape-copy_unmasked A D.delta_minus D.matrix);
  }

  Same-additions : (C D : Delta G A) → Same C D → Same C (sync_additions G D)
  Same-additions C D s = record {
    valid = sync_additions-IsValid D s.valid;
    entries = λ k l. cc (extract_element-sync_additions D k l s.valid, s.entries k l);
    rows = unfold sync_additions in omega (arith, s.rows, L.shape-assign A D.matrix D.delta_plus);
    cols = unfold sync_additions in omega (arith, s.cols, L.shape-assign A D.matrix D.delta_plus);
  }

  Same-if : (C D E : Delta G A) (b : Bool) → Same C D → Same C E → Same C (if b then D else E)
  Same-if C D E true s t = s
  Same-if C D E false s t = t

  sync-Same :
      (C : Delta G A) (force : Bool) (limit : ℕ) → IsValid G C → Same C (sync G C force limit)
  unfolding sync
  sync-Same C force limit v =
      Same-if C _ _ force both (Same-if C _ _ _ (Same-additions C _ first) first)
    where
      both : Same C (sync_additions G (sync_deletions G C))
      both = Same-additions C _ (Same-deletions C C (Same-refl C v))

      first : Same C (if leb limit (G.nvals C.delta_minus) then sync_deletions G C else C)
      first = Same-if C _ _ _ (Same-deletions C C (Same-refl C v)) (Same-refl C v)

  undirty-Same : (C D : Delta G A) → Same C D → Same C (record D { dirty = false })
  unfolding validate_state extract_element
  undirty-Same C D s = record {
    valid = record {
      state = s.valid.state;
      plus_rows = s.valid.plus_rows;
      plus_cols = s.valid.plus_cols;
      minus_rows = s.valid.minus_rows;
      minus_cols = s.valid.minus_cols;
    };
    entries = s.entries;
    rows = s.rows;
    cols = s.cols;
  }

  -- Whether forced or not, and whatever the limit on pending changes, a wait on a valid matrix
  -- leaves a valid matrix of the same shape that shows the same entry at every position.
  pub wait-Same :
      (C : Delta G A) (force : Bool) (limit : ℕ) → IsValid G C → Same C (wait G C force limit)
  unfolding wait
  wait-Same C force limit v = undirty-Same C _ (sync-Same C force limit v)

  -- A forced wait leaves a matrix that reports itself synced, whatever was pending.
  pub synced-wait : (C : Delta G A) (limit : ℕ) → synced G (wait G C true limit) ≡ true
  unfolding synced wait sync sync_deletions sync_additions
  synced-wait C limit = rw (
    nvals_of_none L A (G.clear C.delta_plus) (L.extract-clear A C.delta_plus),
    nvals_of_none L Unit (G.clear C.delta_minus) (L.extract-clear Unit C.delta_minus),
  )
