-- ===== src/DeltaMatrix/Shape.antt =====
-- Resizing, copying and clearing: rg_resize.c, rg_copy.c and RG_Matrix_clear.
use redis_graph.Prelude.{ℕ, ◌≡◌, ◌≢◌, true, ◌&&◌, none, some, arith, ltb, if◌then◌else◌}
use redis_graph.GraphBlas.{GraphBlas, IsGraphBlas}
use redis_graph.GraphBlas.Count.{none_of_nvals}
use redis_graph.DeltaMatrix.{
  Delta, extract_element, validate_state, resize, clear, copy_matrix, copy,
}
use redis_graph.DeltaMatrix.Valid.{IsValid}

module _ {G : GraphBlas} (L : IsGraphBlas G) {A : Type 0} (C : Delta G A) where
  resize-state :
      (r c k l : ℕ) → validate_state G C k l ≡ true → validate_state G (resize G C r c) k l ≡ true
  unfolding resize validate_state
  resize-state r c k l v = ground (
    arith,
    L.extract-resize A C.matrix r c k l,
    L.extract-resize A C.delta_plus r c k l,
    L.extract-resize Unit C.delta_minus r c k l,
  )

  pub resize-IsValid : (r c : ℕ) → IsValid G C → IsValid G (resize G C r c)
  resize-IsValid r c v = record {
    state = λ k l. resize-state r c k l (v.state k l);
    plus_rows =
        unfold resize in
        omega (arith, L.shape-resize A C.matrix r c, L.shape-resize A C.delta_plus r c);
    plus_cols =
        unfold resize in
        omega (arith, L.shape-resize A C.matrix r c, L.shape-resize A C.delta_plus r c);
    minus_rows =
        unfold resize in
        omega (arith, L.shape-resize A C.matrix r c, L.shape-resize Unit C.delta_minus r c);
    minus_cols =
        unfold resize in
        omega (arith, L.shape-resize A C.matrix r c, L.shape-resize Unit C.delta_minus r c);
  }

  -- A resized matrix shows the entries inside its new bounds, pending ones included, and no other.
  pub extract_element-resize :
      (r c k l : ℕ)
      → extract_element G (resize G C r c) k l
        ≡ (if ltb k r && ltb l c then extract_element G C k l else none)
  unfolding resize extract_element
  extract_element-resize r c k l = ground (
    arith,
    L.extract-resize A C.matrix r c k l,
    L.extract-resize A C.delta_plus r c k l,
    L.extract-resize Unit C.delta_minus r c k l,
  )

  -- Clearing drops the flushed entries and keeps the pending additions: a cleared matrix shows what
  -- its delta-plus holds.
  pub extract_element-clear :
      (k l : ℕ) → extract_element G (clear G C) k l ≡ G.extract C.delta_plus k l
  unfolding clear extract_element
  extract_element-clear k l = ground (arith, L.extract-clear A (G.clear (G.clear C.matrix)) k l)

  -- Where a deletion is pending in an admissible state of a position, the cleared matrix has there
  -- one of the states that RG_Matrix_validateState calls impossible.
  pub clear-invalid :
      (k l : ℕ)
      → validate_state G C k l ≡ true
      → G.extract C.delta_minus k l ≡ some tt
      → validate_state G (clear G C) k l ≢ true
  unfolding clear validate_state
  clear-invalid k l v d = ground (arith, L.extract-clear A (G.clear (G.clear C.matrix)) k l)

module _ {G : GraphBlas} (L : IsGraphBlas G) where
  extract-copy_matrix :
      (s m : G.Matrix (Unit {0})) (k l : ℕ) → G.extract (copy_matrix G s m) k l ≡ G.extract s k l
  unfolding copy_matrix
  extract-copy_matrix s m k l =
      ground
        (arith, none_of_nvals L Unit s k l, L.extract-copy Unit s k l, L.extract-clear Unit m k l)

  -- A copy of a boolean matrix shows the same entries as its source, whatever the destination held.
  pub extract_element-copy :
      (C X : Delta G (Unit {0})) (k l : ℕ)
      → extract_element G (copy G C X) k l ≡ extract_element G X k l
  unfolding copy extract_element
  extract_element-copy C X k l = ground (
    arith,
    extract-copy_matrix X.matrix C.matrix k l,
    extract-copy_matrix X.delta_plus C.delta_plus k l,
    extract-copy_matrix X.delta_minus C.delta_minus k l,
  )
