-- ===== src/DeltaMatrix/Export.antt =====
-- What a delta matrix exports and how it counts its entries: rg_export.c, RG_Matrix_nvals,
-- RG_Matrix_Synced and rg_add.c.
use redis_graph.Prelude.{ℕ, ◌+◌, ◌^◌, ◌<◌, ◌≡◌, true, ◌||◌, arith, is_some}
use redis_graph.Prelude.Grid.{bit, count, count-balance}
use redis_graph.GraphBlas.{GraphBlas, IsGraphBlas}
use redis_graph.GraphBlas.Count.{none_of_nvals}
use redis_graph.DeltaMatrix.{
  Delta, extract_element, validate_state, export, nvals, synced, flushed, ewise_add,
}
use redis_graph.DeltaMatrix.Valid.{IsValid}

module _ {G : GraphBlas} (L : IsGraphBlas G) {A : Type 0} where
  -- The matrix that a valid delta matrix is exported to holds at every position the entry that the
  -- delta matrix shows.
  pub extract-export :
      (C : Delta G A) (k l : ℕ) → IsValid G C → G.extract (export G C) k l ≡ extract_element G C k l
  unfolding export extract_element validate_state
  extract-export C k l v = ground (
    arith,
    v.state k l,
    v.plus_rows,
    v.plus_cols,
    v.minus_rows,
    v.minus_cols,
    L.shape-copy_unmasked A C.delta_minus C.matrix,
    L.shape-copy A C.matrix,
    none_of_nvals L A C.delta_plus k l,
    none_of_nvals L Unit C.delta_minus k l,
    L.extract-copy_unmasked A C.delta_minus C.matrix k l,
    L.extract-copy A C.matrix k l,
    L.extract-ewise_add_left A (G.copy_unmasked C.delta_minus C.matrix) C.delta_plus k l,
    L.extract-ewise_add_right A (G.copy_unmasked C.delta_minus C.matrix) C.delta_plus k l,
    L.extract-ewise_add_left A (G.copy C.matrix) C.delta_plus k l,
    L.extract-ewise_add_right A (G.copy C.matrix) C.delta_plus k l,
  )

  balanced :
      (C : Delta G A) (k l : ℕ)
      → validate_state G C k l ≡ true
      → bit (is_some (G.extract C.matrix k l)) + bit (is_some (G.extract C.delta_plus k l))
        ≡ bit (is_some (extract_element G C k l)) + bit (is_some (G.extract C.delta_minus k l))
  unfolding extract_element validate_state
  balanced C k l v = ground arith

  -- Where the sum of two stored counts does not wrap, the number of values of a valid matrix is the
  -- number of positions that show an entry.
  pub nvals-eq-count :
      (C : Delta G A)
      → IsValid G C
      → G.nvals C.matrix + G.nvals C.delta_plus < 2 ^ 64
      → nvals G C
        ≡ count (G.nrows C.matrix) (G.ncols C.matrix) (λ k l. is_some (extract_element G C k l))
  unfolding nvals
  nvals-eq-count C v fits = omega (
    arith,
    L.nvals-count A C.matrix,
    rw (v.plus_rows, v.plus_cols) at (L.nvals-count A C.delta_plus),
    rw (v.minus_rows, v.minus_cols) at (L.nvals-count Unit C.delta_minus),
    count-balance (G.nrows C.matrix) (G.ncols C.matrix) (λ k l. is_some (G.extract C.matrix k l))
        (λ k l. is_some (G.extract C.delta_plus k l)) (λ k l. is_some (extract_element G C k l))
        (λ k l. is_some (G.extract C.delta_minus k l)) (λ k l. balanced C k l (v.state k l)),
  )

  -- A matrix that reports itself synced shows its main matrix, where the sum of its pending counts
  -- does not wrap.
  pub extract_element_of_synced :
      (C : Delta G A) (k l : ℕ)
      → G.nvals C.delta_plus + G.nvals C.delta_minus < 2 ^ 64
      → synced G C ≡ true
      → extract_element G C k l ≡ G.extract C.matrix k l
  unfolding synced extract_element
  extract_element_of_synced C k l fits s =
      ground (arith, none_of_nvals L A C.delta_plus k l, none_of_nvals L Unit C.delta_minus k l)

  extract-flushed :
      (C : Delta G A) (k l : ℕ)
      → IsValid G C
      → G.extract (flushed G C) k l ≡ extract_element G C k l
  unfolding flushed extract_element
  extract-flushed C k l v = ground (
    arith,
    none_of_nvals L A C.delta_plus k l,
    none_of_nvals L Unit C.delta_minus k l,
    extract-export C k l v,
  )

  shape-flushed :
      (C : Delta G A)
      → (G.nrows (flushed G C) ≡ G.nrows C.matrix) × (G.ncols (flushed G C) ≡ G.ncols C.matrix)
  unfolding flushed export
  shape-flushed C = (
    ground (
      arith,
      L.shape-copy_unmasked A C.delta_minus C.matrix,
      L.shape-copy A C.matrix,
      L.shape-ewise_add A (G.copy_unmasked C.delta_minus C.matrix) C.delta_plus,
      L.shape-ewise_add A (G.copy C.matrix) C.delta_plus,
    ),
    ground (
      arith,
      L.shape-copy_unmasked A C.delta_minus C.matrix,
      L.shape-copy A C.matrix,
      L.shape-ewise_add A (G.copy_unmasked C.delta_minus C.matrix) C.delta_plus,
      L.shape-ewise_add A (G.copy C.matrix) C.delta_plus,
    ),
  )

  -- The sum of two valid delta matrices of one shape, pending changes included, has an entry
  -- exactly where one of the two shows one.
  pub is_some-ewise_add :
      (C X Y : Delta G A) (k l : ℕ)
      → IsValid G X
      → IsValid G Y
      → G.nrows Y.matrix ≡ G.nrows X.matrix
      → G.ncols Y.matrix ≡ G.ncols X.matrix
      → is_some (G.extract (ewise_add G C X Y).matrix k l)
        ≡ is_some (extract_element G X k l) || is_some (extract_element G Y k l)
  unfolding ewise_add
  is_some-ewise_add C X Y k l vx vy hr hc = ground (
    arith,
    extract-flushed X k l vx,
    extract-flushed Y k l vy,
    shape-flushed X,
    shape-flushed Y,
    L.extract-ewise_add_left A (flushed G X) (flushed G Y) k l,
    L.extract-ewise_add_right A (flushed G X) (flushed G Y) k l,
    L.is_some-ewise_add A (flushed G X) (flushed G Y) k l,
  )
