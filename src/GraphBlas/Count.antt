-- ===== src/GraphBlas/Count.antt =====
-- What the entry counts of GraphBLAS matrices say of their entries.
use redis_graph.Prelude.{ℕ, ◌≡◌, ◌∙◌, none, false, arith, ltb, is_some}
use redis_graph.Prelude.Grid.{count-none, count-pos}
use redis_graph.GraphBlas.{GraphBlas, IsGraphBlas}

module _ {G : GraphBlas} (L : IsGraphBlas G) (B : Type 0) (m : G.Matrix B) where
  pub nvals_of_none : ((k l : ℕ) → G.extract m k l ≡ none) → G.nvals m ≡ 0
  nvals_of_none e = L.nvals-count B m ∙ count-none (G.nrows m) (G.ncols m) _ (λ k l. rw (e k l))

  pub none_of_nvals : (k l : ℕ) → ltb 0 (G.nvals m) ≡ false → G.extract m k l ≡ none
  none_of_nvals k l e = ground (
    arith,
    L.nvals-count B m,
    L.extract_bounds B m k l,
    count-pos (G.nrows m) (G.ncols m) (λ k l. is_some (G.extract m k l)) k l,
  )
