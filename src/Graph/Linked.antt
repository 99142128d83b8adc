-- ===== src/Graph/Linked.antt =====
-- The invariant of the matrices of a graph: the adjacency matrix has an entry exactly where a
-- relation has one.
use redis_graph.Prelude.{
  some_inj, ℕ, zero, suc, ◌≡◌, refl, ◌||◌, Option, none, some, is_some, List, [], ◌∷◌, get_elem?,
  set, arith,
}
use mathlib.Core.Path.{subst}
use redis_graph.GraphBlas.{GraphBlas}
use redis_graph.DeltaMatrix.{extract_element}
use redis_graph.DeltaMatrix.Both.{IsMirrored}
use redis_graph.DeltaMatrix.Edges.{EdgeMatrix, extract_edge, ids}
use redis_graph.DeltaMatrix.Edges.Live.{IsLive}
use redis_graph.Graph.{Graph, connected, connected_otherwise, required_dim}
use redis_graph.Graph.Grown.{Fits}

module _ {G : GraphBlas} where
  abbrev pub AreLive : ℕ → List (EdgeMatrix G) → Type 0
  AreLive dims [] = Unit
  AreLive dims (M ∷ Ms) = (IsLive G M × Fits dims M.own) × AreLive dims Ms

  -- The matrices are valid and no larger than the graph, and an entry of the adjacency matrix tells
  -- whether one of the relations has an entry there.
  pub record IsLinked {A : Type 0} (g : Graph G A) : Type 0 where
    pub adjacency_mirrored : IsMirrored G g.adjacency_matrix
    pub adjacency_fits : Fits (required_dim G g) g.adjacency_matrix.own
    pub relations_live : AreLive (required_dim G g) g.relations
    pub linked :
        (k l : ℕ)
        → is_some (extract_element G g.adjacency_matrix.own k l) ≡ connected G g.relations k l

  -- The edges of an optional matrix from one node to another
  abbrev pub ids_at : Option (EdgeMatrix G) → ℕ → ℕ → List ℕ
  ids_at none k l = []
  ids_at (some M) k l = ids (extract_edge G M k l)

  -- The edges of a relation from one node to another
  abbrev pub ids_of : List (EdgeMatrix G) → ℕ → ℕ → ℕ → List ℕ
  ids_of Ms r k l = ids_at (get_elem? Ms r) k l

  pub connected-split :
      (Ms : List (EdgeMatrix G)) (r : ℕ) (M : EdgeMatrix G) (k l : ℕ)
      → get_elem? Ms r ≡ some M
      → connected G Ms k l ≡ (is_some (extract_edge G M k l) || connected_otherwise G Ms r k l)
  unfolding connected connected_otherwise
  connected-split [] r M k l h = ground (arith, h)
  connected-split (N ∷ Ms) zero M k l h = rw (some_inj h) refl
  connected-split (N ∷ Ms) (suc r) M k l h = ground (arith, connected-split Ms r M k l h)

  pub connected_otherwise-set :
      (Ms : List (EdgeMatrix G)) (r : ℕ) (M : EdgeMatrix G) (k l : ℕ)
      → connected_otherwise G (set Ms r M) r k l ≡ connected_otherwise G Ms r k l
  unfolding connected_otherwise
  connected_otherwise-set [] r M k l = refl
  connected_otherwise-set (N ∷ Ms) zero M k l = refl
  connected_otherwise-set (N ∷ Ms) (suc r) M k l =
      ground (arith, connected_otherwise-set Ms r M k l)

  pub AreLive-at :
      (dims : ℕ) (Ms : List (EdgeMatrix G)) (r : ℕ) (M : EdgeMatrix G)
      → AreLive dims Ms
      → get_elem? Ms r ≡ some M
      → IsLive G M × Fits dims M.own
  AreLive-at dims [] r M a h = ground (arith, h)
  AreLive-at dims (K ∷ Ms) zero M a h = subst (λ N. IsLive G N × Fits dims N.own) (some_inj h) a.0
  AreLive-at dims (K ∷ Ms) (suc r) M a h = AreLive-at dims Ms r M a.1 h

  pub set-AreLive :
      (dims : ℕ) (Ms : List (EdgeMatrix G)) (r : ℕ) (M : EdgeMatrix G)
      → AreLive dims Ms
      → IsLive G M × Fits dims M.own
      → AreLive dims (set Ms r M)
  set-AreLive dims [] r M a v = tt
  set-AreLive dims (K ∷ Ms) zero M a v = (v, a.1)
  set-AreLive dims (K ∷ Ms) (suc r) M a v = (a.0, set-AreLive dims Ms r M a.1 v)
