-- ===== src/Graph/Read.antt =====
-- Graph_GetEdgesConnectingNodes: the edges from one node to another, of one relation or of all.
use redis_graph.Prelude.{
  ℕ, ◌<◌, length, ◌≡◌, refl, ap, false, Option, none, some, List, [], ◌∷◌, ◌++◌, map, get_elem?,
  Option-cases, inl, inr,
}
use redis_graph.GraphBlas.{GraphBlas, IsGraphBlas}
use redis_graph.DataBlock.{Fetched, get_item}
use redis_graph.DeltaMatrix.Edges.{EdgeMatrix, Edge, extract_edge, ids}
use redis_graph.Graph.{Graph, relation, required_dim}
use redis_graph.Graph.Synchronized.{is_nop, synchronize_both-IsSized}
use redis_graph.Graph.Linked.{IsLinked, AreLive-at, ids_of, AreLive}

module _ (G : GraphBlas) {A : Type 0} (limit : ℕ) (g : Graph G A) (src dest : ℕ) where
  -- `_CollectEdgesFromEntry`: each edge with its attributes
  unfoldable pub collect_edges_from_entry : Option Edge → List (ℕ × Fetched A)
  unfolding get_item
  collect_edges_from_entry entry = map (λ id. (id, get_item g.edges id)) (ids entry)

  abbrev pub edges_at : Option (EdgeMatrix G) → List (ℕ × Fetched A)
  edges_at none = []
  edges_at (some M) = collect_edges_from_entry (extract_edge G (relation G limit g M) src dest)

  -- `_Graph_GetEdgesConnectingNodes`. The source asserts that there is the relation and that the ids
  -- are of nodes, below the dimension of the matrices: GraphBLAS answers then that there is an entry
  -- or that there is none.
  unfoldable pub edges_of_relation : ℕ → List (ℕ × Fetched A)
  unfolding collect_edges_from_entry
  edges_of_relation r = edges_at (get_elem? g.relations r)

  -- The loop of Graph_GetEdgesConnectingNodes over the relations
  unfoldable pub edges_of_each : List (EdgeMatrix G) → List (ℕ × Fetched A)
  unfolding collect_edges_from_entry
  edges_of_each [] = []
  edges_of_each (M ∷ Ms) = edges_at (some M) ++ edges_of_each Ms

  -- Graph_GetEdgesConnectingNodes, where GRAPH_NO_RELATION is none; of GRAPH_UNKNOWN_RELATION, which
  -- is not modelled, there are no edges.
  unfoldable pub get_edges_connecting_nodes : Option ℕ → List (ℕ × Fetched A)
  unfolding edges_of_relation edges_of_each
  get_edges_connecting_nodes (some r) = edges_of_relation r
  get_edges_connecting_nodes none = edges_of_each g.relations

-- The edges from one node to another that any of the relations has
abbrev pub ids_of_all : {G : GraphBlas} → List (EdgeMatrix G) → ℕ → ℕ → List ℕ
ids_of_all [] k l = []
ids_of_all {G} (M ∷ Ms) k l = ids (extract_edge G M k l) ++ ids_of_all Ms k l

-- The edges from one node to another that one of the relations has, or any of them
abbrev pub read_ids : {G : GraphBlas} → List (EdgeMatrix G) → ℕ → ℕ → Option ℕ → List ℕ
read_ids Ms k l (some r) = ids_of Ms r k l
read_ids Ms k l none = ids_of_all Ms k l

module _ {G : GraphBlas} (L : IsGraphBlas G) {A : Type 0} (limit : ℕ) (g : Graph G A) (src dest : ℕ)
    (v : IsLinked g) (p : is_nop g.policy ≡ false) where
  -- The relation that is asked for, if one is, exists.
  abbrev IsRelation : Option ℕ → Type 0
  IsRelation none = Unit
  IsRelation (some r) = r < length g.relations

  abbrev fetch : List ℕ → List (ℕ × Fetched A)
  fetch xs = map (λ id. (id, get_item g.edges id)) xs

  fetch-append : (xs ys : List ℕ) → fetch (xs ++ ys) ≡ fetch xs ++ fetch ys
  fetch-append [] ys = refl
  fetch-append (x ∷ xs) ys = ap (λ zs. (x, get_item g.edges x) ∷ zs) (fetch-append xs ys)

  edges_of_relation_lem :
      (r : ℕ) → edges_of_relation G limit g src dest r ≡ fetch (ids_of g.relations r src dest)
  unfolding edges_of_relation collect_edges_from_entry
  edges_of_relation_lem r = elim (Option-cases (get_elem? g.relations r)) [
    | inl e ↦ rw e refl
    | inr (M, e) ↦
        let (a, f) = AreLive-at (required_dim G g) g.relations r M v.relations_live e in
        let s = synchronize_both-IsSized L limit (required_dim G g) M a f g.policy p in
        rw e (ap (λ o. fetch (ids o)) (s.entries src dest))
  ]

  edges_of_each_lem :
      (Ms : List (EdgeMatrix G))
      → AreLive (required_dim G g) Ms
      → edges_of_each G limit g src dest Ms ≡ fetch (ids_of_all Ms src dest)
  unfolding edges_of_each collect_edges_from_entry
  edges_of_each_lem [] a = refl
  edges_of_each_lem (M ∷ Ms) a =
      let s = synchronize_both-IsSized L limit (required_dim G g) M a.0.0 a.0.1 g.policy p in
      rw
        (
          edges_of_each_lem Ms a.1,
          fetch-append (ids (extract_edge G M src dest)) (ids_of_all Ms src dest),
        )
        (ap (λ o. fetch (ids o) ++ fetch (ids_of_all Ms src dest)) (s.entries src dest))

  -- In a linked graph, under a policy that resizes matrices, the edges that are read from one node
  -- to another are those that the relation has there, or each relation one after the other, pending
  -- changes included, each with what the store of edges has at its id. The ids of the nodes are below
  -- the dimension of the matrices, and a relation that is asked for exists.
  pub get_edges_connecting_nodes_lem :
      src < required_dim G g
      → dest < required_dim G g
      → (r : Option ℕ) → IsRelation r
      → get_edges_connecting_nodes G limit g src dest r
        ≡ map (λ id. (id, get_item g.edges id)) (read_ids g.relations src dest r)
  unfolding get_edges_connecting_nodes
  get_edges_connecting_nodes_lem hs hd (some r) h = edges_of_relation_lem r
  get_edges_connecting_nodes_lem hs hd none h = edges_of_each_lem g.relations v.relations_live
