-- ===== src/Graph/Delete.antt =====
-- Graph_DeleteEdges, round by round.
use redis_graph.Prelude.{
  ℕ, ◌+◌, ◌<◌, ◌≤◌, ◌≡◌, ap, Option-cases, List, [], ◌∷◌, get_elem?, arith, inl, inr,
}
use mathlib.Core.Path.{subst}
use redis_graph.Prelude.Grid.{bit}
use redis_graph.Arrays.Occurrences.{occurrences}
use redis_graph.GraphBlas.{GraphBlas, IsGraphBlas}
use redis_graph.DeltaMatrix.Edges.{extract_edge, ids}
use redis_graph.Graph.{Graph, Policy, EdgeRef, delete_edge, delete_each, delete_edges, nop}
use redis_graph.Graph.Linked.{IsLinked, ids_of, ids_at}
use redis_graph.Graph.DeleteEdge.{
  listed, is_at_itself, not_none, delete_edge-IsLinked, delete_edge-ids,
}

module _ {G : GraphBlas} (L : IsGraphBlas G) {A : Type 0} where
  abbrev IsDeleted : Graph G A → Graph G A → List EdgeRef → Type 0
  IsDeleted g g' es =
      IsLinked g'
      × ((a q k l : ℕ)
          → occurrences a (ids_of g'.relations q k l) + listed es a q k l
            ≡ occurrences a (ids_of g.relations q k l))

  policy-IsLinked : (g : Graph G A) (p : Policy) → IsLinked g → IsLinked (record g { policy = p })
  policy-IsLinked g p v = record {
    adjacency_mirrored = v.adjacency_mirrored;
    adjacency_fits = v.adjacency_fits;
    relations_live = v.relations_live;
    linked = v.linked;
  }

  delete_one :
      (g : Graph G A) (e : EdgeRef)
      → IsLinked g
      → 0 < occurrences e.id (ids_of g.relations e.relation_id e.src_id e.dest_id)
      → IsDeleted g (delete_edge G g e) (e ∷ [])
  delete_one g e v present = elim (Option-cases (get_elem? g.relations e.relation_id)) [
    | inl h ↦
        absurd (not_none (get_elem? g.relations e.relation_id) e.id e.src_id e.dest_id present h)
    | inr (M, h) ↦
        let here : 0 < occurrences e.id (ids (extract_edge G M e.src_id e.dest_id)) =
          subst (λ o. 0 < occurrences e.id (ids_at o e.src_id e.dest_id)) h present in
        (
          delete_edge-IsLinked L g e M v h here,
          λ a q k l. omega (arith, delete_edge-ids L g e M v h here a q k l),
        )
  ]

  delete_each-IsDeleted :
      (g : Graph G A) (es : List EdgeRef)
      → IsLinked g
      → ((a q k l : ℕ) → listed es a q k l ≤ occurrences a (ids_of g.relations q k l))
      → IsDeleted g (delete_each G g es) es
  unfolding delete_each
  delete_each-IsDeleted g [] v le = (v, λ a q k l. omega arith)
  delete_each-IsDeleted g (e ∷ es) v le =
      let (v', one) =
        delete_one g e v
          (omega (arith, le e.id e.relation_id e.src_id e.dest_id, ap bit (is_at_itself e))) in
      let (v'', rest) =
        delete_each-IsDeleted (delete_edge G g e) es v'
          (λ a q k l. omega (arith, le a q k l, one a q k l)) in
      (v'', λ a q k l. omega (arith, rest a q k l, one a q k l))

  -- Edges are deleted from a linked graph that has them, each as often as it is named: the graph
  -- stays linked, and every relation loses exactly the edges that were named, at their positions.
  pub delete_edges_lem :
      (g : Graph G A) (es : List EdgeRef)
      → IsLinked g
      → ((a q k l : ℕ) → listed es a q k l ≤ occurrences a (ids_of g.relations q k l))
      → IsLinked (delete_edges G g es)
        × ((a q k l : ℕ)
            → occurrences a (ids_of (delete_edges G g es).relations q k l) + listed es a q k l
              ≡ occurrences a (ids_of g.relations q k l))
  unfolding delete_edges
  delete_edges_lem g es v le =
      let (w, i) =
        delete_each-IsDeleted (record g { policy = nop }) es (policy-IsLinked g nop v) le in
      (policy-IsLinked (delete_each G (record g { policy = nop }) es) g.policy w, i)
