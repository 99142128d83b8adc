-- ===== src/Graph/DeleteEdge.antt =====
-- A round of Graph_DeleteEdges: an edge leaves its relation, and the adjacency matrix loses its entry
-- with the last edge that any relation has there.
use redis_graph.Prelude.{
  get_elem?-set, ℕ, ◌+◌, ◌<◌, ◌≡◌, ◌∙◌, refl, sym, ap, Bool, true, false, not, ◌||◌, ◌&&◌, ◌==◌,
  Option, none, some, is_some, List, [], ◌∷◌, get_elem?, set, if◌then◌else◌, arith, Bool-cases, inl,
  inr, ==_iff,
}
use redis_graph.Prelude.Grid.{bit}
use redis_graph.Arrays.Occurrences.{occurrences}
use redis_graph.GraphBlas.{GraphBlas, IsGraphBlas}
use redis_graph.DataBlock.{delete_item}
use redis_graph.DeltaMatrix.{extract_element}
use redis_graph.DeltaMatrix.Valid.{extract_element-remove_element_bool, shape-remove_element_bool}
use redis_graph.DeltaMatrix.Both.{BothMatrix, IsMirrored, remove_both, remove_both-IsMirrored}
use redis_graph.DeltaMatrix.Edges.{EdgeMatrix, extract_edge, ids, remove_entry_uint64, Info}
use redis_graph.DeltaMatrix.Edges.Live.{IsLive}
use redis_graph.DeltaMatrix.Edges.Drop.{is_some_of_occurrences}
use redis_graph.DeltaMatrix.Edges.RemoveEntry.{
  Removal-shape, case, remove_entry_uint64-IsLive, remove_entry_uint64_lem,
}
use redis_graph.Graph.{
  Graph, EdgeRef, required_dim, connected, connected_otherwise, delete_edge, counted_down,
}
use redis_graph.Graph.Grown.{Fits, inside}
use redis_graph.Graph.Linked.{
  IsLinked, AreLive-at, set-AreLive, ids_of, ids_at, connected-split, connected_otherwise-set,
}

-- Whether an edge is the one with the id `a` of relation `q` from `k` to `l`, and how often a list
-- names that edge
abbrev pub is_at : EdgeRef → ℕ → ℕ → ℕ → ℕ → Bool
is_at e a q k l = (e.relation_id == q) && (e.id == a) && (e.src_id == k) && (e.dest_id == l)

abbrev pub listed : List EdgeRef → ℕ → ℕ → ℕ → ℕ → ℕ
listed [] a q k l = 0
listed (e ∷ es) a q k l = bit (is_at e a q k l) + listed es a q k l

pub is_at_itself : (e : EdgeRef) → is_at e e.id e.relation_id e.src_id e.dest_id ≡ true
is_at_itself e = ground arith

pub not_none :
    {G : GraphBlas} (o : Option (EdgeMatrix G)) (a k l : ℕ)
    → 0 < occurrences a (ids_at o k l)
    → o ≡ none
    → ⊥
unfolding occurrences
not_none none a k l lt h = omega arith
not_none (some M) a k l lt h = ground (arith, h)

module _ {G : GraphBlas} (L : IsGraphBlas G) {A : Type 0} (g : Graph G A) (e : EdgeRef)
    (M : EdgeMatrix G) (v : IsLinked g) (h : get_elem? g.relations e.relation_id ≡ some M)
    (present : 0 < occurrences e.id (ids (extract_edge G M e.src_id e.dest_id))) where
  live : IsLive G M × Fits (required_dim G g) M.own
  live = AreLive-at (required_dim G g) g.relations e.relation_id M v.relations_live h

  shown : is_some (extract_edge G M e.src_id e.dest_id) ≡ true
  shown = is_some_of_occurrences e.id _ present

  bounds : (e.src_id < G.nrows M.own.matrix) × (e.dest_id < G.ncols M.own.matrix)
  bounds = inside L M.own e.src_id e.dest_id live.0.own_valid shown

  adjacent : is_some (extract_element G g.adjacency_matrix.own e.src_id e.dest_id) ≡ true
  adjacent = ground (
    arith,
    v.linked e.src_id e.dest_id,
    connected-split g.relations e.relation_id M e.src_id e.dest_id h,
    shown,
  )

  adj_bounds :
      (e.src_id < G.nrows g.adjacency_matrix.own.matrix)
      × (e.dest_id < G.ncols g.adjacency_matrix.own.matrix)
  adj_bounds =
      inside L g.adjacency_matrix.own e.src_id e.dest_id v.adjacency_mirrored.own_valid adjacent

  abbrev left : Info × Bool × EdgeMatrix G
  left = remove_entry_uint64 G M e.src_id e.dest_id e.id

  abbrev rels' : List (EdgeMatrix G)
  rels' = set g.relations e.relation_id left.2

  rels'-IsLive : IsLive G left.2 × Fits (required_dim G g) left.2.own
  rels'-IsLive =
      let s =
        Removal-shape L M e.src_id e.dest_id e.id live.0 bounds.0 bounds.1
          (case L M e.src_id e.dest_id e.id live.0 bounds.0 bounds.1 present) in
      (
        remove_entry_uint64-IsLive L M e.src_id e.dest_id e.id live.0 bounds.0 bounds.1 present,
        record { rows = omega (arith, s, live.1.rows); cols = omega (arith, s, live.1.cols) },
      )

  -- Whether the adjacency matrix loses its entry
  abbrev drops : Bool
  drops = left.1 && not (connected_otherwise G rels' e.relation_id e.src_id e.dest_id)

  abbrev adj' : Bool → BothMatrix G
  adj' b = if b then remove_both G g.adjacency_matrix e.src_id e.dest_id else g.adjacency_matrix

  removed :
      (a k l : ℕ)
      → (left.1 ≡ not (is_some (extract_edge G left.2 e.src_id e.dest_id)))
        × (occurrences a (ids (extract_edge G left.2 e.src_id e.dest_id)) + bit (e.id == a)
            ≡ occurrences a (ids (extract_edge G M e.src_id e.dest_id)))
        × (extract_edge G left.2 k l ≡ (
            if (e.src_id == k) && (e.dest_id == l)
            then extract_edge G left.2 e.src_id e.dest_id
            else extract_edge G M k l))
  removed a k l =
      let (i, f, o, x) =
        remove_entry_uint64_lem L M e.src_id e.dest_id e.id live.0 bounds.0 bounds.1 present a k
          l in
      (f, o, x)

  rels'-at : get_elem? rels' e.relation_id ≡ some left.2
  rels'-at = get_elem?-set g.relations e.relation_id e.relation_id M left.2 h ∙ ground arith

  rels'-split :
      (k l : ℕ)
      → connected G rels' k l
        ≡ (is_some (extract_edge G left.2 k l) || connected_otherwise G rels' e.relation_id k l)
  rels'-split k l = connected-split rels' e.relation_id left.2 k l rels'-at

  adj'-linked :
      (b : Bool)
      → drops ≡ b
      → (k l : ℕ) → is_some (extract_element G (adj' b).own k l) ≡ connected G rels' k l
  unfolding remove_both
  adj'-linked true d k l = ground (
    arith,
    d,
    extract_element-remove_element_bool L g.adjacency_matrix.own e.src_id e.dest_id
        v.adjacency_mirrored.own_valid k l adj_bounds.0 adj_bounds.1,
    removed 0 k l,
    rels'-split k l,
    connected_otherwise-set g.relations e.relation_id left.2 k l,
    connected-split g.relations e.relation_id M k l h,
    v.linked k l,
  )
  adj'-linked false d k l = ground (
    arith,
    d,
    shown,
    removed 0 k l,
    rels'-split k l,
    connected_otherwise-set g.relations e.relation_id left.2 k l,
    connected-split g.relations e.relation_id M k l h,
    v.linked k l,
  )

  adj'-IsMirrored : (b : Bool) → IsMirrored G (adj' b) × Fits (required_dim G g) (adj' b).own
  unfolding remove_both
  adj'-IsMirrored true = (
    remove_both-IsMirrored L g.adjacency_matrix v.adjacency_mirrored e.src_id e.dest_id adj_bounds.0
        adj_bounds.1,
    record {
      rows = omega (
        arith,
        shape-remove_element_bool L g.adjacency_matrix.own e.src_id e.dest_id,
        v.adjacency_fits.rows,
      );
      cols = omega (
        arith,
        shape-remove_element_bool L g.adjacency_matrix.own e.src_id e.dest_id,
        v.adjacency_fits.cols,
      );
    },
  )
  adj'-IsMirrored false = (v.adjacency_mirrored, v.adjacency_fits)

  delete_edge-fields : delete_edge G g e ≡ record g {
    stats = record (g.stats) { edge_count = counted_down g.stats.edge_count e.relation_id };
    relations = rels';
    adjacency_matrix = adj' drops;
    edges = delete_item g.edges e.id;
  }
  unfolding delete_edge
  delete_edge-fields = elim (Bool-cases drops) [ inl q ↦ rw (h, q) refl | inr q ↦ rw (h, q) refl ]

  pub delete_edge-IsLinked : IsLinked (delete_edge G g e)
  delete_edge-IsLinked = rw delete_edge-fields (record {
    adjacency_mirrored = (adj'-IsMirrored drops).0;
    adjacency_fits = (adj'-IsMirrored drops).1;
    relations_live =
        set-AreLive (required_dim G g) g.relations e.relation_id left.2 v.relations_live
          rels'-IsLive;
    linked = adj'-linked drops refl;
  })

  left-ids :
      (a k l : ℕ)
      → occurrences a (ids (extract_edge G left.2 k l))
          + bit ((e.id == a) && (e.src_id == k) && (e.dest_id == l))
        ≡ occurrences a (ids (extract_edge G M k l))
  left-ids a k l = ground (arith, removed a k l)

  rels'-ids :
      (a q k l : ℕ)
      → occurrences a (ids_of rels' q k l) + bit (is_at e a q k l)
        ≡ occurrences a (ids_of g.relations q k l)
  rels'-ids a q k l = elim (Bool-cases (e.relation_id == q)) [
    | inl c ↦
        rw
          (
            get_elem?-set g.relations e.relation_id q M left.2 h,
            c,
            sym (ap (get_elem? g.relations) ((==_iff e.relation_id q).0 c)) ∙ h,
          )
          (left-ids a k l)
    | inr c ↦ rw (get_elem?-set g.relations e.relation_id q M left.2 h, c) (ground (arith, c))
  ]

  pub delete_edge-ids :
      (a q k l : ℕ)
      → occurrences a (ids_of (delete_edge G g e).relations q k l) + bit (is_at e a q k l)
        ≡ occurrences a (ids_of g.relations q k l)
  delete_edge-ids a q k l = rw delete_edge-fields (rels'-ids a q k l)
