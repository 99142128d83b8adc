-- ===== src/Graph/Connect.antt =====
-- Graph_FormConnection and Graph_CreateEdge: a new edge is seen in its relation and in the
-- adjacency matrix, and nothing else changes.
use redis_graph.Prelude.{
  get_elem?-set, in_range, length, Option-cases, ℕ, ◌<◌, ◌≡◌, ◌∙◌, refl, sym, ap, true, false, ◌&&◌,
  ◌==◌, some, is_some, length, Option-cases, [], ◌∷◌, ◌++◌, get_elem?, set, if◌then◌else◌, arith,
  Bool-cases, inl, inr, ==_iff,
}
use redis_graph.GraphBlas.{GraphBlas, IsGraphBlas}
use redis_graph.DataBlock.{DataBlock}
use redis_graph.DeltaMatrix.{Delta, extract_element, nrows, ncols}
use redis_graph.DeltaMatrix.Valid.{extract_element-set_element_bool, shape-set_element_bool}
use redis_graph.DeltaMatrix.Both.{BothMatrix, set_both, set_both-IsMirrored}
use redis_graph.DeltaMatrix.Edges.{EdgeMatrix, extract_edge, ids, set_element_uint64}
use redis_graph.DeltaMatrix.Edges.Add.{
  extract_edge-set, shape-own, set_element_uint64-IsLive, ids-set_element_uint64,
}
use redis_graph.Graph.{
  Graph, required_dim, adjacency, relation, in_bounds, set_relation, connect, form_connection,
  create_edge, connected, counted_up, allocate_entity,
}
use redis_graph.Graph.Synchronized.{
  is_nop, GrownBoth, GrownEach, synchronize_each-IsSized, synchronize_both-IsSized,
}
use redis_graph.Graph.Linked.{
  IsLinked, AreLive-at, set-AreLive, ids_of, connected-split, connected_otherwise-set,
}

in_bounds-sized :
    {G : GraphBlas} {A : Type 0} (C : Delta G A) {n i j : ℕ}
    → G.nrows C.matrix ≡ n
    → G.ncols C.matrix ≡ n
    → i < n
    → j < n
    → in_bounds G C i j ≡ true
unfolding nrows ncols
in_bounds-sized C e f hi hj = ground arith

module _ {G : GraphBlas} (L : IsGraphBlas G) {A : Type 0} (limit : ℕ) (g : Graph G A)
    (src dest id r : ℕ) (M : EdgeMatrix G) (v : IsLinked g) (p : is_nop g.policy ≡ false)
    (e : get_elem? g.relations r ≡ some M) (hs : src < required_dim G g)
    (hd : dest < required_dim G g) where
  abbrev adj : BothMatrix G
  adj = adjacency G limit g

  abbrev rel : EdgeMatrix G
  rel = relation G limit g M

  adj-grown : GrownEach L limit (required_dim G g) g.adjacency_matrix adj
  adj-grown =
      synchronize_each-IsSized L limit (required_dim G g) g.adjacency_matrix v.adjacency_mirrored
        v.adjacency_fits g.policy p

  rel-grown : GrownBoth L limit (required_dim G g) M rel
  rel-grown =
      let (a, f) = AreLive-at (required_dim G g) g.relations r M v.relations_live e in
      synchronize_both-IsSized L limit (required_dim G g) M a f g.policy p

  abbrev formed : Graph G A
  formed = record (set_relation G g r (set_element_uint64 G rel id src dest)) {
    adjacency_matrix = set_both G adj src dest;
    stats = record (g.stats) { edge_count = counted_up g.stats.edge_count r };
  }

  form_connection-formed : form_connection G limit g src dest id r ≡ (true, formed)
  unfolding form_connection connect
  form_connection-formed =
      rw
        (
          e,
          in_bounds-sized (adj.own) adj-grown.sized.rows adj-grown.sized.cols hs hd,
          in_bounds-sized (rel.own) rel-grown.sized.rows rel-grown.sized.cols hs hd,
        )
        refl

  row : src < G.nrows rel.own.matrix
  row = omega (arith, rel-grown.sized.rows)

  col : dest < G.ncols rel.own.matrix
  col = omega (arith, rel-grown.sized.cols)

  abbrev rel' : EdgeMatrix G
  rel' = set_element_uint64 G rel id src dest

  rel'-at : get_elem? (set g.relations r rel') r ≡ some rel'
  rel'-at = get_elem?-set g.relations r r M rel' e ∙ ground arith

  formed-linked :
      (k l : ℕ)
      → is_some (extract_element G (set_both G adj src dest).own k l)
        ≡ connected G (set g.relations r rel') k l
  unfolding set_both
  formed-linked k l = ground (
    arith,
    extract_element-set_element_bool L adj.own src dest adj-grown.mirrored.own_valid k l,
    adj-grown.sized.rows,
    adj-grown.sized.cols,
    adj-grown.entries k l,
    extract_edge-set L rel id src dest rel-grown.live k l row col,
    rel-grown.entries k l,
    connected-split (set g.relations r rel') r rel' k l rel'-at,
    connected_otherwise-set g.relations r rel' k l,
    connected-split g.relations r M k l e,
    v.linked k l,
  )

  formed-IsLinked : IsLinked formed
  unfolding set_both
  formed-IsLinked = record {
    adjacency_mirrored =
        set_both-IsMirrored L adj adj-grown.mirrored src dest (omega (arith, adj-grown.sized.rows))
          (omega (arith, adj-grown.sized.cols));
    adjacency_fits = record {
      rows = omega (arith, shape-set_element_bool L adj.own src dest, adj-grown.sized.rows);
      cols = omega (arith, shape-set_element_bool L adj.own src dest, adj-grown.sized.cols);
    };
    relations_live = set-AreLive (required_dim G g) g.relations r rel' v.relations_live (
      set_element_uint64-IsLive L rel id src dest rel-grown.live row col,
      record {
        rows = omega (arith, shape-own L rel id src dest rel-grown.live, rel-grown.sized.rows);
        cols = omega (arith, shape-own L rel id src dest rel-grown.live, rel-grown.sized.cols);
      },
    );
    linked = formed-linked;
  }

  ids-moved :
      (k l : ℕ)
      → ids (extract_edge G rel' k l) ≡ (
          if (src == k) && (dest == l)
          then ids (extract_edge G M k l) ++ id ∷ []
          else ids (extract_edge G M k l))
  ids-moved k l = ground (
    arith,
    ids-set_element_uint64 L rel id src dest rel-grown.live k l row col,
    ap ids (rel-grown.entries k l),
  )

  formed-ids :
      (q k l : ℕ)
      → ids_of (set g.relations r rel') q k l ≡ (
          if (r == q) && (src == k) && (dest == l)
          then ids_of g.relations q k l ++ id ∷ []
          else ids_of g.relations q k l)
  formed-ids q k l = elim (Bool-cases (r == q)) [
    | inl h ↦
        rw
          (
            get_elem?-set g.relations r q M rel' e,
            h,
            sym (ap (get_elem? g.relations) ((==_iff r q).0 h)) ∙ e,
          )
          (ids-moved k l)
    | inr h ↦ rw (get_elem?-set g.relations r q M rel' e, h) refl
  ]

  -- An edge from one node to another is formed in a relation of a linked graph, under a policy that
  -- resizes matrices: it succeeds and leaves a linked graph, the edge joins those of its relation
  -- from the one node to the other, and every relation keeps its other edges.
  pub form_connection_lem :
      ((form_connection G limit g src dest id r).0 ≡ true)
      × IsLinked (form_connection G limit g src dest id r).1
      × ((q k l : ℕ)
          → ids_of (form_connection G limit g src dest id r).1.relations q k l ≡ (
              if (r == q) && (src == k) && (dest == l)
              then ids_of g.relations q k l ++ id ∷ []
              else ids_of g.relations q k l))
  form_connection_lem = rw form_connection-formed (refl, formed-IsLinked, formed-ids)

module _ {G : GraphBlas} (L : IsGraphBlas G) {A : Type 0} (limit : ℕ) (g : Graph G A)
    (src dest r : ℕ) (v : IsLinked g) (p : is_nop g.policy ≡ false) (hr : r < length g.relations)
    (hs : src < required_dim G g) (hd : dest < required_dim G g) where
  with_edges-IsLinked : (edges : DataBlock A) → IsLinked (record g { edges = edges })
  with_edges-IsLinked edges = record {
    adjacency_mirrored = v.adjacency_mirrored;
    adjacency_fits = v.adjacency_fits;
    relations_live = v.relations_live;
    linked = v.linked;
  }

  -- An edge from one node to another is created in a relation of a linked graph, under a policy that
  -- resizes matrices: the graph stays linked, the new edge joins those of its relation from the one
  -- node to the other, and every relation keeps its other edges.
  pub create_edge_lem :
      IsLinked (create_edge G limit g src dest r).1
      × ((q k l : ℕ)
          → ids_of (create_edge G limit g src dest r).1.relations q k l ≡ (
              if (r == q) && (src == k) && (dest == l)
              then ids_of g.relations q k l ++ (create_edge G limit g src dest r).0 ∷ []
              else ids_of g.relations q k l))
  unfolding create_edge
  create_edge_lem = elim (Option-cases (get_elem? g.relations r)) [
    | inl e ↦ absurd (in_range g.relations r hr e)
    | inr (M, e) ↦
        let a = allocate_entity g.edges in
        let (t, linked, ids) =
          form_connection_lem L limit (record g { edges = a.1 }) src dest a.0 r M
            (with_edges-IsLinked a.1) p e hs hd in
        (linked, ids)
  ]
