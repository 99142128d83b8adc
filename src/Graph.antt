-- ===== src/Graph.antt =====
-- src/graph/graph.c: the nodes and edges of a graph, and the matrices that connect and label them.
-- A `GRAPH_NO_RELATION` stands for the adjacency matrix, which has functions of its own here, so
-- that the id of a relation is a natural number. A store of entities holds one attribute set each.
pub mod Grown
pub mod Synchronized
pub mod Linked
pub mod Connect
pub mod Entities
pub mod DeleteEdge
pub mod Delete
pub mod Schema
pub mod Label
pub mod Labeled
pub mod Relabel
pub mod Read
mod Tests
use redis_graph.Prelude.{
  ℕ, suc, zero, ◌+◌, ◌-◌, ◌%◌, ◌^◌, Bool, true, false, not, ◌&&◌, ◌||◌, Option, none, some, is_some,
  List, [], ◌∷◌, ◌++◌, length, get_elem?, set, ltb, ◌==◌, if◌then◌else◌,
}
use redis_graph.GraphBlas.{GraphBlas}
use redis_graph.DataBlock.{Slot, DataBlock, allocate_item, delete_item}
use redis_graph.DeltaMatrix.{
  Delta, init, set_dirty, extract_element, set_element_bool, remove_element_bool, wait, resize,
  is_dirty, nrows, ncols,
}
use redis_graph.DeltaMatrix.Both.{
  BothMatrix, new_both, dirty_both, set_both, remove_both, wait_each, resize_each,
}
use redis_graph.DeltaMatrix.Edges.{
  EdgeMatrix, new, extract_edge, set_element_uint64, remove_entry_uint64, wait_both, resize_both,
  Info,
}

-- MATRIX_POLICY
pub data Policy : Type 0 where
  flush_resize resize_only nop : Policy

-- GraphStatistics
pub record Statistics : Type 0 where
  pub node_count : List ℕ
  pub edge_count : List ℕ

-- struct Graph, without its lock; SynchronizeMatrix is the policy that it belongs to.
pub record Graph (G : GraphBlas) (A : Type 0) : Type 0 where
  pub nodes : DataBlock A
  pub edges : DataBlock A
  pub adjacency_matrix : BothMatrix G
  pub labels : List (Delta G (Unit {0}))
  pub node_labels : Delta G (Unit {0})
  pub relations : List (EdgeMatrix G)
  pub policy : Policy
  pub stats : Statistics

-- The parts of an Edge that deleting it reads
pub record EdgeRef : Type 0 where
  pub id : ℕ
  pub src_id : ℕ
  pub dest_id : ℕ
  pub relation_id : ℕ

module _ {ℓ} {A : Type ℓ} where
  abbrev pub cleared : DataBlock A → ℕ → Option (Slot A) → DataBlock A
  cleared db id none = db
  cleared db id (some s) = record db { slots = set db.slots id (record s { item = db.zeroed }) }

  -- An item is allocated and its attribute set is NULL, which is also what a zeroed block holds.
  unfoldable pub allocate_entity : DataBlock A → ℕ × DataBlock A
  unfolding allocate_item
  allocate_entity db =
      let (id, db') = allocate_item db in (id, cleared db' id (get_elem? db'.slots id))

-- The counters of GraphStatistics are uint64_t.
abbrev pub counted_up : List ℕ → ℕ → List ℕ
counted_up [] r = []
counted_up (n ∷ ns) zero = (n + 1) % 2 ^ 64 ∷ ns
counted_up (n ∷ ns) (suc r) = n ∷ counted_up ns r

abbrev pub counted_down : List ℕ → ℕ → List ℕ
counted_down [] r = []
counted_down (n ∷ ns) zero = (n + 2 ^ 64 - 1) % 2 ^ 64 ∷ ns
counted_down (n ∷ ns) (suc r) = n ∷ counted_down ns r

module _ (G : GraphBlas) where
  abbrev pub is_sized : {A : Type 0} → Delta G A → ℕ → Bool
  unfolding nrows ncols
  is_sized C dims = (nrows G C == dims) && (ncols G C == dims)

  abbrev pub in_bounds : {A : Type 0} → Delta G A → ℕ → ℕ → Bool
  unfolding nrows ncols
  in_bounds C i j = ltb i (nrows G C) && ltb j (ncols G C)

  -- The function that a policy belongs to: `_MatrixSynchronize`, `_MatrixResizeToCapacity`, and
  -- `_MatrixNOP`. `limit` is DELTA_MAX_PENDING_CHANGES of the configuration.
  unfoldable pub synchronize : Policy → ℕ → ℕ → Delta G (Unit {0}) → Delta G (Unit {0})
  unfolding nrows ncols
  synchronize flush_resize limit dims C =
      if is_sized C dims && not (is_dirty G C)
      then C
      else (let C' = if is_sized C dims then C else resize G C dims dims in
          if is_dirty G C' then wait G C' false limit else C')
  synchronize resize_only limit dims C = if is_sized C dims then C else resize G C dims dims
  synchronize nop limit dims C = C

  -- The same functions on the adjacency matrix, which has a transpose
  unfoldable pub synchronize_each : Policy → ℕ → ℕ → BothMatrix G → BothMatrix G
  unfolding nrows ncols
  synchronize_each flush_resize limit dims C =
      if is_sized C.own dims && not (is_dirty G C.own)
      then C
      else (let C' = if is_sized C.own dims then C else resize_each G C dims dims in
          if is_dirty G C'.own then wait_each G C' false limit else C')
  synchronize_each resize_only limit dims C =
      if is_sized C.own dims then C else resize_each G C dims dims
  synchronize_each nop limit dims C = C

  -- The same functions on a matrix of edges
  unfoldable pub synchronize_both : Policy → ℕ → ℕ → EdgeMatrix G → EdgeMatrix G
  unfolding nrows ncols
  synchronize_both flush_resize limit dims C =
      if is_sized C.own dims && not (is_dirty G C.own)
      then C
      else (let C' = if is_sized C.own dims then C else resize_both G C dims dims in
          if is_dirty G C'.own then wait_both G C' false limit else C')
  synchronize_both resize_only limit dims C =
      if is_sized C.own dims then C else resize_both G C dims dims
  synchronize_both nop limit dims C = C

  -- Whether one of the matrices has an entry at a position
  unfoldable pub connected : List (EdgeMatrix G) → ℕ → ℕ → Bool
  connected [] k l = false
  connected (M ∷ Ms) k l = is_some (extract_edge G M k l) || connected Ms k l

  -- The search for an entry of a relation but `r`, under a policy that changes no matrix
  unfoldable pub connected_otherwise : List (EdgeMatrix G) → ℕ → ℕ → ℕ → Bool
  unfolding connected
  connected_otherwise [] r k l = false
  connected_otherwise (M ∷ Ms) zero k l = connected Ms k l
  connected_otherwise (M ∷ Ms) (suc r) k l =
      is_some (extract_edge G M k l) || connected_otherwise Ms r k l

  module _ {A : Type 0} where
    -- Graph_RequiredMatrixDim
    abbrev pub required_dim : Graph G A → ℕ
    required_dim g = g.nodes.item_cap

    -- Graph_GetAdjacencyMatrix, which is kept in the graph as it was synchronized
    abbrev pub adjacency : ℕ → Graph G A → BothMatrix G
    adjacency limit g = synchronize_each g.policy limit (required_dim g) g.adjacency_matrix

    -- What Graph_GetRelationMatrix makes of a matrix of the array
    abbrev pub relation : ℕ → Graph G A → EdgeMatrix G → EdgeMatrix G
    relation limit g M = synchronize_both g.policy limit (required_dim g) M

    abbrev pub set_relation : Graph G A → ℕ → EdgeMatrix G → Graph G A
    set_relation g r M = record g { relations = set g.relations r M }

    -- Graph_FormConnection with both matrices at hand. A debug build asserts that the position is in
    -- bounds (RG_Matrix_checkBounds). In a release build GraphBLAS writes nothing out of bounds, and
    -- what refuses the write has been made dirty, but a matrix of edges stops at its transpose.
    unfoldable pub connect :
        Graph G A → BothMatrix G → EdgeMatrix G → ℕ → ℕ → ℕ → ℕ → Bool × Graph G A
    unfolding dirty_both set_both set_dirty nrows ncols
    connect g adj M src dest edge_id r =
        if not (in_bounds adj.own src dest)
        then (false, record (set_relation g r M) { adjacency_matrix = dirty_both G adj })
        else if not (in_bounds M.own src dest)
        then (
          false,
          record (set_relation g r (record M { transposed = set_dirty G M.transposed })) {
            adjacency_matrix = set_both G adj src dest;
          },
        )
        else (
          true,
          record (set_relation g r (set_element_uint64 G M edge_id src dest)) {
            adjacency_matrix = set_both G adj src dest;
            stats = record (g.stats) { edge_count = counted_up g.stats.edge_count r };
          },
        )

    abbrev pub connect_at : ℕ → Graph G A → Option (EdgeMatrix G) → ℕ → ℕ → ℕ → ℕ → Bool × Graph G A
    connect_at limit g none src dest edge_id r = (false, g)
    connect_at limit g (some M) src dest edge_id r =
        connect g (adjacency limit g) (relation limit g M) src dest edge_id r

    -- Graph_FormConnection; the source asserts that the relation exists.
    unfoldable pub form_connection : ℕ → Graph G A → ℕ → ℕ → ℕ → ℕ → Bool × Graph G A
    unfolding connect synchronize_each synchronize_both
    form_connection limit g src dest edge_id r =
        connect_at limit g (get_elem? g.relations r) src dest edge_id r

    abbrev pub form_at : ℕ → Graph G A → ℕ → ℕ → ℕ → ℕ × DataBlock A → ℕ × Graph G A
    form_at limit g src dest r (id, edges) =
        (id, (form_connection limit (record g { edges = edges }) src dest id r).1)

    -- Graph_CreateEdge, with the id of the edge
    unfoldable pub create_edge : ℕ → Graph G A → ℕ → ℕ → ℕ → ℕ × Graph G A
    unfolding allocate_entity form_connection
    create_edge limit g src dest r = form_at limit g src dest r (allocate_entity g.edges)

    -- What is left to do after the edge was removed from its relation matrix
    abbrev pub disconnect : Graph G A → EdgeRef → Info × Bool × EdgeMatrix G → Graph G A
    disconnect g e (info, entry_deleted, R) =
        let g' = set_relation g e.relation_id R in
        if entry_deleted && not (connected_otherwise g'.relations e.relation_id e.src_id e.dest_id)
        then record g' { adjacency_matrix = remove_both G g'.adjacency_matrix e.src_id e.dest_id }
        else g'

    abbrev pub delete_at : Graph G A → EdgeRef → Option (EdgeMatrix G) → Graph G A
    delete_at g e none = g
    delete_at g e (some R) = disconnect g e (remove_entry_uint64 G R e.src_id e.dest_id e.id)

    -- A round of Graph_DeleteEdges, whose policy SYNC_POLICY_NOP leaves each matrix as it is
    unfoldable pub delete_edge : Graph G A → EdgeRef → Graph G A
    unfolding connected_otherwise delete_item
    delete_edge g e =
        let g' =
          delete_at
            (record g {
              stats = record (g.stats) {
                edge_count = counted_down g.stats.edge_count e.relation_id;
              };
            })
            e (get_elem? g.relations e.relation_id) in
        record g' { edges = delete_item g'.edges e.id }

    unfoldable pub delete_each : Graph G A → List EdgeRef → Graph G A
    unfolding delete_edge
    delete_each g [] = g
    delete_each g (e ∷ es) = delete_each (delete_edge g e) es

    -- Graph_DeleteEdges
    unfoldable pub delete_edges : Graph G A → List EdgeRef → Graph G A
    unfolding delete_each
    delete_edges g es = record (delete_each (record g { policy = nop }) es) { policy = g.policy }
