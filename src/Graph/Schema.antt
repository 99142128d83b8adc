-- ===== src/Graph/Schema.antt =====
-- Graph_New, and the labels and relations that a graph is given.
use redis_graph.Prelude.{
  ℕ, ◌≡◌, ◌∙◌, refl, sym, ap, none, is_some, List, [], ◌∷◌, ◌++◌, length, arith,
}
use redis_graph.Arrays.{drop_last}
use redis_graph.GraphBlas.{GraphBlas, IsGraphBlas}
use redis_graph.DataBlock.{DataBlock}
use redis_graph.DataBlock
use redis_graph.DeltaMatrix.{init}
use redis_graph.DeltaMatrix.Valid.{extract_element-init}
use redis_graph.DeltaMatrix.Both.{new_both, new_both-IsMirrored}
use redis_graph.DeltaMatrix.Edges.{Edge, EdgeMatrix, extract_edge}
use redis_graph.DeltaMatrix.Edges
use redis_graph.DeltaMatrix.Edges.Live.{new-IsLive}
use redis_graph.Graph.{Graph, flush_resize, required_dim, connected}
use redis_graph.Graph.Linked.{IsLinked, AreLive}

module _ (G : GraphBlas) {A : Type 0} where
  unfoldable pub over : DataBlock A → DataBlock A → Graph G A
  unfolding new_both init
  over nodes edges = record {
    nodes = nodes;
    edges = edges;
    adjacency_matrix = new_both G nodes.item_cap nodes.item_cap;
    labels = [];
    node_labels = init G (Unit {0}) nodes.item_cap nodes.item_cap;
    relations = [];
    policy = flush_resize;
    stats = record { node_count = []; edge_count = [] };
  }

  -- Graph_New; `zeroed` is an attribute set that is NULL, and `destructor` is AttributeSet_Free.
  pub new : ℕ → ℕ → A → (A → A) → Graph G A
  new node_cap edge_cap zeroed destructor =
      over (DataBlock.new node_cap node_cap zeroed destructor)
        (DataBlock.new edge_cap edge_cap zeroed destructor)

  -- Graph_AddLabel
  unfoldable pub add_label : Graph G A → ℕ × Graph G A
  unfolding init
  add_label g = (
    length g.labels,
    record g {
      labels = g.labels ++ init G (Unit {0}) (required_dim G g) (required_dim G g) ∷ [];
      stats = record (g.stats) { node_count = g.stats.node_count ++ 0 ∷ [] };
    },
  )

  -- Graph_AddRelationType
  unfoldable pub add_relation_type : Graph G A → ℕ × Graph G A
  add_relation_type g = (
    length g.relations,
    record g {
      relations = g.relations ++ Edges.new G (required_dim G g) (required_dim G g) ∷ [];
      stats = record (g.stats) { edge_count = g.stats.edge_count ++ 0 ∷ [] };
    },
  )

  -- Graph_RemoveRelation, of the last relation, as the source asserts
  unfoldable pub remove_relation : Graph G A → Graph G A
  unfolding drop_last
  remove_relation g = record g { relations = drop_last g.relations }

  -- Graph_RemoveLabel, of the last label
  unfoldable pub remove_label : Graph G A → Graph G A
  unfolding drop_last
  remove_label g = record g { labels = drop_last g.labels }

module _ {G : GraphBlas} (L : IsGraphBlas G) where
  append-AreLive :
      (n : ℕ) (Ms : List (EdgeMatrix G)) → AreLive n Ms → AreLive n (Ms ++ Edges.new G n n ∷ [])
  append-AreLive n [] a = (
    (
      new-IsLive L n n,
      record {
        rows = unfold Edges.new init in omega (arith, L.shape-new Edge n n);
        cols = unfold Edges.new init in omega (arith, L.shape-new Edge n n);
      },
    ),
    tt,
  )
  append-AreLive n (M ∷ Ms) a = (a.0, append-AreLive n Ms a.1)

  new-none : (n k l : ℕ) → extract_edge G (Edges.new G n n) k l ≡ none
  unfolding Edges.new
  new-none n k l = extract_element-init L Edge n n k l

  connected-append :
      (n k l : ℕ) (Ms : List (EdgeMatrix G))
      → connected G (Ms ++ Edges.new G n n ∷ []) k l ≡ connected G Ms k l
  unfolding connected
  connected-append n k l [] = rw (new-none n k l) refl
  connected-append n k l (M ∷ Ms) = ground (arith, connected-append n k l Ms)

module _ {G : GraphBlas} (L : IsGraphBlas G) {A : Type 0} where
  pub over-IsLinked : (nodes edges : DataBlock A) → IsLinked (over G nodes edges)
  unfolding connected over new_both
  over-IsLinked nodes edges = record {
    adjacency_mirrored = new_both-IsMirrored L nodes.item_cap nodes.item_cap;
    adjacency_fits = record {
      rows = unfold new_both init in omega (arith, L.shape-new Unit nodes.item_cap nodes.item_cap);
      cols = unfold new_both init in omega (arith, L.shape-new Unit nodes.item_cap nodes.item_cap);
    };
    relations_live = tt;
    linked = λ k l.
        unfold new_both in
        ap is_some (extract_element-init L Unit nodes.item_cap nodes.item_cap k l);
  }

  -- A graph that was just made is linked.
  pub new-IsLinked :
      (node_cap edge_cap : ℕ) (zeroed : A) (destructor : A → A)
      → IsLinked (new G node_cap edge_cap zeroed destructor)
  unfolding new
  new-IsLinked node_cap edge_cap zeroed destructor =
      over-IsLinked (DataBlock.new node_cap node_cap zeroed destructor)
        (DataBlock.new edge_cap edge_cap zeroed destructor)

  -- A relation that is added to a linked graph leaves it linked.
  pub add_relation_type-IsLinked : (g : Graph G A) → IsLinked g → IsLinked (add_relation_type G g).1
  unfolding add_relation_type
  add_relation_type-IsLinked g v = record {
    adjacency_mirrored = v.adjacency_mirrored;
    adjacency_fits = v.adjacency_fits;
    relations_live = append-AreLive L (required_dim G g) g.relations v.relations_live;
    linked = λ k l. v.linked k l ∙ sym (connected-append L (required_dim G g) k l g.relations);
  }
