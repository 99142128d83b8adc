-- ===== src/Graph/Label.antt =====
-- The labels of nodes: a label matrix has an entry on its diagonal for each node it labels, and the
-- matrix `node_labels` maps a node to its labels. Neither has a transpose.
use redis_graph.Prelude.{ℕ, Bool, Option, none, some, is_some, List, [], ◌∷◌, get_elem?, set}
use redis_graph.GraphBlas.{GraphBlas}
use redis_graph.DataBlock.{DataBlock}
use redis_graph.DeltaMatrix.{Delta, extract_element, set_element_bool, remove_element_bool}
use redis_graph.Graph.{Graph, allocate_entity, required_dim, synchronize, counted_up, counted_down}

module _ (G : GraphBlas) {A : Type 0} (limit : ℕ) where
  -- Graph_GetNodeLabelMatrix, and what Graph_GetLabelMatrix makes of a matrix of the array
  abbrev pub synchronized : Graph G A → Delta G (Unit {0}) → Delta G (Unit {0})
  synchronized g M = synchronize G g.policy limit (required_dim G g) M

  abbrev pub with_node_labels : Graph G A → Graph G A
  with_node_labels g = record g { node_labels = synchronized g g.node_labels }

  abbrev pub label_at : Graph G A → ℕ → ℕ → Option (Delta G (Unit {0})) → Graph G A
  label_at g id l none = g
  label_at g id l (some M) = record g {
    labels = set g.labels l (set_element_bool G (synchronized g M) id id);
    node_labels = set_element_bool G g.node_labels id l;
    stats = record (g.stats) { node_count = counted_up g.stats.node_count l };
  }

  -- The loop of Graph_LabelNode; the source asserts that the labels exist.
  unfoldable pub label_each : Graph G A → ℕ → List ℕ → Graph G A
  unfolding synchronize set_element_bool
  label_each g id [] = g
  label_each g id (l ∷ ls) = label_each (label_at g id l (get_elem? g.labels l)) id ls

  -- Graph_LabelNode
  unfoldable pub label_node : Graph G A → ℕ → List ℕ → Graph G A
  unfolding label_each
  label_node g id lbls = label_each (with_node_labels g) id lbls

  -- Graph_IsNodeLabeled
  unfoldable pub is_node_labeled : Graph G A → ℕ → ℕ → Bool
  unfolding extract_element
  is_node_labeled g id l = is_some (extract_element G (with_node_labels g).node_labels id l)

  abbrev pub unlabel_at : Graph G A → ℕ → ℕ → Option (Delta G (Unit {0})) → Graph G A
  unlabel_at g id l none = g
  unlabel_at g id l (some M) = record g {
    labels = set g.labels l (remove_element_bool G (synchronized g M) id id);
    node_labels = remove_element_bool G g.node_labels id l;
    stats = record (g.stats) { node_count = counted_down g.stats.node_count l };
  }

  -- The loop of Graph_RemoveNodeLabels
  unfoldable pub unlabel_each : Graph G A → ℕ → List ℕ → Graph G A
  unfolding synchronize
  unlabel_each g id [] = g
  unlabel_each g id (l ∷ ls) = unlabel_each (unlabel_at g id l (get_elem? g.labels l)) id ls

  -- Graph_RemoveNodeLabels
  unfoldable pub remove_node_labels : Graph G A → ℕ → List ℕ → Graph G A
  unfolding unlabel_each
  remove_node_labels g id lbls = unlabel_each (with_node_labels g) id lbls

  abbrev pub create_at : Graph G A → List ℕ → ℕ × DataBlock A → ℕ × Graph G A
  create_at g [] (id, nodes) = (id, record g { nodes = nodes })
  create_at g (l ∷ ls) (id, nodes) = (id, label_node (record g { nodes = nodes }) id (l ∷ ls))

  -- Graph_CreateNode, with the id of the node, which was not reserved
  unfoldable pub create_node : Graph G A → List ℕ → ℕ × Graph G A
  unfolding label_node allocate_entity
  create_node g labels = create_at g labels (allocate_entity g.nodes)
