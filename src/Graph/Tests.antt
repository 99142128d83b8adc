-- ===== src/Graph/Tests.antt =====
-- A graph of four nodes with two relations and two labels, over a concrete GraphBLAS.
use mathlib.Core.Path.{subst}
use redis_graph.Prelude.{
  none, map, some_inj, zero, suc, ℕ, ◌+◌, ◌≤◌, ◌<◌, ◌≡◌, refl, true, false, ◌&&◌, ◌==◌, some, List,
  [], ◌∷◌, ◌++◌, length, get_elem?, if◌then◌else◌, arith,
}
use redis_graph.Arrays.Occurrences.{occurrences, occurrences-append}
use redis_graph.GraphBlas.Dense.{dense, dense-IsGraphBlas}
use redis_graph.DataBlock.{
  found, new as new_block, add_blocks, item_count_to_block_count, delete_item, get_item, DataBlock,
  allocate_item, make_room,
}
use redis_graph.DataBlock.Valid.{IsValid, new-IsValid}
use redis_graph.DataBlock.Items.{delete_item-IsValid}
use redis_graph.DataBlock.Reserved.{IsNarrow, allocate_item-IsValid}
use redis_graph.Graph.Entities.{get_item-create_edge}
use redis_graph.DeltaMatrix.{Delta, init, is_dirty}
use redis_graph.DeltaMatrix.Valid.{init-IsValid, extract_element-init}
use redis_graph.DeltaMatrix.Edges.{new}
use redis_graph.Graph.{
  connect, synchronize_each, synchronize_both, flush_resize, Graph, EdgeRef, form_connection,
  create_edge, allocate_entity, delete_edges, required_dim,
}
use redis_graph.Graph.Synchronized.{is_nop}
use redis_graph.Graph.Linked.{IsLinked, ids_of}
use redis_graph.Graph.Connect.{create_edge_lem}
use redis_graph.Graph.DeleteEdge.{listed}
use redis_graph.Graph.Delete.{delete_edges_lem}
use redis_graph.Graph.Schema.{
  over, over-IsLinked, add_relation_type, add_relation_type-IsLinked, add_label,
}
use redis_graph.Graph.Read.{get_edges_connecting_nodes, read_ids, get_edges_connecting_nodes_lem}
use redis_graph.Graph.Label.{label_node, label_each, remove_node_labels, is_node_labeled}
use redis_graph.Graph.Labeled.{IsLabel, IsLabeled}
use redis_graph.Graph.Relabel.{mentions, AllBelow, label_node_lem, remove_node_labels_lem}

-- Stores with room for four entities; their items are numbers here.
abbrev four : DataBlock ℕ
four = record {
  item_count = 0;
  item_cap = 4;
  block_cap = 4;
  block_count = 1;
  slots =
      record { deleted = false; item = 0 }
      ∷ record { deleted = false; item = 0 }
      ∷ record { deleted = false; item = 0 }
      ∷ record { deleted = false; item = 0 }
      ∷ [];
  deleted_idx = [];
  zeroed = 0;
  destructor = λ n. 0;
}

abbrev two_relations : Graph dense ℕ
two_relations = (add_relation_type dense (add_relation_type dense (over dense four four)).1).1

two_relations-IsLinked : IsLinked two_relations
two_relations-IsLinked =
    add_relation_type-IsLinked dense-IsGraphBlas (add_relation_type dense (over dense four four)).1
      (add_relation_type-IsLinked dense-IsGraphBlas (over dense four four)
        (over-IsLinked dense-IsGraphBlas four four))

syncs : is_nop two_relations.policy ≡ false
unfolding add_relation_type over
syncs = refl

one_exists : 1 < length two_relations.relations
unfolding add_relation_type over
one_exists = omega arith

node : (i : ℕ) → i < 4 → i < required_dim dense two_relations
unfolding add_relation_type over
node i h = h

create_edge_lem_example :
    IsLinked (create_edge dense 10 two_relations 0 1 1).1
    × ((q k l : ℕ)
        → ids_of (create_edge dense 10 two_relations 0 1 1).1.relations q k l ≡ (
            if (1 == q) && (0 == k) && (1 == l)
            then ids_of two_relations.relations q k l
              ++ (create_edge dense 10 two_relations 0 1 1).0 ∷ []
            else ids_of two_relations.relations q k l))
create_edge_lem_example =
    create_edge_lem dense-IsGraphBlas 10 two_relations 0 1 1 two_relations-IsLinked syncs one_exists
      (node 0 (omega arith)) (node 1 (omega arith))

abbrev one_edge : Graph dense ℕ
one_edge = (create_edge dense 10 two_relations 0 1 1).1

one_edge_lem :
    IsLinked one_edge
    × ((q k l : ℕ)
        → ids_of one_edge.relations q k l ≡ (
            if (1 == q) && (0 == k) && (1 == l)
            then ids_of two_relations.relations q k l
              ++ (create_edge dense 10 two_relations 0 1 1).0 ∷ []
            else ids_of two_relations.relations q k l))
one_edge_lem =
    create_edge_lem dense-IsGraphBlas 10 two_relations 0 1 1 two_relations-IsLinked syncs one_exists
      (node 0 (omega arith)) (node 1 (omega arith))

-- A store of edges of which the first was created and deleted
abbrev blank_store : DataBlock ℕ
blank_store = new_block 4 4 0 (λ n. n)

blank_store-IsValid : IsValid blank_store
blank_store-IsValid = new-IsValid 4 4 0 (λ n. n) (omega arith)

blank_store-IsNarrow : IsNarrow (make_room blank_store)
unfolding make_room new_block add_blocks item_count_to_block_count
blank_store-IsNarrow = omega arith

abbrev used_store : DataBlock ℕ
used_store = delete_item (allocate_item blank_store).1 0

used_store-IsValid : IsValid used_store
unfolding allocate_item make_room new_block add_blocks item_count_to_block_count
used_store-IsValid =
    delete_item-IsValid (allocate_item blank_store).1
      (allocate_item-IsValid blank_store blank_store-IsValid blank_store-IsNarrow) 0 (omega arith)

used_store-IsNarrow : IsNarrow (make_room used_store)
unfolding make_room allocate_item delete_item new_block add_blocks item_count_to_block_count
used_store-IsNarrow = omega arith

abbrev reusing : Graph dense ℕ
reusing = record two_relations { edges = used_store }

get_item-create_edge_example : get_item (create_edge dense 10 reusing 0 1 1).1.edges 0 ≡ (
    if (create_edge dense 10 reusing 0 1 1).0 == 0
    then found reusing.edges.zeroed
    else get_item reusing.edges 0)
get_item-create_edge_example =
    get_item-create_edge dense 10 reusing 0 1 1 used_store-IsValid used_store-IsNarrow 0

abbrev the_edge : List EdgeRef
the_edge = record { id = 0; src_id = 0; dest_id = 1; relation_id = 1 } ∷ []

first_id : (create_edge dense 10 two_relations 0 1 1).0 ≡ 0
unfolding create_edge allocate_entity allocate_item make_room add_relation_type over
first_id = refl

has_the_edge :
    (a q k l : ℕ) → listed the_edge a q k l ≤ occurrences a (ids_of one_edge.relations q k l)
unfolding occurrences
has_the_edge a q k l =
    rw (one_edge_lem.1 q k l, first_id)
      (ground (arith, occurrences-append a (ids_of two_relations.relations q k l) (0 ∷ [])))

delete_edges_lem_example :
    IsLinked (delete_edges dense one_edge the_edge)
    × ((a q k l : ℕ)
        → occurrences a (ids_of (delete_edges dense one_edge the_edge).relations q k l)
            + listed the_edge a q k l
          ≡ occurrences a (ids_of one_edge.relations q k l))
delete_edges_lem_example =
    delete_edges_lem dense-IsGraphBlas one_edge the_edge one_edge_lem.0 has_the_edge

abbrev two_labels : Graph dense ℕ
two_labels = (add_label dense (add_label dense two_relations).1).1

abbrev blank : Delta dense (Unit {0})
blank = init dense (Unit {0}) 4 4

blank-IsLabel : (l : ℕ) → IsLabel 4 blank l blank
unfolding init
blank-IsLabel l = record {
  valid = init-IsValid dense-IsGraphBlas (Unit {0}) 4 4;
  fits = record { rows = omega arith; cols = omega arith };
  diagonal = λ k j.
      rw
        (
          extract_element-init dense-IsGraphBlas (Unit {0}) 4 4 k j,
          extract_element-init dense-IsGraphBlas (Unit {0}) 4 4 k l,
        )
        (ground arith);
}

blank_labels :
    (l : ℕ) (M : Delta dense (Unit {0}))
    → get_elem? (blank ∷ blank ∷ []) l ≡ some M
    → IsLabel 4 blank l M
blank_labels zero M h = subst (λ N. IsLabel 4 blank 0 N) (some_inj h) (blank-IsLabel 0)
blank_labels (suc zero) M h = subst (λ N. IsLabel 4 blank 1 N) (some_inj h) (blank-IsLabel 1)
blank_labels (suc (suc l)) M h = ground (arith, h)

two_labels-IsLabeled : IsLabeled two_labels
unfolding add_label add_relation_type over init
two_labels-IsLabeled = record {
  node_labels_valid = init-IsValid dense-IsGraphBlas (Unit {0}) 4 4;
  node_labels_fits = record { rows = omega arith; cols = omega arith };
  labels_agree = blank_labels;
  room = omega arith;
}

labels_sync : is_nop two_labels.policy ≡ false
unfolding add_label add_relation_type over
labels_sync = refl

labelled_node : 2 < required_dim dense two_labels
unfolding add_label add_relation_type over
labelled_node = omega arith

both_exist : AllBelow (length two_labels.labels) (0 ∷ 1 ∷ [])
unfolding add_label add_relation_type over
both_exist = (omega arith, (omega arith, tt))

label_node_lem_example :
    IsLabeled (label_node dense 10 two_labels 2 (0 ∷ 1 ∷ []))
    × ((k l : ℕ)
        → is_node_labeled dense 10 (label_node dense 10 two_labels 2 (0 ∷ 1 ∷ [])) k l ≡ (
            if (2 == k) && mentions (0 ∷ 1 ∷ []) l
            then true
            else is_node_labeled dense 10 two_labels k l))
label_node_lem_example =
    label_node_lem dense-IsGraphBlas 10 two_labels 2 (0 ∷ 1 ∷ []) two_labels-IsLabeled labels_sync
      labelled_node both_exist

abbrev labelled : Graph dense ℕ
labelled = label_node dense 10 two_labels 2 (0 ∷ 1 ∷ [])

labelled_sync : is_nop labelled.policy ≡ false
unfolding label_node label_each add_label add_relation_type over
labelled_sync = refl

labelled_fits : 2 < required_dim dense labelled
unfolding label_node label_each add_label add_relation_type over
labelled_fits = omega arith

label_exists : AllBelow (length labelled.labels) (1 ∷ [])
unfolding label_node label_each add_label add_relation_type over
label_exists = (omega arith, tt)

labelled-IsLabeled : IsLabeled labelled
labelled-IsLabeled =
    (label_node_lem dense-IsGraphBlas 10 two_labels 2 (0 ∷ 1 ∷ []) two_labels-IsLabeled labels_sync
      labelled_node both_exist).0

remove_node_labels_lem_example :
    IsLabeled (remove_node_labels dense 10 labelled 2 (1 ∷ []))
    × ((k l : ℕ)
        → is_node_labeled dense 10 (remove_node_labels dense 10 labelled 2 (1 ∷ [])) k l ≡ (
            if (2 == k) && mentions (1 ∷ []) l
            then false
            else is_node_labeled dense 10 labelled k l))
remove_node_labels_lem_example =
    remove_node_labels_lem dense-IsGraphBlas 10 labelled 2 (1 ∷ []) labelled-IsLabeled labelled_sync
      labelled_fits label_exists

abbrev settled : Graph dense ℕ
settled = record one_edge { policy = flush_resize }

settled-IsLinked : IsLinked settled
settled-IsLinked = record {
  adjacency_mirrored = one_edge_lem.0.adjacency_mirrored;
  adjacency_fits = one_edge_lem.0.adjacency_fits;
  relations_live = one_edge_lem.0.relations_live;
  linked = one_edge_lem.0.linked;
}

settled_node : (i : ℕ) → i < 4 → i < required_dim dense settled
unfolding create_edge allocate_entity allocate_item make_room form_connection connect
    synchronize_each synchronize_both add_relation_type over is_dirty new
settled_node i h = h

get_edges_connecting_nodes_lem_example :
    get_edges_connecting_nodes dense 10 settled 0 1 none
    ≡ map (λ id. (id, get_item settled.edges id)) (read_ids settled.relations 0 1 none)
get_edges_connecting_nodes_lem_example =
    get_edges_connecting_nodes_lem dense-IsGraphBlas 10 settled 0 1 settled-IsLinked refl
      (settled_node 0 (omega arith)) (settled_node 1 (omega arith)) none tt
