-- ===== src/DeltaMatrix/Edges/Tests.antt =====
-- A matrix of edges of two rows and two columns, in which 5 and then 6 run from 0 to 1.
use redis_graph.Prelude.{
  ℕ, ◌+◌, ◌<◌, ◌≡◌, true, not, ◌&&◌, none, [], ◌∷◌, ◌++◌, ◌==◌, if◌then◌else◌, is_some, arith,
}
use redis_graph.Prelude.Grid.{bit}
use redis_graph.Arrays.Occurrences.{occurrences}
use redis_graph.GraphBlas.Dense.{dense, dense-IsGraphBlas}
use redis_graph.DeltaMatrix.{init, extract_element, set_dirty}
use redis_graph.DeltaMatrix.Edges.{
  ids, success, EdgeMatrix, new, extract_edge, set_element_uint64, remove_element_uint64,
  remove_entry_uint64, wait_both, set_dirty_both, set_multi_edge_entry,
}
use redis_graph.DeltaMatrix.Edges.Live.{IsLive, new-IsLive}
use redis_graph.DeltaMatrix.Edges.Add.{set_element_uint64-IsLive, ids-set_element_uint64}
use redis_graph.DeltaMatrix.Edges.Remove.{extract_edge-remove, remove_element_uint64-IsLive}
use redis_graph.DeltaMatrix.Edges.RemoveEntry.{remove_entry_uint64-IsLive, remove_entry_uint64_lem}
use redis_graph.DeltaMatrix.Edges.Flush.{wait_both-IsLive}

abbrev empty : EdgeMatrix dense
empty = new dense 2 2

empty-IsLive : IsLive dense empty
empty-IsLive = new-IsLive dense-IsGraphBlas 2 2

row_of_empty : 0 < dense.nrows empty.own.matrix
unfolding new init
row_of_empty = omega arith

col_of_empty : 1 < dense.ncols empty.own.matrix
unfolding new init
col_of_empty = omega arith

abbrev one_edge : EdgeMatrix dense
one_edge = set_element_uint64 dense empty 5 0 1

one_edge-IsLive : IsLive dense one_edge
one_edge-IsLive =
    set_element_uint64-IsLive dense-IsGraphBlas empty 5 0 1 empty-IsLive row_of_empty col_of_empty

row_of_one_edge : 0 < dense.nrows one_edge.own.matrix
unfolding new init set_element_uint64 set_multi_edge_entry set_dirty_both set_dirty
row_of_one_edge = omega arith

col_of_one_edge : 1 < dense.ncols one_edge.own.matrix
unfolding new init set_element_uint64 set_multi_edge_entry set_dirty_both set_dirty
col_of_one_edge = omega arith

abbrev two_edges : EdgeMatrix dense
two_edges = set_element_uint64 dense one_edge 6 0 1

two_edges-IsLive : IsLive dense two_edges
two_edges-IsLive =
    set_element_uint64-IsLive dense-IsGraphBlas one_edge 6 0 1 one_edge-IsLive row_of_one_edge
      col_of_one_edge

row_of_two_edges : 0 < dense.nrows two_edges.own.matrix
unfolding new init set_element_uint64 set_multi_edge_entry set_dirty_both set_dirty
row_of_two_edges = omega arith

col_of_two_edges : 1 < dense.ncols two_edges.own.matrix
unfolding new init set_element_uint64 set_multi_edge_entry set_dirty_both set_dirty
col_of_two_edges = omega arith

five_is_there : 0 < occurrences 5 (ids (extract_edge dense two_edges 0 1))
unfolding new init set_element_uint64 set_multi_edge_entry set_dirty_both set_dirty extract_element
    occurrences
five_is_there = omega arith

set_element_uint64-IsLive_example : IsLive dense (set_element_uint64 dense one_edge 6 0 1)
set_element_uint64-IsLive_example =
    set_element_uint64-IsLive dense-IsGraphBlas one_edge 6 0 1 one_edge-IsLive row_of_one_edge
      col_of_one_edge

ids-set_element_uint64_example :
    ids (extract_edge dense (set_element_uint64 dense one_edge 6 0 1) 0 1) ≡ (
      if (0 == 0) && (1 == 1)
      then ids (extract_edge dense one_edge 0 1) ++ 6 ∷ []
      else ids (extract_edge dense one_edge 0 1))
ids-set_element_uint64_example =
    ids-set_element_uint64 dense-IsGraphBlas one_edge 6 0 1 one_edge-IsLive 0 1 row_of_one_edge
      col_of_one_edge

extract_edge-remove_example :
    extract_edge dense (remove_element_uint64 dense two_edges 0 1).1 0 1
    ≡ (if (0 == 0) && (1 == 1) then none else extract_edge dense two_edges 0 1)
extract_edge-remove_example =
    extract_edge-remove dense-IsGraphBlas two_edges 0 1 two_edges-IsLive 0 1 row_of_two_edges
      col_of_two_edges

remove_element_uint64-IsLive_example : IsLive dense (remove_element_uint64 dense two_edges 0 1).1
remove_element_uint64-IsLive_example =
    remove_element_uint64-IsLive dense-IsGraphBlas two_edges 0 1 two_edges-IsLive row_of_two_edges
      col_of_two_edges

remove_entry_uint64-IsLive_example : IsLive dense (remove_entry_uint64 dense two_edges 0 1 5).2
remove_entry_uint64-IsLive_example =
    remove_entry_uint64-IsLive dense-IsGraphBlas two_edges 0 1 5 two_edges-IsLive row_of_two_edges
      col_of_two_edges five_is_there

remove_entry_uint64_lem_example :
    ((remove_entry_uint64 dense two_edges 0 1 5).0 ≡ success)
    × ((remove_entry_uint64 dense two_edges 0 1 5).1
        ≡ not (is_some (extract_edge dense (remove_entry_uint64 dense two_edges 0 1 5).2 0 1)))
    × (occurrences 6 (ids (extract_edge dense (remove_entry_uint64 dense two_edges 0 1 5).2 0 1))
          + bit (5 == 6)
        ≡ occurrences 6 (ids (extract_edge dense two_edges 0 1)))
    × (extract_edge dense (remove_entry_uint64 dense two_edges 0 1 5).2 1 1 ≡ (
        if (0 == 1) && (1 == 1)
        then extract_edge dense (remove_entry_uint64 dense two_edges 0 1 5).2 0 1
        else extract_edge dense two_edges 1 1))
remove_entry_uint64_lem_example =
    remove_entry_uint64_lem dense-IsGraphBlas two_edges 0 1 5 two_edges-IsLive row_of_two_edges
      col_of_two_edges five_is_there 6 1 1

wait_both-IsLive_example :
    IsLive dense (wait_both dense two_edges true 10)
    × ((k l : ℕ)
        → extract_edge dense (wait_both dense two_edges true 10) k l
          ≡ extract_edge dense two_edges k l)
wait_both-IsLive_example = wait_both-IsLive dense-IsGraphBlas two_edges two_edges-IsLive true 10
