-- ===== src/DeltaMatrix/Tests.antt =====
-- A boolean matrix of two rows and two columns, over a concrete GraphBLAS.
use redis_graph.Prelude.{◌+◌, ◌^◌, ◌<◌, ◌≡◌, refl, true, false, some, is_some, arith}
use redis_graph.Prelude.Grid.{count, sum_below}
use redis_graph.GraphBlas.Dense.{dense, dense-IsGraphBlas}
use redis_graph.DeltaMatrix.{
  Delta, init, extract_element, set_element_bool, remove_element_bool, wait, export, nvals, sync,
  sync_deletions, sync_additions,
}
use redis_graph.DeltaMatrix.Valid.{
  IsValid, init-IsValid, set_element_bool-IsValid, remove_element_bool-IsValid,
}
use redis_graph.DeltaMatrix.Sync.{Same, wait-Same}
use redis_graph.DeltaMatrix.Export.{extract-export, nvals-eq-count}

abbrev empty : Delta dense (Unit {0})
empty = init dense Unit 2 2

empty-IsValid : IsValid dense empty
empty-IsValid = init-IsValid dense-IsGraphBlas Unit 2 2

row_of_empty : 0 < dense.nrows empty.matrix
unfolding init
row_of_empty = omega arith

col_of_empty : 1 < dense.ncols empty.matrix
unfolding init
col_of_empty = omega arith

-- An entry that is flushed, at row 0 and column 1.
abbrev flushed_one : Delta dense (Unit {0})
flushed_one = wait dense (set_element_bool dense empty 0 1) true 10

flushed_one-IsValid : IsValid dense flushed_one
flushed_one-IsValid =
    (wait-Same dense-IsGraphBlas (set_element_bool dense empty 0 1) true 10 set_IsValid).valid
  where
    set_IsValid : IsValid dense (set_element_bool dense empty 0 1)
    set_IsValid =
        set_element_bool-IsValid dense-IsGraphBlas empty 0 1 empty-IsValid row_of_empty col_of_empty

row_of_flushed_one : 0 < dense.nrows flushed_one.matrix
unfolding init set_element_bool wait sync sync_deletions sync_additions
row_of_flushed_one = omega arith

col_of_flushed_one : 1 < dense.ncols flushed_one.matrix
unfolding init set_element_bool wait sync sync_deletions sync_additions
col_of_flushed_one = omega arith

-- A deletion is pending at row 0 and column 1.
abbrev pending_deletion : Delta dense (Unit {0})
pending_deletion = remove_element_bool dense flushed_one 0 1

pending_deletion-IsValid : IsValid dense pending_deletion
pending_deletion-IsValid =
    remove_element_bool-IsValid dense-IsGraphBlas flushed_one 0 1 flushed_one-IsValid
      row_of_flushed_one col_of_flushed_one

wait-Same_example : Same dense-IsGraphBlas pending_deletion (wait dense pending_deletion false 10)
wait-Same_example = wait-Same dense-IsGraphBlas pending_deletion false 10 pending_deletion-IsValid

extract-export_example :
    dense.extract (export dense pending_deletion) 0 1 ≡ extract_element dense pending_deletion 0 1
extract-export_example =
    extract-export dense-IsGraphBlas pending_deletion 0 1 pending_deletion-IsValid

few_entries : dense.nvals pending_deletion.matrix + dense.nvals pending_deletion.delta_plus < 2 ^ 64
unfolding init set_element_bool wait sync sync_deletions sync_additions remove_element_bool count
    sum_below
few_entries = omega arith

deletion_marked : dense.extract pending_deletion.delta_minus 0 1 ≡ some tt
unfolding init set_element_bool wait sync sync_deletions sync_additions remove_element_bool count
    sum_below
deletion_marked = refl

nvals-eq-count_example :
    nvals dense pending_deletion
    ≡ count
        (dense.nrows pending_deletion.matrix)
        (dense.ncols pending_deletion.matrix)
        (λ k l. is_some (extract_element dense pending_deletion k l))
nvals-eq-count_example =
    nvals-eq-count dense-IsGraphBlas pending_deletion pending_deletion-IsValid few_entries

rows_agree : dense.nrows flushed_one.matrix ≡ dense.nrows pending_deletion.matrix
unfolding remove_element_bool init set_element_bool wait sync sync_deletions sync_additions count
rows_agree = refl

cols_agree : dense.ncols flushed_one.matrix ≡ dense.ncols pending_deletion.matrix
unfolding remove_element_bool init set_element_bool wait sync sync_deletions sync_additions count
cols_agree = refl
