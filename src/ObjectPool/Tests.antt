-- ===== src/ObjectPool/Tests.antt =====
-- A pool that hands out two items and is given the first one back.
use redis_graph.Prelude.{ℕ, ◌≤◌, ◌<◌, ◌≡◌, arith}
use redis_graph.ObjectPool.{ObjectPool, new, new_item, delete_item, with_room, add_blocks}
use redis_graph.ObjectPool.Handed.{more, fewer}
use redis_graph.ObjectPool.Calls.{Run, created, handed, given_back, run_lem}

abbrev destroy : ℕ → ℕ
destroy n = 0

abbrev one_item : ObjectPool ℕ
one_item = (new_item (new 3 0 destroy)).1

abbrev held_once : ℕ → ℕ
held_once = more (λ i. 0) (new_item (new 3 0 destroy)).0

first_held : 0 < held_once 0
unfolding new_item new with_room add_blocks
first_held = omega arith

calls : Run 3 0 destroy (delete_item one_item 0) (fewer held_once 0)
calls = given_back 0 first_held (handed created)

run_lem_example :
    ((i : ℕ) → fewer held_once 0 i ≤ 1)
    × ((i : ℕ) → 0 < fewer held_once 0 i → i < (delete_item one_item 0).item_cap)
    × (fewer held_once 0 (new_item (delete_item one_item 0)).0 ≡ 0)
run_lem_example = run_lem (omega arith) calls
