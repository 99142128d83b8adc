-- ===== src/DataBlock/Tests.antt =====
-- One block of three slots, of which the middle one is deleted.
use redis_graph.Prelude.{
  length, ◌+◌, ℕ, zero, suc, ◌≤◌, ◌≡◌, refl, true, false, [], ◌∷◌, if◌then◌else◌, ◌==◌, arith,
}
use redis_graph.Prelude.Grid.{bit}
use redis_graph.Arrays.Occurrences.{occurrences}
use redis_graph.DataBlock.{
  DataBlock, missing, add_blocks, make_room, allocate_item, delete_item, get_item, get_reserved_idx,
}
use redis_graph.DataBlock.Valid.{IsValid, deleted_at}
use redis_graph.DataBlock.Reserved.{
  allocated, IsNarrow, StaysNarrow, allocate_item-IsValid, get_reserved_idx-allocated,
}
use redis_graph.DataBlock.Items.{delete_item-IsValid, get_item-delete_item}
use redis_graph.DataBlock.Scan.{drain, scan, live_items, drain-scan}

abbrev sample : DataBlock ℕ
sample = record {
  item_count = 2;
  item_cap = 3;
  block_cap = 3;
  block_count = 1;
  slots =
      record { deleted = false; item = 7 }
      ∷ record { deleted = true; item = 0 }
      ∷ record { deleted = false; item = 9 }
      ∷ [];
  deleted_idx = 1 ∷ [];
  zeroed = 0;
  destructor = λ n. 0;
}

sample_listed : (i : ℕ) → occurrences i sample.deleted_idx ≡ bit (deleted_at sample.slots i)
unfolding occurrences
sample_listed zero = refl
sample_listed (suc zero) = refl
sample_listed (suc (suc zero)) = refl
sample_listed (suc (suc (suc i))) = ground arith

sample_fresh : (i : ℕ) → 3 ≤ i → deleted_at sample.slots i ≡ false
sample_fresh zero h = absurd (omega arith)
sample_fresh (suc zero) h = absurd (omega arith)
sample_fresh (suc (suc zero)) h = absurd (omega arith)
sample_fresh (suc (suc (suc i))) h = refl

sample-IsValid : IsValid sample
sample-IsValid = record {
  cap_pos = omega arith;
  cap = refl;
  length_slots = refl;
  fits = omega arith;
  listed = sample_listed;
  fresh = sample_fresh;
}

sample-IsNarrow : IsNarrow (make_room sample)
unfolding make_room add_blocks
sample-IsNarrow = omega arith

allocate_item-IsValid_example : IsValid (allocate_item sample).1
allocate_item-IsValid_example = allocate_item-IsValid sample sample-IsValid sample-IsNarrow

sample-StaysNarrow : StaysNarrow 1 sample
unfolding StaysNarrow allocate_item make_room add_blocks
sample-StaysNarrow = (omega arith, omega arith)

get_reserved_idx-allocated_example :
    get_reserved_idx sample 1 ≡ (allocate_item (allocated 1 sample)).0
get_reserved_idx-allocated_example =
    get_reserved_idx-allocated 1 sample sample-IsValid sample-StaysNarrow

delete_item-IsValid_example : IsValid (delete_item sample 0)
delete_item-IsValid_example = delete_item-IsValid sample sample-IsValid 0 (omega arith)

get_item-delete_item_example :
    get_item (delete_item sample 0) 2 ≡ (if 0 == 2 then missing else get_item sample 2)
get_item-delete_item_example = get_item-delete_item sample sample-IsValid 0 (omega arith) 2

drain-scan_example :
    (drain 4 (scan sample)
      ≡ live_items sample.slots 0 (sample.item_count + length sample.deleted_idx))
    × (length (drain 4 (scan sample)) ≡ sample.item_count)
drain-scan_example = drain-scan sample 4 sample-IsValid (omega arith)
