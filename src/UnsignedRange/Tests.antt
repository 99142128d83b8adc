-- ===== src/UnsignedRange/Tests.antt =====
-- Ranges of ids at concrete bounds.
use redis_graph.Prelude.{◌≡◌, ◌&&◌}
use redis_graph.FilterTree.{lt_op}
use redis_graph.UnsignedRange.{new, contains_value, tighten_range}
use redis_graph.UnsignedRange.Tighten.{admits, contains_value-tighten_range}

contains_value-tighten_range_example :
    contains_value (tighten_range new lt_op 5) 5 ≡ contains_value new 5 && admits lt_op 5 5
contains_value-tighten_range_example = contains_value-tighten_range new lt_op 5 5 tt
