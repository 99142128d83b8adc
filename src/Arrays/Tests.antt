-- ===== src/Arrays/Tests.antt =====
-- Removal from an array of three numbers.
use redis_graph.Prelude.{ℕ, List, [], ◌∷◌, ◌≡◌, refl}
use redis_graph.Arrays.{array_del_fast}

abbrev sample : List ℕ
sample = 4 ∷ 7 ∷ 4 ∷ []

of_sample : array_del_fast sample 1 ≡ 4 ∷ 4 ∷ []
unfolding array_del_fast
of_sample = refl
