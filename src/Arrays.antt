-- ===== src/Arrays.antt =====
-- Macros of src/util/arr.h over growing arrays, here lists of numbers.
pub mod Occurrences
mod Tests
use redis_graph.Prelude.{
  ℕ, zero, suc, ◌+◌, ◌-◌, Option, none, some, List, [], ◌∷◌, ltb, ◌==◌, if◌then◌else◌, length, set,
}

-- arr[len - 1] of a non-empty array
unfoldable pub last {ℓ} : {A : Type ℓ} → A → List A → A
last x [] = x
last x (y ∷ ys) = last y ys

-- --len
unfoldable pub drop_last {ℓ} : {A : Type ℓ} → List A → List A
drop_last [] = []
drop_last (x ∷ []) = []
drop_last (x ∷ y ∷ ys) = x ∷ drop_last (y ∷ ys)

-- `array_del_fast`: the last element takes the place of the removed one. The caller's array is
-- not empty.
unfoldable pub array_del_fast {ℓ} : {A : Type ℓ} → List A → ℕ → List A
unfolding last drop_last
array_del_fast [] ix = []
array_del_fast (x ∷ xs) ix =
    drop_last (if ltb 1 (length (x ∷ xs)) then set (x ∷ xs) ix (last x xs) else (x ∷ xs))

-- The search loop of its callers: the first index of `v`, or the length.
unfoldable pub position : ℕ → List ℕ → ℕ
position v [] = 0
position v (x ∷ xs) = if x == v then 0 else suc (position v xs)
