-- ===== src/ObjectPool/Calls.antt =====
-- Calls of a pool from its creation on, in any order: the program deletes only items that it was
-- handed and has not deleted.
use redis_graph.Prelude.{ℕ, ◌≤◌, ◌<◌, ◌≡◌, arith}
use redis_graph.ObjectPool.{ObjectPool, new, new_item, delete_item}
use redis_graph.ObjectPool.Handed.{
  IsValid, more, fewer, new-IsValid, new_item-IsValid, delete_item-IsValid,
}

-- The pool after some calls, with how often each item is handed out
pub data Run {A : Type 0} (item_cap : ℕ) (zeroed : A) (destructor : A → A)
    : ObjectPool A → (ℕ → ℕ) → Type 0 where
  created : Run item_cap zeroed destructor (new item_cap zeroed destructor) (λ i. 0)
  handed :
      {pool : ObjectPool A} {held : ℕ → ℕ}
      → Run item_cap zeroed destructor pool held
      → Run item_cap zeroed destructor (new_item pool).1 (more held (new_item pool).0)
  given_back :
      {pool : ObjectPool A} {held : ℕ → ℕ} (x : ℕ)
      → 0 < held x
      → Run item_cap zeroed destructor pool held
      → Run item_cap zeroed destructor (delete_item pool x) (fewer held x)

module _ {A : Type 0} {item_cap : ℕ} {zeroed : A} {destructor : A → A} (pos : 0 < item_cap) where
  run-IsValid :
      {pool : ObjectPool A} {held : ℕ → ℕ}
      → Run item_cap zeroed destructor pool held
      → IsValid pool held
  run-IsValid created = new-IsValid item_cap zeroed destructor pos
  run-IsValid (handed {pool} {held} r) = (new_item-IsValid pool held (run-IsValid r)).1
  run-IsValid (given_back {pool} {held} x h r) = delete_item-IsValid pool held (run-IsValid r) x h

  -- After any calls on a pool that was made with a positive capacity, where only items that are
  -- handed out are deleted: no item is handed out twice, each that is handed out stands below the
  -- capacity, and the item that the next call hands out is not handed out already.
  pub run_lem :
      {pool : ObjectPool A} {held : ℕ → ℕ}
      → Run item_cap zeroed destructor pool held
      → ((i : ℕ) → held i ≤ 1)
        × ((i : ℕ) → 0 < held i → i < pool.item_cap)
        × (held (new_item pool).0 ≡ 0)
  run_lem {pool} {held} r =
      let v = run-IsValid r in
      (
        λ i. ground (arith, v.shared i),
        λ i h. ground (arith, v.shared i, v.fits),
        (new_item-IsValid pool held v).0,
      )
