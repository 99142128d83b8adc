-- ===== src/Prelude/Grid.antt =====
-- Sums over an interval and counts over a rectangular grid.
use Prim.Native.Nat.{ℕ, zero, suc, ◌+◌, ◌≤◌, ◌<◌}
use mathlib.Core.Path.{◌≡◌, refl, ap}
use redis_graph.Prelude.Tests.{ltb, ◌==◌}
use mathlib.Core.Bool.{Bool, true, false}
use native.Mathlib.Omega.{arith}

-- f 0 + … + f (n - 1)
unfoldable pub sum_below : ℕ → (ℕ → ℕ) → ℕ
sum_below zero f = 0
sum_below (suc n) f = sum_below n f + f n

abbrev pub bit : Bool → ℕ
bit true = 1
bit false = 0

-- How many positions of a grid pass a test.
unfoldable pub count : ℕ → ℕ → (ℕ → ℕ → Bool) → ℕ
count rows cols p = sum_below rows (λ i. sum_below cols (λ j. bit (p i j)))

-- A pointwise equation of sums of two carries over to the sums.
pub sum_below-balance :
    (n : ℕ) (f g h k : ℕ → ℕ)
    → ((i : ℕ) → f i + g i ≡ h i + k i)
    → sum_below n f + sum_below n g ≡ sum_below n h + sum_below n k
unfolding sum_below
sum_below-balance zero f g h k e = omega arith
sum_below-balance (suc n) f g h k e = omega (arith, sum_below-balance n f g h k e, e n)

pub count-balance :
    (rows cols : ℕ) (p q r s : ℕ → ℕ → Bool)
    → ((i j : ℕ) → bit (p i j) + bit (q i j) ≡ bit (r i j) + bit (s i j))
    → count rows cols p + count rows cols q ≡ count rows cols r + count rows cols s
unfolding count
count-balance rows cols p q r s e =
    sum_below-balance rows _ _ _ _ (λ i. sum_below-balance cols _ _ _ _ (e i))

-- A count of nothing.
pub sum_below-zero : (n : ℕ) (f : ℕ → ℕ) → ((i : ℕ) → f i ≡ 0) → sum_below n f ≡ 0
unfolding sum_below
sum_below-zero zero f e = refl
sum_below-zero (suc n) f e = omega (arith, sum_below-zero n f e, e n)

pub count-none :
    (rows cols : ℕ) (p : ℕ → ℕ → Bool) → ((i j : ℕ) → p i j ≡ false) → count rows cols p ≡ 0
unfolding count
count-none rows cols p e = sum_below-zero rows _ (λ i. sum_below-zero cols _ (λ j. rw (e i j)))

-- One summand is at most the sum.
pub le-sum_below : (n : ℕ) (f : ℕ → ℕ) (i : ℕ) → i < n → f i ≤ sum_below n f
unfolding sum_below
le-sum_below zero f i h = absurd (omega arith)
le-sum_below (suc n) f i h = ground (arith, le-sum_below n f i)

-- A passing position inside the grid makes the count positive.
pub count-pos :
    (rows cols : ℕ) (p : ℕ → ℕ → Bool) (i j : ℕ)
    → i < rows
    → j < cols
    → p i j ≡ true
    → 1 ≤ count rows cols p
unfolding count
count-pos rows cols p i j hi hj h = omega (
  arith,
  le-sum_below rows (λ i. sum_below cols (λ j. bit (p i j))) i hi,
  le-sum_below cols (λ j. bit (p i j)) j hj,
  ap bit h,
)

pub sum_below-position : (n x : ℕ) → sum_below n (λ i. bit (x == i)) ≡ bit (ltb x n)
unfolding sum_below
sum_below-position zero x = ground arith
sum_below-position (suc n) x = ground (arith, sum_below-position n x)

pub sum_below_le : (n : ℕ) (f : ℕ → ℕ) → ((i : ℕ) → f i ≤ 1) → sum_below n f ≤ n
unfolding sum_below
sum_below_le zero f h = omega arith
sum_below_le (suc n) f h = omega (arith, sum_below_le n f h, h n)

-- Of numbers that are at most 1, one of which is 0, the sum is below their count.
pub sum_below_lt :
    (n : ℕ) (f : ℕ → ℕ) (k : ℕ) → ((i : ℕ) → f i ≤ 1) → f k ≡ 0 → k < n → sum_below n f < n
unfolding sum_below
sum_below_lt zero f k h z l = absurd (omega arith)
sum_below_lt (suc n) f k h z l = ground (arith, sum_below_lt n f k h z, sum_below_le n f h, h n)
