-- ===== src/GraphBlas.antt =====
-- The GraphBLAS library, which deps/GraphBLAS vendors: the calls that the delta matrices of
-- src/graph/rg_matrix make of it, with what its documentation says of them.
pub mod Count
pub mod Dense
use redis_graph.Prelude.{
  ℕ, ◌≡◌, ◌<◌, Bool, true, Option, none, some, ◌&&◌, ◌==◌, ltb, if◌then◌else◌, is_some,
}
use redis_graph.Prelude.Grid.{count}

-- `Matrix A` is a GrB_Matrix with entries in `A`; `Unit` serves for GrB_BOOL, where every entry
-- that the program stores is true. `extract` is `none` for GrB_NO_VALUE and for an error.
pub record GraphBlas : Type 1 where
  pub Matrix : Type 0 → Type 0
  -- GrB_Matrix_new
  pub new : (A : Type 0) → ℕ → ℕ → Matrix A
  pub nrows : {A : Type 0} → Matrix A → ℕ
  pub ncols : {A : Type 0} → Matrix A → ℕ
  pub nvals : {A : Type 0} → Matrix A → ℕ
  -- GrB_Matrix_extractElement, GrB_Matrix_setElement, GrB_Matrix_removeElement
  pub extract : {A : Type 0} → Matrix A → ℕ → ℕ → Option A
  pub set : {A : Type 0} → Matrix A → A → ℕ → ℕ → Matrix A
  pub remove : {A : Type 0} → Matrix A → ℕ → ℕ → Matrix A
  -- GxB_Matrix_subassign of a scalar at one position, under an accumulator
  pub accumulate : {A : Type 0} → (A → A → A) → Matrix A → A → ℕ → ℕ → Matrix A
  pub clear : {A : Type 0} → Matrix A → Matrix A
  pub resize : {A : Type 0} → Matrix A → ℕ → ℕ → Matrix A
  -- GrB_transpose with the descriptor RT0, which copies, and RSCT0, which copies what the mask lacks
  pub copy : {A : Type 0} → Matrix A → Matrix A
  pub copy_unmasked : {A : Type 0} → Matrix (Unit {0}) → Matrix A → Matrix A
  -- GrB_Matrix_assign with the second matrix as structural mask and as source
  pub assign : {A : Type 0} → Matrix A → Matrix A → Matrix A
  -- GrB_Matrix_eWiseAdd_Semiring with an ANY_PAIR semiring
  pub ewise_add : {A : Type 0} → Matrix A → Matrix A → Matrix A
  -- GxB_Matrix_Pending
  pub pending : {A : Type 0} → Matrix A → Bool

-- What an accumulator leaves at its position: the scalar, combined with the entry that was there.
abbrev pub accumulated : {A : Type 0} → (A → A → A) → Option A → A → A
accumulated f none x = x
accumulated f (some y) x = f y x

-- What the documentation says of the calls.
pub record IsGraphBlas (G : GraphBlas) : Type 1 where
  pub shape-new : (A : Type 0) (r c : ℕ) → (G.nrows (G.new A r c) ≡ r) × (G.ncols (G.new A r c) ≡ c)
  pub extract-new : (A : Type 0) (r c k l : ℕ) → G.extract (G.new A r c) k l ≡ none
  -- An entry stands inside the matrix.
  pub extract_bounds :
      (A : Type 0) (m : G.Matrix A) (k l : ℕ)
      → is_some (G.extract m k l) ≡ true
      → (k < G.nrows m) × (l < G.ncols m)
  pub nvals-count :
      (A : Type 0) (m : G.Matrix A)
      → G.nvals m ≡ count (G.nrows m) (G.ncols m) (λ k l. is_some (G.extract m k l))
  pub extract-set :
      (A : Type 0) (m : G.Matrix A) (x : A) (i j k l : ℕ)
      → i < G.nrows m
      → j < G.ncols m
      → G.extract (G.set m x i j) k l ≡ (if (i == k) && (j == l) then some x else G.extract m k l)
  pub shape-set :
      (A : Type 0) (m : G.Matrix A) (x : A) (i j : ℕ)
      → (G.nrows (G.set m x i j) ≡ G.nrows m) × (G.ncols (G.set m x i j) ≡ G.ncols m)
  pub extract-remove :
      (A : Type 0) (m : G.Matrix A) (i j k l : ℕ)
      → G.extract (G.remove m i j) k l ≡ (if (i == k) && (j == l) then none else G.extract m k l)
  pub shape-remove :
      (A : Type 0) (m : G.Matrix A) (i j : ℕ)
      → (G.nrows (G.remove m i j) ≡ G.nrows m) × (G.ncols (G.remove m i j) ≡ G.ncols m)
  pub extract-accumulate :
      (A : Type 0) (f : A → A → A) (m : G.Matrix A) (x : A) (i j k l : ℕ)
      → i < G.nrows m
      → j < G.ncols m
      → G.extract (G.accumulate f m x i j) k l ≡ (
          if (i == k) && (j == l)
          then some (accumulated f (G.extract m i j) x)
          else G.extract m k l)
  pub shape-accumulate :
      (A : Type 0) (f : A → A → A) (m : G.Matrix A) (x : A) (i j : ℕ)
      → (G.nrows (G.accumulate f m x i j) ≡ G.nrows m)
        × (G.ncols (G.accumulate f m x i j) ≡ G.ncols m)
  pub extract-clear : (A : Type 0) (m : G.Matrix A) (k l : ℕ) → G.extract (G.clear m) k l ≡ none
  pub shape-clear :
      (A : Type 0) (m : G.Matrix A)
      → (G.nrows (G.clear m) ≡ G.nrows m) × (G.ncols (G.clear m) ≡ G.ncols m)
  pub extract-resize :
      (A : Type 0) (m : G.Matrix A) (r c k l : ℕ)
      → G.extract (G.resize m r c) k l ≡ (if ltb k r && ltb l c then G.extract m k l else none)
  pub shape-resize :
      (A : Type 0) (m : G.Matrix A) (r c : ℕ)
      → (G.nrows (G.resize m r c) ≡ r) × (G.ncols (G.resize m r c) ≡ c)
  pub extract-copy :
      (A : Type 0) (m : G.Matrix A) (k l : ℕ) → G.extract (G.copy m) k l ≡ G.extract m k l
  pub shape-copy :
      (A : Type 0) (m : G.Matrix A)
      → (G.nrows (G.copy m) ≡ G.nrows m) × (G.ncols (G.copy m) ≡ G.ncols m)
  pub extract-copy_unmasked :
      (A : Type 0) (mask : G.Matrix (Unit {0})) (m : G.Matrix A) (k l : ℕ)
      → G.nrows mask ≡ G.nrows m
      → G.ncols mask ≡ G.ncols m
      → G.extract (G.copy_unmasked mask m) k l
        ≡ (if is_some (G.extract mask k l) then none else G.extract m k l)
  pub shape-copy_unmasked :
      (A : Type 0) (mask : G.Matrix (Unit {0})) (m : G.Matrix A)
      → (G.nrows (G.copy_unmasked mask m) ≡ G.nrows m)
        × (G.ncols (G.copy_unmasked mask m) ≡ G.ncols m)
  pub extract-assign :
      (A : Type 0) (m s : G.Matrix A) (k l : ℕ)
      → G.nrows s ≡ G.nrows m
      → G.ncols s ≡ G.ncols m
      → G.extract (G.assign m s) k l
        ≡ (if is_some (G.extract s k l) then G.extract s k l else G.extract m k l)
  pub shape-assign :
      (A : Type 0) (m s : G.Matrix A)
      → (G.nrows (G.assign m s) ≡ G.nrows m) × (G.ncols (G.assign m s) ≡ G.ncols m)
  pub shape-ewise_add :
      (A : Type 0) (m s : G.Matrix A)
      → (G.nrows (G.ewise_add m s) ≡ G.nrows m) × (G.ncols (G.ewise_add m s) ≡ G.ncols m)
  -- Where both hold an entry, ANY picks one of the two, and nothing is said of which.
  pub extract-ewise_add_left :
      (A : Type 0) (m s : G.Matrix A) (k l : ℕ)
      → G.nrows s ≡ G.nrows m
      → G.ncols s ≡ G.ncols m
      → G.extract s k l ≡ none
      → G.extract (G.ewise_add m s) k l ≡ G.extract m k l
  pub extract-ewise_add_right :
      (A : Type 0) (m s : G.Matrix A) (k l : ℕ)
      → G.nrows s ≡ G.nrows m
      → G.ncols s ≡ G.ncols m
      → G.extract m k l ≡ none
      → G.extract (G.ewise_add m s) k l ≡ G.extract s k l
  pub is_some-ewise_add :
      (A : Type 0) (m s : G.Matrix A) (k l : ℕ)
      → G.nrows s ≡ G.nrows m
      → G.ncols s ≡ G.ncols m
      → is_some (G.extract m k l) ≡ true
      → is_some (G.extract s k l) ≡ true
      → is_some (G.extract (G.ewise_add m s) k l) ≡ true
