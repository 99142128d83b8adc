-- ===== src/GraphBlas/Dense.antt =====
-- A concrete GraphBLAS: a matrix is a function on its positions. It shows that the documented
-- laws can hold together.
use redis_graph.Prelude.{
  ℕ, refl, false, Option, none, some, ◌&&◌, ◌==◌, ltb, arith, if◌then◌else◌, is_some,
}
use redis_graph.Prelude.Grid.{count}
use redis_graph.GraphBlas.{GraphBlas, IsGraphBlas, accumulated}

pub record Table (A : Type 0) : Type 0 where
  pub rows : ℕ
  pub cols : ℕ
  pub at : ℕ → ℕ → Option A

abbrev pub at_in : {A : Type 0} → Table A → ℕ → ℕ → Option A
at_in m k l = if ltb k m.rows && ltb l m.cols then m.at k l else none

abbrev pub put : {A : Type 0} → Table A → ℕ → ℕ → Option A → Table A
put m i j o = record m { at = λ k l. if (i == k) && (j == l) then o else at_in m k l }

abbrev pub dense : GraphBlas
dense = record {
  Matrix = Table;
  new = λ A r c. record { rows = r; cols = c; at = λ k l. none };
  nrows = λ {A} m. m.rows;
  ncols = λ {A} m. m.cols;
  nvals = λ {A} m. count m.rows m.cols (λ k l. is_some (at_in m k l));
  extract = λ {A} m. at_in m;
  set = λ {A} m x i j. put m i j (some x);
  remove = λ {A} m i j. put m i j none;
  accumulate = λ {A} f m x i j. put m i j (some (accumulated f (at_in m i j) x));
  clear = λ {A} m. record m { at = λ k l. none };
  resize = λ {A} m r c. record { rows = r; cols = c; at = at_in m };
  copy = λ {A} m. m;
  copy_unmasked =
      λ {A} mask m. record m { at = λ k l. if is_some (at_in mask k l) then none else at_in m k l };
  assign = λ {A} m s. record m {
    at = λ k l. if is_some (at_in s k l) then at_in s k l else at_in m k l;
  };
  ewise_add = λ {A} m s. record m {
    at = λ k l. if is_some (at_in m k l) then at_in m k l else at_in s k l;
  };
  pending = λ {A} m. false;
}

pub dense-IsGraphBlas : IsGraphBlas dense
dense-IsGraphBlas = record {
  shape-new = λ A r c. (refl, refl);
  extract-new = λ A r c k l. ground arith;
  extract_bounds = λ A m k l h. (ground arith, ground arith);
  nvals-count = λ A m. refl;
  extract-set = λ A m x i j k l hi hj. ground arith;
  shape-set = λ A m x i j. (refl, refl);
  extract-remove = λ A m i j k l. ground arith;
  shape-remove = λ A m i j. (refl, refl);
  extract-accumulate = λ A f m x i j k l hi hj. ground arith;
  shape-accumulate = λ A f m x i j. (refl, refl);
  extract-clear = λ A m k l. ground arith;
  shape-clear = λ A m. (refl, refl);
  extract-resize = λ A m r c k l. ground arith;
  shape-resize = λ A m r c. (refl, refl);
  extract-copy = λ A m k l. refl;
  shape-copy = λ A m. (refl, refl);
  extract-copy_unmasked = λ A mask m k l hr hc. ground arith;
  shape-copy_unmasked = λ A mask m. (refl, refl);
  extract-assign = λ A m s k l hr hc. ground arith;
  shape-assign = λ A m s. (refl, refl);
  shape-ewise_add = λ A m s. (refl, refl);
  extract-ewise_add_left = λ A m s k l hr hc h. ground arith;
  extract-ewise_add_right = λ A m s k l hr hc h. ground arith;
  is_some-ewise_add = λ A m s k l hr hc h h'. ground arith;
}
