-- ===== src/DeltaMatrix/Edges/Live.antt =====
-- The invariant of matrices of edges.
use redis_graph.Prelude.{ℕ, ◌≤◌, ◌≡◌, Option, none, some, length, arith, is_some}
use redis_graph.GraphBlas.{GraphBlas, IsGraphBlas}
use redis_graph.DeltaMatrix.{init, extract_element}
use redis_graph.DeltaMatrix.Valid.{IsValid, init-IsValid, extract_element-init}
use redis_graph.DeltaMatrix.Edges.{Edge, single, multi, freed, EdgeMatrix, new, extract_edge}

-- An entry in use is one id or an array of two or more, and never an array that was freed.
abbrev pub WellFormed : Option Edge → Type 0
WellFormed none = Unit
WellFormed (some (single x)) = Unit
WellFormed (some (multi xs)) = 2 ≤ length xs
WellFormed (some freed) = ⊥

pub record IsLive (G : GraphBlas) (C : EdgeMatrix G) : Type 0 where
  pub own_valid : IsValid G C.own
  pub transposed_valid : IsValid G C.transposed
  pub rows : G.nrows C.transposed.matrix ≡ G.ncols C.own.matrix
  pub cols : G.ncols C.transposed.matrix ≡ G.nrows C.own.matrix
  -- The transpose has an entry exactly where the matrix has one.
  pub linked :
      (k l : ℕ) → is_some (extract_element G C.transposed l k) ≡ is_some (extract_edge G C k l)
  pub well_formed : (k l : ℕ) → WellFormed (extract_edge G C k l)

module _ {G : GraphBlas} (L : IsGraphBlas G) where
  -- A new matrix of edges satisfies the invariant.
  pub new-IsLive : (r c : ℕ) → IsLive G (new G r c)
  unfolding new
  new-IsLive r c = record {
    own_valid = init-IsValid L Edge r c;
    transposed_valid = init-IsValid L Unit c r;
    rows = unfold init in omega (arith, L.shape-new Unit c r, L.shape-new Edge r c);
    cols = unfold init in omega (arith, L.shape-new Unit c r, L.shape-new Edge r c);
    linked = λ k l. rw (extract_element-init L Unit c r l k, extract_element-init L Edge r c k l);
    well_formed = λ k l. rw (extract_element-init L Edge r c k l) tt;
  }
