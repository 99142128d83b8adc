-- ===== src/DeltaMatrix/Edges/Removal.antt =====
-- RG_Matrix_removeEntry_UINT64 by cases, and what each case does to the matrix itself.
use redis_graph.Prelude.{
  ℕ, ◌<◌, ◌≡◌, ◌≢◌, refl, Bool, true, false, ◌&&◌, Option, none, some, List, arith, ◌==◌,
  if◌then◌else◌, is_some,
}
use redis_graph.GraphBlas.{GraphBlas, IsGraphBlas}
use redis_graph.DeltaMatrix.{extract_element, validate_state, remove_element_bool}
use redis_graph.DeltaMatrix.Valid.{IsValid}
use redis_graph.DeltaMatrix.Edges.{
  Edge, single, multi, freed, Info, success, EdgeMatrix, extract_edge, remove_entry_from_array,
  remove_entry_uint64,
}
use redis_graph.DeltaMatrix.Edges.Live.{IsLive}
use redis_graph.DeltaMatrix.Edges.Drop.{dropped, not_freed}

module _ {G : GraphBlas} (C : EdgeMatrix G) (i j w : ℕ) where
  -- The four ways of removing an edge from an entry that is shown: from M or delta-plus, and with
  -- the last edge or with others left.
  pub data Removal : Info × Bool × EdgeMatrix G → Type 0 where
    last_of_m :
        (x : ℕ)
        → G.extract C.own.matrix i j ≡ some (single x)
        → Removal (
          success,
          true,
          record {
            own = record (C.own) { delta_minus = G.set C.own.delta_minus tt i j; dirty = true };
            transposed = record (remove_element_bool G C.transposed j i) { dirty = true };
          },
        )
    one_of_m :
        (xs : List ℕ)
        → G.extract C.own.matrix i j ≡ some (multi xs)
        → Removal (
          success,
          false,
          record C {
            own = record (C.own) { matrix = G.set C.own.matrix (remove_entry_from_array xs w) i j };
          },
        )
    last_of_plus :
        (x : ℕ)
        → G.extract C.own.matrix i j ≡ none
        → G.extract C.own.delta_plus i j ≡ some (single x)
        → Removal (
          success,
          true,
          record {
            own = record (C.own) { delta_plus = G.remove C.own.delta_plus i j; dirty = true };
            transposed = record (remove_element_bool G C.transposed j i) { dirty = true };
          },
        )
    one_of_plus :
        (xs : List ℕ)
        → G.extract C.own.matrix i j ≡ none
        → G.extract C.own.delta_plus i j ≡ some (multi xs)
        → Removal (
          success,
          false,
          record C {
            own = record (C.own) {
              delta_plus = G.set C.own.delta_plus (remove_entry_from_array xs w) i j;
            };
          },
        )

  module _ (v : IsLive G C) (shown : is_some (extract_edge G C i j) ≡ true) where
    pub remove_entry-Removal : Removal (remove_entry_uint64 G C i j w)
    unfolding remove_entry_uint64 extract_element validate_state
    remove_entry-Removal =
        go (G.extract C.own.matrix i j) refl (G.extract C.own.delta_plus i j) refl
      where
        live : extract_edge G C i j ≢ some freed
        live = not_freed _ (v.well_formed i j)

        go :
            (o : Option Edge)
            → G.extract C.own.matrix i j ≡ o
            → (p : Option Edge) → G.extract C.own.delta_plus i j ≡ p
            → Removal (remove_entry_uint64 G C i j w)
        go (some (single x)) e p f = rw (e, remove_entry_uint64) (last_of_m x e)
        go (some (multi xs)) e p f = rw (e, remove_entry_uint64) (one_of_m xs e)
        go (some freed) e p f = absurd (live (ground (arith, e, f, v.own_valid.state i j)))
        go none e (some (single x)) f = rw (e, f, remove_entry_uint64) (last_of_plus x e f)
        go none e (some (multi xs)) f = rw (e, f, remove_entry_uint64) (one_of_plus xs e f)
        go none e (some freed) f = absurd (live (ground (arith, e, f, v.own_valid.state i j)))
        go none e none f = absurd (ground (arith, e, f))

  module _ (L : IsGraphBlas G) (v : IsLive G C) (hi : i < G.nrows C.own.matrix)
      (hj : j < G.ncols C.own.matrix) where
    Removal-state :
        {r : Info × Bool × EdgeMatrix G}
        → Removal r
        → (k l : ℕ) → validate_state G r.2.own k l ≡ true
    unfolding validate_state
    Removal-state (last_of_m x e) k l = ground (
      arith,
      v.own_valid.state i j,
      v.own_valid.state k l,
      L.extract-set Unit C.own.delta_minus tt i j k l,
      v.own_valid.minus_rows,
      v.own_valid.minus_cols,
    )
    Removal-state (one_of_m xs e) k l = ground (
      arith,
      v.own_valid.state i j,
      v.own_valid.state k l,
      L.extract-set Edge C.own.matrix (remove_entry_from_array xs w) i j k l,
    )
    Removal-state (last_of_plus x e f) k l = ground (
      arith,
      v.own_valid.state i j,
      v.own_valid.state k l,
      L.extract-remove Edge C.own.delta_plus i j k l,
    )
    Removal-state (one_of_plus xs e f) k l = ground (
      arith,
      v.own_valid.state i j,
      v.own_valid.state k l,
      L.extract-set Edge C.own.delta_plus (remove_entry_from_array xs w) i j k l,
      v.own_valid.plus_rows,
      v.own_valid.plus_cols,
    )

    pub Removal-own-IsValid : {r : Info × Bool × EdgeMatrix G} → Removal r → IsValid G r.2.own
    Removal-own-IsValid (last_of_m x e) = record {
      state = Removal-state (last_of_m x e);
      plus_rows = v.own_valid.plus_rows;
      plus_cols = v.own_valid.plus_cols;
      minus_rows = omega (arith, v.own_valid.minus_rows, L.shape-set Unit C.own.delta_minus tt i j);
      minus_cols = omega (arith, v.own_valid.minus_cols, L.shape-set Unit C.own.delta_minus tt i j);
    }
    Removal-own-IsValid (one_of_m xs e) = record {
      state = Removal-state (one_of_m xs e);
      plus_rows = omega (
        arith,
        v.own_valid.plus_rows,
        L.shape-set Edge C.own.matrix (remove_entry_from_array xs w) i j,
      );
      plus_cols = omega (
        arith,
        v.own_valid.plus_cols,
        L.shape-set Edge C.own.matrix (remove_entry_from_array xs w) i j,
      );
      minus_rows = omega (
        arith,
        v.own_valid.minus_rows,
        L.shape-set Edge C.own.matrix (remove_entry_from_array xs w) i j,
      );
      minus_cols = omega (
        arith,
        v.own_valid.minus_cols,
        L.shape-set Edge C.own.matrix (remove_entry_from_array xs w) i j,
      );
    }
    Removal-own-IsValid (last_of_plus x e f) = record {
      state = Removal-state (last_of_plus x e f);
      plus_rows = omega (arith, v.own_valid.plus_rows, L.shape-remove Edge C.own.delta_plus i j);
      plus_cols = omega (arith, v.own_valid.plus_cols, L.shape-remove Edge C.own.delta_plus i j);
      minus_rows = v.own_valid.minus_rows;
      minus_cols = v.own_valid.minus_cols;
    }
    Removal-own-IsValid (one_of_plus xs e f) = record {
      state = Removal-state (one_of_plus xs e f);
      plus_rows = omega (
        arith,
        v.own_valid.plus_rows,
        L.shape-set Edge C.own.delta_plus (remove_entry_from_array xs w) i j,
      );
      plus_cols = omega (
        arith,
        v.own_valid.plus_cols,
        L.shape-set Edge C.own.delta_plus (remove_entry_from_array xs w) i j,
      );
      minus_rows = v.own_valid.minus_rows;
      minus_cols = v.own_valid.minus_cols;
    }

    -- The entry loses the edge, and every other entry is as it was.
    pub Removal-entries :
        {r : Info × Bool × EdgeMatrix G}
        → Removal r
        → (k l : ℕ)
        → extract_edge G r.2 k l ≡ (
            if (i == k) && (j == l) then dropped (extract_edge G C i j) w else extract_edge G C k l)
    unfolding extract_element validate_state
    Removal-entries (last_of_m x e) k l = ground (
      arith,
      v.own_valid.state i j,
      v.own_valid.state k l,
      L.extract-set Unit C.own.delta_minus tt i j k l,
      v.own_valid.minus_rows,
      v.own_valid.minus_cols,
    )
    Removal-entries (one_of_m xs e) k l = ground (
      arith,
      v.own_valid.state i j,
      v.own_valid.state k l,
      L.extract-set Edge C.own.matrix (remove_entry_from_array xs w) i j k l,
    )
    Removal-entries (last_of_plus x e f) k l = ground (
      arith,
      v.own_valid.state i j,
      v.own_valid.state k l,
      L.extract-remove Edge C.own.delta_plus i j k l,
    )
    Removal-entries (one_of_plus xs e f) k l = ground (
      arith,
      v.own_valid.state i j,
      v.own_valid.state k l,
      L.extract-set Edge C.own.delta_plus (remove_entry_from_array xs w) i j k l,
      v.own_valid.plus_rows,
      v.own_valid.plus_cols,
    )
