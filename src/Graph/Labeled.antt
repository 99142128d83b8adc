-- ===== src/Graph/Labeled.antt =====
-- Labelling a node: the label matrices and `node_labels` keep telling the same.
use mathlib.Core.Path.{subst}
use redis_graph.Prelude.{
  some_inj, get_elem?-set, Bool-cases, ℕ, ◌<◌, ◌≤◌, ◌≡◌, ◌∙◌, refl, sym, Bool, true, false, ◌&&◌,
  ◌==◌, some, is_some, length, length-set, get_elem?, set, if◌then◌else◌, arith, inl, inr,
}
use redis_graph.GraphBlas.{GraphBlas, IsGraphBlas}
use redis_graph.DeltaMatrix.{Delta, extract_element, set_element_bool, remove_element_bool}
use redis_graph.DeltaMatrix.Valid.{
  IsValid, set_element_bool-IsValid, extract_element-set_element_bool, shape-set_element_bool,
  remove_element_bool-IsValid, extract_element-remove_element_bool, shape-remove_element_bool,
}
use redis_graph.Graph.{Graph, Statistics, required_dim}
use redis_graph.Graph.Grown.{Fits, Grown, IsSized}
use redis_graph.Graph.Synchronized.{is_nop, synchronize-IsSized}
use redis_graph.Graph.Label.{synchronized, label_at, unlabel_at}

module _ {G : GraphBlas} where
  -- A label matrix that agrees with column `l` of a matrix of node labels
  pub record IsLabel (dims : ℕ) (nl : Delta G (Unit {0})) (l : ℕ) (M : Delta G (Unit {0}))
      : Type 0 where
    pub valid : IsValid G M
    pub fits : Fits dims M
    pub diagonal :
        (k j : ℕ)
        → is_some (extract_element G M k j) ≡ ((k == j) && is_some (extract_element G nl k l))

  -- The entries of each label matrix stand on its diagonal, where `node_labels` gives the node that
  -- label; the matrices are valid and no larger than the graph; and there is room for each label.
  pub record IsLabeled {A : Type 0} (g : Graph G A) : Type 0 where
    pub node_labels_valid : IsValid G g.node_labels
    pub node_labels_fits : Fits (required_dim G g) g.node_labels
    pub labels_agree :
        (l : ℕ) (M : Delta G (Unit {0}))
        → get_elem? g.labels l ≡ some M
        → IsLabel (required_dim G g) g.node_labels l M
    pub room : length g.labels ≤ required_dim G g

-- The position of a node and a label holds `b`, and every other position what it held.
abbrev pub Sets : {G : GraphBlas} → Bool → ℕ → ℕ → Delta G (Unit {0}) → Delta G (Unit {0}) → Type 0
Sets {G} b i j C D =
    (k l : ℕ)
    → is_some (extract_element G D k l)
      ≡ (if (i == k) && (j == l) then b else is_some (extract_element G C k l))

module _ {G : GraphBlas} (L : IsGraphBlas G) {A : Type 0} where
  -- A label matrix and `node_labels` that change alike
  change-IsLabeled :
      (g : Graph G A) (b : Bool) (id l : ℕ) (M M' nl' : Delta G (Unit {0})) (st : Statistics)
      → IsLabeled g
      → get_elem? g.labels l ≡ some M
      → IsValid G nl'
      → Fits (required_dim G g) nl'
      → IsValid G M'
      → Fits (required_dim G g) M'
      → Sets b id l g.node_labels nl'
      → Sets b id id M M'
      → IsLabeled (record g { labels = set g.labels l M'; node_labels = nl'; stats = st })
  change-IsLabeled g b id l M M' nl' st v e nv nf mv mf ns ms = record {
    node_labels_valid = nv;
    node_labels_fits = nf;
    labels_agree = λ q K h. elim (Bool-cases (l == q)) [
      | inl c ↦
          let same : M' ≡ K = some_inj (sym (rw (get_elem?-set g.labels l q M M' e, c) refl) ∙ h) in
          subst (λ N. IsLabel (required_dim G g) nl' q N) same
            (record {
              valid = mv;
              fits = mf;
              diagonal =
                  λ k j. ground (arith, c, ms k j, ns k q, (v.labels_agree l M e).diagonal k j);
            })
      | inr c ↦
          let old = v.labels_agree q K (sym (rw (get_elem?-set g.labels l q M M' e, c) refl) ∙ h) in
          record {
            valid = old.valid;
            fits = old.fits;
            diagonal = λ k j. ground (arith, c, ns k q, old.diagonal k j);
          }
    ];
    room = omega (arith, length-set g.labels l M', v.room);
  }

  -- What a step of a loop over labels of node `id` leaves
  pub record IsStep (b : Bool) (id l : ℕ) (g g' : Graph G A) : Type 0 where
    pub labeled : IsLabeled g'
    pub sized : IsSized (required_dim G g') g'.node_labels
    pub same_policy : g'.policy ≡ g.policy
    pub same_dim : required_dim G g' ≡ required_dim G g
    pub same_length : length g'.labels ≡ length g.labels
    pub sets : Sets b id l g.node_labels g'.node_labels

  module _ (limit : ℕ) (g : Graph G A) (id l : ℕ) (v : IsLabeled g)
      (z : IsSized (required_dim G g) g.node_labels) (p : is_nop g.policy ≡ false)
      (hi : id < required_dim G g) (hl : l < length g.labels) where
    module _ (M : Delta G (Unit {0})) (e : get_elem? g.labels l ≡ some M) where
      abbrev M' : Delta G (Unit {0})
      M' = synchronized G limit g M

      grown : Grown (required_dim G g) M M' × IsSized (required_dim G g) M'
      grown =
          let a = v.labels_agree l M e in
          synchronize-IsSized L limit (required_dim G g) M a.valid a.fits g.policy p

      fits_nl : (id < G.nrows g.node_labels.matrix) × (l < G.ncols g.node_labels.matrix)
      fits_nl = omega (arith, z.rows, z.cols, v.room)

      fits_m : (id < G.nrows M'.matrix) × (id < G.ncols M'.matrix)
      fits_m = omega (arith, grown.1.rows, grown.1.cols)

      IsSized-nl :
          (D : Delta G (Unit {0}))
          → (G.nrows D.matrix ≡ G.nrows g.node_labels.matrix)
            × (G.ncols D.matrix ≡ G.ncols g.node_labels.matrix)
          → IsSized (required_dim G g) D
      IsSized-nl D s = record { rows = s.0 ∙ z.rows; cols = s.1 ∙ z.cols }

      Fits-of : (D : Delta G (Unit {0})) → IsSized (required_dim G g) D → Fits (required_dim G g) D
      Fits-of D s = record { rows = omega (arith, s.rows); cols = omega (arith, s.cols) }

      pub label_at-IsStep : IsStep true id l g (label_at G limit g id l (some M))
      label_at-IsStep =
          let s =
            IsSized-nl (set_element_bool G g.node_labels id l)
              (shape-set_element_bool L g.node_labels id l) in
          let sets : Sets true id l g.node_labels (set_element_bool G g.node_labels id l) = λ k q.
            ground (
              arith,
              extract_element-set_element_bool L g.node_labels id l v.node_labels_valid k q
                  fits_nl.0 fits_nl.1,
            ) in
          let shape = shape-set_element_bool L M' id id in
          record {
            labeled =
                change-IsLabeled g true id l M (set_element_bool G M' id id)
                  (set_element_bool G g.node_labels id l) _ v e
                  (set_element_bool-IsValid L g.node_labels id l v.node_labels_valid fits_nl.0
                    fits_nl.1)
                  (Fits-of _ s)
                  (set_element_bool-IsValid L M' id id grown.0.valid fits_m.0 fits_m.1)
                  (record {
                    rows = omega (arith, shape, grown.1.rows);
                    cols = omega (arith, shape, grown.1.cols);
                  })
                  sets
                  (λ k j. ground (
                    arith,
                    extract_element-set_element_bool L M' id id grown.0.valid k j fits_m.0 fits_m.1,
                    grown.0.entries k j,
                  ));
            sized = s;
            same_policy = refl;
            same_dim = refl;
            same_length = length-set g.labels l (set_element_bool G M' id id);
            sets = sets;
          }

      pub unlabel_at-IsStep : IsStep false id l g (unlabel_at G limit g id l (some M))
      unlabel_at-IsStep =
          let s =
            IsSized-nl (remove_element_bool G g.node_labels id l)
              (shape-remove_element_bool L g.node_labels id l) in
          let sets : Sets false id l g.node_labels (remove_element_bool G g.node_labels id l) =
            λ k q. ground (
              arith,
              extract_element-remove_element_bool L g.node_labels id l v.node_labels_valid k q
                  fits_nl.0 fits_nl.1,
            ) in
          let shape = shape-remove_element_bool L M' id id in
          record {
            labeled =
                change-IsLabeled g false id l M (remove_element_bool G M' id id)
                  (remove_element_bool G g.node_labels id l) _ v e
                  (remove_element_bool-IsValid L g.node_labels id l v.node_labels_valid fits_nl.0
                    fits_nl.1)
                  (Fits-of _ s)
                  (remove_element_bool-IsValid L M' id id grown.0.valid fits_m.0 fits_m.1)
                  (record {
                    rows = omega (arith, shape, grown.1.rows);
                    cols = omega (arith, shape, grown.1.cols);
                  })
                  sets
                  (λ k j. ground (
                    arith,
                    extract_element-remove_element_bool L M' id id grown.0.valid k j fits_m.0
                        fits_m.1,
                    grown.0.entries k j,
                  ));
            sized = s;
            same_policy = refl;
            same_dim = refl;
            same_length = length-set g.labels l (remove_element_bool G M' id id);
            sets = sets;
          }
