-- ===== src/Graph/Relabel.antt =====
-- Graph_LabelNode and Graph_RemoveNodeLabels: what the loops over labels leave, and what
-- Graph_IsNodeLabeled then answers.
use mathlib.Core.Path.{subst}
use redis_graph.Prelude.{
  ℕ, ◌<◌, ◌≡◌, ◌∙◌, refl, sym, ap, Bool, true, false, ◌||◌, ◌&&◌, ◌==◌, is_some, List, [], ◌∷◌,
  length, get_elem?, if◌then◌else◌, arith, Option-cases, inl, inr, in_range,
}
use redis_graph.GraphBlas.{GraphBlas, IsGraphBlas}
use redis_graph.DeltaMatrix.{extract_element}
use redis_graph.Graph.{Graph, required_dim}
use redis_graph.Graph.Grown.{Grown, IsSized}
use redis_graph.Graph.Synchronized.{is_nop, synchronize-IsSized}
use redis_graph.Graph.Label.{
  with_node_labels, label_at, label_each, label_node, is_node_labeled, unlabel_at, unlabel_each,
  remove_node_labels,
}
use redis_graph.Graph.Labeled.{IsLabeled, IsStep, label_at-IsStep, unlabel_at-IsStep}

abbrev pub mentions : List ℕ → ℕ → Bool
mentions [] l = false
mentions (x ∷ xs) l = (x == l) || mentions xs l

abbrev pub AllBelow : ℕ → List ℕ → Type 0
AllBelow n [] = Unit
AllBelow n (x ∷ xs) = (x < n) × AllBelow n xs

AllBelow-mono : (m n : ℕ) (ls : List ℕ) → m ≡ n → AllBelow m ls → AllBelow n ls
AllBelow-mono m n ls e = subst (λ k. AllBelow k ls) e

module _ {G : GraphBlas} (L : IsGraphBlas G) {A : Type 0} (limit : ℕ) where
  -- What a loop over labels of node `id` leaves
  record IsRun (b : Bool) (id : ℕ) (ls : List ℕ) (g g' : Graph G A) : Type 0 where
    labeled : IsLabeled g'
    same_policy : g'.policy ≡ g.policy
    holds :
        (k q : ℕ)
        → is_some (extract_element G g'.node_labels k q) ≡ (
            if (id == k) && mentions ls q then b else is_some (extract_element G g.node_labels k q))

  IsRun-nothing : (b : Bool) (id : ℕ) (g : Graph G A) → IsLabeled g → IsRun b id [] g g
  IsRun-nothing b id g v = record { labeled = v; same_policy = refl; holds = λ k q. ground arith }

  IsRun-more :
      (b : Bool) (id l : ℕ) (ls : List ℕ) (g g' g'' : Graph G A)
      → IsStep L b id l g g'
      → IsRun b id ls g' g''
      → IsRun b id (l ∷ ls) g g''
  IsRun-more b id l ls g g' g'' s r = record {
    labeled = r.labeled;
    same_policy = r.same_policy ∙ s.same_policy;
    holds = λ k q. ground (arith, r.holds k q, s.sets k q);
  }

  -- The hypotheses of a loop
  record IsReady (g : Graph G A) (id : ℕ) (ls : List ℕ) : Type 0 where
    labeled : IsLabeled g
    sized : IsSized (required_dim G g) g.node_labels
    syncs : is_nop g.policy ≡ false
    node : id < required_dim G g
    below : AllBelow (length g.labels) ls

  IsReady-after :
      (b : Bool) (id l : ℕ) (ls : List ℕ) (g g' : Graph G A)
      → IsReady g id (l ∷ ls)
      → IsStep L b id l g g'
      → IsReady g' id ls
  IsReady-after b id l ls g g' h s = record {
    labeled = s.labeled;
    sized = s.sized;
    syncs = ap is_nop s.same_policy ∙ h.syncs;
    node = omega (arith, s.same_dim, h.node);
    below = AllBelow-mono (length g.labels) (length g'.labels) ls (sym s.same_length) h.below.1;
  }

  label-IsStep :
      (g : Graph G A) (id l : ℕ) (ls : List ℕ)
      → IsReady g id (l ∷ ls)
      → IsStep L true id l g (label_at G limit g id l (get_elem? g.labels l))
  label-IsStep g id l ls h = elim (Option-cases (get_elem? g.labels l)) [
    | inl e ↦ absurd (in_range g.labels l h.below.0 e)
    | inr (M, e) ↦
        rw e (label_at-IsStep L limit g id l h.labeled h.sized h.syncs h.node h.below.0 M e)
  ]

  unlabel-IsStep :
      (g : Graph G A) (id l : ℕ) (ls : List ℕ)
      → IsReady g id (l ∷ ls)
      → IsStep L false id l g (unlabel_at G limit g id l (get_elem? g.labels l))
  unlabel-IsStep g id l ls h = elim (Option-cases (get_elem? g.labels l)) [
    | inl e ↦ absurd (in_range g.labels l h.below.0 e)
    | inr (M, e) ↦
        rw e (unlabel_at-IsStep L limit g id l h.labeled h.sized h.syncs h.node h.below.0 M e)
  ]

  label_each-IsRun :
      (g : Graph G A) (id : ℕ) (ls : List ℕ)
      → IsReady g id ls
      → IsRun true id ls g (label_each G limit g id ls)
  unfolding label_each
  label_each-IsRun g id [] h = IsRun-nothing true id g h.labeled
  label_each-IsRun g id (l ∷ ls) h =
      let s = label-IsStep g id l ls h in
      IsRun-more true id l ls g _ _ s (
        label_each-IsRun (label_at G limit g id l (get_elem? g.labels l)) id ls
          (IsReady-after true id l ls g _ h s))

  unlabel_each-IsRun :
      (g : Graph G A) (id : ℕ) (ls : List ℕ)
      → IsReady g id ls
      → IsRun false id ls g (unlabel_each G limit g id ls)
  unfolding unlabel_each
  unlabel_each-IsRun g id [] h = IsRun-nothing false id g h.labeled
  unlabel_each-IsRun g id (l ∷ ls) h =
      let s = unlabel-IsStep g id l ls h in
      IsRun-more false id l ls g _ _ s (
        unlabel_each-IsRun (unlabel_at G limit g id l (get_elem? g.labels l)) id ls
          (IsReady-after false id l ls g _ h s))

  module _ (g : Graph G A) (v : IsLabeled g) (p : is_nop g.policy ≡ false) where
    grown :
        Grown (required_dim G g) g.node_labels (with_node_labels G limit g).node_labels
        × IsSized (required_dim G g) (with_node_labels G limit g).node_labels
    grown =
        synchronize-IsSized L limit (required_dim G g) g.node_labels v.node_labels_valid
          v.node_labels_fits g.policy p

    with_node_labels-IsLabeled : IsLabeled (with_node_labels G limit g)
    with_node_labels-IsLabeled = record {
      node_labels_valid = grown.0.valid;
      node_labels_fits = grown.0.fits;
      labels_agree = λ l M e.
          let old = v.labels_agree l M e in
          record {
            valid = old.valid;
            fits = old.fits;
            diagonal = λ k j. ground (arith, old.diagonal k j, grown.0.entries k l);
          };
      room = v.room;
    }

    is_node_labeled-held :
        (k l : ℕ) → is_node_labeled G limit g k l ≡ is_some (extract_element G g.node_labels k l)
    unfolding is_node_labeled
    is_node_labeled-held k l = ap is_some (grown.0.entries k l)

  ready :
      (g : Graph G A) (id : ℕ) (ls : List ℕ)
      → IsLabeled g
      → is_nop g.policy ≡ false
      → id < required_dim G g
      → AllBelow (length g.labels) ls
      → IsReady (with_node_labels G limit g) id ls
  ready g id ls v p hi hl = record {
    labeled = with_node_labels-IsLabeled g v p;
    sized = (grown g v p).1;
    syncs = p;
    node = hi;
    below = hl;
  }

  answered :
      (b : Bool) (id : ℕ) (ls : List ℕ) (g g' : Graph G A)
      → IsLabeled g
      → is_nop g.policy ≡ false
      → IsRun b id ls (with_node_labels G limit g) g'
      → IsLabeled g'
        × ((k l : ℕ)
            → is_node_labeled G limit g' k l
              ≡ (if (id == k) && mentions ls l then b else is_node_labeled G limit g k l))
  answered b id ls g g' v p r = (
    r.labeled,
    λ k l. ground (
      arith,
      r.holds k l,
      is_node_labeled-held g v p k l,
      is_node_labeled-held g' r.labeled (ap is_nop r.same_policy ∙ p) k l,
      ap is_some ((grown g v p).0.entries k l),
    ),
  )

  -- A node is given labels that exist, under a policy that resizes matrices: the label matrices and
  -- the matrix of node labels still agree, the node has those labels, and no other answer changes.
  pub label_node_lem :
      (g : Graph G A) (id : ℕ) (lbls : List ℕ)
      → IsLabeled g
      → is_nop g.policy ≡ false
      → id < required_dim G g
      → AllBelow (length g.labels) lbls
      → IsLabeled (label_node G limit g id lbls)
        × ((k l : ℕ)
            → is_node_labeled G limit (label_node G limit g id lbls) k l
              ≡ (if (id == k) && mentions lbls l then true else is_node_labeled G limit g k l))
  unfolding label_node
  label_node_lem g id lbls v p hi hl =
      answered true id lbls g (label_each G limit (with_node_labels G limit g) id lbls) v p
        (label_each-IsRun (with_node_labels G limit g) id lbls (ready g id lbls v p hi hl))

  -- Labels that exist are removed from a node, under a policy that resizes matrices: the label
  -- matrices and the matrix of node labels still agree, the node has none of those labels, and no
  -- other answer changes.
  pub remove_node_labels_lem :
      (g : Graph G A) (id : ℕ) (lbls : List ℕ)
      → IsLabeled g
      → is_nop g.policy ≡ false
      → id < required_dim G g
      → AllBelow (length g.labels) lbls
      → IsLabeled (remove_node_labels G limit g id lbls)
        × ((k l : ℕ)
            → is_node_labeled G limit (remove_node_labels G limit g id lbls) k l
              ≡ (if (id == k) && mentions lbls l then false else is_node_labeled G limit g k l))
  unfolding remove_node_labels
  remove_node_labels_lem g id lbls v p hi hl =
      answered false id lbls g (unlabel_each G limit (with_node_labels G limit g) id lbls) v p
        (unlabel_each-IsRun (with_node_labels G limit g) id lbls (ready g id lbls v p hi hl))
