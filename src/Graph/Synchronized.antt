-- ===== src/Graph/Synchronized.antt =====
-- The synchronization of a matrix that a policy asks for.
use redis_graph.Prelude.{ℕ, ◌≡◌, ◌∙◌, refl, Bool, true, false, not, ◌&&◌, if◌then◌else◌, arith}
use redis_graph.GraphBlas.{GraphBlas, IsGraphBlas}
use redis_graph.DeltaMatrix.{Delta, extract_element, wait, resize, is_dirty}
use redis_graph.DeltaMatrix.Valid.{IsValid}
use redis_graph.DeltaMatrix.Sync.{wait-Same}
use redis_graph.DeltaMatrix.Both.{
  BothMatrix, IsMirrored, wait_each, resize_each, wait_each-IsMirrored, resize_each-IsMirrored,
}
use redis_graph.DeltaMatrix.Edges.{EdgeMatrix, extract_edge, wait_both, resize_both}
use redis_graph.DeltaMatrix.Edges.Live.{IsLive}
use redis_graph.DeltaMatrix.Edges.Flush.{wait_both-IsLive, resize_both-IsLive}
use redis_graph.Graph.{
  Policy, flush_resize, resize_only, nop, is_sized, synchronize, synchronize_each, synchronize_both,
}
use redis_graph.Graph.Grown.{
  Fits, Grown, IsSized, entries-resize, Grown-refl, shape-resize, resize-Grown, is_sized-IsSized,
  wait-Grown, wait-IsSized,
}

-- Whether a policy leaves matrices as they are
abbrev pub is_nop : Policy → Bool
is_nop nop = true
is_nop _ = false

if_lem :
    {X : Type 0} (P : X → Type 0) (b : Bool) (x y : X)
    → (b ≡ true → P x)
    → (b ≡ false → P y)
    → P (if b then x else y)
if_lem P true x y p q = p refl
if_lem P false x y p q = q refl

-- The branches of a synchronization that flushes
flush_lem :
    {X : Type 0} (P : X → Type 0) (sized : Bool) (dirty : X → Bool) (C R : X) (flush : X → X)
    → (sized ≡ true → P C)
    → P R
    → ((D : X) → P D → P (flush D))
    → P (
        if sized && not (dirty C)
        then C
        else (let C' = if sized then C else R in if dirty C' then flush C' else C'))
flush_lem P true dirty C R flush c r f =
    if_lem P (not (dirty C)) C (if dirty C then flush C else C) (λ e. c refl)
      (λ e. if_lem P (dirty C) (flush C) C (λ e'. f C (c refl)) (λ e'. c refl))
flush_lem P false dirty C R flush c r f = if_lem P (dirty R) (flush R) R (λ e. f R r) (λ e. r)

module _ {G : GraphBlas} (L : IsGraphBlas G) (limit dims : ℕ) where
  module _ (C : Delta G (Unit {0})) (v : IsValid G C) (f : Fits dims C) where
    grown : Grown dims C (resize G C dims dims) × IsSized dims (resize G C dims dims)
    grown = (resize-Grown L dims C v f, shape-resize L dims C)

    unchanged : is_sized G C dims ≡ true → Grown dims C C × IsSized dims C
    unchanged e = (Grown-refl L dims C v f, is_sized-IsSized L dims C e)

    -- A policy that resizes gives a matrix the dimensions of the graph; it shows what it showed.
    pub synchronize-IsSized :
        (p : Policy)
        → is_nop p ≡ false
        → Grown dims C (synchronize G p limit dims C) × IsSized dims (synchronize G p limit dims C)
    unfolding synchronize
    synchronize-IsSized flush_resize h =
        flush_lem (λ D. Grown dims C D × IsSized dims D) (is_sized G C dims) (is_dirty G) C
          (resize G C dims dims) (λ D. wait G D false limit) unchanged grown
          (λ D (g, z). (wait-Grown L dims C D limit g, wait-IsSized L dims D limit g.valid z))
    synchronize-IsSized resize_only h =
        if_lem (λ D. Grown dims C D × IsSized dims D) (is_sized G C dims) C (resize G C dims dims)
          unchanged (λ e. grown)
    synchronize-IsSized nop h = ground (arith, h)

  -- `D` is mirrored, has the dimensions of the graph and shows the same entries as `C`.
  pub record GrownEach (C D : BothMatrix G) : Type 0 where
    pub mirrored : IsMirrored G D
    pub entries : (k l : ℕ) → extract_element G D.own k l ≡ extract_element G C.own k l
    pub sized : IsSized dims D.own

  module _ (C : BothMatrix G) (v : IsMirrored G C) (f : Fits dims C.own) where
    grown_each : GrownEach C (resize_each G C dims dims)
    unfolding resize_each
    grown_each = record {
      mirrored = resize_each-IsMirrored L C v dims dims;
      entries = λ k l. entries-resize L dims C.own k l v.own_valid f;
      sized = shape-resize L dims C.own;
    }

    unchanged_each : is_sized G C.own dims ≡ true → GrownEach C C
    unchanged_each e = record {
      mirrored = v;
      entries = λ k l. refl;
      sized = is_sized-IsSized L dims C.own e;
    }

    waited_each : (D : BothMatrix G) → GrownEach C D → GrownEach C (wait_each G D false limit)
    unfolding wait_each
    waited_each D g = record {
      mirrored = wait_each-IsMirrored L D g.mirrored false limit;
      entries =
          λ k l. (wait-Same L D.own false limit g.mirrored.own_valid).entries k l ∙ g.entries k l;
      sized = wait-IsSized L dims D.own limit g.mirrored.own_valid g.sized;
    }

    -- The same of a matrix and its transpose
    pub synchronize_each-IsSized :
        (p : Policy) → is_nop p ≡ false → GrownEach C (synchronize_each G p limit dims C)
    unfolding synchronize_each
    synchronize_each-IsSized flush_resize h =
        flush_lem (GrownEach C) (is_sized G C.own dims) (λ D. is_dirty G D.own) C
          (resize_each G C dims dims) (λ D. wait_each G D false limit) unchanged_each grown_each
          waited_each
    synchronize_each-IsSized resize_only h =
        if_lem (GrownEach C) (is_sized G C.own dims) C (resize_each G C dims dims) unchanged_each
          (λ e. grown_each)
    synchronize_each-IsSized nop h = ground (arith, h)

  -- `D` satisfies the invariant, fits and shows the same edges as `C`.
  pub record GrownBoth (C D : EdgeMatrix G) : Type 0 where
    pub live : IsLive G D
    pub entries : (k l : ℕ) → extract_edge G D k l ≡ extract_edge G C k l
    pub sized : IsSized dims D.own

  module _ (C : EdgeMatrix G) (v : IsLive G C) (f : Fits dims C.own) where
    grown_both : GrownBoth C (resize_both G C dims dims)
    unfolding resize_both
    grown_both = record {
      live = resize_both-IsLive L C v dims dims;
      entries = λ k l. entries-resize L dims C.own k l v.own_valid f;
      sized = shape-resize L dims C.own;
    }

    unchanged_both : is_sized G C.own dims ≡ true → GrownBoth C C
    unchanged_both e = record {
      live = v;
      entries = λ k l. refl;
      sized = is_sized-IsSized L dims C.own e;
    }

    waited_both : (D : EdgeMatrix G) → GrownBoth C D → GrownBoth C (wait_both G D false limit)
    unfolding wait_both
    waited_both D g =
        let (w, e) = wait_both-IsLive L D g.live false limit in
        record {
          live = w;
          entries = λ k l. e k l ∙ g.entries k l;
          sized = wait-IsSized L dims D.own limit g.live.own_valid g.sized;
        }

    -- The same of a matrix of edges and its transpose
    pub synchronize_both-IsSized :
        (p : Policy) → is_nop p ≡ false → GrownBoth C (synchronize_both G p limit dims C)
    unfolding synchronize_both
    synchronize_both-IsSized flush_resize h =
        flush_lem (GrownBoth C) (is_sized G C.own dims) (λ D. is_dirty G D.own) C
          (resize_both G C dims dims) (λ D. wait_both G D false limit) unchanged_both grown_both
          waited_both
    synchronize_both-IsSized resize_only h =
        if_lem (GrownBoth C) (is_sized G C.own dims) C (resize_both G C dims dims) unchanged_both
          (λ e. grown_both)
    synchronize_both-IsSized nop h = ground (arith, h)
