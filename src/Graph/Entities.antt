-- ===== src/Graph/Entities.antt =====
-- The allocation of an entity by Graph_CreateNode and Graph_CreateEdge, and what the store of
-- entities finds after it.
use mathlib.Core.Path.{ap₂}
use redis_graph.Prelude.{
  Option-cases, get_elem?-set, get_elem?-set_self, ℕ, zero, suc, ◌+◌, ◌<◌, ◌≡◌, ◌∙◌, refl, ap,
  false, some, List, [], ◌∷◌, ◌++◌, length, get_elem?, set, leb, ◌==◌, if◌then◌else◌, arith,
  Bool-cases, inl, inr,
}
use redis_graph.Arrays.Occurrences.{occurrences}
use redis_graph.DataBlock.{
  Slot, DataBlock, found, get_item, fetched, add_blocks, make_room, allocate_item, next_pos, popped,
  take_slot, mark,
}
use redis_graph.DataBlock.Valid.{IsValid, get_elem?-some, make_room-IsValid, make_room-fits}
use redis_graph.DataBlock.Reserved.{IsNarrow, next_pos-cases, next_pos_lt, listed_lt}
use redis_graph.GraphBlas.{GraphBlas}
use redis_graph.DeltaMatrix.Both.{BothMatrix}
use redis_graph.DeltaMatrix.Edges.{EdgeMatrix}
use redis_graph.Graph.{
  Graph, cleared, allocate_entity, in_bounds, adjacency, relation, connect, form_connection,
  create_edge,
}

get_elem?-append {ℓ} :
    {A : Type ℓ} (xs ys : List A) (i : ℕ) → i < length xs → get_elem? (xs ++ ys) i ≡ get_elem? xs i
get_elem?-append [] ys i h = absurd (omega arith)
get_elem?-append (x ∷ xs) ys zero h = refl
get_elem?-append (x ∷ xs) ys (suc i) h = get_elem?-append xs ys i (omega arith)

module _ {ℓ} {A : Type ℓ} (db : DataBlock A) (v : IsValid db) where
  get_item-make_room : (j : ℕ) → get_item (make_room db) j ≡ get_item db j
  unfolding make_room add_blocks get_item
  get_item-make_room j = elim (Bool-cases (leb db.item_cap db.item_count)) [
    | inl c ↦ rw c elim (Bool-cases (leb (db.item_count + length db.deleted_idx) j)) [
      | inl b ↦ rw b refl
      | inr b ↦
          rw b
            (ap fetched (get_elem?-append db.slots _ j (ground (arith, b, v.fits, v.length_slots))))
    ]
    | inr c ↦ rw c refl
  ]

  module _ (room : db.item_count < db.item_cap) (narrow : IsNarrow db) where
    -- The index that is taken is in bounds then, and no other one comes to be.
    taken_bound :
        (j : ℕ)
        → leb (db.item_count + 1 + length (popped db.deleted_idx)) j
          ≡ (if next_pos db == j then false else leb (db.item_count + length db.deleted_idx) j)
    unfolding occurrences
    taken_bound j = elim (next_pos-cases db v room narrow) [
      | inl (e, p) ↦ ground (arith, p, ap length e, ap (λ d. length (popped d)) e)
      | inr (rest, e) ↦ ground (
        arith,
        ap length e,
        ap (λ d. length (popped d)) e,
        ap (occurrences (next_pos db)) e,
        listed_lt db v (next_pos db),
        v.fresh (next_pos db),
      )
    ]

    taken_slot :
        (s : Slot A) (j : ℕ)
        → get_elem? db.slots (next_pos db) ≡ some s
        → get_elem?
            (set
              (set db.slots (next_pos db) (record s { deleted = false }))
              (next_pos db)
              (record { deleted = false; item = db.zeroed }))
            j
          ≡ (if next_pos db == j
              then some (record { deleted = false; item = db.zeroed })
              else get_elem? db.slots j)
    taken_slot s j e =
        let inside = next_pos_lt db v room narrow in
        ground (
          arith,
          get_elem?-set (set db.slots (next_pos db) (record s { deleted = false })) (next_pos db) j
              (record s { deleted = false }) (record { deleted = false; item = db.zeroed })
              (get_elem?-set_self db.slots (next_pos db) (record s { deleted = false }) inside),
          get_elem?-set db.slots (next_pos db) j s (record s { deleted = false }) e,
        )

    taken_item :
        (j : ℕ)
        → get_item
            (cleared
              (take_slot db).1
              (next_pos db)
              (get_elem? (mark false db.slots (next_pos db)) (next_pos db)))
            j
          ≡ (if next_pos db == j then found db.zeroed else get_item db j)
    unfolding get_item
    taken_item j =
        let (s, e) = get_elem?-some db.slots (next_pos db) (next_pos_lt db v room narrow) in
        let at =
          get_elem?-set_self db.slots (next_pos db) (record s { deleted = false })
            (next_pos_lt db v room narrow) in
        rw (e, at, taken_bound j, taken_slot s j e) (ground arith)

zeroed-make_room {ℓ} : {A : Type ℓ} (db : DataBlock A) → (make_room db).zeroed ≡ db.zeroed
unfolding make_room add_blocks
zeroed-make_room db = elim (Bool-cases (leb db.item_cap db.item_count)) [
  | inl c ↦ rw c refl
  | inr c ↦ rw c refl
]

-- An entity is allocated in a valid store whose indices fit a `uint`: its attribute set is NULL then,
-- also where it takes the place of a deleted one, and every other index finds what it found before.
pub get_item-allocate_entity {ℓ} :
    {A : Type ℓ} (db : DataBlock A)
    → IsValid db
    → IsNarrow (make_room db)
    → (j : ℕ)
    → get_item (allocate_entity db).1 j
      ≡ (if (allocate_entity db).0 == j then found db.zeroed else get_item db j)
unfolding allocate_entity allocate_item make_room add_blocks
get_item-allocate_entity db v narrow j =
    taken_item (make_room db) (make_room-IsValid db v) (make_room-fits db v) narrow j
    ∙ ap₂ (λ a f. if next_pos (make_room db) == j then found a else f) (zeroed-make_room db)
        (get_item-make_room db v j)

module _ (G : GraphBlas) {A : Type 0} (limit : ℕ) (g : Graph G A) (src dest : ℕ) where
  connect-edges :
      (adj : BothMatrix G) (M : EdgeMatrix G) (id r : ℕ)
      → (connect G g adj M src dest id r).1.edges ≡ g.edges
  unfolding connect
  connect-edges adj M id r = elim (Bool-cases (in_bounds G adj.own src dest)) [
    | inl h ↦
        rw h
          (elim (Bool-cases (in_bounds G M.own src dest)) [ inl k ↦ rw k refl | inr k ↦ rw k refl ])
    | inr h ↦ rw h refl
  ]

  form_connection-edges : (id r : ℕ) → (form_connection G limit g src dest id r).1.edges ≡ g.edges
  unfolding form_connection
  form_connection-edges id r = elim (Option-cases (get_elem? g.relations r)) [
    | inl e ↦ rw e refl
    | inr (M, e) ↦ rw e (connect-edges (adjacency G limit g) (relation G limit g M) id r)
  ]

-- An edge is created in a graph whose store of edges is valid, with indices that fit a `uint`: the
-- store finds it then at the id that it was given, its attribute set NULL, also where it takes the
-- place of a deleted edge, and finds at every other id what it found before.
pub get_item-create_edge :
    (G : GraphBlas) {A : Type 0} (limit : ℕ) (g : Graph G A) (src dest r : ℕ)
    → IsValid g.edges
    → IsNarrow (make_room g.edges)
    → (j : ℕ)
    → get_item (create_edge G limit g src dest r).1.edges j ≡ (
        if (create_edge G limit g src dest r).0 == j
        then found g.edges.zeroed
        else get_item g.edges j)
unfolding create_edge
get_item-create_edge G limit g src dest r v narrow j =
    ap (λ edges. get_item edges j)
      (form_connection-edges G limit (record g { edges = (allocate_entity g.edges).1 }) src dest
        (allocate_entity g.edges).0 r)
    ∙ get_item-allocate_entity g.edges v narrow j
