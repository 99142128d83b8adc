-- ===== src/FilterTree/Combine.antt =====
-- FilterTree_SubTrees breaks a filter at its ANDs, and FilterTree_Combine joins filters by AND.
use redis_graph.Prelude.{◌≡◌, ◌≢◌, refl, ap, sym, ◌∙◌, List, [], ◌∷◌, ◌++◌, arith}
use mathlib.Core.Path.{ap₂}
use redis_graph.Value.{Payloads}
use redis_graph.FilterTree.{
  and_op, or_op, xor_op, xnor_op, FtResult, filter_pass, apply_condition, apply_filters,
  Expressions, FilterTree, null_tree, exp, pred, cond, sub_trees, combine_from, combine,
}

and_assoc :
    (a b c : FtResult)
    → apply_condition and_op (apply_condition and_op a b) c
      ≡ apply_condition and_op a (apply_condition and_op b c)
unfolding apply_condition
and_assoc a b c = ground arith

and_pass_right : (a : FtResult) → apply_condition and_op a filter_pass ≡ a
unfolding apply_condition
and_pass_right a = ground arith

and_pass_left : (a : FtResult) → apply_condition and_op filter_pass a ≡ a
unfolding apply_condition
and_pass_left a = ground arith

-- Below its ANDs, a filter has expressions, predicates, and ORs, XORs and XNORs, but nothing that is
-- NULL and no other condition.
abbrev pub IsSplit : {P : Payloads} {E : Expressions P} → FilterTree E → Type 0
IsSplit null_tree = ⊥
IsSplit (exp e) = Unit
IsSplit (pred op lhs rhs) = Unit
IsSplit (cond and_op left right) = IsSplit left × IsSplit right
IsSplit (cond or_op left right) = Unit
IsSplit (cond xor_op left right) = Unit
IsSplit (cond xnor_op left right) = Unit
IsSplit (cond op left right) = ⊥

module _ {P : Payloads} (E : Expressions P) (r : E.Record) where
  -- The conjunction of the results of some filters.
  pub all_of : List (FilterTree E) → FtResult
  all_of [] = filter_pass
  all_of (t ∷ ts) = apply_condition and_op (apply_filters E t r) (all_of ts)

  all_of-append :
      (ts us : List (FilterTree E))
      → all_of (ts ++ us) ≡ apply_condition and_op (all_of ts) (all_of us)
  unfolding all_of
  all_of-append [] us = sym (and_pass_left (all_of us))
  all_of-append (t ∷ ts) us =
      ap (apply_condition and_op (apply_filters E t r)) (all_of-append ts us)
      ∙ sym (and_assoc (apply_filters E t r) (all_of ts) (all_of us))

  combine_from_lem :
      (root : FilterTree E) (ts : List (FilterTree E))
      → apply_filters E (combine_from E root ts) r
        ≡ apply_condition and_op (apply_filters E root r) (all_of ts)
  unfolding combine_from all_of
  combine_from_lem root [] = sym (and_pass_right (apply_filters E root r))
  combine_from_lem root (t ∷ ts) =
      combine_from_lem (cond and_op root t) ts
      ∙ (unfold apply_filters in
          and_assoc (apply_filters E root r) (apply_filters E t r) (all_of ts))

  combine_lem : (ts : List (FilterTree E)) → ts ≢ [] → apply_filters E (combine E ts) r ≡ all_of ts
  unfolding combine all_of
  combine_lem [] h = absurd (h refl)
  combine_lem (t ∷ ts) h = combine_from_lem t ts

  sub_trees_lem : (t : FilterTree E) → IsSplit t → all_of (sub_trees E t) ≡ apply_filters E t r
  unfolding sub_trees all_of apply_filters
  sub_trees_lem null_tree h = absurd h
  sub_trees_lem (exp e) h = and_pass_right _
  sub_trees_lem (pred op lhs rhs) h = and_pass_right _
  sub_trees_lem (cond and_op left right) h =
      all_of-append (sub_trees E left) (sub_trees E right)
      ∙ ap₂ (apply_condition and_op) (sub_trees_lem left h.0) (sub_trees_lem right h.1)
  sub_trees_lem (cond or_op left right) h = and_pass_right _
  sub_trees_lem (cond xor_op left right) h = and_pass_right _
  sub_trees_lem (cond xnor_op left right) h = and_pass_right _
  sub_trees_lem (cond op left right) h = absurd h

  append-ne_nil : {A : Type 0} (xs ys : List A) → xs ≢ [] → xs ++ ys ≢ []
  append-ne_nil [] ys h e = h refl
  append-ne_nil (x ∷ xs) ys h e = cc

  sub_trees-ne_nil : (t : FilterTree E) → IsSplit t → sub_trees E t ≢ []
  unfolding sub_trees
  sub_trees-ne_nil null_tree h e = h
  sub_trees-ne_nil (exp x) h e = cc
  sub_trees-ne_nil (pred op lhs rhs) h e = cc
  sub_trees-ne_nil (cond and_op left right) h e =
      append-ne_nil (sub_trees E left) (sub_trees E right) (sub_trees-ne_nil left h.0) e
  sub_trees-ne_nil (cond or_op left right) h e = cc
  sub_trees-ne_nil (cond xor_op left right) h e = cc
  sub_trees-ne_nil (cond xnor_op left right) h e = cc
  sub_trees-ne_nil (cond op left right) h e = h

  -- A filter which, below its ANDs, has only expressions, predicates, ORs, XORs and XNORs keeps its
  -- result, on every record, when it is broken at its ANDs and combined again.
  pub combine-sub_trees :
      (t : FilterTree E)
      → IsSplit t
      → apply_filters E (combine E (sub_trees E t)) r ≡ apply_filters E t r
  combine-sub_trees t h = combine_lem (sub_trees E t) (sub_trees-ne_nil t h) ∙ sub_trees_lem t h
