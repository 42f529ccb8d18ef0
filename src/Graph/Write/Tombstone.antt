-- ===== src/Graph/Write/Tombstone.antt =====
-- Which edges TOMBSTONE_QUERY deletes.
use tersecontext.Prelude.{
  ℕ, String, Bool, true, false, ◌||◌, ◌&&◌, not, keep, sym, subst, List, [], ◌∷◌, ◌==◌, ◌≡◌, refl,
  All, elem, eq_iff, arith, inl, inr, Bool-cases,
}
use tersecontext.Graph.Store.{Rel, Import, ImportTarget, node, pkg, Graph}
use tersecontext.Graph.Write.{
  is_node, has_out_call, has_out_import, is_cleared, drop_calls, clears_target, drop_imports,
  tombstone,
}

module _ {F : Type 0} where
  -- No edge of the graph is at the node.
  abbrev pub IsDetached : String → Graph F → Type 0
  IsDetached id g =
      All (λ (r : Rel). (r.source_id == id || r.target_id == id) ≡ false) g.calls
      × All (λ (i : Import). (i.source_id == id || clears_target (λ t. t == id) i.target) ≡ false)
          g.imports

abbrev pub calls_to : String → Rel → Bool
calls_to id r = r.target_id == id

abbrev pub imports_to : String → Import → Bool
imports_to id i = clears_target (λ x. x == id) i.target

-- What `drop_calls` and `drop_imports` leave, for any choice of nodes.
module _ (cleared : String → Bool) where
  apart : (id x : String) → cleared id ≡ true → cleared x ≡ false → (x == id) ≡ false
  apart id x h k = elim (Bool-cases (x == id)) [
    | inl same ↦ let e : x ≡ id = (eq_iff x id).0 same in cc
    | inr other ↦ other
  ]

  drop_calls-All :
      (id : String) (rels : List Rel)
      → cleared id ≡ true
      → All
          (λ (r : Rel). (r.source_id == id || r.target_id == id) ≡ false)
          (drop_calls cleared rels)
  drop_calls-All id [] h = tt
  drop_calls-All id (r ∷ rels) h = elim (Bool-cases (cleared r.source_id || cleared r.target_id)) [
    | inl gone ↦ rw gone (drop_calls-All id rels h)
    | inr stays ↦
        rw stays
          (ground (arith, apart id r.source_id h, apart id r.target_id h), drop_calls-All id rels h)
  ]

  target_apart :
      (id : String) (t : ImportTarget)
      → cleared id ≡ true
      → clears_target cleared t ≡ false
      → clears_target (λ x. x == id) t ≡ false
  target_apart id (node x) h k = apart id x h k
  target_apart id (pkg x r) h k = refl

  drop_imports-All :
      (id : String) (imports : List Import)
      → cleared id ≡ true
      → All
          (λ (i : Import). (i.source_id == id || clears_target (λ x. x == id) i.target) ≡ false)
          (drop_imports cleared imports)
  drop_imports-All id [] h = tt
  drop_imports-All id (i ∷ imports) h =
      elim (Bool-cases (cleared i.source_id || clears_target cleared i.target)) [
        | inl gone ↦ rw gone (drop_imports-All id imports h)
        | inr stays ↦ rw stays (
          ground (arith, apart id i.source_id h, target_apart id i.target h),
          drop_imports-All id imports h,
        )
      ]

  -- At a node that is not cleared, an edge that comes in goes only with its source.
  module _ (id : String) (leaf : cleared id ≡ false) where
    drop_calls-to :
        (rels : List Rel)
        → keep (calls_to id) (drop_calls cleared rels)
          ≡ keep (λ r. calls_to id r && not (cleared r.source_id)) rels
    drop_calls-to [] = refl
    drop_calls-to (r ∷ rels) = elim (Bool-cases (calls_to id r)) [
      | inl to ↦
          let here : cleared r.target_id ≡ false =
            subst (λ x. cleared x ≡ false) (sym ((eq_iff r.target_id id).0 to)) leaf in
          ground (arith, here, to, drop_calls-to rels)
      | inr other ↦ ground (arith, other, drop_calls-to rels)
    ]

    not_cleared :
        (t : ImportTarget) → clears_target (λ x. x == id) t ≡ true → clears_target cleared t ≡ false
    not_cleared (node x) to = subst (λ y. cleared y ≡ false) (sym ((eq_iff x id).0 to)) leaf
    not_cleared (pkg x r) to = refl

    drop_imports-to :
        (imports : List Import)
        → keep (imports_to id) (drop_imports cleared imports)
          ≡ keep (λ i. imports_to id i && not (cleared i.source_id)) imports
    drop_imports-to [] = refl
    drop_imports-to (i ∷ imports) = elim (Bool-cases (imports_to id i)) [
      | inl to ↦ ground (arith, not_cleared i.target to, to, drop_imports-to imports)
      | inr other ↦ ground (arith, other, drop_imports-to imports)
    ]

module _ {F : Type 0} where
  -- A tombstoned node of the graph that has an edge going out ends with no edge at all, whatever other
  -- nodes the statement names.
  pub tombstone-IsDetached :
      (now : ℕ) (ids : List String) (g : Graph F) (id : String)
      → elem id ids ≡ true
      → is_node id g ≡ true
      → (has_out_call id g.calls || has_out_import id g.imports) ≡ true
      → IsDetached id (tombstone now ids g)
  unfolding tombstone
  tombstone-IsDetached now ids g id named known out =
      let h : is_cleared ids g id ≡ true = ground (arith, named, known, out) in
      (
        drop_calls-All (is_cleared ids g) id g.calls h,
        drop_imports-All (is_cleared ids g) id g.imports h,
      )

  -- A node with no edge going out keeps the edges that come in when it is tombstoned, whatever other
  -- nodes the statement names: an edge to it goes only if its source is a node that is named too and
  -- has an edge going out.
  pub tombstone_leaf_keeps_edges :
      (now : ℕ) (ids : List String) (g : Graph F) (id : String)
      → has_out_call id g.calls ≡ false
      → has_out_import id g.imports ≡ false
      → (keep (calls_to id) (tombstone now ids g).calls
          ≡ keep (λ r. calls_to id r && not (is_cleared ids g r.source_id)) g.calls)
        × (keep (imports_to id) (tombstone now ids g).imports
            ≡ keep (λ i. imports_to id i && not (is_cleared ids g i.source_id)) g.imports)
  unfolding tombstone
  tombstone_leaf_keeps_edges now ids g id no_call no_import =
      let leaf : is_cleared ids g id ≡ false = ground (arith, no_call, no_import) in
      (
        drop_calls-to (is_cleared ids g) id leaf g.calls,
        drop_imports-to (is_cleared ids g) id leaf g.imports,
      )
