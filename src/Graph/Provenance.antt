-- ===== src/Graph/Provenance.antt =====
-- The writers of the graph as a step relation: graph-writer and graph-enricher are separate
-- processes, so their statements come in any order. What holds of every graph that they reach.
pub mod Edges
pub mod Reachable
use tersecontext.Prelude.{
  ℕ, suc, String, Bool, true, false, ◌&&◌, ◌||◌, not, Option, none, some, List, [], ◌∷◌, ◌==◌, ◌≡◌,
  refl, eq_iff, Bool-cases, inl, inr, elem, All, arith, if◌then◌else◌,
}
use tersecontext.Prelude.Dict
use tersecontext.Prelude.Dict.{Dict}
use tersecontext.Normalizer.Models.{Edge}
use tersecontext.Graph.Store.{
  Node, Provenance, static, dynamic, confirmed, conflict, Rel, Graph, bare, is_key, merge_rel,
  update_rels, KeepsKey,
}
use tersecontext.Graph.Write.{
  NodeRecord, is_node, upsert_nodes, upsert_edges, set_static, deactivate, is_cleared, drop_calls,
  tombstone, or_blank,
}
use tersecontext.Graph.Enrich.{
  TraceRecord, trace_node, is_none, is_confirmed, set_dynamic, upsert_dynamic_edges, confirm,
  detect_conflict, downgrade, update_node_props, update_node_props_batch, confirm_static_edges,
  run_conflict_detector, run_staleness_downgrade,
}
use tersecontext.Graph.Enrich.Conflict.{
  set_dynamic_keeps, confirm_keeps, detect_keeps, downgrade_keeps,
}

-- One statement of one of the writers.
pub data Step {F : Type 0} : Graph F → Graph F → Type 0 where
  nodes_written :
      (now : ℕ) (records : List NodeRecord) (g : Graph F) → Step g (upsert_nodes now records g)
  edges_written :
      (now : ℕ) (edges : List (String × String)) (g : Graph F) → Step g (upsert_edges now edges g)
  tombstoned : (now : ℕ) (ids : List String) (g : Graph F) → Step g (tombstone now ids g)
  traced :
      (now : ℕ) (records : List (TraceRecord F)) (g : Graph F)
      → Step g (update_node_props_batch now records g)
  dynamic_written : (edges : List Edge) (g : Graph F) → Step g (upsert_dynamic_edges edges g)
  edges_confirmed :
      (now : ℕ) (ids : List String) (g : Graph F) → Step g (confirm_static_edges now ids g)
  conflicts_detected : (g : Graph F) → Step g (run_conflict_detector g)
  edges_downgraded : (g : Graph F) → Step g (run_staleness_downgrade g)

pub data Reach {F : Type 0} (g : Graph F) : Graph F → Type 0 where
  here : Reach g g
  next : {h k : Graph F} → Reach g h → Step h k → Reach g k

-- An edge has a provenance, and a confirmed one says when and how often it was observed.
abbrev pub is_sound : Rel → Bool
is_sound r =
    not (is_none r.source)
    && (not (is_confirmed r.source)
        || (not (is_none r.confirmed_at) && not (is_none r.observed_count)))

module _ {F : Type 0} where
  -- Both ends of the edge are nodes of the graph.
  abbrev pub has_ends : Dict (Node F) → Rel → Bool
  has_ends nodes r = Dict.has r.source_id nodes && Dict.has r.target_id nodes

  abbrev pub AllGood : Dict (Node F) → List Rel → Type 0
  AllGood nodes = All (λ r. (is_sound r && has_ends nodes r) ≡ true)

abbrev pub IsFresh : Rel → List Rel → Type 0
IsFresh r = All (λ q. is_key r.source_id r.target_id q ≡ false)

-- No two CALLS edges have the same ends.
abbrev pub IsUnique : List Rel → Type 0
IsUnique [] = Unit
IsUnique (r ∷ rels) = IsFresh r rels × IsUnique rels

pub record IsGraph {F : Type 0} (g : Graph F) : Type 0 where
  pub good : AllGood g.nodes g.calls
  pub unique : IsUnique g.calls
