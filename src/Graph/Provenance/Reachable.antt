-- ===== src/Graph/Provenance/Reachable.antt =====
-- The invariants of the graph over every sequence of statements.
use tersecontext.Prelude.{
  ℕ, String, true, ◌&&◌, List, [], ◌∷◌, ◌≡◌, refl, Bool-cases, Option-cases, inl, inr, arith,
}
use tersecontext.Prelude.Dict
use tersecontext.Prelude.Dict.{Dict}
use tersecontext.Normalizer.Models.{Edge}
use tersecontext.Graph.Store.{Node, Rel, Graph, bare, merge_rel, update_rels, KeepsKey}
use tersecontext.Graph.Write.{
  NodeRecord, is_node, upsert_nodes, upsert_edges, set_static, deactivate, is_cleared, tombstone,
}
use tersecontext.Graph.Enrich.{
  TraceRecord, trace_node, set_dynamic, upsert_dynamic_edges, confirm, detect_conflict, downgrade,
  update_node_props, update_node_props_batch, confirm_static_edges, run_conflict_detector,
  run_staleness_downgrade,
}
use tersecontext.Graph.Enrich.Conflict.{
  set_dynamic_keeps, confirm_keeps, detect_keeps, downgrade_keeps,
}
use tersecontext.Graph.Provenance.{
  Step, nodes_written, edges_written, tombstoned, traced, dynamic_written, edges_confirmed,
  conflicts_detected, edges_downgraded, Reach, here, next, is_sound, IsGraph,
}
use tersecontext.Graph.Provenance.Edges.{
  update-AllGood, merge-AllGood, drop-AllGood, AllGood-grow, update-IsUnique, merge-IsUnique,
  drop-IsUnique,
}

set_static_keeps : (now : ℕ) → KeepsKey (set_static now)
set_static_keeps now = record { source = λ r. refl; target = λ r. refl }

sound-confirm :
    (now : ℕ) (ids : List String) (r : Rel)
    → is_sound r ≡ true
    → is_sound (confirm now ids r) ≡ true
unfolding confirm
sound-confirm now ids r h = ground arith

module _ {F : Type 0} where
  sound-detect :
      (nodes : Dict (Node F)) (r : Rel)
      → is_sound r ≡ true
      → is_sound (detect_conflict nodes r) ≡ true
  unfolding detect_conflict
  sound-detect nodes r h = ground arith

  sound-downgrade :
      (nodes : Dict (Node F)) (r : Rel) → is_sound r ≡ true → is_sound (downgrade nodes r) ≡ true
  unfolding downgrade
  sound-downgrade nodes r h = ground arith

  has-put :
      (k id : String) (n : Node F) (nodes : Dict (Node F))
      → Dict.has id nodes ≡ true
      → Dict.has id (Dict.put k n nodes) ≡ true
  unfolding Dict.put
  has-put k id n [] h = cc
  has-put k id n ((j, m) ∷ nodes) h = ground (arith, has-put k id n nodes)

  has-update_node_props :
      (now : ℕ) (records : List (TraceRecord F)) (id : String) (nodes : Dict (Node F))
      → Dict.has id nodes ≡ true
      → Dict.has id (update_node_props now records nodes) ≡ true
  unfolding update_node_props
  has-update_node_props now [] id nodes h = h
  has-update_node_props now (n ∷ records) id nodes h =
      elim (Option-cases (Dict.get n.stable_id nodes)) [
        | inl absent ↦ rw absent (has-update_node_props now records id nodes h)
        | inr (node, found) ↦ rw found (
            has-update_node_props now records id _
              (has-put n.stable_id id (trace_node now n node) nodes h))
      ]

  has-deactivate :
      (now : ℕ) (ids : List String) (id : String) (nodes : Dict (Node F))
      → Dict.has id nodes ≡ true
      → Dict.has id (deactivate now ids nodes) ≡ true
  has-deactivate now ids id [] h = cc
  has-deactivate now ids id ((j, m) ∷ nodes) h = ground (arith, has-deactivate now ids id nodes)

  upsert_nodes-IsGraph :
      (now : ℕ) (records : List NodeRecord) (g : Graph F)
      → IsGraph g
      → IsGraph (upsert_nodes now records g)
  unfolding upsert_nodes
  upsert_nodes-IsGraph now [] g h = h
  upsert_nodes-IsGraph now ((id, props) ∷ records) g h =
      upsert_nodes-IsGraph now records _ (record {
        good =
            AllGood-grow g.nodes (Dict.put id _ g.nodes) (λ x. has-put id x _ g.nodes) g.calls
              h.good;
        unique = h.unique;
      })

  merge-IsGraph :
      (a b : String) (set : Rel → Rel) (g : Graph F)
      → KeepsKey set
      → ((r : Rel) → is_sound r ≡ true → is_sound (set r) ≡ true)
      → is_sound (set (bare a b)) ≡ true
      → (is_node a g && is_node b g) ≡ true
      → IsGraph g
      → IsGraph (record g { calls = merge_rel a b set g.calls })
  merge-IsGraph a b set g keeps sound base known h = record {
    good = merge-AllGood g.nodes a b set g.calls keeps sound base known h.good;
    unique = merge-IsUnique set keeps a b g.calls h.unique;
  }

  update-IsGraph :
      (set : Rel → Rel) (g : Graph F)
      → KeepsKey set
      → ((r : Rel) → is_sound r ≡ true → is_sound (set r) ≡ true)
      → IsGraph g
      → IsGraph (record g { calls = update_rels set g.calls })
  update-IsGraph set g keeps sound h = record {
    good = update-AllGood g.nodes set g.calls keeps sound h.good;
    unique = update-IsUnique set keeps g.calls h.unique;
  }

  upsert_edges-IsGraph :
      (now : ℕ) (edges : List (String × String)) (g : Graph F)
      → IsGraph g
      → IsGraph (upsert_edges now edges g)
  unfolding upsert_edges
  upsert_edges-IsGraph now [] g h = h
  upsert_edges-IsGraph now ((a, b) ∷ edges) g h = elim (Bool-cases (is_node a g && is_node b g)) [
    | inl known ↦ rw known (
        upsert_edges-IsGraph now edges _
          (merge-IsGraph a b (set_static now) g (set_static_keeps now) (λ r k. refl) refl known h))
    | inr unknown ↦ rw unknown (upsert_edges-IsGraph now edges g h)
  ]

  upsert_dynamic_edges-IsGraph :
      (edges : List Edge) (g : Graph F) → IsGraph g → IsGraph (upsert_dynamic_edges edges g)
  unfolding upsert_dynamic_edges
  upsert_dynamic_edges-IsGraph [] g h = h
  upsert_dynamic_edges-IsGraph (e ∷ edges) g h =
      elim (Bool-cases (is_node e.source g && is_node e.target g)) [
        | inl known ↦ rw known (
            upsert_dynamic_edges-IsGraph edges _ (
              merge-IsGraph e.source e.target set_dynamic g set_dynamic_keeps
                (λ r k. ground (arith, k)) refl known h))
        | inr unknown ↦ rw unknown (upsert_dynamic_edges-IsGraph edges g h)
      ]

  tombstone-IsGraph :
      (now : ℕ) (ids : List String) (g : Graph F) → IsGraph g → IsGraph (tombstone now ids g)
  unfolding tombstone
  tombstone-IsGraph now ids g h = record {
    good = drop-AllGood (deactivate now ids g.nodes) (is_cleared ids g) g.calls (
        AllGood-grow g.nodes (deactivate now ids g.nodes) (λ id. has-deactivate now ids id g.nodes)
          g.calls h.good);
    unique = drop-IsUnique (is_cleared ids g) g.calls h.unique;
  }

  props-IsGraph :
      (now : ℕ) (records : List (TraceRecord F)) (g : Graph F)
      → IsGraph g
      → IsGraph (update_node_props_batch now records g)
  unfolding update_node_props_batch
  props-IsGraph now records g h = record {
    good =
        AllGood-grow g.nodes (update_node_props now records g.nodes)
          (λ id. has-update_node_props now records id g.nodes) g.calls h.good;
    unique = h.unique;
  }

  Step-IsGraph : {g k : Graph F} → Step g k → IsGraph g → IsGraph k
  unfolding confirm_static_edges run_conflict_detector run_staleness_downgrade
  Step-IsGraph (nodes_written now records g) h = upsert_nodes-IsGraph now records g h
  Step-IsGraph (edges_written now edges g) h = upsert_edges-IsGraph now edges g h
  Step-IsGraph (tombstoned now ids g) h = tombstone-IsGraph now ids g h
  Step-IsGraph (traced now records g) h = props-IsGraph now records g h
  Step-IsGraph (dynamic_written edges g) h = upsert_dynamic_edges-IsGraph edges g h
  Step-IsGraph (edges_confirmed now ids g) h =
      update-IsGraph (confirm now ids) g (confirm_keeps now ids) (sound-confirm now ids) h
  Step-IsGraph (conflicts_detected g) h =
      update-IsGraph (detect_conflict g.nodes) g (detect_keeps g.nodes) (sound-detect g.nodes) h
  Step-IsGraph (edges_downgraded g) h =
      update-IsGraph (downgrade g.nodes) g (downgrade_keeps g.nodes) (sound-downgrade g.nodes) h

  -- However the statements of graph-writer and graph-enricher are interleaved, in every graph that they
  -- reach each CALLS edge joins two nodes and has a provenance, a confirmed edge has its time and
  -- its count, and no two CALLS edges join the same nodes in the same direction.
  pub Reach-IsGraph : {g k : Graph F} → Reach g k → IsGraph g → IsGraph k
  Reach-IsGraph here h = h
  Reach-IsGraph (next r st) h = Step-IsGraph st (Reach-IsGraph r h)
