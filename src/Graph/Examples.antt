-- ===== src/Graph/Examples.antt =====
-- A small graph, tests of the statements on it, and the theorems at it.
use tersecontext.Prelude.{
  ℕ, String, keep, ◌&&◌, not, true, false, Option, none, some, [], ◌∷◌, ◌≡◌, refl,
}
use tersecontext.Prelude.Dict
use tersecontext.Prelude.Whole.{whole}
use tersecontext.Prelude.Effects.{ok}
use tersecontext.Consumer.{Redis, run}
use tersecontext.Normalizer.Models.{ExecutionPath}
use tersecontext.Graph.Store.{static, conflict, Rel, Graph, bare, find_rel, merge_rel}
use tersecontext.Graph.Write.{blank, upsert_edges, is_cleared, tombstone}
use tersecontext.Graph.Write.Tombstone.{calls_to, imports_to, tombstone_leaf_keeps_edges}
use tersecontext.Graph.Enrich.{update_node_props_batch, run_conflict_detector, Enricher, enricher}
use tersecontext.Graph.Enrich.Conflict.{IsConflict, IsConflict-is_final}
use tersecontext.Graph.Provenance.{
  here, next, edges_written, conflicts_detected, tombstoned, IsGraph,
}
use tersecontext.Graph.Provenance.Reachable.{Reach-IsGraph}

abbrev nodes_only : Graph ℕ
nodes_only = record { nodes = ("a", blank) ∷ ("b", blank) ∷ []; calls = []; imports = [] }

abbrev rel : Rel
rel = record (bare "a" "b") { source = some static; updated_at = some 1 }

abbrev static_graph : Graph ℕ
static_graph = record nodes_only { calls = rel ∷ [] }

edge_written : upsert_edges 1 (("a", "b") ∷ ("a", "x") ∷ []) nodes_only ≡ static_graph
unfolding upsert_edges merge_rel
edge_written = refl

abbrev marked_rel : Rel
marked_rel = record rel {
  source = some conflict;
  detail = some "in AST but never observed in traces";
}

-- a is traced, its callee is not: the edge becomes a conflict.
a_traced_alone :
    (run_conflict_detector (
      update_node_props_batch 2
        (record { stable_id = "a"; avg_latency_ms = 3; branch_coverage = 1 } ∷ [])
        static_graph)).calls
    ≡ marked_rel ∷ []
unfolding run_conflict_detector update_node_props_batch Dict.get Dict.put
a_traced_alone = refl

tombstone_leaf_keeps_edges_example :
    (keep (calls_to "b") (tombstone 5 ("b" ∷ []) static_graph).calls
      ≡ keep
          (λ r. calls_to "b" r && not (is_cleared ("b" ∷ []) static_graph r.source_id))
          static_graph.calls)
    × (keep (imports_to "b") (tombstone 5 ("b" ∷ []) static_graph).imports
        ≡ keep
            (λ i. imports_to "b" i && not (is_cleared ("b" ∷ []) static_graph i.source_id))
            static_graph.imports)
tombstone_leaf_keeps_edges_example =
    tombstone_leaf_keeps_edges 5 ("b" ∷ []) static_graph "b" refl refl

edge_to_leaf_kept : (tombstone 5 ("b" ∷ []) static_graph).calls ≡ rel ∷ []
unfolding tombstone
edge_to_leaf_kept = refl

Reach-IsGraph_example :
    IsGraph
      (tombstone 4 ("b" ∷ []) (run_conflict_detector (upsert_edges 1 (("a", "b") ∷ []) nodes_only)))
Reach-IsGraph_example =
    Reach-IsGraph
      (next (next (next here (edges_written 1 (("a", "b") ∷ []) nodes_only)) (conflicts_detected _))
        (tombstoned 4 ("b" ∷ []) _))
      (record { good = tt; unique = tt })

-- An execution path in which both ends of the edge are observed.
abbrev both_observed : ExecutionPath ℕ
both_observed = record {
  entrypoint_stable_id = "a";
  commit_sha = "c0ffee";
  repo = "r";
  call_sequence = record { stable_id = "b"; hop = 0; frequency_ratio = 1; avg_ms = 2 } ∷ [];
  side_effects = [];
  dynamic_only_edges = [];
  never_observed_static_edges = [];
  timing_p50_ms = 2;
  timing_p99_ms = 2;
  coverage_pct = none;
}

abbrev one_message : Redis ℕ (Option String)
one_message = record {
  xgroup_create = λ s. (ok tt, s);
  busy_group = λ e. false;
  xreadgroup = λ s. (
    ok (some (("stream:execution-paths", record { msg_id = "1"; body = some "{}" } ∷ []) ∷ [])),
    s,
  );
  xack = λ id s. (ok tt, s);
  xadd_dlq = λ id e d s. (ok tt, s);
  aclose = λ s. s;
}

abbrev marked_enricher : Enricher ℕ
marked_enricher = record {
  graph = record nodes_only { calls = marked_rel ∷ [] };
  batch_node_records = [];
  batch_dynamic_edges = [];
  batch_observed_ids = [];
  statements = 0;
}

is_marked : IsConflict "a" "b" marked_enricher.graph
unfolding find_rel
is_marked = record { rel = marked_rel; found = refl; marked = refl }

IsConflict-is_final_example :
    IsConflict "a" "b"
      (run one_message
        (enricher (λ raw. some both_observed) (λ i. true))
        2
        (record { redis = 0; self = marked_enricher })).1.self.graph
IsConflict-is_final_example =
    IsConflict-is_final (λ raw. some both_observed) (λ i. true) one_message 2
      (record { redis = 0; self = marked_enricher }) "a" "b" is_marked
