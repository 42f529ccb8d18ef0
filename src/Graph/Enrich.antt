-- ===== src/Graph/Enrich.antt =====
-- services/graph-enricher/app/enricher.py and consumer.py: what traces add to the graph, and the batch
-- that applies the five statements in their order.
pub mod Conflict
use tersecontext.Prelude.{
  ℕ, suc, ◌+◌, String, Bool, true, false, ◌&&◌, ◌||◌, not, Option, none, some, List, [], ◌∷◌, ◌++◌,
  ◌==◌, elem, ltb, eqb, map, if◌then◌else◌,
}
use tersecontext.Prelude.Dict
use tersecontext.Prelude.Dict.{Dict}
use tersecontext.Prelude.Float.{Float}
use tersecontext.Prelude.Effects.{
  Exception, key_error, value_error, failure, cancelled, Result, ok, raise, Action, pure, throw,
  try_except, try_finally, ◌>>=◌, ◌>>◌,
}
use tersecontext.Consumer.{Subclass}
use tersecontext.Normalizer.Models.{CallNode, Edge, ExecutionPath}
use tersecontext.Graph.Store.{
  Node, Provenance, static, dynamic, confirmed, conflict, Rel, Graph, merge_rel, update_rels,
}
use tersecontext.Graph.Write.{is_node}

-- `coalesce(n, 0)`
abbrev pub or_zero : Option ℕ → ℕ
or_zero none = 0
or_zero (some n) = n

pub record TraceRecord (F : Type 0) : Type 0 where
  pub stable_id : String
  pub avg_latency_ms : F
  pub branch_coverage : F

module _ {F : Type 0} where
  abbrev pub trace_node : ℕ → TraceRecord F → Node F → Node F
  trace_node now n node = record node {
    observed_calls = some (or_zero node.observed_calls + 1);
    avg_latency_ms = some n.avg_latency_ms;
    branch_coverage = some n.branch_coverage;
    last_traced_at = some now;
  }

  abbrev trace_found : ℕ → TraceRecord F → Option (Node F) → Dict (Node F) → Dict (Node F)
  trace_found now n none nodes = nodes
  trace_found now n (some node) nodes = Dict.put n.stable_id (trace_node now n node) nodes

  -- UPDATE_NODE_PROPS_QUERY, row by row; a row of an unknown node matches nothing
  unfoldable pub update_node_props : ℕ → List (TraceRecord F) → Dict (Node F) → Dict (Node F)
  update_node_props now [] nodes = nodes
  update_node_props now (n ∷ records) nodes =
      update_node_props now records (trace_found now n (Dict.get n.stable_id nodes) nodes)

-- The CASE of UPSERT_DYNAMIC_EDGES_QUERY.
abbrev pub or_dynamic : Option Provenance → Option Provenance
or_dynamic (some static) = some static
or_dynamic (some confirmed) = some confirmed
or_dynamic (some conflict) = some conflict
or_dynamic _ = some dynamic

-- The count of each edge is 1.
abbrev pub set_dynamic : Rel → Rel
set_dynamic r = record r {
  source = or_dynamic r.source;
  observed_count = some (or_zero r.observed_count + 1);
}

-- UPSERT_DYNAMIC_EDGES_QUERY, row by row
unfoldable pub upsert_dynamic_edges : {F : Type 0} → List Edge → Graph F → Graph F
upsert_dynamic_edges [] g = g
upsert_dynamic_edges (e ∷ edges) g = upsert_dynamic_edges edges (
    if is_node e.source g && is_node e.target g
    then record g { calls = merge_rel e.source e.target set_dynamic g.calls }
    else g)

abbrev pub count : String → List String → ℕ
count id [] = 0
count id (x ∷ xs) = (if x == id then 1 else 0) + count id xs

abbrev pub is_static : Option Provenance → Bool
is_static (some static) = true
is_static _ = false

abbrev pub is_confirmed : Option Provenance → Bool
is_confirmed (some confirmed) = true
is_confirmed _ = false

abbrev pub is_none : {A : Type 0} → Option A → Bool
is_none none = true
is_none (some a) = false

-- CONFIRM_STATIC_EDGES_QUERY: UNWIND gives one row for each time that the caller is in the list.
unfoldable pub confirm : ℕ → List String → Rel → Rel
confirm now ids r =
    if is_static r.source && elem r.source_id ids && elem r.target_id ids
    then record r {
      source = some confirmed;
      observed_count = some (or_zero r.observed_count + count r.source_id ids);
      confirmed_at = some now;
    }
    else r

module _ {F : Type 0} where
  abbrev pub traced : Option (Node F) → Bool
  traced none = false
  traced (some n) = not (is_none n.last_traced_at)

  abbrev pub updated_after : Option (Node F) → Option ℕ → Bool
  updated_after none t = false
  updated_after (some n) none = false
  updated_after (some n) (some t) = elim n.updated_at [ none ↦ false | some u ↦ ltb t u ]

  -- CONFLICT_DETECTOR_QUERY
  unfoldable pub detect_conflict : Dict (Node F) → Rel → Rel
  detect_conflict nodes r =
      if is_static r.source && is_none r.observed_count && traced (Dict.get r.source_id nodes)
      then record r { source = some conflict; detail = some "in AST but never observed in traces" }
      else r

  -- STALENESS_DOWNGRADE_QUERY
  unfoldable pub downgrade : Dict (Node F) → Rel → Rel
  downgrade nodes r =
      if is_confirmed r.source && updated_after (Dict.get r.source_id nodes) r.confirmed_at
      then record r { source = some static; confirmed_at = none; observed_count = none }
      else r

  -- The five statements on the graph.
  unfoldable pub update_node_props_batch : ℕ → List (TraceRecord F) → Graph F → Graph F
  unfolding update_node_props
  update_node_props_batch now records g = record g { nodes = update_node_props now records g.nodes }

  unfoldable pub confirm_static_edges : ℕ → List String → Graph F → Graph F
  unfolding confirm
  confirm_static_edges now ids g = record g { calls = update_rels (confirm now ids) g.calls }

  unfoldable pub run_conflict_detector : Graph F → Graph F
  unfolding detect_conflict
  run_conflict_detector g = record g { calls = update_rels (detect_conflict g.nodes) g.calls }

  unfoldable pub run_staleness_downgrade : Graph F → Graph F
  unfolding downgrade
  run_staleness_downgrade g = record g { calls = update_rels (downgrade g.nodes) g.calls }

-- consumer.py: `_extract_records`
module _ {F : Type 0} ⦃float : Float F⦄ where
  abbrev pub ids_of : List (CallNode F) → List String
  ids_of [] = []
  ids_of (n ∷ nodes) = n.stable_id ∷ ids_of nodes

  abbrev pub node_records : List (CallNode F) → List (TraceRecord F)
  node_records [] = []
  node_records (n ∷ nodes) =
      record {
        stable_id = n.stable_id;
        avg_latency_ms = n.avg_ms;
        branch_coverage = n.frequency_ratio;
      }
      ∷ node_records nodes

  unfoldable pub extract_records : ExecutionPath F → List (TraceRecord F) × List Edge × List String
  extract_records event =
      let ids = ids_of event.call_sequence in
      let entry = event.entrypoint_stable_id in
      let own : TraceRecord F = record {
        stable_id = entry;
        avg_latency_ms = event.timing_p50_ms;
        branch_coverage = float.of_ℕ 1;
      } in
      (
        node_records event.call_sequence ++ (if elem entry ids then [] else own ∷ []),
        event.dynamic_only_edges,
        (if elem entry ids then ids else entry ∷ ids),
      )

-- `GraphEnricherConsumer`: the graph behind its driver, the buffers, and the number of statements
-- sent so far, which serves as the time of the next one.
pub record Enricher (F : Type 0) : Type 0 where
  pub graph : Graph F
  pub batch_node_records : List (TraceRecord F)
  pub batch_dynamic_edges : List Edge
  pub batch_observed_ids : List String
  pub statements : ℕ

-- A statement is run, or its session raises and leaves the graph as it is.
unfoldable pub run_statement :
    {F : Type 0} → (ℕ → Bool) → (ℕ → Graph F → Graph F) → Action (Enricher F) (Unit {0})
run_statement is_up statement s =
    let now = s.statements in
    if is_up now
    then (ok tt, record s { graph = statement now s.graph; statements = suc now })
    else (raise (failure "neo4j"), record s { statements = suc now })

-- `if not rows: return`
abbrev pub unless_empty : {S A : Type 0} → List A → Action S (Unit {0}) → Action S (Unit {0})
unless_empty [] m = pure tt
unless_empty (x ∷ xs) m = m

module _ {F : Type 0} (is_up : ℕ → Bool) where
  -- The body of the `try` of `post_batch`, over the buffers.
  unfoldable pub write_batch :
      List (TraceRecord F) → List Edge → List String → Action (Enricher F) (Unit {0})
  unfolding run_statement
  write_batch records edges ids = do
    unless_empty records (run_statement is_up (λ now g. update_node_props_batch now records g))
    unless_empty edges (run_statement is_up (λ now g. upsert_dynamic_edges edges g))
    unless_empty ids (run_statement is_up (λ now g. confirm_static_edges now ids g))
    run_statement is_up (λ now g. run_conflict_detector g)
    run_statement is_up (λ now g. run_staleness_downgrade g)

  abbrev pub clear : Enricher F → Enricher F
  clear s = record s { batch_node_records = []; batch_dynamic_edges = []; batch_observed_ids = [] }

  -- `except Exception` logs; `finally` clears the buffers.
  unfoldable pub post_batch : Action (Enricher F) (Unit {0})
  unfolding write_batch
  post_batch s =
      let records = s.batch_node_records in
      let edges = s.batch_dynamic_edges in
      unless_empty s.batch_observed_ids
        (try_finally
          (try_except (write_batch records edges s.batch_observed_ids)
            (λ e. elim e [ cancelled ↦ throw cancelled | _ ↦ pure tt ]))
          clear)
        s

module _ {F : Type 0} ⦃float : Float F⦄ (parse : String → Option (ExecutionPath F)) where
  abbrev extend : ExecutionPath F → Action (Enricher F) (Unit {0})
  extend event s =
      let (records, edges, ids) = extract_records event in
      (
        ok tt,
        record s {
          batch_node_records = s.batch_node_records ++ records;
          batch_dynamic_edges = s.batch_dynamic_edges ++ edges;
          batch_observed_ids = s.batch_observed_ids ++ ids;
        },
      )

  abbrev parsed_event : Option (ExecutionPath F) → Action (Enricher F) (Unit {0})
  parsed_event none = throw (value_error "invalid ExecutionPath JSON")
  parsed_event (some event) = extend event

  unfoldable pub handle : Option String → Action (Enricher F) (Unit {0})
  handle none = throw (key_error "missing 'event' key")
  handle (some raw) = parsed_event (parse raw)

  abbrev pub enricher : (ℕ → Bool) → Subclass (Enricher F) (Option String)
  enricher is_up = record { handle = handle; post_batch = post_batch is_up }
