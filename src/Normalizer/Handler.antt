-- ===== src/Normalizer/Handler.antt =====
-- services/trace-normalizer/app/consumer.py and emitter.py: `NormalizerConsumer`, a subclass of the
-- shared consumer, whose `handle` makes one execution path of a raw trace and emits it.
-- pydantic's parser, Neo4j and the answers of Redis are parameters.
pub mod Emitted
use tersecontext.Prelude.{
  ℕ, suc, ◌+◌, String, Bool, true, false, Option, none, some, List, [], ◌∷◌, ◌++◌, ◌==◌, elem,
  length, max, if◌then◌else◌,
}
use tersecontext.Prelude.Dict
use tersecontext.Prelude.Float.{Float}
use tersecontext.Prelude.Effects.{
  Exception, key_error, value_error, failure, Result, ok, raise, Action, pure, throw, ◌>>=◌, ◌>>◌,
}
use tersecontext.Consumer.{Subclass}
use tersecontext.Normalizer.Models.{EventType, call, TraceEvent, RawTrace, CallNode, ExecutionPath}
use tersecontext.Normalizer.CallTree.{reconstruct_call_tree}
use tersecontext.Normalizer.Frequencies.{
  Store, agg_key, or_empty, max_runs, aggregate_frequencies, compute_percentiles,
}
use tersecontext.Normalizer.Effects.{classify_side_effects}
use tersecontext.Normalizer.Reconcile.{Driver, reconcile}

pub record Normalizer (F : Type 0) : Type 0 where
  -- the Redis keys of the aggregates, and how many commands were sent
  pub aggregates : Store F
  pub commands : ℕ
  -- "stream:execution-paths"
  pub emitted : List (ExecutionPath F)
  pub events_processed : ℕ

-- `trace.repo or "unknown"`
abbrev pub repo_or_unknown : Option String → String
repo_or_unknown none = "unknown"
repo_or_unknown (some repo) = if repo == "" then "unknown" else repo

abbrev add_new : String → List String → List String
add_new fn fns = if elem fn fns then fns else fn ∷ fns

abbrev observed_by : EventType → String → List String → List String
observed_by call fn fns = add_new fn fns
observed_by _ fn fns = fns

-- `{ev.fn for ev in trace.events if ev.type == "call"}`, in some order.
abbrev pub observed_fns : {F : Type 0} → List (TraceEvent F) → List String
observed_fns [] = []
observed_fns (ev ∷ events) = observed_by ev.type ev.fn (observed_fns events)

module _ {F : Type 0} ⦃float : Float F⦄ where
  -- `[n.avg_ms for n in nodes if n.avg_ms > 0]`
  abbrev pub positive_times : List (CallNode F) → List F
  positive_times [] = []
  positive_times (n ∷ nodes) =
      let rest = positive_times nodes in
      if float.lt (float.of_ℕ 0) n.avg_ms then n.avg_ms ∷ rest else rest

  -- `durations or [trace.duration_ms]`
  abbrev pub or_duration : F → List F → List F
  or_duration d [] = d ∷ []
  or_duration d (x ∷ xs) = x ∷ xs

  -- `sum(1 for n in nodes if n.frequency_ratio > 0.0)`
  abbrev pub observed_count : List (CallNode F) → ℕ
  observed_count [] = 0
  observed_count (n ∷ nodes) =
      (if float.lt (float.of_ℕ 0) n.frequency_ratio then 1 else 0) + observed_count nodes

  abbrev pub coverage_of : List (CallNode F) → Option F
  coverage_of [] = none
  coverage_of (n ∷ nodes) =
      some (float.div (float.of_ℕ (observed_count (n ∷ nodes))) (float.of_ℕ (length (n ∷ nodes))))

module _ {F : Type 0} where
  -- A command to Redis: the n-th one is answered or raises a connection error.
  unfoldable pub command : (ℕ → Bool) → Action (Normalizer F) (Unit {0})
  command is_up s = (
    if is_up s.commands then ok tt else raise (failure "redis"),
    record s { commands = suc s.commands },
  )

  -- `emit_execution_path`
  unfoldable pub emit : ExecutionPath F → Action (Normalizer F) (Unit {0})
  emit path s = (ok tt, record s { emitted = s.emitted ++ path ∷ [] })

  unfoldable pub count_event : Action (Normalizer F) (Unit {0})
  count_event s = (ok tt, record s { events_processed = suc s.events_processed })

module _ {F : Type 0} ⦃float : Float F⦄ where
  -- What `_process_sync` computes between its calls of Redis: the updated nodes and the aggregates.
  unfoldable pub normalize_nodes : RawTrace F → Store F → List (CallNode F) × Store F
  normalize_nodes trace r =
      let repo = repo_or_unknown trace.repo in
      let existing = or_empty (Dict.get (agg_key repo trace.entrypoint_stable_id) r) in
      aggregate_frequencies r repo trace.entrypoint_stable_id (reconstruct_call_tree trace.events)
        (max_runs existing + 1)

  -- `r.set` of the aggregates, once `aggregate_frequencies` has computed them.
  unfoldable pub store_aggregates : RawTrace F → Action (Normalizer F) (List (CallNode F))
  unfolding normalize_nodes
  store_aggregates trace s =
      let (nodes, aggregates) = normalize_nodes trace s.aggregates in
      (ok nodes, record s { aggregates = aggregates })

module _ {F : Type 0} ⦃float : Float F⦄ (lower : String → List ℕ) (driver : Option Driver) where
  unfoldable pub execution_path : RawTrace F → List (CallNode F) → ExecutionPath F
  execution_path trace nodes =
      let repo = repo_or_unknown trace.repo in
      let edges = reconcile driver repo trace.entrypoint_stable_id (observed_fns trace.events) in
      let times = compute_percentiles (or_duration trace.duration_ms (positive_times nodes)) in
      record {
        entrypoint_stable_id = trace.entrypoint_stable_id;
        commit_sha = trace.commit_sha;
        repo = repo;
        call_sequence = nodes;
        side_effects = classify_side_effects lower trace.events;
        dynamic_only_edges = edges.0;
        never_observed_static_edges = edges.1;
        timing_p50_ms = times.0;
        timing_p99_ms = times.1;
        coverage_pct = coverage_of nodes;
      }

module _ {F : Type 0} ⦃float : Float F⦄ (lower : String → List ℕ) (driver : Option Driver)
    (parse : String → Option (RawTrace F)) (is_up : ℕ → Bool) where
  -- The commands are GET, GET and SET of the aggregates, and XADD.
  unfoldable pub process_trace : RawTrace F → Action (Normalizer F) (Unit {0})
  unfolding store_aggregates execution_path emit command
  process_trace trace = do
    command is_up
    command is_up
    command is_up
    nodes ← store_aggregates trace
    command is_up
    emit (execution_path lower driver trace nodes)

  unfoldable pub process_sync : Option (RawTrace F) → Action (Normalizer F) (Unit {0})
  unfolding process_trace
  process_sync none = throw (value_error "RawTrace")
  process_sync (some trace) = process_trace trace

  unfoldable pub handle : Option String → Action (Normalizer F) (Unit {0})
  unfolding process_sync count_event
  handle none = throw (key_error "missing 'event' key")
  handle (some raw) = process_sync (parse raw) >> count_event

  abbrev pub normalizer : Subclass (Normalizer F) (Option String)
  normalizer = record { handle = handle; post_batch = λ s. (ok tt, s) }
