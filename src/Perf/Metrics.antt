-- ===== src/Perf/Metrics.antt =====
-- services/perf-tracker/app/aggregator.py: `extract_metrics_from_raw_trace`.
pub mod Counted
use tersecontext.Prelude.{
  ℕ, suc, ◌+◌, String, Bool, true, false, ◌&&◌, Option, none, some, List, [], ◌∷◌, ◌++◌, ◌==◌,
  length, if◌then◌else◌,
}
use tersecontext.Prelude.Dict
use tersecontext.Prelude.Dict.{Dict}
use tersecontext.Prelude.Float.{Float}
use Prim.Native.String.{◌++◌ as join}

-- "call", "return", and every other type.
pub data EventType : Type 0 where
  call return other : EventType

pub record TraceEvent (F : Type 0) : Type 0 where
  pub type : EventType
  pub fn : String
  pub file : String
  pub timestamp_ms : F

-- The decoded JSON of a trace, with the defaults of `data.get` for missing keys.
pub record RawTrace (F : Type 0) : Type 0 where
  pub entrypoint_stable_id : String
  pub commit_sha : Option String
  pub repo : String
  pub duration_ms : F
  pub events : List (TraceEvent F)

pub data MetricType : Type 0 where
  pipeline user_code : MetricType

pub record PerfMetric (F : Type 0) : Type 0 where
  pub metric_type : MetricType
  pub metric_name : String
  pub entity_id : String
  pub repo : String
  pub value : F
  pub unit : String
  pub commit_sha : Option String

-- The locals of the loop; the head of the stack is its last element.
pub record Calls (F : Type 0) : Type 0 where
  pub call_stack : List (TraceEvent F)
  pub fn_durations : Dict (List F)
  pub fn_counts : Dict ℕ

-- `f"{event['file']}:{event['fn']}"`
abbrev pub fn_key : {F : Type 0} → TraceEvent F → String
fn_key event = join event.file (join ":" event.fn)

abbrev pub or_zero : Option ℕ → ℕ
or_zero none = 0
or_zero (some n) = n

abbrev pub or_nil : {A : Type 0} → Option (List A) → List A
or_nil none = []
or_nil (some xs) = xs

module _ {F : Type 0} where
  -- The scan from the end of the stack for the last call of the function: it, and the stack without it.
  unfoldable pub take_call :
      String → List (TraceEvent F) → Option (TraceEvent F × List (TraceEvent F))
  take_call fn [] = none
  take_call fn (c ∷ stack) =
      let found = take_call fn stack in
      if c.fn == fn
      then some (c, stack)
      else elim found [ none ↦ none | some (d, rest) ↦ some (d, c ∷ rest) ]

  module _ ⦃float : Float F⦄ where
    abbrev pub closed :
        TraceEvent F → Option (TraceEvent F × List (TraceEvent F)) → Calls F → Calls F
    closed event none s = s
    closed event (some (c, stack)) s = record s {
      call_stack = stack;
      fn_durations =
          Dict.put (fn_key event)
            (or_nil (Dict.get (fn_key event) s.fn_durations)
              ++ float.sub event.timestamp_ms c.timestamp_ms ∷ [])
            s.fn_durations;
    }

    -- An event of another type matches neither branch.
    unfoldable pub visit : EventType → TraceEvent F → Calls F → Calls F
    unfolding take_call
    visit call event s = record s {
      call_stack = event ∷ s.call_stack;
      fn_counts =
          Dict.put (fn_key event) (or_zero (Dict.get (fn_key event) s.fn_counts) + 1) s.fn_counts;
    }
    visit return event s = closed event (take_call event.fn s.call_stack) s
    visit other event s = s

    unfoldable pub walk : List (TraceEvent F) → Calls F → Calls F
    unfolding visit
    walk [] s = s
    walk (event ∷ events) s = walk events (visit event.type event s)

    -- `sum(xs)` adds from the left.
    abbrev pub sum_onto : F → List F → F
    sum_onto total [] = total
    sum_onto total (x ∷ xs) = sum_onto (float.add total x) xs

    abbrev pub metric : RawTrace F → String → String → F → String → PerfMetric F
    metric trace name entity value unit = record {
      metric_type = user_code;
      metric_name = name;
      entity_id = entity;
      repo = trace.repo;
      value = value;
      unit = unit;
      commit_sha = trace.commit_sha;
    }

    unfoldable pub duration_metrics : RawTrace F → Dict (List F) → List (PerfMetric F)
    duration_metrics trace [] = []
    duration_metrics trace ((key, durations) ∷ rest) =
        metric trace "fn_duration" key
          (float.div (sum_onto (float.of_ℕ 0) durations) (float.of_ℕ (length durations))) "ms"
        ∷ duration_metrics trace rest

    unfoldable pub count_metrics : RawTrace F → Dict ℕ → List (PerfMetric F)
    count_metrics trace [] = []
    count_metrics trace ((key, count) ∷ rest) =
        metric trace "call_frequency" key (float.of_ℕ count) "count" ∷ count_metrics trace rest

    unfoldable pub extract_metrics_from_raw_trace : RawTrace F → List (PerfMetric F)
    unfolding walk duration_metrics count_metrics
    extract_metrics_from_raw_trace trace =
        let s = walk trace.events (record { call_stack = []; fn_durations = []; fn_counts = [] }) in
        metric trace "entrypoint_duration" trace.entrypoint_stable_id trace.duration_ms "ms"
        ∷ (duration_metrics trace s.fn_durations ++ count_metrics trace s.fn_counts)
