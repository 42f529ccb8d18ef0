-- ===== src/Normalizer/Models.antt =====
-- services/trace-normalizer/app/models.py
use tersecontext.Prelude.{ℕ, String, Option, List}

pub data EventType : Type 0 where
  call return exception async_call async_return : EventType

-- `F` is Python's `float`.
pub record TraceEvent (F : Type 0) : Type 0 where
  pub type : EventType
  pub fn : String
  pub file : String
  pub line : ℕ
  pub timestamp_ms : F
  pub exc_type : Option String
  pub task_id : Option ℕ
  pub args : Option String
  pub return_val : Option String

pub record RawTrace (F : Type 0) : Type 0 where
  pub entrypoint_stable_id : String
  pub commit_sha : String
  pub repo : Option String
  pub duration_ms : F
  pub events : List (TraceEvent F)
  pub coverage_pct : Option F

pub record CallNode (F : Type 0) : Type 0 where
  pub stable_id : String
  pub hop : ℕ
  pub frequency_ratio : F
  pub avg_ms : F

pub data EffectKind : Type 0 where
  db_read db_write cache_read cache_set http_out fs_write : EffectKind

pub record SideEffect : Type 0 where
  pub kind : EffectKind
  pub detail : String
  pub hop_depth : ℕ

pub record Edge : Type 0 where
  pub source : String
  pub target : String

pub record ExecutionPath (F : Type 0) : Type 0 where
  pub entrypoint_stable_id : String
  pub commit_sha : String
  pub repo : String
  pub call_sequence : List (CallNode F)
  pub side_effects : List SideEffect
  pub dynamic_only_edges : List Edge
  pub never_observed_static_edges : List Edge
  pub timing_p50_ms : F
  pub timing_p99_ms : F
  pub coverage_pct : Option F
