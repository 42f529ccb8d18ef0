-- ===== src/SpecGenerator/Models.antt =====
-- services/spec-generator/app/models.py. `SideEffect` and `EdgeRef` have the fields that the normalizer gives them.
use tersecontext.Prelude.{ℕ, String, Option, List}
use tersecontext.Normalizer.Models.{SideEffect, Edge}

pub record CallSequenceItem (F : Type 0) : Type 0 where
  pub stable_id : String
  pub name : Option String
  pub qualified_name : Option String
  pub hop : ℕ
  pub frequency_ratio : F
  pub avg_ms : F
  pub args : Option String

pub record ExecutionPath (F : Type 0) : Type 0 where
  pub entrypoint_stable_id : String
  pub commit_sha : String
  pub repo : String
  pub call_sequence : List (CallSequenceItem F)
  pub side_effects : List SideEffect
  pub dynamic_only_edges : List Edge
  pub never_observed_static_edges : List Edge
  pub timing_p50_ms : F
  pub timing_p99_ms : F
  pub coverage_pct : Option F
