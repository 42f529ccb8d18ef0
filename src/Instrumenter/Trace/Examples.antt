-- ===== src/Instrumenter/Trace/Examples.antt =====
-- A function `f` that catches what `g` raises, and then calls `h`.
use tersecontext.Prelude.{ℕ, String, true, false, ◌≡◌, refl, none, List, [], ◌∷◌}
use tersecontext.Prelude.Whole.{whole}
use tersecontext.Normalizer.CallTree.{reconstruct_sync}
use tersecontext.Normalizer.CallTree.RoundTrip.{Calls, nothing, called, events_of, nodes_of}
use tersecontext.Instrumenter.Trace.{
  Traced, Settings, on_call, on_return, value, call_event, return_event, trace_all,
}
use tersecontext.Instrumenter.Trace.Raises.{
  as_event, caught_callbacks, traced_node, trace_all-caught,
}

abbrev settings : Settings ℕ
settings = record {
  exclude_prefixes = "/usr/lib" ∷ [];
  coverage_filter = none;
  capture_args = "f" ∷ [];
  fnmatch = λ p name. true;
  safe_serialize = λ v. "v";
}

abbrev at : String → ℕ → Traced ℕ ℕ
at name time = record {
  frame = record { co_filename = "/srv/a.py"; co_name = name; f_lineno = 1; f_locals = 0 };
  event = on_call;
  arg = value 0;
  timestamp_ms = time;
  task_id = 0;
}

abbrev later : List (Traced ℕ ℕ)
later = as_event settings on_call (at "h" 5) ∷ as_event settings on_return (at "h" 8) ∷ []

abbrev later_calls : Calls ℕ
later_calls =
    called (call_event settings (at "h" 5)) (return_event settings (at "h" 8)) false nothing nothing

-- `g` is called at 2 and raises at 3; `f` is called at 0, and returns at 9.
trace_all-caught_example :
    reconstruct_sync (
      trace_all settings
        (caught_callbacks settings
          (at "f" 0)
          (at "g" 2)
          (at "g" 3)
          (at "g" 4)
          (at "f" 4)
          (at "f" 9)
          later)
        [])
    ≡ traced_node settings (at "g" 2) (at "g" 3) 1
      ∷ traced_node settings (at "f" 0) (at "g" 4) 0
      ∷ traced_node settings (at "h" 5) (at "h" 8) 0
      ∷ []
unfolding nodes_of events_of
trace_all-caught_example =
    trace_all-caught settings (at "f" 0) (at "g" 2) (at "g" 3) (at "g" 4) (at "f" 4) (at "f" 9)
      later later_calls
      (
        (refl, refl),
        (
          (refl, refl),
          (
            (refl, refl),
            ((refl, refl), ((refl, refl), ((refl, refl), ((refl, refl), ((refl, refl), tt))))),
          ),
        ),
      )
      refl
