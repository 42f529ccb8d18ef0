-- ===== src/Perf/Examples.antt =====
-- A recursive call with an unbalanced end for the theorems on the metrics.
use tersecontext.Prelude.{ℕ, ◌+◌, List, [], ◌∷◌, ◌≡◌}
use tersecontext.Prelude.Dict
use tersecontext.Prelude.Whole.{whole}
use tersecontext.Perf.Metrics.{EventType, call, return, other, TraceEvent, Calls, or_zero, walk}
use tersecontext.Perf.Metrics.Counted.{calls_of, fn_counts-walk}

abbrev event : EventType → ℕ → TraceEvent ℕ
event t ts = record { type = t; fn = "f"; file = "a.py"; timestamp_ms = ts }

abbrev recursive : List (TraceEvent ℕ)
recursive = event call 1 ∷ event call 2 ∷ event other 3 ∷ event return 4 ∷ []

abbrev nothing : Calls ℕ
nothing = record { call_stack = []; fn_durations = []; fn_counts = [] }

fn_counts-walk_example :
    or_zero (Dict.get "a.py:f" (walk recursive nothing).fn_counts)
    ≡ calls_of "a.py:f" recursive + or_zero (Dict.get "a.py:f" nothing.fn_counts)
fn_counts-walk_example = fn_counts-walk "a.py:f" recursive nothing
