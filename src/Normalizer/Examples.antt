-- ===== src/Normalizer/Examples.antt =====
-- Small traces, tests of the model on them, and the theorems at them.
use tersecontext.Prelude.{
  ◌==◌, ℕ, ◌+◌, String, Bool, true, false, not, ◌&&◌, Option, none, some, List, [], ◌∷◌, ◌≡◌, ◌≢◌,
  refl, eqb, elem, length, All, eq_iff, arith,
}
use tersecontext.Prelude.Dict
use tersecontext.Prelude.Text.{codes}
use tersecontext.Prelude.Whole.{whole, whole-FloatLaws}
use tersecontext.Prelude.Effects.{failure, Result, ok, raise}
use tersecontext.Consumer.{Redis, run, iteration, process_streams, process}
use tersecontext.Normalizer.Models.{
  EventType, call, return, exception, async_call, async_return, TraceEvent, CallNode, RawTrace,
  db_read, db_write, cache_set, http_out, fs_write,
}
use tersecontext.Normalizer.CallTree.{reconstruct_sync, reconstruct_call_tree, walk, start}
use tersecontext.Normalizer.CallTree.RoundTrip.{
  Calls, nothing, called, events_of, nodes_of, reconstruct_sync-events_of,
}
use tersecontext.Normalizer.CallTree.Account.{calls, IsSound, walk_account}
use tersecontext.Normalizer.CallTree.Tasks.{spawned, trees_of, reconstruct_call_tree-eq-trees_of}
use tersecontext.Normalizer.Frequencies.{
  agg_key, or_empty, aggregate_frequencies, compute_percentiles,
}
use tersecontext.Normalizer.Frequencies.Counts.{
  occurrences, runs_at, count_in, aggregate_frequencies-counts,
}
use tersecontext.Normalizer.Effects.{classify, classify_side_effects}
use tersecontext.Normalizer.Effects.Distinct.{
  occurring, first_of_each, classify_side_effects-first_of_each,
}
use tersecontext.Normalizer.Reconcile.{Driver, has_edge, has_pair, reconcile, reconcile_exact}
use tersecontext.Normalizer.Handler.{Normalizer, handle, normalizer}
use tersecontext.Normalizer.Handler.Emitted.{
  IsPath, recorded, service_emits_sound, retry_counts_twice,
}

abbrev event : EventType → String → ℕ → Option ℕ → TraceEvent ℕ
event t fn ts task = record {
  type = t;
  fn = fn;
  file = "app.py";
  line = 1;
  timestamp_ms = ts;
  exc_type = none;
  task_id = task;
  args = none;
  return_val = none;
}

-- login calls fetchone, which raises, and then redis.set.
abbrev login : Calls ℕ
login =
    called (event call "login" 0 none) (event return "login" 9 none) false
      (called (event call "fetchone" 1 none) (event exception "fetchone" 4 none) true nothing (
        called (event call "redis.set" 5 none) (event return "other" 6 none) false nothing nothing))
      nothing

abbrev node : String → ℕ → ℕ → CallNode ℕ
node fn hop ms = record { stable_id = fn; hop = hop; frequency_ratio = 1; avg_ms = ms }

login_nodes :
    reconstruct_sync (events_of login)
    ≡ node "fetchone" 1 3 ∷ node "redis.set" 1 1 ∷ node "login" 0 9 ∷ []
unfolding reconstruct_sync events_of
login_nodes = refl

reconstruct_sync-events_of_example : reconstruct_sync (events_of login) ≡ nodes_of 0 login
reconstruct_sync-events_of_example = reconstruct_sync-events_of login

-- A return with no call, and a call with no return.
abbrev broken : List (TraceEvent ℕ)
broken =
    event return "a" 1 none
    ∷ event call "b" 2 none
    ∷ event call "c" 3 none
    ∷ event return "c" 5 none
    ∷ []

walk_account_example : IsSound (walk broken start) (calls broken)
walk_account_example = walk_account broken

-- Task 2 runs in between the events of task 0.
abbrev interleaved : List (TraceEvent ℕ)
interleaved =
    event call "main" 0 (some 0)
    ∷ event async_call "job" 1 (some 2)
    ∷ event call "job" 2 (some 2)
    ∷ event call "helper" 3 (some 0)
    ∷ event return "job" 5 (some 2)
    ∷ event return "helper" 6 (some 0)
    ∷ event async_return "job" 6 (some 2)
    ∷ event return "main" 8 (some 0)
    ∷ []

interleaved_nodes :
    reconstruct_call_tree interleaved ≡ node "helper" 1 3 ∷ node "main" 0 8 ∷ node "job" 0 3 ∷ []
unfolding reconstruct_call_tree
interleaved_nodes = refl

reconstruct_call_tree-eq-trees_of_example :
    reconstruct_call_tree interleaved ≡ trees_of interleaved (0 ∷ spawned interleaved)
reconstruct_call_tree-eq-trees_of_example = reconstruct_call_tree-eq-trees_of interleaved refl

abbrev three_calls : List (CallNode ℕ)
three_calls = node "f" 0 2 ∷ node "f" 1 4 ∷ node "g" 1 1 ∷ []

keys_differ : agg_key "r" "e" ≢ "other"
keys_differ = grind (arith, eq_iff (agg_key "r" "e") "other")

aggregate_frequencies-counts_example :
    (runs_at "f"
        (or_empty (Dict.get (agg_key "r" "e") (aggregate_frequencies [] "r" "e" three_calls 1).1))
      ≡ occurrences "f" three_calls
        + runs_at {F = ℕ} "f" (or_empty (Dict.get (agg_key "r" "e") [])))
    × (count_in (
          Dict.get "f" (
            or_empty
              (Dict.get (agg_key "r" "e") (aggregate_frequencies [] "r" "e" three_calls 1).1)))
        ≡ occurrences "f" three_calls
          + count_in {F = ℕ} (Dict.get "f" (or_empty (Dict.get (agg_key "r" "e") []))))
    × (Dict.get "other" (aggregate_frequencies [] "r" "e" three_calls 1).1 ≡ Dict.get "other" [])
aggregate_frequencies-counts_example =
    aggregate_frequencies-counts [] "r" "e" "f" three_calls 1 "other" keys_differ

percentiles_test : compute_percentiles {F = ℕ} (9 ∷ 3 ∷ 5 ∷ 7 ∷ []) ≡ (6, 9)
unfolding compute_percentiles
percentiles_test = refl

classify_tests :
    (classify (codes "cursor.fetchall") ≡ some db_read)
    × (classify (codes "db_execute") ≡ some db_write)
    × (classify (codes "preselect") ≡ none)
    × (classify (codes "execute_workflow") ≡ some db_write)
    × (classify (codes "httpx.get") ≡ some http_out)
    × (classify (codes "my_setex_fn") ≡ some cache_set)
    × (classify (codes "file.write") ≡ some fs_write)
unfolding classify
classify_tests = (refl, refl, refl, refl, refl, refl, refl)

classify_side_effects-first_of_each_example :
    classify_side_effects codes (events_of login)
    ≡ first_of_each [] (occurring codes 0 (events_of login))
classify_side_effects-first_of_each_example =
    classify_side_effects-first_of_each codes (events_of login)

abbrev graph : Driver
graph repo entrypoint = some (("login", "fetchone") ∷ ("login", "audit") ∷ [])

abbrev seen_fns : List String
seen_fns = "fetchone" ∷ "plugin" ∷ []

reconcile_exact_example :
    (has_edge "e" "plugin" (reconcile (some graph) "r" "e" seen_fns).0 ≡ (
      "e" == "e"
      && (elem "plugin" seen_fns
          && (not (elem "plugin" ("fetchone" ∷ "audit" ∷ []))
              && not (elem "plugin" ("login" ∷ "login" ∷ []))))))
    × (has_edge "e" "plugin" (reconcile (some graph) "r" "e" seen_fns).1 ≡ (
        has_pair "e" "plugin" (("login", "fetchone") ∷ ("login", "audit") ∷ [])
        && not (elem "plugin" seen_fns)))
reconcile_exact_example =
    reconcile_exact graph "r" "e" "e" "plugin" seen_fns
      (("login", "fetchone") ∷ ("login", "audit") ∷ []) refl

abbrev login_trace : RawTrace ℕ
login_trace = record {
  entrypoint_stable_id = "e";
  commit_sha = "c0ffee";
  repo = none;
  duration_ms = 9;
  events =
      event call "login" 0 none
      ∷ event call "login" 1 none
      ∷ event return "login" 2 none
      ∷ event return "login" 4 none
      ∷ [];
  coverage_pct = none;
}

abbrev parse_login : String → Option (RawTrace ℕ)
parse_login raw = some login_trace

abbrev empty_normalizer : Normalizer ℕ
empty_normalizer = record { aggregates = []; commands = 0; emitted = []; events_processed = 0 }

abbrev fails_at_3 : ℕ → Bool
fails_at_3 i = not (eqb i 3)

-- Each read brings the trace of a login.
abbrev one_trace : Redis (Unit {0}) (Option String)
one_trace = record {
  xgroup_create = λ s. (ok tt, s);
  busy_group = λ e. false;
  xreadgroup = λ s.
      (ok (some (("stream:raw-traces", record { msg_id = "1"; body = some "{}" } ∷ []) ∷ [])), s);
  xack = λ id s. (ok tt, s);
  xadd_dlq = λ id e d s. (ok tt, s);
  aclose = λ s. s;
}

abbrev served : Normalizer ℕ
served =
    (run one_trace (normalizer codes (some graph) parse_login fails_at_3) 2
      (record { redis = tt; self = empty_normalizer })).1.self

-- The first round fails, the second one emits.
one_path_emitted : length served.emitted ≡ 1
unfolding run iteration process_streams process handle
one_path_emitted = refl

service_emits_sound_example : All IsPath served.emitted
service_emits_sound_example =
    service_emits_sound whole-FloatLaws codes (some graph) parse_login fails_at_3 one_trace 2
      (record { redis = tt; self = empty_normalizer }) tt

abbrev first_attempt : Result (Unit {0}) × Normalizer ℕ
first_attempt = handle codes (some graph) parse_login fails_at_3 (some "{}") empty_normalizer

abbrev second_attempt : Result (Unit {0}) × Normalizer ℕ
second_attempt = handle codes (some graph) parse_login fails_at_3 (some "{}") first_attempt.1

retry_counts_twice_example :
    (first_attempt.0 ≡ raise (failure "redis"))
    × (first_attempt.1.emitted ≡ [])
    × (second_attempt.0 ≡ ok tt)
    × (length second_attempt.1.emitted ≡ 0 + 1)
    × (recorded "login" login_trace second_attempt.1
        ≡ occurrences "login" (reconstruct_call_tree login_trace.events)
          + occurrences "login" (reconstruct_call_tree login_trace.events)
          + recorded "login" login_trace empty_normalizer)
retry_counts_twice_example =
    retry_counts_twice codes (some graph) parse_login fails_at_3 "{}" "login" login_trace
      empty_normalizer refl (λ i. refl)
