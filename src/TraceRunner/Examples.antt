-- ===== src/TraceRunner/Examples.antt =====
-- A job that is queued twice, and a text that is none.
use tersecontext.Prelude.{
  ℕ, String, true, false, ◌≡◌, refl, arith, none, some, List, [], ◌∷◌, ◌==◌, length, eqb,
  if◌then◌else◌,
}
use tersecontext.Prelude.Dict
use tersecontext.Prelude.Effects.{failure, ok, raise}
use tersecontext.Discoverer.{EntrypointJob}
use tersecontext.TraceRunner.{
  Fate, answered, timed_out, set_entry, Runner, World, hit, done, running, completed, poll,
  run_worker,
}
use tersecontext.TraceRunner.Once.{IsOnce, run_worker-IsOnce}
use tersecontext.TraceRunner.Sent.{IsSent, run_worker-IsSent}

abbrev job : EntrypointJob
job = record {
  stable_id = "e";
  name = "test_login";
  file_path = "a.py";
  priority = 3;
  repo = "r";
  language = "python";
}

abbrev world : World ℕ
world = record {
  commit_sha = "c";
  now = λ n. n;
  has_repo_dir = true;
  instrument = λ n job filter. ok "s";
  run = λ n session_id. ok ([], 5);
  pytest_succeeds = λ n. true;
  coverage_json = λ n.
      ok (some (record { files = ("a.py", 1 ∷ []) ∷ ("b.py", []) ∷ []; percent_covered = none }));
  job_of_json = λ raw. if raw == "job" then some job else none;
  has_go_client = false;
  go_instrument = λ job. raise (failure "");
  go_run = λ job session_id. raise (failure "");
  go_status = λ trace_id n. raise (failure "");
}

abbrev at_seven : World ℕ
at_seven = record world { now = λ n. 7 }

abbrev idle : Runner ℕ
idle = record { cache = []; coverage = []; emitted = []; logged = []; commands = 0 }

abbrev up : ℕ → Fate
up n = answered

abbrev raws : List String
raws = "job" ∷ "no job" ∷ "job" ∷ []

one_trace : length (run_worker world up raws idle).1.emitted ≡ 1
unfolding run_worker Dict.get set_entry Dict.put
one_trace = refl

outcomes_logged : (run_worker world up raws idle).1.logged ≡ ("e", done) ∷ ("e", hit) ∷ []
unfolding run_worker Dict.get set_entry Dict.put
outcomes_logged = refl

files_traced :
    Dict.get "coverage:r:c" (run_worker world up raws idle).1.coverage
    ≡ some ((some ("a.py" ∷ []), none), 86403)
unfolding run_worker Dict.get set_entry Dict.put
files_traced = refl

second_poll : poll (λ n. ok (if eqb n 1 then completed else running)) 120 0 ≡ done
unfolding poll
second_poll = refl

-- A job that is cut off between its trace and its mark is traced again.
two_traces :
    length (run_worker world (λ n. if eqb n 4 then timed_out else answered) raws idle).1.emitted ≡ 2
unfolding run_worker Dict.get set_entry Dict.put
two_traces = refl

run_worker-IsOnce_example : IsOnce (λ n. 7) (run_worker at_seven up raws idle).1
run_worker-IsOnce_example =
    run_worker-IsOnce at_seven up (λ n. refl) (λ m n. omega arith) raws idle
      (record { traces = refl; distinct = tt; fresh = tt })

run_worker-IsSent_example :
    IsSent (run_worker world (λ n. if eqb n 4 then timed_out else answered) raws idle).1
run_worker-IsSent_example =
    run_worker-IsSent world (λ n. if eqb n 4 then timed_out else answered) raws idle tt
