-- ===== src/Discoverer.antt =====
-- services/entrypoint-discoverer/app: scorer.py ranks the entrypoints of a repository, queue.py pushes them
-- to the queue of their language, discoverer.py does both. The answers of Neo4j and Postgres are arguments; Redis may fail at every push.
pub mod Ranking
pub mod Queues
mod Examples
use tersecontext.Prelude.{
  ℕ, suc, String, Bool, true, false, Option, none, some, List, [], ◌∷◌, ◌++◌, ◌==◌, ltb, elem,
  length, if◌then◌else◌,
}
use tersecontext.Prelude.Dict
use tersecontext.Prelude.Dict.{Dict}
use tersecontext.Prelude.Effects.{failure, ok, raise, Action, pure, ◌>>=◌, ◌>>◌}
use tersecontext.Prelude.Sort.{sorted}
use tersecontext.Prelude.Text.{codes, at_start, somewhere}
use Prim.Native.String.{◌++◌ as join}

-- models.py
pub record EntrypointJob : Type 0 where
  pub stable_id : String
  pub name : String
  pub file_path : String
  pub priority : ℕ
  pub repo : String
  pub language : String

-- A row of ENTRYPOINT_QUERY.
pub record Entrypoint : Type 0 where
  pub stable_id : String
  pub name : String
  pub file_path : String

abbrev pub is_nil : List ℕ → Bool
is_nil [] = true
is_nil (c ∷ cs) = false

-- `file_path.endswith(".go")`
unfoldable pub detect_language : String → String
detect_language file_path =
    if somewhere (at_start is_nil (codes ".go")) (codes file_path) then "go" else "python"

abbrev pub priority_of : Option ℕ → Bool → ℕ
priority_of none changed = 2
priority_of (some last_traced) true = 3
priority_of (some last_traced) false = 1

module _ (last_traced_map : Dict ℕ) (changed_dep_ids : List String) (repo : String) where
  unfoldable pub job_of : Entrypoint → EntrypointJob
  unfolding detect_language
  job_of ep = record {
    stable_id = ep.stable_id;
    name = ep.name;
    file_path = ep.file_path;
    priority =
        priority_of (Dict.get ep.stable_id last_traced_map) (elem ep.stable_id changed_dep_ids);
    repo = repo;
    language = detect_language ep.file_path;
  }

  unfoldable pub jobs_of : List Entrypoint → List EntrypointJob
  unfolding job_of
  jobs_of [] = []
  jobs_of (ep ∷ eps) = job_of ep ∷ jobs_of eps

-- `key=lambda j: j.priority, reverse=True` keeps the order of equal keys.
abbrev pub is_before : EntrypointJob → EntrypointJob → Bool
is_before i j = ltb j.priority i.priority

unfoldable pub score_entrypoints :
    List Entrypoint → Dict ℕ → List String → String → List EntrypointJob
unfolding jobs_of sorted
score_entrypoints entrypoints last_traced_map changed_dep_ids repo =
    sorted is_before (jobs_of last_traced_map changed_dep_ids repo entrypoints)

unfoldable pub queue_key : String → String → String
queue_key repo language =
    let key = join "entrypoint_queue:" repo in if language == "go" then join key ":go" else key

-- The lists of Redis.
abbrev pub Queues : Type 0
Queues = Dict (List EntrypointJob)

abbrev pub queue : String → Queues → List EntrypointJob
queue key r = elim (Dict.get key r) [ none ↦ [] | some jobs ↦ jobs ]

-- Redis, and the number of commands sent.
pub record Server : Type 0 where
  pub queues : Queues
  pub commands : ℕ

module _ (is_up : ℕ → Bool) where
  -- A command puts the job at the end of the queue, or it raises.
  unfoldable pub rpush : String → EntrypointJob → Action Server (Unit {0})
  rpush key job s =
      let sent : Server = record s { commands = suc s.commands } in
      if is_up s.commands
      then (ok tt, record sent { queues = Dict.put key (queue key s.queues ++ job ∷ []) s.queues })
      else (raise (failure "unavailable"), sent)

  unfoldable pub push_each : String → List EntrypointJob → Action Server (Unit {0})
  unfolding rpush
  push_each repo [] = pure tt
  push_each repo (job ∷ jobs) = rpush (queue_key repo job.language) job >> push_each repo jobs

  unfoldable pub push_jobs : String → List EntrypointJob → Action Server ℕ
  unfolding push_each
  push_jobs repo jobs = push_each repo jobs >> pure (length jobs)

  -- `{"discovered": N, "queued": M}` and the queues.
  unfoldable pub run_discover :
      List Entrypoint → Dict ℕ → List String → String → Action Server (ℕ × ℕ)
  unfolding score_entrypoints push_jobs
  run_discover entrypoints last_traced_map changed_dep_ids repo =
      push_jobs repo (score_entrypoints entrypoints last_traced_map changed_dep_ids repo)
      >>= λ queued. pure (length entrypoints, queued)
