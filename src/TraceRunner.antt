-- ===== src/TraceRunner.antt =====
-- services/trace-runner/app: runner.py takes the queued jobs one by one, cache.py remembers what has been
-- traced, coverage.py finds the files to trace, go_client.py waits for the traces of Go programs.
pub mod Once
pub mod Sent
mod Examples
use tersecontext.Prelude.{
  ℕ, zero, suc, String, Bool, true, false, ◌&&◌, Option, none, some, List, [], ◌∷◌, ◌++◌, ◌==◌, ◌+◌,
  ◌||◌, ltb, elem, if◌then◌else◌,
}
use tersecontext.Prelude.Dict
use tersecontext.Prelude.Dict.{Dict}
use tersecontext.Prelude.Effects.{
  Exception, key_error, value_error, failure, cancelled, Result, ok, raise, Action, pure, throw,
  try_except, for_each, ◌>>=◌, ◌>>◌,
}
use Prim.Native.String.{◌++◌ as ◌<>◌}
use tersecontext.Discoverer.{EntrypointJob}
use tersecontext.Normalizer.Models.{TraceEvent}

-- models.py
pub record RawTrace (F : Type 0) : Type 0 where
  pub entrypoint_stable_id : String
  pub commit_sha : String
  pub repo : String
  pub duration_ms : F
  pub events : List (TraceEvent F)
  pub coverage_pct : Option F

-- What `process_job` returns.
pub data Outcome : Type 0 where
  hit done error : Outcome

-- coverage.json: the executed lines of each file, and the percentage.
pub record Coverage (F : Type 0) : Type 0 where
  pub files : List (String × List ℕ)
  pub percent_covered : Option F

-- The set of files and the percentage; no set means all files.
abbrev pub Filter : Type 0 → Type 0
Filter F = Option (List String) × Option F

-- A key of the cache and the second at which it expires.
pub record CacheEntry : Type 0 where
  pub key : String
  pub expires_at : ℕ

-- The cache of traces, the results of coverage with the second at which they expire, the stream of traces, the outcomes in the log, and the number of commands.
pub record Runner (F : Type 0) : Type 0 where
  pub cache : List CacheEntry
  pub coverage : Dict (Filter F × ℕ)
  pub emitted : List (RawTrace F)
  pub logged : List (String × Outcome)
  pub commands : ℕ

-- `status_data["status"]` of a Go run.
pub data Status : Type 0 where
  running completed failed : Status

-- The clock, the instrumenter, pytest and the file it writes, each at some number of commands, and the
-- services for Go, if they are set up.
pub record World (F : Type 0) : Type 0 where
  pub commit_sha : String
  pub now : ℕ → ℕ
  pub has_repo_dir : Bool
  pub instrument : ℕ → EntrypointJob → Option (List String) → Result String
  pub run : ℕ → String → Result (List (TraceEvent F) × F)
  pub pytest_succeeds : ℕ → Bool
  pub coverage_json : ℕ → Result (Option (Coverage F))
  pub job_of_json : String → Option EntrypointJob
  pub has_go_client : Bool
  pub go_instrument : EntrypointJob → Result String
  pub go_run : EntrypointJob → String → Result String
  pub go_status : String → ℕ → Result Status

-- The polls that are left; `status` is the answer of a poll, or it raises.
unfoldable pub poll : (ℕ → Result Status) → ℕ → ℕ → Outcome
poll status zero n = error
poll status (suc left) n =
    let later = poll status left (suc n) in
    elim (status n) [
      | raise e ↦ error
      | ok running ↦ later
      | ok completed ↦ done
      | ok failed ↦ error
    ]

-- `GoTraceClient.process_job`, by the answers of the two services.
unfoldable pub go_process_job :
    Result String → (String → Result String) → (String → ℕ → Result Status) → Outcome
unfolding poll
go_process_job (raise e) run status = error
go_process_job (ok session_id) run status = elim (run session_id) [
  | raise e ↦ error
  | ok trace_id ↦ poll (status trace_id) 120 0
]

-- CACHE_TTL_SECONDS, and CACHE_TTL of coverage.py: 24 hours.
abbrev pub cache_ttl_seconds : ℕ
cache_ttl_seconds = 86400

abbrev pub cache_key : String → String → String
cache_key commit_sha stable_id = "trace_cache:" <> commit_sha <> ":" <> stable_id

abbrev pub coverage_key : String → String → String
coverage_key repo commit_sha = "coverage:" <> repo <> ":" <> commit_sha

-- The files of which some line was executed.
abbrev pub executed_files : List (String × List ℕ) → List String
executed_files [] = []
executed_files ((file, []) ∷ files) = executed_files files
executed_files ((file, line ∷ lines) ∷ files) = file ∷ executed_files files

abbrev pub parse_coverage : {F : Type 0} → Coverage F → Filter F
parse_coverage c = (some (executed_files c.files), c.percent_covered)

-- `list(coverage_filter) if coverage_filter else None`
abbrev pub unless_nil : Option (List String) → Option (List String)
unless_nil none = none
unless_nil (some []) = none
unless_nil (some (f ∷ files)) = some (f ∷ files)

-- Redis has a key until it expires.
abbrev pub is_live : String → ℕ → List CacheEntry → Bool
is_live key now [] = false
is_live key now (e ∷ entries) = (e.key == key && ltb now e.expires_at) || is_live key now entries

-- `r.set(key, "1", ex=...)` on a key that Redis has, or has not.
unfoldable pub set_entry : CacheEntry → List CacheEntry → List CacheEntry
set_entry new [] = new ∷ []
set_entry new (e ∷ entries) =
    let rest = set_entry new entries in if e.key == new.key then new ∷ entries else e ∷ rest

-- What becomes of a command: Redis fails, or `wait_for` cancels the job while it waits, before the
-- command has its effect or after that.
pub data Fate : Type 0 where
  answered unavailable timed_out cut_off : Fate

module _ {F : Type 0} (world : World F) (fate : ℕ → Fate) where
  -- The end of a command that has an answer and an effect, or leaves the state as it was sent.
  abbrev pub settle : {A : Type 0} → Fate → A × Runner F → Runner F → Result A × Runner F
  settle answered (a, s') sent = (ok a, s')
  settle unavailable (a, s') sent = (raise (failure "unavailable"), sent)
  settle timed_out (a, s') sent = (raise cancelled, sent)
  settle cut_off (a, s') sent = (raise cancelled, s')

  unfoldable pub command : {A : Type 0} → (Runner F → A × Runner F) → Action (Runner F) A
  command change s =
      let sent : Runner F = record s { commands = suc s.commands } in
      settle (fate s.commands) (change sent) sent

  -- The answer of another service or program.
  abbrev pub asked : {A : Type 0} → (ℕ → Result A) → Action (Runner F) A
  asked answer s = (answer s.commands, s)

  abbrev pub key_of : EntrypointJob → String
  key_of job = cache_key world.commit_sha job.stable_id

  abbrev pub exists : String → Runner F → Bool × Runner F
  exists key s = (is_live key (world.now s.commands) s.cache, s)

  unfoldable pub is_cached : EntrypointJob → Action (Runner F) Bool
  unfolding command
  is_cached job = command (exists (key_of job))

  abbrev pub marked : String → Runner F → Unit {0} × Runner F
  marked key s =
      let expires_at = world.now s.commands + cache_ttl_seconds in
      (tt, record s { cache = set_entry (record { key = key; expires_at = expires_at }) s.cache })

  unfoldable pub mark_cached : EntrypointJob → Action (Runner F) (Unit {0})
  unfolding command set_entry
  mark_cached job = command (marked (key_of job))

  abbrev pub sent_out : RawTrace F → Runner F → Unit {0} × Runner F
  sent_out trace s = (tt, record s { emitted = s.emitted ++ trace ∷ [] })

  -- `_default_emit`
  unfoldable pub emit : RawTrace F → Action (Runner F) (Unit {0})
  unfolding command
  emit trace = command (sent_out trace)

  abbrev pub unless_expired : ℕ → Option (Filter F × ℕ) → Option (Filter F)
  unless_expired now none = none
  unless_expired now (some (f, expires_at)) = if ltb now expires_at then some f else none

  abbrev pub known : String → Runner F → Option (Filter F) × Runner F
  known key s = (unless_expired (world.now s.commands) (Dict.get key s.coverage), s)

  abbrev pub noted : String → Filter F → Runner F → Unit {0} × Runner F
  noted key f s =
      let expires_at = world.now s.commands + cache_ttl_seconds in
      (tt, record s { coverage = Dict.put key (f, expires_at) s.coverage })

  abbrev pub note_coverage : String → Option (Coverage F) → Action (Runner F) (Filter F)
  note_coverage key none = pure (none, none)
  note_coverage key (some c) = command (noted key (parse_coverage c)) >> pure (parse_coverage c)

  abbrev pub read_coverage : String → Action (Runner F) (Filter F)
  read_coverage key s =
      if world.pytest_succeeds s.commands
      then (asked world.coverage_json >>= note_coverage key) s
      else (ok (none, none), s)

  abbrev pub or_read : String → Option (Filter F) → Action (Runner F) (Filter F)
  or_read key (some f) = pure f
  or_read key none = read_coverage key

  unfoldable pub get_coverage_filter : String → Action (Runner F) (Filter F)
  unfolding command
  get_coverage_filter repo =
      command (known (coverage_key repo world.commit_sha))
      >>= or_read (coverage_key repo world.commit_sha)

  abbrev pub filter_for : EntrypointJob → Action (Runner F) (Filter F)
  filter_for job s =
      if world.has_repo_dir then get_coverage_filter job.repo s else (ok (none, none), s)

  -- Both calls of the instrumenter.
  abbrev pub traced : EntrypointJob → Filter F → Action (Runner F) (List (TraceEvent F) × F)
  traced job f = do
    session_id ← asked (λ n. world.instrument n job (unless_nil f.0))
    asked (λ n. world.run n session_id)

  abbrev pub trace_of : EntrypointJob → Filter F → List (TraceEvent F) × F → RawTrace F
  trace_of job f run = record {
    entrypoint_stable_id = job.stable_id;
    commit_sha = world.commit_sha;
    repo = job.repo;
    duration_ms = run.1;
    events = run.0;
    coverage_pct = f.1;
  }

  unfoldable pub finish :
      EntrypointJob → Filter F → List (TraceEvent F) × F → Action (Runner F) Outcome
  unfolding emit mark_cached
  finish job f run = emit (trace_of job f run) >> mark_cached job >> pure done

  -- `except Exception` around the instrumenter only.
  abbrev pub after_run :
      EntrypointJob → Filter F → Result (List (TraceEvent F) × F) → Action (Runner F) Outcome
  after_run job f (ok run) = finish job f run
  after_run job f (raise cancelled) = throw cancelled
  after_run job f (raise e) = pure error

  abbrev pub run_traced : EntrypointJob → Filter F → Action (Runner F) Outcome
  run_traced job f s = let (r, s') = traced job f s in after_run job f r s'

  unfoldable pub trace_job : EntrypointJob → Action (Runner F) Outcome
  unfolding get_coverage_filter finish
  trace_job job = filter_for job >>= run_traced job

  abbrev pub unless_hit : EntrypointJob → Bool → Action (Runner F) Outcome
  unless_hit job true = pure hit
  unless_hit job false = trace_job job

  unfoldable pub process_job : EntrypointJob → Action (Runner F) Outcome
  unfolding is_cached trace_job
  process_job job = is_cached job >>= unless_hit job

  abbrev pub log_outcome : EntrypointJob → Outcome → Action (Runner F) (Unit {0})
  log_outcome job outcome s =
      (ok tt, record s { logged = s.logged ++ (job.stable_id, outcome) ∷ [] })

  -- The trace of a Go job is sent by another service.
  abbrev pub go_outcome : EntrypointJob → Outcome
  go_outcome job = go_process_job (world.go_instrument job) (world.go_run job) world.go_status

  abbrev pub job_done : Option EntrypointJob → Action (Runner F) (Unit {0})
  job_done none s = (ok tt, s)
  job_done (some job) s =
      if job.language == "go" && world.has_go_client
      then log_outcome job (go_outcome job) s
      else (process_job job >>= log_outcome job) s

  -- A text that was popped. `wait_for` makes a job that takes too long a TimeoutError, at whatever
  -- command it waits, also between the trace and its mark; that and every other error is logged.
  unfoldable pub round : String → Action (Runner F) (Unit {0})
  unfolding process_job
  round raw = try_except (job_done (world.job_of_json raw)) (λ e. pure tt)

  -- The worker, by the texts that it pops.
  unfoldable pub run_worker : List String → Action (Runner F) (Unit {0})
  unfolding round
  run_worker = for_each round
