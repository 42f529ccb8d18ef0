-- ===== src/TraceRunner/Sent.antt =====
-- What counts as traced was sent, whatever fails.
use tersecontext.Prelude.{
  ◌==◌, ◌&&◌, ℕ, suc, String, Bool, true, false, ◌≡◌, refl, Option, none, some, List, [], ◌∷◌, ◌++◌,
  map, map-append, elem, elem-append, arith, eq_refl, Bool-cases, inl, inr, All,
}
use tersecontext.Prelude.Effects.{
  key_error, value_error, failure, cancelled, Result, ok, raise, Action, pure, try_except, continue,
  ◌>>◌, then_keeps, bind_keeps, for_each_keeps, try_keeps,
}
use tersecontext.Discoverer.{EntrypointJob}
use tersecontext.Normalizer.Models.{TraceEvent}
use tersecontext.TraceRunner.{
  Fate, answered, unavailable, timed_out, cut_off, CacheEntry, set_entry, Coverage, Filter, Runner,
  World, coverage_key, parse_coverage, unless_nil, settle, command, asked, key_of, exists,
  is_cached, marked, mark_cached, emit, known, noted, note_coverage, read_coverage, or_read,
  get_coverage_filter, filter_for, traced, trace_of, finish, after_run, run_traced, trace_job,
  unless_hit, process_job, log_outcome, done, job_done, round, run_worker,
}
use tersecontext.TraceRunner.Once.{trace_key}

abbrev pub WasSent : List String → CacheEntry → Type 0
WasSent sent e = elem e.key sent ≡ true

-- Each key of the cache is that of a trace in the stream.
abbrev pub IsSent : {F : Type 0} → Runner F → Type 0
IsSent s = All (WasSent (map trace_key s.emitted)) s.cache

set_entry-WasSent :
    (new : CacheEntry) (entries : List CacheEntry) (sent : List String)
    → elem new.key sent ≡ true
    → All (WasSent sent) entries
    → All (WasSent sent) (set_entry new entries)
unfolding set_entry
set_entry-WasSent new [] sent k h = (k, tt)
set_entry-WasSent new (e ∷ entries) sent k h = elim (Bool-cases (e.key == new.key)) [
  | inl same ↦ rw same (k, h.1)
  | inr other ↦ rw other (h.0, set_entry-WasSent new entries sent k h.1)
]

WasSent-more :
    (entries : List CacheEntry) (sent more : List String)
    → All (WasSent sent) entries
    → All (WasSent (sent ++ more)) entries
WasSent-more [] sent more h = tt
WasSent-more (e ∷ entries) sent more h =
    (rw (elem-append e.key sent more) (rw h.0 refl), WasSent-more entries sent more h.1)

module _ {F : Type 0} (world : World F) (fate : ℕ → Fate) where
  abbrev IsKeeping : {A : Type 0} → Action (Runner F) A → Type 0
  IsKeeping m = (s : Runner F) → IsSent s → IsSent (m s).1

  settle-IsSent :
      {A : Type 0} (f : Fate) (r : A × Runner F) (sent : Runner F)
      → IsSent r.1
      → IsSent sent
      → IsSent (settle world fate f r sent).1
  settle-IsSent answered r sent h k = h
  settle-IsSent unavailable r sent h k = k
  settle-IsSent timed_out r sent h k = k
  settle-IsSent cut_off r sent h k = h

  command-IsKeeping :
      {A : Type 0} (change : Runner F → A × Runner F)
      → ((s : Runner F) → IsSent s → IsSent (change s).1)
      → IsKeeping (command world fate change)
  unfolding command
  command-IsKeeping change k s h =
      let sent : Runner F = record s { commands = suc s.commands } in
      settle-IsSent (fate s.commands) (change sent) sent (k sent h) h

  note_coverage-IsKeeping :
      (key : String) (o : Option (Coverage F)) → IsKeeping (note_coverage world fate key o)
  note_coverage-IsKeeping key none = λ s h. h
  note_coverage-IsKeeping key (some c) =
      then_keeps IsSent (command world fate (noted world fate key (parse_coverage c)))
        (pure (parse_coverage c))
        (command-IsKeeping (noted world fate key (parse_coverage c)) (λ s h. h)) (λ s h. h)

  read_coverage-IsKeeping : (key : String) → IsKeeping (read_coverage world fate key)
  read_coverage-IsKeeping key s h = elim (Bool-cases (world.pytest_succeeds s.commands)) [
    | inl e ↦ rw e (
        bind_keeps IsSent (asked world fate world.coverage_json) (note_coverage world fate key)
          (λ s h. h) (note_coverage-IsKeeping key) s h)
    | inr e ↦ rw e h
  ]

  or_read-IsKeeping : (key : String) (o : Option (Filter F)) → IsKeeping (or_read world fate key o)
  or_read-IsKeeping key (some f) = λ s h. h
  or_read-IsKeeping key none = read_coverage-IsKeeping key

  filter_for-IsKeeping : (job : EntrypointJob) → IsKeeping (filter_for world fate job)
  unfolding get_coverage_filter
  filter_for-IsKeeping job s h = elim (Bool-cases world.has_repo_dir) [
    | inl e ↦ rw e (
        let key = coverage_key job.repo world.commit_sha in
        bind_keeps IsSent (command world fate (known world fate key)) (or_read world fate key)
          (command-IsKeeping (known world fate key) (λ s h. h)) (or_read-IsKeeping key) s h)
    | inr e ↦ rw e h
  ]

  -- The mark comes only behind the answer to the trace.
  abbrev HasTrace : String → Runner F → Type 0
  HasTrace k s = IsSent s × (elem k (map trace_key s.emitted) ≡ true)

  marked-IsSent :
      (k : String) (s : Runner F)
      → HasTrace k s
      → IsSent (command world fate (marked world fate k) s).1
  unfolding command
  marked-IsSent k s h =
      let sent : Runner F = record s { commands = suc s.commands } in
      settle-IsSent (fate s.commands) (marked world fate k sent) sent
        (set_entry-WasSent _ s.cache (map trace_key s.emitted) h.1 h.0) h.0

  sent_out-HasTrace :
      (job : EntrypointJob) (f : Filter F) (run : List (TraceEvent F) × F) (s : Runner F)
      → IsSent s
      → HasTrace (key_of world fate job) (record s {
        emitted = s.emitted ++ trace_of world fate job f run ∷ [];
        commands = suc s.commands;
      })
  sent_out-HasTrace job f run s h =
      let k = key_of world fate job in
      let trace = trace_of world fate job f run in
      rw (map-append trace_key s.emitted (trace ∷ [])) (
        WasSent-more s.cache (map trace_key s.emitted) (k ∷ []) h,
        rw (elem-append k (map trace_key s.emitted) (k ∷ [])) (ground (arith, eq_refl k)),
      )

  pure-IsSent :
      (r : Result (Unit {0})) (s : Runner F) → IsSent s → IsSent (continue r (λ _. pure done) s).1
  pure-IsSent (ok tt) s h = h
  pure-IsSent (raise e) s h = h

  -- What follows the trace, by what becomes of its command.
  after_emit :
      (job : EntrypointJob) (f : Fate) (sent later : Runner F)
      → IsSent sent
      → HasTrace (key_of world fate job) later
      → let r = settle world fate f (tt, later) sent in
        IsSent (continue r.0 (λ _. mark_cached world fate job) r.1).1
  unfolding mark_cached
  after_emit job answered sent later h l = marked-IsSent (key_of world fate job) later l
  after_emit job unavailable sent later h l = h
  after_emit job timed_out sent later h l = h
  after_emit job cut_off sent later h l = l.0

  finish-IsSent :
      (job : EntrypointJob) (f : Filter F) (run : List (TraceEvent F) × F)
      → IsKeeping (finish world fate job f run)
  unfolding finish emit command
  finish-IsSent job f run s h =
      let sent : Runner F = record s { commands = suc s.commands } in
      let later : Runner F = record s {
        emitted = s.emitted ++ trace_of world fate job f run ∷ [];
        commands = suc s.commands;
      } in
      let r = (emit world fate (trace_of world fate job f run) >> mark_cached world fate job) s in
      pure-IsSent r.0 r.1
        (after_emit job (fate s.commands) sent later h (sent_out-HasTrace job f run s h))

  after_run-IsSent :
      (job : EntrypointJob) (f : Filter F) (r : Result (List (TraceEvent F) × F))
      → IsKeeping (after_run world fate job f r)
  after_run-IsSent job f (ok run) = finish-IsSent job f run
  after_run-IsSent job f (raise cancelled) = λ s h. h
  after_run-IsSent job f (raise (key_error t)) = λ s h. h
  after_run-IsSent job f (raise (value_error t)) = λ s h. h
  after_run-IsSent job f (raise (failure t)) = λ s h. h

  run_traced-IsSent : (job : EntrypointJob) (f : Filter F) → IsKeeping (run_traced world fate job f)
  run_traced-IsSent job f s h =
      after_run-IsSent job f (traced world fate job f s).0 (traced world fate job f s).1 (
        bind_keeps IsSent (asked world fate (λ n. world.instrument n job (unless_nil f.0)))
          (λ session_id. asked world fate (λ n. world.run n session_id)) (λ s h. h)
          (λ session_id s h. h) s h)

  unless_hit-IsSent : (job : EntrypointJob) (b : Bool) → IsKeeping (unless_hit world fate job b)
  unfolding trace_job
  unless_hit-IsSent job true = λ s h. h
  unless_hit-IsSent job false =
      bind_keeps IsSent (filter_for world fate job) (run_traced world fate job)
        (filter_for-IsKeeping job) (run_traced-IsSent job)

  job_done-IsSent : (o : Option EntrypointJob) → IsKeeping (job_done world fate o)
  unfolding process_job is_cached
  job_done-IsSent none s h = h
  job_done-IsSent (some job) s h = elim (Bool-cases (job.language == "go" && world.has_go_client)) [
    | inl e ↦ rw e h
    | inr e ↦ rw e (
        bind_keeps IsSent (process_job world fate job) (log_outcome world fate job)
          (bind_keeps IsSent (is_cached world fate job) (unless_hit world fate job)
            (command-IsKeeping (exists world fate (key_of world fate job)) (λ s h. h))
            (unless_hit-IsSent job))
          (λ outcome s h. h) s h)
  ]

  -- Whatever jobs are queued, whichever commands of Redis fail, wherever a job is timed out, whatever
  -- the clock says and whatever the instrumenter, pytest and its coverage do: an entrypoint counts
  -- as traced only if its trace is in the stream, where that held at the start.
  pub run_worker-IsSent :
      (raws : List String) (s : Runner F) → IsSent s → IsSent (run_worker world fate raws s).1
  unfolding run_worker round
  run_worker-IsSent =
      for_each_keeps IsSent
        (λ raw. try_except (job_done world fate (world.job_of_json raw)) (λ e. pure tt))
        (λ raw.
          try_keeps IsSent (job_done world fate (world.job_of_json raw)) (λ e. pure tt)
            (job_done-IsSent (world.job_of_json raw)) (λ e s h. h))
