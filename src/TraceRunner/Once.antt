-- ===== src/TraceRunner/Once.antt =====
-- Within a day without faults, each entrypoint is traced at most once.
use tersecontext.Prelude.{
  ◌==◌, ◌&&◌, ℕ, suc, String, Bool, true, false, ◌≡◌, refl, sym, ap, ◌<◌, ◌+◌, All, All-append,
  Option, none, some, List, [], ◌∷◌, ◌++◌, map, map-append, elem, IsDistinct, IsDistinct-last,
  arith, Bool-cases, inl, inr,
}
use tersecontext.Prelude.Effects.{
  key_error, value_error, failure, cancelled, Result, ok, raise, Action, pure, try_except, continue,
  bind_keeps, for_each_keeps, try_keeps,
}
use tersecontext.Discoverer.{EntrypointJob}
use tersecontext.Normalizer.Models.{TraceEvent}
use tersecontext.TraceRunner.{
  Fate, answered, CacheEntry, is_live, set_entry, cache_ttl_seconds, RawTrace, Coverage, Filter,
  Runner, World, cache_key, coverage_key, parse_coverage, unless_nil, command, asked, key_of,
  exists, is_cached, marked, sent_out, known, noted, note_coverage, read_coverage, or_read,
  get_coverage_filter, filter_for, traced, trace_of, finish, after_run, run_traced, trace_job,
  unless_hit, process_job, log_outcome, go_outcome, Outcome, job_done, round, run_worker,
}

-- The cache key of a trace.
abbrev pub trace_key : {F : Type 0} → RawTrace F → String
trace_key t = cache_key t.commit_sha t.entrypoint_stable_id

abbrev pub keys_of : List CacheEntry → List String
keys_of [] = []
keys_of (e ∷ entries) = e.key ∷ keys_of entries

keys-append : (xs ys : List CacheEntry) → keys_of (xs ++ ys) ≡ keys_of xs ++ keys_of ys
keys-append [] ys = refl
keys-append (x ∷ xs) ys = ap (λ keys. x.key ∷ keys) (keys-append xs ys)

-- The cache holds the keys of the traces, in order, no key twice, and none that expires while the worker runs.
pub record IsOnce {F : Type 0} (now : ℕ → ℕ) (s : Runner F) : Type 0 where
  pub traces : map trace_key s.emitted ≡ keys_of s.cache
  pub distinct : IsDistinct (keys_of s.cache)
  pub fresh : All (λ (e : CacheEntry). (n : ℕ) → now n < e.expires_at) s.cache

is_live-fresh :
    (now : ℕ → ℕ) (k : String) (n : ℕ) (entries : List CacheEntry)
    → All (λ (e : CacheEntry). (n : ℕ) → now n < e.expires_at) entries
    → is_live k (now n) entries ≡ elem k (keys_of entries)
is_live-fresh now k n [] h = refl
is_live-fresh now k n (e ∷ entries) h = ground (arith, h.0 n, is_live-fresh now k n entries h.1)

-- A new key goes to the end.
set_entry-new :
    (new : CacheEntry) (entries : List CacheEntry)
    → elem new.key (keys_of entries) ≡ false
    → set_entry new entries ≡ entries ++ new ∷ []
unfolding set_entry
set_entry-new new [] h = refl
set_entry-new new (e ∷ entries) h = elim (Bool-cases (e.key == new.key)) [
  | inl same ↦ ground (arith, h, same)
  | inr other ↦
      rw other (ap (λ rest. e ∷ rest) (set_entry-new new entries (ground (arith, h, other))))
]

module _ {F : Type 0} (world : World F) (fate : ℕ → Fate) (no_fault : (n : ℕ) → fate n ≡ answered)
    (within_a_day : (m n : ℕ) → world.now n < world.now m + cache_ttl_seconds) where
  command_up :
      {A : Type 0} (change : Runner F → A × Runner F) (s : Runner F)
      → command world fate change s
        ≡ (let (a, s') = change (record s { commands = suc s.commands }) in (ok a, s'))
  unfolding command
  command_up change s = rw (no_fault s.commands) refl

  -- Traced once, and the key is new.
  abbrev IsNew : String → Runner F → Type 0
  IsNew k s = IsOnce world.now s × (elem k (keys_of s.cache) ≡ false)

  module _ (k : String) where
    abbrev IsKeeping : {A : Type 0} → Action (Runner F) A → Type 0
    IsKeeping m = (s : Runner F) → IsNew k s → IsNew k (m s).1

    note_coverage-IsKeeping :
        (key : String) (o : Option (Coverage F)) → IsKeeping (note_coverage world fate key o)
    note_coverage-IsKeeping key none s h = h
    note_coverage-IsKeeping key (some c) s h =
        rw (command_up (noted world fate key (parse_coverage c)) s)
          (record { traces = h.0.traces; distinct = h.0.distinct; fresh = h.0.fresh }, h.1)

    read_coverage-IsKeeping : (key : String) → IsKeeping (read_coverage world fate key)
    read_coverage-IsKeeping key s h = elim (Bool-cases (world.pytest_succeeds s.commands)) [
      | inl e ↦ rw e (
          bind_keeps (IsNew k) (asked world fate world.coverage_json) (note_coverage world fate key)
            (λ s h. h) (note_coverage-IsKeeping key) s h)
      | inr e ↦ rw e h
    ]

    or_read-IsKeeping :
        (key : String) (o : Option (Filter F)) → IsKeeping (or_read world fate key o)
    or_read-IsKeeping key (some f) s h = h
    or_read-IsKeeping key none s h = read_coverage-IsKeeping key s h

    known-IsKeeping : (key : String) → IsKeeping (command world fate (known world fate key))
    known-IsKeeping key s h =
        rw (command_up (known world fate key) s)
          (record { traces = h.0.traces; distinct = h.0.distinct; fresh = h.0.fresh }, h.1)

    filter_for-IsKeeping : (job : EntrypointJob) → IsKeeping (filter_for world fate job)
    unfolding get_coverage_filter
    filter_for-IsKeeping job s h = elim (Bool-cases world.has_repo_dir) [
      | inl e ↦ rw e (
          let key = coverage_key job.repo world.commit_sha in
          bind_keeps (IsNew k) (command world fate (known world fate key)) (or_read world fate key)
            (known-IsKeeping key) (or_read-IsKeeping key) s h)
      | inr e ↦ rw e h
    ]

    traced-IsKeeping : (job : EntrypointJob) (f : Filter F) → IsKeeping (traced world fate job f)
    traced-IsKeeping job f =
        bind_keeps (IsNew k) (asked world fate (λ n. world.instrument n job (unless_nil f.0)))
          (λ session_id. asked world fate (λ n. world.run n session_id)) (λ s h. h)
          (λ session_id s h. h)

  -- The trace is sent, and then its key is kept.
  finish-IsOnce :
      (job : EntrypointJob) (f : Filter F) (run : List (TraceEvent F) × F) (s : Runner F)
      → IsNew (key_of world fate job) s
      → IsOnce world.now (finish world fate job f run s).1
  unfolding finish
  finish-IsOnce job f run s h =
      let k = key_of world fate job in
      let trace = trace_of world fate job f run in
      let sent : Runner F = record s {
        emitted = s.emitted ++ trace ∷ [];
        commands = suc s.commands;
      } in
      let new : CacheEntry = record {
        key = k;
        expires_at = world.now (suc sent.commands) + cache_ttl_seconds;
      } in
      rw (command_up (sent_out world fate trace) s) (
        rw (command_up (marked world fate k) sent) (
          rw (set_entry-new new s.cache h.1) (record {
            traces =
                rw (map-append trace_key s.emitted (trace ∷ []))
                  (rw (keys-append s.cache (new ∷ [])) (ap (λ keys. keys ++ k ∷ []) h.0.traces));
            distinct =
                rw (keys-append s.cache (new ∷ []))
                  (IsDistinct-last k (keys_of s.cache) h.1 h.0.distinct);
            fresh =
                All-append (λ (e : CacheEntry). (n : ℕ) → world.now n < e.expires_at) s.cache
                  (new ∷ []) h.0.fresh (within_a_day (suc sent.commands), tt);
          })))

  after_run-IsOnce :
      (job : EntrypointJob) (f : Filter F) (r : Result (List (TraceEvent F) × F)) (s : Runner F)
      → IsNew (key_of world fate job) s
      → IsOnce world.now (after_run world fate job f r s).1
  after_run-IsOnce job f (ok run) s h = finish-IsOnce job f run s h
  after_run-IsOnce job f (raise cancelled) s h = h.0
  after_run-IsOnce job f (raise (key_error t)) s h = h.0
  after_run-IsOnce job f (raise (value_error t)) s h = h.0
  after_run-IsOnce job f (raise (failure t)) s h = h.0

  traced_or_raised :
      (job : EntrypointJob) (r : Result (Filter F)) (s : Runner F)
      → IsNew (key_of world fate job) s
      → IsOnce world.now (continue r (run_traced world fate job) s).1
  traced_or_raised job (raise e) s h = h.0
  traced_or_raised job (ok f) s h =
      after_run-IsOnce job f (traced world fate job f s).0 (traced world fate job f s).1
        (traced-IsKeeping (key_of world fate job) job f s h)

  trace_job-IsOnce :
      (job : EntrypointJob) (s : Runner F)
      → IsNew (key_of world fate job) s
      → IsOnce world.now (trace_job world fate job s).1
  unfolding trace_job
  trace_job-IsOnce job s h =
      traced_or_raised job (filter_for world fate job s).0 (filter_for world fate job s).1
        (filter_for-IsKeeping (key_of world fate job) job s h)

  unless_hit-IsOnce :
      (job : EntrypointJob) (b : Bool) (s : Runner F)
      → elem (key_of world fate job) (keys_of s.cache) ≡ b
      → IsOnce world.now s
      → IsOnce world.now (unless_hit world fate job b s).1
  unless_hit-IsOnce job true s e h = h
  unless_hit-IsOnce job false s e h = trace_job-IsOnce job s (h, e)

  process_job-IsOnce :
      (job : EntrypointJob) (s : Runner F)
      → IsOnce world.now s
      → IsOnce world.now (process_job world fate job s).1
  unfolding process_job is_cached
  process_job-IsOnce job s h =
      let sent : Runner F = record s { commands = suc s.commands } in
      rw (command_up (exists world fate (key_of world fate job)) s) (
        unless_hit-IsOnce job (is_live (key_of world fate job) (world.now sent.commands) s.cache)
          sent (sym (is_live-fresh world.now (key_of world fate job) sent.commands s.cache h.fresh))
          (record { traces = h.traces; distinct = h.distinct; fresh = h.fresh }))

  log_outcome-IsOnce :
      (job : EntrypointJob) (outcome : Outcome) (s : Runner F)
      → IsOnce world.now s
      → IsOnce world.now (log_outcome world fate job outcome s).1
  log_outcome-IsOnce job outcome s h = record {
    traces = h.traces;
    distinct = h.distinct;
    fresh = h.fresh;
  }

  job_done-IsOnce :
      (o : Option EntrypointJob) (s : Runner F)
      → IsOnce world.now s
      → IsOnce world.now (job_done world fate o s).1
  job_done-IsOnce none s h = h
  job_done-IsOnce (some job) s h = elim (Bool-cases (job.language == "go" && world.has_go_client)) [
    | inl e ↦ rw e (log_outcome-IsOnce job (go_outcome world fate job) s h)
    | inr e ↦ rw e (
        bind_keeps (λ (s : Runner F). IsOnce world.now s) (process_job world fate job)
          (log_outcome world fate job) (process_job-IsOnce job) (log_outcome-IsOnce job) s h)
  ]

  -- If no command of Redis fails, no job is timed out at one, and the clock at any two commands differs
  -- by less than 24 hours, then whatever jobs are queued, in whatever order and how often, and whatever
  -- the instrumenter, pytest and its coverage do, also where they raise or take too long: the worker
  -- sends at most one trace for each entrypoint of its commit, and an entrypoint counts as traced
  -- exactly if its trace was sent, where that held at the start and no mark of the start expires.
  pub run_worker-IsOnce :
      (raws : List String) (s : Runner F)
      → IsOnce world.now s
      → IsOnce world.now (run_worker world fate raws s).1
  unfolding run_worker round
  run_worker-IsOnce =
      for_each_keeps (λ (s : Runner F). IsOnce world.now s)
        (λ raw. try_except (job_done world fate (world.job_of_json raw)) (λ e. pure tt))
        (λ raw.
          try_keeps (λ (s : Runner F). IsOnce world.now s)
            (job_done world fate (world.job_of_json raw)) (λ e. pure tt)
            (job_done-IsOnce (world.job_of_json raw)) (λ e s h. h))
