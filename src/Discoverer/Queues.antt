-- ===== src/Discoverer/Queues.antt =====
-- What a discovery leaves in the queues.
use tersecontext.Prelude.{
  ℕ, String, Bool, List, [], ◌∷◌, ◌++◌, ◌==◌, ◌≡◌, refl, sym, ap, append_assoc, append-nil, eq_iff,
  keep, length, arith, suc, true, false, ◌&&◌, Bool-cases, inl, inr, if◌then◌else◌,
}
use tersecontext.Prelude.Dict
use tersecontext.Prelude.Dict.{Dict}
use tersecontext.Prelude.Effects.{Result, ok, raise, failure, continue, pure}
use tersecontext.Prelude.Sort.{length-sorted}
use tersecontext.Discoverer.{
  EntrypointJob, Entrypoint, jobs_of, is_before, score_entrypoints, queue_key, Queues, queue,
  Server, push_each, push_jobs, run_discover,
}

queue-put :
    (key j : String) (jobs : List EntrypointJob) (r : Queues)
    → queue j (Dict.put key jobs r) ≡ (if key == j then jobs else queue j r)
queue-put key j jobs r = ground (arith, Dict.get-put key j jobs r)

module _ (repo : String) where
  -- The jobs that belong to a queue.
  abbrev pub belongs : String → EntrypointJob → Bool
  belongs key job = queue_key repo job.language == key

  module _ (is_up : ℕ → Bool) where
    -- The jobs before the first command that fails, the next one being the n-th.
    abbrev pub before_failure : ℕ → List EntrypointJob → List EntrypointJob
    before_failure n [] = []
    before_failure n (job ∷ jobs) =
        let rest = before_failure (suc n) jobs in if is_up n then job ∷ rest else []

    -- No command for a job fails.
    abbrev pub all_up : ℕ → List EntrypointJob → Bool
    all_up n [] = true
    all_up n (job ∷ jobs) = is_up n && all_up (suc n) jobs

    abbrev pub outcome_of : {A : Type 0} → Bool → A → Result A
    outcome_of true a = ok a
    outcome_of false a = raise (failure "unavailable")

    queue-push_each :
        (key : String) (jobs : List EntrypointJob) (s : Server)
        → queue key (push_each is_up repo jobs s).1.queues
          ≡ queue key s.queues ++ keep (belongs key) (before_failure s.commands jobs)
    unfolding push_each
    queue-push_each key [] s = sym (append-nil (queue key s.queues))
    queue-push_each key (job ∷ jobs) s =
        let own = queue_key repo job.language in
        let t : Server = record {
          queues = Dict.put own (queue own s.queues ++ job ∷ []) s.queues;
          commands = suc s.commands;
        } in
        elim (Bool-cases (is_up s.commands)) [
          | inl up ↦ rw up (
              ground (
                arith,
                queue-push_each key jobs t,
                queue-put own key (queue own s.queues ++ job ∷ []) s.queues,
                eq_iff own key,
                append_assoc (queue key s.queues) (job ∷ [])
                    (keep (belongs key) (before_failure (suc s.commands) jobs)),
              ))
          | inr down ↦ rw down (sym (append-nil (queue key s.queues)))
        ]

    outcome-push_each :
        (jobs : List EntrypointJob) (s : Server)
        → (push_each is_up repo jobs s).0 ≡ outcome_of (all_up s.commands jobs) tt
    unfolding push_each
    outcome-push_each [] s = refl
    outcome-push_each (job ∷ jobs) s =
        let own = queue_key repo job.language in
        elim (Bool-cases (is_up s.commands)) [
          | inl up ↦ rw up (
              outcome-push_each jobs (record {
                queues = Dict.put own (queue own s.queues ++ job ∷ []) s.queues;
                commands = suc s.commands;
              }))
          | inr down ↦ rw down refl
        ]

  length-jobs_of :
      (last_traced_map : Dict ℕ) (changed : List String) (eps : List Entrypoint)
      → length (jobs_of last_traced_map changed repo eps) ≡ length eps
  unfolding jobs_of
  length-jobs_of last_traced_map changed [] = refl
  length-jobs_of last_traced_map changed (ep ∷ eps) =
      omega (arith, length-jobs_of last_traced_map changed eps)

  length-score_entrypoints :
      (eps : List Entrypoint) (last_traced_map : Dict ℕ) (changed : List String)
      → length (score_entrypoints eps last_traced_map changed repo) ≡ length eps
  unfolding score_entrypoints
  length-score_entrypoints eps last_traced_map changed = omega (
    arith,
    length-sorted is_before (jobs_of last_traced_map changed repo eps),
    length-jobs_of last_traced_map changed eps,
  )

  module _ (is_up : ℕ → Bool) where
    -- The end of a discovery, by whether a push failed.
    discovered :
        (b : Bool) (r : Result (Unit {0})) (n m : ℕ) (t : Server)
        → r ≡ outcome_of is_up b tt
        → let pushed = continue r (λ _. pure m) t in
          continue pushed.0 (λ (queued : ℕ). pure {A = ℕ × ℕ} (n, queued)) pushed.1
          ≡ (outcome_of is_up b (n, m), t)
    discovered true r n m t e = rw e refl
    discovered false r n m t e = rw e refl

    -- Whichever pushes fail: a discovery appends to each queue the ranked jobs of its language before
    -- the first failure, in their order, behind what it held, and changes no other key. It returns
    -- exactly if no push fails, and then it counts every entrypoint as discovered and as queued.
    pub run_discover-queues :
        (eps : List Entrypoint) (last_traced_map : Dict ℕ) (changed : List String) (s : Server)
        (key : String)
        → let jobs = score_entrypoints eps last_traced_map changed repo in
          let r = run_discover is_up eps last_traced_map changed repo s in
          (queue key r.1.queues
            ≡ queue key s.queues ++ keep (belongs key) (before_failure is_up s.commands jobs))
          × (r.0 ≡ outcome_of is_up (all_up is_up s.commands jobs) (length eps, length eps))
    unfolding run_discover push_jobs
    run_discover-queues eps last_traced_map changed s key =
        let jobs = score_entrypoints eps last_traced_map changed repo in
        let pushed = push_each is_up repo jobs s in
        let end =
          discovered (all_up is_up s.commands jobs) pushed.0 (length eps) (length jobs) pushed.1
            (outcome-push_each is_up jobs s) in
        let n : length jobs ≡ length eps = length-score_entrypoints eps last_traced_map changed in
        rw end (
          queue-push_each is_up key jobs s,
          ap (λ m. outcome_of is_up (all_up is_up s.commands jobs) (length eps, m)) n,
        )
