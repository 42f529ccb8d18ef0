-- ===== src/Watcher/Polling/Progress.antt =====
-- That a round of the polling loop records the head when nothing fails.
use tersecontext.Prelude.{
  ℕ, suc, ◌+◌, String, Bool, true, false, Option, none, some, List, [], ◌∷◌, ◌++◌, ◌≡◌, refl,
  eq_iff, eq_refl, length, arith,
}
use tersecontext.Prelude.Dict
use tersecontext.Prelude.Effects.{
  Result, ok, raise, Action, continue, pure, try_except, ◌>>=◌, ◌>>◌,
}
use tersecontext.Watcher.Models.{FileChangedEvent, Tools}
use tersecontext.Watcher.Differ.{Change, detect_language, get_all_files, get_changed_files}
use tersecontext.Watcher.Polling.{
  Watcher, lift, command, emit_event, unless_blank, get_last_sha, set_last_sha, rescan_event,
  change_event, rescan_files, report_changes, process_commit, logged, same_sha, index_head, poll,
}
use tersecontext.Watcher.Polling.Reported.{
  both, scanned, described, scanned_all, described_all, commit_events,
}

same_sha_recorded :
    (sha : String) (o : Option String) → same_sha sha (unless_blank o) ≡ true → o ≡ some sha
same_sha_recorded sha none h = ground (arith, h)
same_sha_recorded sha (some prev_sha) h = ground (arith, eq_iff sha prev_sha, h)

abbrev pub is_ok : {A : Type 0} → Result A → Bool
is_ok (ok a) = true
is_ok (raise e) = false

module _ (is_up : ℕ → Bool) (up : (i : ℕ) → is_up i ≡ true) where
  emitted_returns :
      (made : Result FileChangedEvent) (m : Action Watcher ℕ)
      (rest : Result (List FileChangedEvent)) (s : Watcher)
      → is_ok (both made rest) ≡ true
      → ((q : Watcher) → is_ok rest ≡ true → is_ok (m q).0 ≡ true)
      → is_ok ((lift made >>= (λ event. emit_event is_up event) >> m) s).0 ≡ true
  unfolding emit_event command
  emitted_returns (raise e) m rest s made h = ground (arith, made)
  emitted_returns (ok event) m (raise e) s made h = ground (arith, made)
  emitted_returns (ok event) m (ok events) s made h =
      let q = record s { commands = suc s.commands; events = s.events ++ event ∷ [] } in
      ground (arith, up s.commands, h q refl)

  turn_returns :
      (language : Option String) (made : String → Result FileChangedEvent)
      (skipped m : Action Watcher ℕ) (rest : Result (List FileChangedEvent)) (s : Watcher)
      → ((q : Watcher) → is_ok rest ≡ true → is_ok (skipped q).0 ≡ true)
      → ((q : Watcher) → is_ok rest ≡ true → is_ok (m q).0 ≡ true)
      → is_ok (elim language [ none ↦ rest | some l ↦ both (made l) rest ]) ≡ true
      → (let turn : Action Watcher ℕ = elim language [
        | none ↦ skipped
        | some l ↦ lift (made l) >>= (λ event. emit_event is_up event) >> m
      ] in
          is_ok (turn s).0 ≡ true)
  turn_returns none made skipped m rest s hs hm h = hs s h
  turn_returns (some l) made skipped m rest s hs hm h = emitted_returns (made l) m rest s h hm

  counting_returns :
      (r : Result ℕ) (files : ℕ) (q : Watcher)
      → is_ok r ≡ true
      → is_ok (continue r (λ n. pure {S = Watcher} {A = ℕ × ℕ} (n, files)) q).0 ≡ true
  counting_returns (ok n) files q h = refl
  counting_returns (raise e) files q h = h

  module _ (tools : Tools) (repo sha : String) where
    rescan_files_returns :
        (files : List String) (n : ℕ) (s : Watcher)
        → is_ok (scanned tools repo sha files) ≡ true
        → is_ok (rescan_files is_up tools repo sha files n s).0 ≡ true
    unfolding rescan_files
    rescan_files_returns [] n s h = refl
    rescan_files_returns (path ∷ files) n s h =
        turn_returns (detect_language tools path) (rescan_event tools repo sha path)
          (rescan_files is_up tools repo sha files n)
          (rescan_files is_up tools repo sha files (n + 1)) (scanned tools repo sha files) s
          (rescan_files_returns files n) (rescan_files_returns files (n + 1)) h

    report_changes_returns :
        (prev_sha : String) (changes : List Change) (n : ℕ) (s : Watcher)
        → is_ok (described tools repo sha prev_sha changes) ≡ true
        → is_ok (report_changes is_up tools repo sha prev_sha changes n s).0 ≡ true
    unfolding report_changes
    report_changes_returns prev_sha [] n s h = refl
    report_changes_returns prev_sha ((path, t) ∷ changes) n s h =
        turn_returns (detect_language tools path)
          (λ l. change_event tools repo sha prev_sha path l t)
          (report_changes is_up tools repo sha prev_sha changes n)
          (report_changes is_up tools repo sha prev_sha changes (n + 1))
          (described tools repo sha prev_sha changes) s (report_changes_returns prev_sha changes n)
          (report_changes_returns prev_sha changes (n + 1)) h

    rescan_returns :
        (files : Result (List String)) (s : Watcher)
        → is_ok (scanned_all tools repo sha files) ≡ true
        → is_ok
            (continue files
              (λ fs.
                rescan_files is_up tools repo sha fs 0 >>= λ n. pure {A = ℕ × ℕ} (n, length fs))
              s).0
          ≡ true
    rescan_returns (raise e) s h = h
    rescan_returns (ok files) s h =
        let r = rescan_files is_up tools repo sha files 0 s in
        counting_returns r.0 (length files) r.1 (rescan_files_returns files 0 s h)

    report_returns :
        (prev_sha : String) (changes : Result (List Change)) (s : Watcher)
        → is_ok (described_all tools repo sha prev_sha changes) ≡ true
        → is_ok
            (continue changes
              (λ cs. report_changes is_up tools repo sha prev_sha cs 0 >>= λ n.
                pure {A = ℕ × ℕ} (n, length cs))
              s).0
          ≡ true
    report_returns prev_sha (raise e) s h = h
    report_returns prev_sha (ok changes) s h =
        let r = report_changes is_up tools repo sha prev_sha changes 0 s in
        counting_returns r.0 (length changes) r.1 (report_changes_returns prev_sha changes 0 s h)

    process_commit_returns :
        (prev_sha : Option String) (s : Watcher)
        → is_ok (commit_events tools repo sha prev_sha) ≡ true
        → is_ok (process_commit is_up tools repo sha prev_sha s).0 ≡ true
    unfolding process_commit
    process_commit_returns none s h = rescan_returns (get_all_files tools) s h
    process_commit_returns (some prev_sha) s h =
        report_returns prev_sha (get_changed_files tools prev_sha sha) s h

    -- Recording behind a commit that was processed.
    recorded :
        (r : Result (ℕ × ℕ)) (q : Watcher)
        → is_ok r ≡ true
        → Dict.get repo (try_except (continue r (λ n. set_last_sha is_up repo sha)) logged q).1.shas
          ≡ some sha
    unfolding set_last_sha command
    recorded (raise e) q h = ground (arith, h)
    recorded (ok n) q h =
        ground (arith, up q.commands, Dict.get-put repo repo sha q.shas, eq_refl repo)

  -- When Redis answers every command and the events of the head can be made (every command of git succeeds,
  -- and every parse returns), one round records the head.
  pub poll-records :
      (tools : Tools) (repo sha : String) (s : Watcher)
      → tools.rev_parse ≡ some sha
      → is_ok (commit_events tools repo sha (unless_blank (Dict.get repo s.shas))) ≡ true
      → Dict.get repo (poll is_up tools repo s).1.shas ≡ some sha
  unfolding poll index_head get_last_sha command
  poll-records tools repo sha s head made =
      let prev_sha = unless_blank (Dict.get repo s.shas) in
      let r =
        process_commit is_up tools repo sha prev_sha (record s { commands = suc s.commands }) in
      let returned =
        process_commit_returns tools repo sha prev_sha (record s { commands = suc s.commands })
          made in
      ground (
        arith,
        head,
        up s.commands,
        recorded tools repo sha r.0 r.1 returned,
        same_sha_recorded sha (Dict.get repo s.shas),
      )
