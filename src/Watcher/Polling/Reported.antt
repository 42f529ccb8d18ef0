-- ===== src/Watcher/Polling/Reported.antt =====
-- What a round of the polling loop leaves in Redis.
use tersecontext.Prelude.{
  ℕ, suc, ◌+◌, String, Bool, Option, none, some, List, [], ◌∷◌, ◌++◌, ◌≡◌, refl, ◌⊎◌, inl, inr,
  append-nil, append_assoc, Bool-cases, length, arith,
}
use tersecontext.Prelude.Dict
use tersecontext.Prelude.Dict.{Dict}
use tersecontext.Prelude.Effects.{
  Exception, Result, ok, raise, Action, continue, pure, try_except, ◌>>=◌, ◌>>◌,
}
use tersecontext.Watcher.Models.{FileChangedEvent, Tools}
use tersecontext.Watcher.Differ.{Change, detect_language, get_all_files, get_changed_files}
use tersecontext.Watcher.Polling.{
  Watcher, lift, command, emit_event, unless_blank, get_last_sha, set_last_sha, rescan_event,
  change_event, rescan_files, report_changes, process_commit, logged, index_head, poll,
}

abbrev pub both :
    Result FileChangedEvent → Result (List FileChangedEvent) → Result (List FileChangedEvent)
both (raise e) rest = raise e
both (ok event) (raise e) = raise e
both (ok event) (ok events) = ok (event ∷ events)

-- The stream with some more events, where these could be made.
abbrev pub added_to :
    List FileChangedEvent → Result (List FileChangedEvent) → Result (List FileChangedEvent)
added_to events (ok more) = ok (events ++ more)
added_to events (raise e) = raise e

module _ (tools : Tools) (repo sha : String) where
  -- The events of a scan of some files, and of some changes: one for each file of a known language, in order.
  abbrev pub scanned : List String → Result (List FileChangedEvent)
  scanned [] = ok []
  scanned (path ∷ files) =
      let rest = scanned files in
      elim (detect_language tools path) [
        | none ↦ rest
        | some language ↦ both (rescan_event tools repo sha path language) rest
      ]

  abbrev pub described : String → List Change → Result (List FileChangedEvent)
  described prev_sha [] = ok []
  described prev_sha ((path, t) ∷ changes) =
      let rest = described prev_sha changes in
      elim (detect_language tools path) [
        | none ↦ rest
        | some language ↦ both (change_event tools repo sha prev_sha path language t) rest
      ]

  abbrev pub scanned_all : Result (List String) → Result (List FileChangedEvent)
  scanned_all (ok files) = scanned files
  scanned_all (raise e) = raise e

  abbrev pub described_all : String → Result (List Change) → Result (List FileChangedEvent)
  described_all prev_sha (ok changes) = described prev_sha changes
  described_all prev_sha (raise e) = raise e

  -- The events of a commit, against the last one that was indexed.
  abbrev pub commit_events : Option String → Result (List FileChangedEvent)
  commit_events none = scanned_all (get_all_files tools)
  commit_events (some prev_sha) = described_all prev_sha (get_changed_files tools prev_sha sha)

added_to-both :
    (events : List FileChangedEvent) (event : FileChangedEvent)
    (rest : Result (List FileChangedEvent))
    → added_to events (both (ok event) rest) ≡ added_to (events ++ event ∷ []) rest
added_to-both events event (ok more) = cc (append_assoc events (event ∷ []) more)
added_to-both events event (raise e) = refl

-- A statement that, where it returns, has put these events on the stream, and that leaves the keys alone.
record Reports {A : Type 0} (m : Action Watcher A) (events : Result (List FileChangedEvent))
    (s : Watcher) : Type 0 where
  sent : (a : A) → (m s).0 ≡ ok a → added_to s.events events ≡ ok (m s).1.events
  kept : (m s).1.shas ≡ s.shas

module _ (is_up : ℕ → Bool) where
  emitted_then :
      (made : Result FileChangedEvent) (m : Action Watcher ℕ)
      (rest : Result (List FileChangedEvent)) (s : Watcher)
      → ((q : Watcher) → Reports m rest q)
      → Reports (lift made >>= (λ event. emit_event is_up event) >> m) (both made rest) s
  unfolding emit_event command
  emitted_then (raise e) m rest s h = record { sent = λ a k. ground arith; kept = refl }
  emitted_then (ok event) m rest s h =
      let q = record s { commands = suc s.commands; events = s.events ++ event ∷ [] } in
      record {
        sent = λ a k. rw (added_to-both s.events event rest) (elim (Bool-cases (is_up s.commands)) [
          | inl up ↦ ground (arith, (h q).sent a, k, up)
          | inr down ↦ ground (arith, k, down)
        ]);
        kept = ground (arith, (h q).kept);
      }

  -- One turn of a loop over files.
  turn-Reports :
      (language : Option String) (made : String → Result FileChangedEvent)
      (skipped m : Action Watcher ℕ) (rest : Result (List FileChangedEvent)) (s : Watcher)
      → ((q : Watcher) → Reports skipped rest q)
      → ((q : Watcher) → Reports m rest q)
      → Reports
          (elim language [
            | none ↦ skipped
            | some l ↦ lift (made l) >>= (λ event. emit_event is_up event) >> m
          ])
          (elim language [ none ↦ rest | some l ↦ both (made l) rest ])
          s
  turn-Reports none made skipped m rest s hs hm = hs s
  turn-Reports (some l) made skipped m rest s hs hm = emitted_then (made l) m rest s hm

  -- The number of files beside the number of events changes nothing.
  counted :
      (r : Result ℕ) (files : ℕ) (q : Watcher) (b : ℕ × ℕ)
      → (continue r (λ n. pure {S = Watcher} {A = ℕ × ℕ} (n, files)) q).0 ≡ ok b
      → r ≡ ok b.0
  counted (ok n) files q b h = ground (arith, h)
  counted (raise e) files q b h = ground (arith, h)

  kept_counting :
      (r : Result ℕ) (files : ℕ) (q : Watcher)
      → (continue r (λ n. pure {S = Watcher} {A = ℕ × ℕ} (n, files)) q).1 ≡ q
  kept_counting (ok n) files q = refl
  kept_counting (raise e) files q = refl

  counted-Reports :
      (m : Action Watcher ℕ) (files : ℕ) (events : Result (List FileChangedEvent)) (s : Watcher)
      → Reports m events s
      → Reports {A = ℕ × ℕ} (m >>= λ n. pure (n, files)) events s
  counted-Reports m files events s h = record {
    sent = λ b k.
        rw (kept_counting (m s).0 files (m s).1) (h.sent b.0 (counted (m s).0 files (m s).1 b k));
    kept = rw (kept_counting (m s).0 files (m s).1) h.kept;
  }

  module _ (tools : Tools) (repo sha : String) where
    rescan_files-Reports :
        (files : List String) (n : ℕ) (s : Watcher)
        → Reports (rescan_files is_up tools repo sha files n) (scanned tools repo sha files) s
    unfolding rescan_files
    rescan_files-Reports [] n s = record { sent = λ a k. cc (append-nil s.events); kept = refl }
    rescan_files-Reports (path ∷ files) n s =
        turn-Reports (detect_language tools path) (rescan_event tools repo sha path)
          (rescan_files is_up tools repo sha files n)
          (rescan_files is_up tools repo sha files (n + 1)) (scanned tools repo sha files) s
          (rescan_files-Reports files n) (rescan_files-Reports files (n + 1))

    report_changes-Reports :
        (prev_sha : String) (changes : List Change) (n : ℕ) (s : Watcher)
        → Reports
            (report_changes is_up tools repo sha prev_sha changes n)
            (described tools repo sha prev_sha changes)
            s
    unfolding report_changes
    report_changes-Reports prev_sha [] n s = record {
      sent = λ a k. cc (append-nil s.events);
      kept = refl;
    }
    report_changes-Reports prev_sha ((path, t) ∷ changes) n s =
        turn-Reports (detect_language tools path)
          (λ l. change_event tools repo sha prev_sha path l t)
          (report_changes is_up tools repo sha prev_sha changes n)
          (report_changes is_up tools repo sha prev_sha changes (n + 1))
          (described tools repo sha prev_sha changes) s (report_changes-Reports prev_sha changes n)
          (report_changes-Reports prev_sha changes (n + 1))

    -- A commit is reported whole where `process_commit` returns.
    rescan-Reports :
        (files : Result (List String)) (s : Watcher)
        → Reports {A = ℕ × ℕ}
            (lift files >>= λ fs.
              rescan_files is_up tools repo sha fs 0 >>= λ n. pure (n, length fs))
            (scanned_all tools repo sha files)
            s
    rescan-Reports (raise e) s = record { sent = λ a k. ground arith; kept = refl }
    rescan-Reports (ok files) s =
        counted-Reports (rescan_files is_up tools repo sha files 0) (length files)
          (scanned tools repo sha files) s (rescan_files-Reports files 0 s)

    report-Reports :
        (prev_sha : String) (changes : Result (List Change)) (s : Watcher)
        → Reports {A = ℕ × ℕ}
            (lift changes >>= λ cs.
              report_changes is_up tools repo sha prev_sha cs 0 >>= λ n. pure (n, length cs))
            (described_all tools repo sha prev_sha changes)
            s
    report-Reports prev_sha (raise e) s = record { sent = λ a k. ground arith; kept = refl }
    report-Reports prev_sha (ok changes) s =
        counted-Reports (report_changes is_up tools repo sha prev_sha changes 0) (length changes)
          (described tools repo sha prev_sha changes) s
          (report_changes-Reports prev_sha changes 0 s)

    process_commit-Reports :
        (prev_sha : Option String) (s : Watcher)
        → Reports
            (process_commit is_up tools repo sha prev_sha)
            (commit_events tools repo sha prev_sha)
            s
    unfolding process_commit
    process_commit-Reports none s = rescan-Reports (get_all_files tools) s
    process_commit-Reports (some prev_sha) s =
        report-Reports prev_sha (get_changed_files tools prev_sha sha) s

Result-cases :
    {A : Type 0} (r : Result A) → ((a : A) × (r ≡ ok a)) ⊎ ((e : Exception) × (r ≡ raise e))
Result-cases (ok a) = inl (a, refl)
Result-cases (raise e) = inr (e, refl)

-- The commit recorded is the one before, or it is `sha`, and all events against `prev_sha` were sent.
abbrev IsReported : Tools → String → String → Option String → Watcher → Watcher → Type 0
IsReported tools repo sha prev_sha s q =
    (q.shas ≡ s.shas)
    ⊎ ((q.shas ≡ Dict.put repo sha s.shas)
        × (added_to s.events (commit_events tools repo sha prev_sha) ≡ ok q.events))

module _ (is_up : ℕ → Bool) (tools : Tools) (repo sha : String) where
  commit-IsReported :
      (prev_sha : Option String) (s : Watcher)
      → IsReported tools repo sha prev_sha s
          (try_except
            (process_commit is_up tools repo sha prev_sha >> set_last_sha is_up repo sha)
            logged
            s).1
  unfolding set_last_sha command
  commit-IsReported prev_sha s =
      let m = process_commit is_up tools repo sha prev_sha in
      let h = process_commit-Reports is_up tools repo sha prev_sha s in
      elim (Result-cases (m s).0) [
        | inl (a, e) ↦ elim (Bool-cases (is_up (m s).1.commands)) [
          | inl up ↦ ground (arith, h.sent a, h.kept, e, up)
          | inr down ↦ ground (arith, h.kept, e, down)
        ]
        | inr (x, e) ↦ ground (arith, h.kept, e)
      ]

-- Where the head is known, a round either leaves the recorded commit alone, or it records the head, and
-- has then put on the stream, in order, the event of every file that `get_changed_files` lists since
-- the commit recorded before (of every file, if there was none): a commit is never skipped, whatever
-- fails.
pub poll-reports :
    (is_up : ℕ → Bool) (tools : Tools) (repo sha : String) (s : Watcher)
    → tools.rev_parse ≡ some sha
    → ((poll is_up tools repo s).1.shas ≡ s.shas)
      ⊎ (((poll is_up tools repo s).1.shas ≡ Dict.put repo sha s.shas)
          × (added_to s.events (commit_events tools repo sha (unless_blank (Dict.get repo s.shas)))
              ≡ ok (poll is_up tools repo s).1.events))
unfolding poll index_head get_last_sha set_last_sha command
poll-reports is_up tools repo sha s head =
    let prev_sha = unless_blank (Dict.get repo s.shas) in
    let q = record s { commands = suc s.commands } in
    ground (arith, head, commit-IsReported is_up tools repo sha prev_sha q)
