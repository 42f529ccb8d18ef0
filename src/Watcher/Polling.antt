-- ===== src/Watcher/Polling.antt =====
-- services/repo-watcher/app/watcher.py: `process_commit` and the body of the polling loop, over what
-- Redis holds. A command to Redis is answered or raises.
pub mod Reported
pub mod Progress
use tersecontext.Prelude.{
  ℕ, suc, ◌+◌, String, Bool, true, false, Option, none, some, List, [], ◌∷◌, ◌++◌, ◌==◌, map,
  length, if◌then◌else◌,
}
use tersecontext.Prelude.Dict
use tersecontext.Prelude.Dict.{Dict}
use tersecontext.Prelude.Effects.{
  Exception, key_error, value_error, failure, cancelled, Result, ok, raise, Action, pure, throw,
  try_except, ◌>>=◌, ◌>>◌,
}
use tersecontext.Watcher.Models.{
  DiffType, added, modified, deleted, full_rescan, FileChangedEvent, ParsedNode, Tools,
}
use tersecontext.Watcher.Differ.{
  Change, detect_language, get_all_files, get_changed_files, git_show, parse_nodes,
  get_changed_nodes,
}

-- The keys `last_indexed_sha:<repo>`, the stream of events, and the number of commands sent.
pub record Watcher : Type 0 where
  pub shas : Dict String
  pub events : List FileChangedEvent
  pub commands : ℕ

abbrev pub lift : {S A : Type 0} → Result A → Action S A
lift r s = (r, s)

abbrev pub ids : List ParsedNode → List String
ids = map (λ (n : ParsedNode). n.stable_id)

-- `val.decode() if val else None`
abbrev pub unless_blank : Option String → Option String
unless_blank none = none
unless_blank (some sha) = if sha == "" then none else some sha

module _ (is_up : ℕ → Bool) where
  unfoldable pub command : {A : Type 0} → A → (Watcher → Watcher) → Action Watcher A
  command a change s =
      let sent = record s { commands = suc s.commands } in
      if is_up s.commands then (ok a, change sent) else (raise (failure "redis"), sent)

  unfoldable pub emit_event : FileChangedEvent → Action Watcher (Unit {0})
  unfolding command
  emit_event event = command tt (λ s. record s { events = s.events ++ event ∷ [] })

  unfoldable pub get_last_sha : String → Action Watcher (Option String)
  unfolding command
  get_last_sha repo s = command (unless_blank (Dict.get repo s.shas)) (λ q. q) s

  unfoldable pub set_last_sha : String → String → Action Watcher (Unit {0})
  unfolding command
  set_last_sha repo sha = command tt (λ s. record s { shas = Dict.put repo sha s.shas })

module _ (tools : Tools) (repo current_sha : String) where
  abbrev event_with :
      String → String → DiffType → List String → List String → List String → FileChangedEvent
  event_with path language diff_type changed_nodes added_nodes deleted_nodes = record {
    repo = repo;
    commit_sha = current_sha;
    path = path;
    language = language;
    diff_type = diff_type;
    changed_nodes = changed_nodes;
    added_nodes = added_nodes;
    deleted_nodes = deleted_nodes;
  }

  abbrev added_event :
      String → String → DiffType → Result (List ParsedNode) → Result FileChangedEvent
  added_event path language diff_type (ok nodes) =
      ok (event_with path language diff_type [] (ids nodes) [])
  added_event path language diff_type (raise e) = raise e

  abbrev deleted_event : String → String → Result (List ParsedNode) → Result FileChangedEvent
  deleted_event path language (ok nodes) = ok (event_with path language deleted [] [] (ids nodes))
  deleted_event path language (raise e) = raise e

  abbrev modified_event :
      String → String → Result (List String × List String × List String) → Result FileChangedEvent
  modified_event path language (ok (changed_nodes, added_nodes, deleted_nodes)) =
      ok (event_with path language modified changed_nodes added_nodes deleted_nodes)
  modified_event path language (raise e) = raise e

  -- The event of a file in a full scan, and of a changed file.
  unfoldable pub rescan_event : String → String → Result FileChangedEvent
  unfolding parse_nodes
  rescan_event path language =
      added_event path language full_rescan
        (parse_nodes tools (git_show tools current_sha path) path repo)

  unfoldable pub change_event : String → String → String → DiffType → Result FileChangedEvent
  unfolding parse_nodes get_changed_nodes
  change_event prev_sha path language added =
      added_event path language added
        (parse_nodes tools (git_show tools current_sha path) path repo)
  change_event prev_sha path language deleted =
      deleted_event path language (parse_nodes tools (git_show tools prev_sha path) path repo)
  change_event prev_sha path language _ =
      modified_event path language (get_changed_nodes tools path prev_sha current_sha repo)

module _ (is_up : ℕ → Bool) (tools : Tools) (repo current_sha : String) where
  -- `events_emitted` counts on from the last argument.
  unfoldable pub rescan_files : List String → ℕ → Action Watcher ℕ
  unfolding emit_event
  rescan_files [] n = pure n
  rescan_files (path ∷ files) n = elim (detect_language tools path) [
    | none ↦ rescan_files files n
    | some language ↦
        lift (rescan_event tools repo current_sha path language)
        >>= (λ event. emit_event is_up event)
        >> rescan_files files (n + 1)
  ]

  unfoldable pub report_changes : String → List Change → ℕ → Action Watcher ℕ
  unfolding emit_event
  report_changes prev_sha [] n = pure n
  report_changes prev_sha ((path, diff_type) ∷ changes) n = elim (detect_language tools path) [
    | none ↦ report_changes prev_sha changes n
    | some language ↦
        lift (change_event tools repo current_sha prev_sha path language diff_type)
        >>= (λ event. emit_event is_up event)
        >> report_changes prev_sha changes (n + 1)
  ]

  -- The numbers of events and of files.
  unfoldable pub process_commit : Option String → Action Watcher (ℕ × ℕ)
  unfolding rescan_files report_changes
  process_commit none =
      lift (get_all_files tools) >>= λ files. rescan_files files 0 >>= λ n. pure (n, length files)
  process_commit (some prev_sha) =
      lift (get_changed_files tools prev_sha current_sha) >>= λ changes.
      report_changes prev_sha changes 0 >>= λ n. pure (n, length changes)

-- `except asyncio.CancelledError: raise` and `except Exception`, which logs
abbrev pub logged : Exception → Action Watcher (Unit {0})
logged cancelled = throw cancelled
logged (key_error t) = pure tt
logged (value_error t) = pure tt
logged (failure t) = pure tt

abbrev pub same_sha : String → Option String → Bool
same_sha sha none = false
same_sha sha (some prev_sha) = sha == prev_sha

module _ (is_up : ℕ → Bool) (tools : Tools) (repo : String) where
  -- What is done with the head of the repository; the inner `except` catches what the outer one would.
  unfoldable pub index_head : String → Action Watcher (Unit {0})
  unfolding process_commit get_last_sha set_last_sha
  index_head sha = get_last_sha is_up repo >>= λ prev_sha.
      if same_sha sha prev_sha
      then pure tt
      else try_except (process_commit is_up tools repo sha prev_sha >> set_last_sha is_up repo sha)
          logged

  -- One round of the loop of `run_watcher`, without the sleep.
  unfoldable pub poll : Action Watcher (Unit {0})
  unfolding index_head
  poll = elim tools.rev_parse [ none ↦ pure tt | some sha ↦ try_except (index_head sha) logged ]
