-- ===== src/Parser/Consumer.antt =====
-- services/parser/app/consumer.py and parser.py: from messages on changed files to parsed files. Redis
-- may fail at every command, and a file may be missing.
pub mod Sound
pub mod Published
use tersecontext.Prelude.{
  ℕ, suc, String, Bool, true, false, Option, none, some, List, [], ◌∷◌, ◌++◌, ◌==◌, ◌||◌,
  if◌then◌else◌,
}
use tersecontext.Prelude.Effects.{
  Exception, key_error, value_error, failure, Result, ok, raise, Action, pure, throw, try_except,
  for_each, ◌>>=◌, ◌>>◌,
}
use tersecontext.Prelude.Results
use tersecontext.Parser.Models.{
  DiffType, added, modified, deleted, full_rescan, FileChangedEvent, ParsedNode, IntraFileEdge,
  ParsedFileEvent,
}
use tersecontext.Parser.Edges.{extract, extract_go, apply_diff_filter}
use tersecontext.Parser.Tree.{Node, Python}

-- What is not the parser's: the library, `root_node` and its `has_error` of tree-sitter for a
-- language, the files under REPO_ROOT by repository and path, and pydantic's reading of an event.
pub record World : Type 0 where
  pub py : Python
  pub tree : String → List ℕ → Node × Bool
  pub read : String → String → Result (List ℕ)
  pub event_of_json : String → Option FileChangedEvent

abbrev pub Message : Type 0
Message = String × Option String

-- What has been published and acknowledged, and the number of commands sent to Redis.
pub record Service : Type 0 where
  pub published : List ParsedFileEvent
  pub acked : List String
  pub commands : ℕ

module _ (world : World) where
  -- The keys of PARSERS.
  abbrev pub is_known : String → Bool
  is_known language = language == "python" || language == "go"

  abbrev pub root_or_raise : String → Node × Bool → Result Node
  root_or_raise language tree = if tree.1 then raise (failure "SyntaxError") else ok tree.0

  unfoldable pub parse : List ℕ → String → Result Node
  parse source language =
      if is_known language
      then root_or_raise language (world.tree language source)
      else raise (value_error "Unsupported language")

  abbrev pub extractor :
      String → List ℕ → String → String → Node → Result (List ParsedNode × List IntraFileEdge)
  extractor language source repo path root =
      if language == "go"
      then extract_go world.py source repo path root
      else extract world.py source repo path root

  abbrev pub parsed_file : FileChangedEvent → List ParsedNode × List IntraFileEdge → ParsedFileEvent
  parsed_file event file = record {
    file_path = event.path;
    language = event.language;
    repo = event.repo;
    commit_sha = event.commit_sha;
    nodes = file.0;
    intra_file_edges = file.1;
    deleted_nodes = event.deleted_nodes;
  }

  abbrev pub file_of : FileChangedEvent → Result (List ParsedNode × List IntraFileEdge)
  file_of event = Results.◌>>=◌ (world.read event.repo event.path) λ source.
      Results.◌>>=◌ (parse source event.language) λ root.
        Results.◌>>=◌ (extractor event.language source event.repo event.path root)
          λ file. ok (apply_diff_filter event file.0 file.1)

  abbrev pub contents : DiffType → FileChangedEvent → Result (List ParsedNode × List IntraFileEdge)
  contents deleted event = ok ([], [])
  contents _ event = file_of event

  abbrev pub event_or_raise : Option String → Result FileChangedEvent
  event_or_raise none = raise (key_error "message missing 'event' key")
  event_or_raise (some raw) = elim (world.event_of_json raw) [
    | none ↦ raise (value_error "ValidationError")
    | some event ↦ ok event
  ]

  -- The event that a message leads to.
  unfoldable pub output : Option String → Result ParsedFileEvent
  unfolding parse
  output raw =
      Results.◌>>=◌ (event_or_raise raw)
        λ event. Results.◌>>=◌ (contents event.diff_type event) λ file. ok (parsed_file event file)

  abbrev pub lift : {A : Type 0} → Result A → Action Service A
  lift r s = (r, s)

  -- `except Exception`; the loop runs in a thread of its own, where nothing is cancelled.
  abbrev pub log_error : Exception → Action Service (Unit {0})
  log_error e = pure tt

  module _ (is_up : ℕ → Bool) where
    -- A command of Redis changes its state, or it raises.
    unfoldable pub command : (Service → Service) → Action Service (Unit {0})
    command change s =
        let sent : Service = record s { commands = suc s.commands } in
        if is_up s.commands then (ok tt, change sent) else (raise (failure "ConnectionError"), sent)

    unfoldable pub xadd : ParsedFileEvent → Action Service (Unit {0})
    unfolding command
    xadd out = command (λ s. record s { published = s.published ++ out ∷ [] })

    unfoldable pub xack : String → Action Service (Unit {0})
    unfolding command
    xack msg_id = command (λ s. record s { acked = s.acked ++ msg_id ∷ [] })

    unfoldable pub process : Option String → Action Service (Unit {0})
    unfolding output xadd
    process raw = do out ← lift (output raw); xadd out

    unfoldable pub handle : Message → Action Service (Unit {0})
    unfolding process xack
    handle message = try_except (do process message.1; xack message.0) log_error

    -- The messages of any number of reads, in order.
    unfoldable pub consume : List Message → Action Service (Unit {0})
    unfolding handle
    consume = for_each handle
