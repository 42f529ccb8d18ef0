-- ===== src/Graph/Ingest.antt =====
-- services/graph-writer/app/consumer.py: the two consumers of graph-writer, one of parsed files and one of
-- embedded nodes, which share the cache of parsed files. They run as tasks of one process, so their
-- messages come in any order. Redis and Neo4j may fail at every command.
pub mod Edgeless
mod Examples
use tersecontext.Prelude.{
  ℕ, suc, String, Bool, true, false, ◌&&◌, Option, none, some, List, [], ◌∷◌, ◌++◌, ◌==◌,
  if◌then◌else◌,
}
use tersecontext.Prelude.Effects.{
  Exception, key_error, value_error, failure, cancelled, Result, ok, raise, Action, pure, throw,
  try_except, for_each, ◌>>=◌, ◌>>◌,
}
use tersecontext.Graph.Store.{Graph}
use tersecontext.Graph.Write.{
  EmbeddedNode, ParsedNode, by_id, build_node_records, upsert_nodes, upsert_edges, tombstone,
}
use tersecontext.Graph.Enrich.{unless_empty}

-- models.py; an edge of a file is given by its two ends.
pub record ParsedFileEvent : Type 0 where
  pub repo : String
  pub commit_sha : String
  pub file_path : String
  pub language : String
  pub nodes : List ParsedNode
  pub intra_file_edges : List (String × String)
  pub deleted_nodes : List String

pub record EmbeddedNodesEvent : Type 0 where
  pub repo : String
  pub commit_sha : String
  pub file_path : String
  pub nodes : List EmbeddedNode

-- `_parsed_file_cache`, keyed by commit and path.
abbrev pub Cache : Type 0
Cache = List ((String × String) × ParsedFileEvent)

abbrev pub cached : String × String → Cache → Option ParsedFileEvent
cached k [] = none
cached k ((j, event) ∷ cache) =
    let rest = cached k cache in if j.0 == k.0 && j.1 == k.1 then some event else rest

abbrev pub to_cache : String × String → ParsedFileEvent → Cache → Cache
to_cache k event [] = (k, event) ∷ []
to_cache k event ((j, old) ∷ cache) =
    let rest = to_cache k event cache in
    if j.0 == k.0 && j.1 == k.1 then (j, event) ∷ cache else (j, old) ∷ rest

-- The graph and the cache, the messages acknowledged, and the number of commands sent to either.
pub record Writer (F : Type 0) : Type 0 where
  pub graph : Graph F
  pub cache : Cache
  pub acked : List String
  pub commands : ℕ

abbrev pub parsed_or_raise : {E : Type 0} → (String → Option E) → Option String → Result E
parsed_or_raise parse none = raise (key_error "missing 'event' key")
parsed_or_raise parse (some raw) = elim (parse raw) [
  | none ↦ raise (value_error "ValidationError")
  | some event ↦ ok event
]

abbrev pub with_event : {E S : Type 0} → Result E → (E → Action S (Unit {0})) → Action S (Unit {0})
with_event (ok event) body = body event
with_event (raise e) body = throw e

abbrev pub remember : {F : Type 0} → ParsedFileEvent → Action (Writer F) (Unit {0})
remember event s =
    (ok tt, record s { cache = to_cache (event.commit_sha, event.file_path) event s.cache })

module _ {F : Type 0} (is_up : ℕ → Bool) where
  -- A command changes the state, or it raises and changes nothing.
  unfoldable pub command : (ℕ → Writer F → Writer F) → Action (Writer F) (Unit {0})
  command change s =
      let now = s.commands in
      let sent = record s { commands = suc now } in
      if is_up now then (ok tt, change now sent) else (raise (failure "unavailable"), sent)

  unfoldable pub on_graph : (ℕ → Graph F → Graph F) → Action (Writer F) (Unit {0})
  unfolding command
  on_graph statement = command (λ now s. record s { graph = statement now s.graph })

  unfoldable pub xack : String → Action (Writer F) (Unit {0})
  unfolding command
  xack msg_id = command (λ now s. record s { acked = s.acked ++ msg_id ∷ [] })

  -- What the edge consumer does with an event, up to its acknowledgement.
  unfoldable pub write_edges : ParsedFileEvent → Action (Writer F) (Unit {0})
  unfolding on_graph
  write_edges event =
      remember event
      >> unless_empty event.intra_file_edges
          (on_graph (λ now g. upsert_edges now event.intra_file_edges g))
      >> unless_empty event.deleted_nodes (on_graph (λ now g. tombstone now event.deleted_nodes g))

  -- What the node consumer does; an event of a file that is not in the cache is skipped.
  unfoldable pub write_nodes :
      EmbeddedNodesEvent → Option ParsedFileEvent → Action (Writer F) (Unit {0})
  unfolding on_graph
  write_nodes event none = pure tt
  write_nodes event (some parsed) =
      let records =
        build_node_records event.nodes (by_id parsed.nodes []) parsed.file_path parsed.language
          parsed.repo in
      unless_empty records (on_graph (λ now g. upsert_nodes now records g))

  -- The clauses `except (JSONDecodeError, ValidationError, KeyError)`, `except CancelledError` and
  -- `except Exception` of both consumers.
  unfoldable pub on_error : String → Exception → Action (Writer F) (Unit {0})
  unfolding xack
  on_error msg_id (key_error t) = xack msg_id
  on_error msg_id (value_error t) = xack msg_id
  on_error msg_id cancelled = throw cancelled
  on_error msg_id (failure t) = pure tt

  abbrev pub write_cached : EmbeddedNodesEvent → Action (Writer F) (Unit {0})
  write_cached event s = write_nodes event (cached (event.commit_sha, event.file_path) s.cache) s

  module _ (parse_file : String → Option ParsedFileEvent)
      (parse_nodes : String → Option EmbeddedNodesEvent) where
    -- One message of the stream of parsed files.
    unfoldable pub edge_message : String → Option String → Action (Writer F) (Unit {0})
    unfolding write_edges on_error
    edge_message msg_id raw =
        try_except
          (with_event (parsed_or_raise parse_file raw) (λ event. write_edges event) >> xack msg_id)
          (on_error msg_id)

    -- One message of the stream of embedded nodes.
    unfoldable pub node_message : String → Option String → Action (Writer F) (Unit {0})
    unfolding write_nodes on_error
    node_message msg_id raw =
        try_except (with_event (parsed_or_raise parse_nodes raw) write_cached >> xack msg_id)
          (on_error msg_id)

-- A message with its stream.
pub data Delivery : Type 0 where
  parsed_file embedded_nodes : String → Option String → Delivery

module _ {F : Type 0} (is_up : ℕ → Bool) (parse_file : String → Option ParsedFileEvent)
    (parse_nodes : String → Option EmbeddedNodesEvent) where
  -- A message of either stream. An exception that leaves the handlers goes to the outer `except`, which logs,
  -- or is a cancellation; either way the next message comes to what was left.
  unfoldable pub deliver : Delivery → Writer F → Writer F
  unfolding edge_message node_message
  deliver (parsed_file msg_id raw) s = (edge_message is_up parse_file parse_nodes msg_id raw s).1
  deliver (embedded_nodes msg_id raw) s = (node_message is_up parse_file parse_nodes msg_id raw s).1

  unfoldable pub deliver_all : List Delivery → Writer F → Writer F
  unfolding deliver
  deliver_all [] s = s
  deliver_all (m ∷ ms) s = deliver_all ms (deliver m s)
