-- ===== src/Embedder/Consumer.antt =====
-- services/embedder/app/consumer.py. Neo4j and Redis may fail at every command.
pub mod Fitting
use tersecontext.Prelude.{
  ℕ, suc, String, Bool, true, false, ◌≡◌, Option, none, some, List, [], ◌∷◌, ◌++◌, ◌==◌, map, All,
  All-append, Bool-cases, inl, inr, if◌then◌else◌,
}
use tersecontext.Prelude.Dict.{Dict}
use tersecontext.Prelude.Effects.{
  Exception, key_error, value_error, failure, cancelled, Result, ok, raise, Action, pure, throw,
  try_except, for_each, ◌>>=◌, ◌>>◌, then_keeps, bind_keeps, for_each_keeps, try_keeps,
}
use tersecontext.Prelude.Results.{Holds}
use tersecontext.Embedder.{
  ParsedNode, ParsedFileEvent, EmbeddedNode, EmbeddedNodesEvent, embed_nodes,
}
use tersecontext.Embedder.Batches.{fits, embed_nodes-fits}

abbrev pub Message : Type 0
Message = String × Option String

-- What has been published and acknowledged, and the number of commands sent.
pub record Service (F : Type 0) : Type 0 where
  pub published : List (EmbeddedNodesEvent F)
  pub acked : List String
  pub commands : ℕ

-- The provider, the hashes that Neo4j has for some nodes, and pydantic's reading of an event.
pub record World (F : Type 0) : Type 0 where
  pub embed : List String → Result (List (List F))
  pub node_hashes : List String → Dict String
  pub event_of_json : String → Option ParsedFileEvent
  pub batch_size : ℕ
  pub embedding_dim : ℕ

abbrev pub ids : List ParsedNode → List String
ids nodes = map (λ (n : ParsedNode). n.stable_id) nodes

-- `json.JSONDecodeError` and `ValidationError`, by the text they come with, and `KeyError`.
abbrev pub is_bad_message : Exception → Bool
is_bad_message (key_error t) = true
is_bad_message (value_error t) = t == "ValidationError"
is_bad_message _ = false

module _ {F : Type 0} (world : World F) (is_up : ℕ → Bool) where
  -- A command of Neo4j or Redis has an effect and an answer, or it raises.
  unfoldable pub command : {A : Type 0} → (Service F → A × Service F) → Action (Service F) A
  command change s =
      let sent : Service F = record s { commands = suc s.commands } in
      let (a, s') = change sent in
      if is_up s.commands then (ok a, s') else (raise (failure "unavailable"), sent)

  abbrev pub hashes : List String → Service F → Dict String × Service F
  hashes stable_ids s = (world.node_hashes stable_ids, s)

  -- No query for no ids.
  unfoldable pub get_node_hashes : List String → Action (Service F) (Dict String)
  unfolding command
  get_node_hashes [] = pure []
  get_node_hashes (id ∷ stable_ids) = command (hashes (id ∷ stable_ids))

  -- While Neo4j is unreachable, all nodes count as new.
  abbrev pub no_hashes : Exception → Action (Service F) (Dict String)
  no_hashes cancelled = throw cancelled
  no_hashes _ = pure []

  abbrev pub sent_out : EmbeddedNodesEvent F → Service F → Unit {0} × Service F
  sent_out out s = (tt, record s { published = s.published ++ out ∷ [] })

  unfoldable pub xadd : EmbeddedNodesEvent F → Action (Service F) (Unit {0})
  unfolding command
  xadd out = command (sent_out out)

  abbrev pub acknowledged : String → Service F → Unit {0} × Service F
  acknowledged msg_id s = (tt, record s { acked = s.acked ++ msg_id ∷ [] })

  unfoldable pub xack : String → Action (Service F) (Unit {0})
  unfolding command
  xack msg_id = command (acknowledged msg_id)

  abbrev pub event_or_raise : Option String → Result ParsedFileEvent
  event_or_raise none = raise (key_error "message missing 'event' key")
  event_or_raise (some raw) = elim (world.event_of_json raw) [
    | none ↦ raise (value_error "ValidationError")
    | some event ↦ ok event
  ]

  abbrev pub lift : {A : Type 0} → Result A → Action (Service F) A
  lift r s = (r, s)

  abbrev pub embed_with : ParsedFileEvent → Dict String → Result (List (EmbeddedNode F))
  embed_with event cache =
      embed_nodes world.embed event.file_path event.language event.nodes cache world.batch_size
        world.embedding_dim

  abbrev pub event_of : ParsedFileEvent → List (EmbeddedNode F) → EmbeddedNodesEvent F
  event_of event nodes = record {
    repo = event.repo;
    commit_sha = event.commit_sha;
    file_path = event.file_path;
    nodes = nodes;
  }

  unfoldable pub publish :
      ParsedFileEvent → Result (List (EmbeddedNode F)) → Action (Service F) (Unit {0})
  unfolding xadd
  publish event r = lift r >>= λ nodes. xadd (event_of event nodes)

  unfoldable pub process_event : ParsedFileEvent → Action (Service F) (Unit {0})
  unfolding get_node_hashes publish
  process_event event = do
    cache ← try_except (get_node_hashes (ids event.nodes)) no_hashes
    publish event (embed_with event cache)

  unfoldable pub process : Option String → Action (Service F) (Unit {0})
  unfolding process_event
  process raw = lift (event_or_raise raw) >>= process_event

  abbrev pub on_error : String → Exception → Action (Service F) (Unit {0})
  on_error msg_id cancelled = throw cancelled
  on_error msg_id e = if is_bad_message e then xack msg_id else pure tt

  unfoldable pub handle : Message → Action (Service F) (Unit {0})
  unfolding process xack
  handle message = try_except (process message.1 >> xack message.0) (on_error message.0)

  abbrev pub loop_error : Exception → Action (Service F) (Unit {0})
  loop_error cancelled = throw cancelled
  loop_error _ = pure tt

  -- The reads of the consumer, until it is cancelled.
  unfoldable pub consume : List (List Message) → Action (Service F) (Unit {0})
  unfolding handle
  consume = for_each (λ events. try_except (for_each handle events) loop_error)
