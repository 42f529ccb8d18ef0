-- ===== src/VectorWriter.antt =====
-- services/vector-writer/app/writer.py and consumer.py: the points of Qdrant, one for each node, and the
-- two consumers that write and delete them. Qdrant and Redis may fail at every command.
pub mod Latest
mod Examples
use tersecontext.Prelude.{
  ℕ, suc, String, Bool, true, false, Option, none, some, List, [], ◌∷◌, ◌++◌, ◌==◌, if◌then◌else◌,
}
use tersecontext.Prelude.Dict
use tersecontext.Prelude.Dict.{Dict}
use tersecontext.Prelude.Effects.{
  Exception, key_error, value_error, failure, cancelled, Result, ok, raise, Action, pure, throw,
  try_except, for_each, ◌>>=◌, ◌>>◌,
}

-- models.py
pub record EmbeddedNode (F : Type 0) : Type 0 where
  pub stable_id : String
  pub vector : List F
  pub name : String
  pub type : String
  pub file_path : String
  pub language : String
  pub node_hash : String

pub record EmbeddedNodesEvent (F : Type 0) : Type 0 where
  pub repo : String
  pub commit_sha : Option String
  pub nodes : List (EmbeddedNode F)

pub record FileChangedEvent : Type 0 where
  pub repo : String
  pub deleted_nodes : List String

-- A point: its vector and its payload.
pub record Point (F : Type 0) : Type 0 where
  pub vector : List F
  pub stable_id : String
  pub name : String
  pub type : String
  pub file_path : String
  pub language : String
  pub repo : String
  pub node_hash : String

-- The collection by its point ids, if it exists, the messages acknowledged, and the number of commands.
pub record Store (F : Type 0) : Type 0 where
  pub points : Dict (Point F)
  pub acked : List String
  pub commands : ℕ

-- `uuid.uuid5(uuid.NAMESPACE_OID, s)` and pydantic's readings.
pub record World (F : Type 0) : Type 0 where
  pub uuid5 : String → String
  pub embedded_of_json : String → Option (EmbeddedNodesEvent F)
  pub changed_of_json : String → Option FileChangedEvent

-- A message of one of the two streams.
pub data Message : Type 0 where
  embedded_nodes file_changed : (msg_id : String) → Option String → Message

abbrev pub or_raise : {A : Type 0} → (String → Option A) → Option String → Result A
or_raise of_json none = raise (key_error "message missing 'event' key")
or_raise of_json (some raw) = elim (of_json raw) [
  | none ↦ raise (value_error "ValidationError")
  | some event ↦ ok event
]

module _ {F : Type 0} (world : World F) where
  abbrev pub point_of : String → EmbeddedNode F → Point F
  point_of repo n = record {
    vector = n.vector;
    stable_id = n.stable_id;
    name = n.name;
    type = n.type;
    file_path = n.file_path;
    language = n.language;
    repo = repo;
    node_hash = n.node_hash;
  }

  -- `client.upsert`: a point replaces the one of its id.
  unfoldable pub upsert : String → List (EmbeddedNode F) → Dict (Point F) → Dict (Point F)
  upsert repo [] points = points
  upsert repo (n ∷ nodes) points =
      upsert repo nodes (Dict.put (world.uuid5 n.stable_id) (point_of repo n) points)

  -- `client.delete`
  unfoldable pub delete : List String → Dict (Point F) → Dict (Point F)
  delete [] points = points
  delete (sid ∷ stable_ids) points = delete stable_ids (Dict.remove (world.uuid5 sid) points)

  module _ (is_up : ℕ → Bool) where
    -- A command changes the store, or it raises.
    unfoldable pub command : (Store F → Store F) → Action (Store F) (Unit {0})
    command change s =
        let sent : Store F = record s { commands = suc s.commands } in
        if is_up s.commands then (ok tt, change sent) else (raise (failure "unavailable"), sent)

    abbrev pub acknowledged : String → Store F → Store F
    acknowledged msg_id s = record s { acked = s.acked ++ msg_id ∷ [] }

    unfoldable pub xack : String → Action (Store F) (Unit {0})
    unfolding command
    xack msg_id = command (acknowledged msg_id)

    abbrev pub upserted : EmbeddedNodesEvent F → Store F → Store F
    upserted event s = record s { points = upsert event.repo event.nodes s.points }

    abbrev pub unless_nil :
        {A : Type 0} → List A → Action (Store F) (Unit {0}) → Action (Store F) (Unit {0})
    unless_nil [] m = pure tt
    unless_nil (x ∷ xs) m = m

    unfoldable pub upsert_points : EmbeddedNodesEvent F → Action (Store F) (Unit {0})
    unfolding command
    upsert_points event = unless_nil event.nodes (command (upserted event))

    abbrev pub deleted : List String → Store F → Store F
    deleted stable_ids s = record s { points = delete stable_ids s.points }

    unfoldable pub delete_points : List String → Action (Store F) (Unit {0})
    unfolding command
    delete_points stable_ids = unless_nil stable_ids (command (deleted stable_ids))

    abbrev pub lift : {A : Type 0} → Result A → Action (Store F) A
    lift r s = (r, s)

    abbrev pub upsert_event : EmbeddedNodesEvent F → Action (Store F) (Unit {0})
    upsert_event event = unless_nil event.nodes (upsert_points event)

    abbrev pub delete_event : FileChangedEvent → Action (Store F) (Unit {0})
    delete_event event = unless_nil event.deleted_nodes (delete_points event.deleted_nodes)

    unfoldable pub process_embedded : Option String → Action (Store F) (Unit {0})
    unfolding upsert_points
    process_embedded raw = lift (or_raise world.embedded_of_json raw) >>= upsert_event

    unfoldable pub process_delete : Option String → Action (Store F) (Unit {0})
    unfolding delete_points
    process_delete raw = lift (or_raise world.changed_of_json raw) >>= delete_event

    -- A bad message is acknowledged, one that Qdrant refuses is not.
    abbrev pub on_error : String → Exception → Action (Store F) (Unit {0})
    on_error msg_id (key_error t) = xack msg_id
    on_error msg_id (value_error t) = xack msg_id
    on_error msg_id (failure t) = pure tt
    on_error msg_id cancelled = throw cancelled

    unfoldable pub handle : Message → Action (Store F) (Unit {0})
    unfolding process_embedded process_delete xack
    handle (embedded_nodes msg_id raw) =
        try_except (process_embedded raw >> xack msg_id) (on_error msg_id)
    handle (file_changed msg_id raw) =
        try_except (process_delete raw >> xack msg_id) (on_error msg_id)

    -- The messages of both consumers, in the order in which they are handled.
    unfoldable pub consume : List Message → Action (Store F) (Unit {0})
    unfolding handle
    consume = for_each handle
