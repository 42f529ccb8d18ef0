-- ===== src/Resolver/Process.antt =====
-- services/symbol-resolver/app/resolver.py, pending.py and consumer.py: what a parsed file, a pending
-- reference and a message do to the graph and to the pending lists.
use tersecontext.Prelude.{
  ℕ, suc, String, Bool, true, false, ◌&&◌, not, Option, none, some, List, [], ◌∷◌, ◌++◌, ◌==◌, keep,
  if◌then◌else◌,
}
use tersecontext.Prelude.Dict
use tersecontext.Prelude.Dict.{Dict}
use tersecontext.Prelude.Effects.{
  key_error, value_error, failure, Result, ok, raise, Action, pure, try_except, for_each, ◌>>=◌,
  ◌>>◌, Exception, cancelled, throw,
}
use tersecontext.Graph.Store.{NodeProps, ImportTarget, node, pkg, Graph}
use tersecontext.Graph.Write.{is_node}
use tersecontext.Pending.{PendingRef, Entry, malformed, ref, push_pending, is_expired, tried_again}
use tersecontext.Resolver.{
  ParsedNode, ParsedFileEvent, ImportInfo, from_module, plain, parse_import_body, compute_path_hint,
  State, queue, World, contains, matching, merge_import,
}

abbrev pub Message : Type 0
Message = String × Option String

-- LOOKUP_EXACT_QUERY and LOOKUP_PATH_QUERY, by what they ask of the properties.
abbrev pub is_exact : String → String → NodeProps → Bool
is_exact repo name p = p.repo == repo && p.qualified_name == name

abbrev pub is_hinted : String → String → String → NodeProps → Bool
is_hinted repo name path_hint p = p.repo == repo && p.name == name && contains p.file_path path_hint

abbrev pub picked : World → List String → Option String
picked world [] = none
picked world (id ∷ ids) = some (world.pick id ids)

abbrev pub new_ref : ℕ → String → String → String → String → PendingRef
new_ref now importer symbol path_hint repo = record {
  source_stable_id = importer;
  target_name = symbol;
  path_hint = path_hint;
  edge_type = "IMPORTS";
  repo = repo;
  attempted_at = now;
  attempt_count = 0;
}

abbrev pub event_or_raise : World → Option String → Result ParsedFileEvent
event_or_raise world none = raise (key_error "missing 'event' key")
event_or_raise world (some raw) = elim (world.event_of_json raw) [
  | none ↦ raise (value_error "ValidationError")
  | some event ↦ ok event
]

module _ {F : Type 0} (world : World) (now : ℕ) (is_up : ℕ → Bool) where
  -- A command of Neo4j or Redis has an effect and an answer, or it raises.
  unfoldable pub command : {A : Type 0} → (State F → A × State F) → Action (State F) A
  command change s =
      let sent : State F = record s { commands = suc s.commands } in
      let (a, s') = change sent in
      if is_up s.commands then (ok a, s') else (raise (failure "unavailable"), sent)

  abbrev pub lookup : (NodeProps → Bool) → Graph F → Option String
  lookup test g = picked world (matching test g.nodes)

  abbrev pub looked_up : (NodeProps → Bool) → State F → Option String × State F
  looked_up test s = (lookup test s.graph, s)

  unfoldable pub run_lookup : (NodeProps → Bool) → Action (State F) (Option String)
  unfolding command
  run_lookup test = command (looked_up test)

  -- The second lookup, where the first one finds nothing.
  abbrev pub lookup_again :
      String → String → String → Option String → Action (State F) (Option String)
  lookup_again repo name path_hint (some id) = pure (some id)
  lookup_again repo name path_hint none =
      if not (path_hint == "") then run_lookup (is_hinted repo name path_hint) else pure none

  abbrev pub link : String → ImportTarget → State F → State F
  link importer target s = record s {
    graph = record s.graph { imports = merge_import now importer target s.graph.imports };
  }

  -- WRITE_IMPORT_EDGE_QUERY: whether both nodes match.
  abbrev pub linked : String → String → State F → Bool × State F
  linked importer imported s =
      if is_node importer s.graph && is_node imported s.graph
      then (true, link importer (node imported) s)
      else (false, s)

  unfoldable pub write_edge : String → Option String → Action (State F) Bool
  unfolding command
  write_edge importer none = pure false
  write_edge importer (some imported) = command (linked importer imported)

  unfoldable pub resolve_import : String → String → String → String → Action (State F) Bool
  unfolding run_lookup write_edge
  resolve_import importer name path_hint repo = do
    first ← run_lookup (is_exact repo name)
    found ← lookup_again repo name path_hint first
    write_edge importer found

  -- WRITE_PACKAGE_EDGE_QUERY; a package is known by its name and its repository.
  abbrev pub packaged : String → String → String → State F → Bool × State F
  packaged importer pkg_name repo s =
      if is_node importer s.graph then (true, link importer (pkg pkg_name repo) s) else (false, s)

  unfoldable pub write_package_edge : String → String → String → Action (State F) Bool
  unfolding command
  write_package_edge importer pkg_name repo = command (packaged importer pkg_name repo)

  abbrev pub with_queue : String → (List Entry → List Entry) → State F → State F
  with_queue repo change s = record s {
    pending = Dict.put repo (change (queue repo s.pending)) s.pending;
  }

  abbrev pub pushed : String → Entry → State F → Unit {0} × State F
  pushed repo entry s = (tt, with_queue repo (λ entries. entries ++ entry ∷ []) s)

  unfoldable pub rpush : String → Entry → Action (State F) (Unit {0})
  unfolding command
  rpush repo entry = command (pushed repo entry)

  abbrev pub pushed_ref : PendingRef → State F → Unit {0} × State F
  pushed_ref r s = (tt, with_queue r.repo (push_pending r) s)

  -- `push_pending(r, ref)`
  unfoldable pub push : PendingRef → Action (State F) (Unit {0})
  unfolding command
  push r = command (pushed_ref r)

  abbrev pub drained : String → State F → List Entry × State F
  drained repo s = (queue repo s.pending, record s { pending = Dict.remove repo s.pending })

  -- LRANGE and DEL in one pipeline.
  unfoldable pub drain : String → Action (State F) (List Entry)
  unfolding command
  drain repo = command (drained repo)

  -- What follows the resolution of a reference in the loop: `rest` is the loop over the others.
  abbrev pub after_retry :
      String
      → PendingRef
      → List Entry
      → Action (State F) (Unit {0})
      → Result Bool
      → Action (State F) (Unit {0})
  after_retry repo r entries rest (ok true) = rest
  after_retry repo r entries rest (ok false) = push (tried_again now r) >> rest
  after_retry repo r entries rest (raise e) = for_each (rpush repo) (ref r ∷ entries)

  unfoldable pub retry_each : String → List Entry → Action (State F) (Unit {0})
  unfolding resolve_import push rpush
  retry_each repo [] s = (ok tt, s)
  retry_each repo (malformed t ∷ entries) s = retry_each repo entries s
  retry_each repo (ref r ∷ entries) s =
      let rest = retry_each repo entries in
      let (answer, s') = resolve_import r.source_stable_id r.target_name r.path_hint r.repo s in
      if is_expired now r then rest s else after_retry repo r entries rest answer s'

  unfoldable pub retry_list : String → Action (State F) (Unit {0})
  unfolding drain retry_each
  retry_list repo = do entries ← drain repo; retry_each repo entries

  abbrev pub unless : Bool → Action (State F) (Unit {0}) → Action (State F) (Unit {0})
  unless true m = pure tt
  unless false m = m

  unfoldable pub import_symbol : String → String → String → String → Action (State F) (Unit {0})
  unfolding resolve_import push
  import_symbol importer path_hint repo symbol = do
    resolved ← resolve_import importer symbol path_hint repo
    unless resolved (push (new_ref now importer symbol path_hint repo))

  unfoldable pub import_package : String → String → String → Action (State F) (Unit {0})
  unfolding write_package_edge
  import_package importer repo pkg_name = do
    written ← write_package_edge importer pkg_name repo
    pure tt

  abbrev pub import_all : ParsedFileEvent → ParsedNode → ImportInfo → Action (State F) (Unit {0})
  import_all event n (plain names) = for_each (import_package n.stable_id event.repo) names
  import_all event n (from_module module_name dots names) =
      for_each
        (import_symbol n.stable_id
          (compute_path_hint module_name (world.parts event.file_path) dots) event.repo)
        names

  unfoldable pub import_node : ParsedFileEvent → ParsedNode → Action (State F) (Unit {0})
  unfolding import_symbol import_package
  import_node event n = import_all event n (parse_import_body (world.ast n.body))

  unfoldable pub process_event : ParsedFileEvent → Action (State F) (Unit {0})
  unfolding import_node retry_list
  process_event event =
      for_each (import_node event) (keep (λ (n : ParsedNode). n.type == "import") event.nodes)
      >> retry_list event.repo

  abbrev pub acknowledged : String → State F → Unit {0} × State F
  acknowledged msg_id s = (tt, record s { acked = s.acked ++ msg_id ∷ [] })

  unfoldable pub xack : String → Action (State F) (Unit {0})
  unfolding command
  xack msg_id = command (acknowledged msg_id)

  -- Every exception but a cancellation leads to an acknowledgement.
  abbrev pub on_error : String → Exception → Action (State F) (Unit {0})
  on_error msg_id cancelled = throw cancelled
  on_error msg_id _ = xack msg_id

  unfoldable pub handle : Message → Action (State F) (Unit {0})
  unfolding process_event xack
  handle message =
      try_except
        (do event ← (λ s. (event_or_raise world message.1, s)); process_event event; xack message.0)
        (on_error message.0)

  abbrev pub loop_error : Exception → Action (State F) (Unit {0})
  loop_error cancelled = throw cancelled
  loop_error _ = pure tt

  -- The reads of the consumer; what leaves one is logged, until the consumer is cancelled.
  unfoldable pub consume : List (List Message) → Action (State F) (Unit {0})
  unfolding handle
  consume = for_each (λ events. try_except (for_each handle events) loop_error)
