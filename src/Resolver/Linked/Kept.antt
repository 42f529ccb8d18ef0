-- ===== src/Resolver/Linked/Kept.antt =====
-- The same through the whole consumer.
use tersecontext.Prelude.{
  ℕ, String, Bool, true, false, Option, none, some, List, [], ◌∷◌, ◌==◌, keep, Bool-cases, inl, inr,
}
use tersecontext.Prelude.Effects.{
  Result, ok, raise, Action, pure, try_except, for_each, ◌>>=◌, ◌>>◌, then_keeps, bind_keeps,
  for_each_keeps, try_keeps, Exception, key_error, value_error, failure, cancelled,
}
use tersecontext.Graph.Store.{NodeProps, Graph}
use tersecontext.Pending.{PendingRef, Entry, malformed, ref, is_expired, tried_again}
use tersecontext.Resolver.{
  ParsedNode, ParsedFileEvent, ImportInfo, from_module, plain, State, World, compute_path_hint,
  parse_import_body,
}
use tersecontext.Resolver.Process.{
  Message, command, is_exact, is_hinted, looked_up, pushed, pushed_ref, drained, new_ref,
  acknowledged, run_lookup, lookup_again, linked, write_edge, resolve_import, packaged, rpush,
  write_package_edge, push, drain, after_retry, retry_each, retry_list, unless, import_symbol,
  import_package, import_all, import_node, process_event, event_or_raise, xack, on_error,
  loop_error, handle, consume,
}
use tersecontext.Resolver.Linked.{P, IsKeeping, IsLinked, command-IsKeeping, linked-P, packaged-P}

module _ {F : Type 0} (start : Graph F) (world : World) (now : ℕ) (is_up : ℕ → Bool) where
  run_lookup-IsKeeping :
      (test : NodeProps → Bool) → IsKeeping start (run_lookup world now is_up test)
  unfolding run_lookup
  run_lookup-IsKeeping test =
      command-IsKeeping start world now is_up (looked_up world now is_up test) (λ s h. h)

  lookup_again-IsKeeping :
      (repo name path_hint : String) (o : Option String)
      → IsKeeping start (lookup_again world now is_up repo name path_hint o)
  lookup_again-IsKeeping repo name path_hint (some id) s h = h
  lookup_again-IsKeeping repo name path_hint none s h = elim (Bool-cases (path_hint == "")) [
    | inl e ↦ rw e h
    | inr e ↦ rw e (run_lookup-IsKeeping (is_hinted repo name path_hint) s h)
  ]

  write_edge-IsKeeping :
      (a : String) (o : Option String) → IsKeeping start (write_edge world now is_up a o)
  unfolding write_edge
  write_edge-IsKeeping a none s h = h
  write_edge-IsKeeping a (some b) s h =
      command-IsKeeping start world now is_up (linked world now is_up a b)
        (linked-P start world now is_up a b) s h

  resolve_import-IsKeeping :
      (a name path_hint repo : String)
      → IsKeeping start (resolve_import world now is_up a name path_hint repo)
  unfolding resolve_import
  resolve_import-IsKeeping a name path_hint repo =
      bind_keeps (P start) (run_lookup world now is_up (is_exact repo name))
        (λ first.
          lookup_again world now is_up repo name path_hint first >>= write_edge world now is_up a)
        (run_lookup-IsKeeping (is_exact repo name))
        (λ first.
          bind_keeps (P start) (lookup_again world now is_up repo name path_hint first)
            (write_edge world now is_up a) (lookup_again-IsKeeping repo name path_hint first)
            (write_edge-IsKeeping a))

  rpush-IsKeeping : (repo : String) (e : Entry) → IsKeeping start (rpush world now is_up repo e)
  unfolding rpush
  rpush-IsKeeping repo e =
      command-IsKeeping start world now is_up (pushed world now is_up repo e) (λ s h. h)

  push-IsKeeping : (r : PendingRef) → IsKeeping start (push world now is_up r)
  unfolding push
  push-IsKeeping r =
      command-IsKeeping start world now is_up (pushed_ref world now is_up r) (λ s h. h)

  after_retry-IsKeeping :
      (repo : String) (r : PendingRef) (entries : List Entry) (rest : Action (State F) (Unit {0}))
      (answer : Result Bool)
      → IsKeeping start rest
      → IsKeeping start (after_retry world now is_up repo r entries rest answer)
  after_retry-IsKeeping repo r entries rest (ok true) k = k
  after_retry-IsKeeping repo r entries rest (ok false) k =
      then_keeps (P start) (push world now is_up (tried_again now r)) rest
        (push-IsKeeping (tried_again now r)) k
  after_retry-IsKeeping repo r entries rest (raise e) k =
      for_each_keeps (P start) (rpush world now is_up repo) (rpush-IsKeeping repo) (ref r ∷ entries)

  retry_each-IsKeeping :
      (repo : String) (entries : List Entry)
      → IsKeeping start (retry_each world now is_up repo entries)
  unfolding retry_each
  retry_each-IsKeeping repo [] s h = h
  retry_each-IsKeeping repo (malformed t ∷ entries) s h = retry_each-IsKeeping repo entries s h
  retry_each-IsKeeping repo (ref r ∷ entries) s h = elim (Bool-cases (is_expired now r)) [
    | inl e ↦ rw e (retry_each-IsKeeping repo entries s h)
    | inr e ↦ rw e (
        after_retry-IsKeeping repo r entries (retry_each world now is_up repo entries)
          (resolve_import world now is_up r.source_stable_id r.target_name r.path_hint r.repo s).0
          (retry_each-IsKeeping repo entries)
          (resolve_import world now is_up r.source_stable_id r.target_name r.path_hint r.repo s).1
          (resolve_import-IsKeeping r.source_stable_id r.target_name r.path_hint r.repo s h))
  ]

  retry_list-IsKeeping : (repo : String) → IsKeeping start (retry_list world now is_up repo)
  unfolding retry_list drain
  retry_list-IsKeeping repo =
      bind_keeps (P start) (command world now is_up (drained world now is_up repo))
        (retry_each world now is_up repo)
        (command-IsKeeping start world now is_up (drained world now is_up repo) (λ s h. h))
        (retry_each-IsKeeping repo)

  unless-IsKeeping :
      (b : Bool) (m : Action (State F) (Unit {0}))
      → IsKeeping start m
      → IsKeeping start (unless world now is_up b m)
  unless-IsKeeping true m k s h = h
  unless-IsKeeping false m k s h = k s h

  import_symbol-IsKeeping :
      (a path_hint repo symbol : String)
      → IsKeeping start (import_symbol world now is_up a path_hint repo symbol)
  unfolding import_symbol
  import_symbol-IsKeeping a path_hint repo symbol =
      let r = new_ref now a symbol path_hint repo in
      bind_keeps (P start) (resolve_import world now is_up a symbol path_hint repo)
        (λ b. unless world now is_up b (push world now is_up r))
        (resolve_import-IsKeeping a symbol path_hint repo)
        (λ b. unless-IsKeeping b (push world now is_up r) (push-IsKeeping r))

  import_package-IsKeeping :
      (a repo name : String) → IsKeeping start (import_package world now is_up a repo name)
  unfolding import_package write_package_edge
  import_package-IsKeeping a repo name =
      bind_keeps (P start) (command world now is_up (packaged world now is_up a name repo))
        (λ b. pure tt)
        (command-IsKeeping start world now is_up (packaged world now is_up a name repo)
          (packaged-P start world now is_up a name repo))
        (λ b s h. h)

  import_all-IsKeeping :
      (event : ParsedFileEvent) (n : ParsedNode) (info : ImportInfo)
      → IsKeeping start (import_all world now is_up event n info)
  import_all-IsKeeping event n (plain names) =
      for_each_keeps (P start) (import_package world now is_up n.stable_id event.repo)
        (import_package-IsKeeping n.stable_id event.repo) names
  import_all-IsKeeping event n (from_module m dots names) =
      let hint = compute_path_hint m (world.parts event.file_path) dots in
      for_each_keeps (P start) (import_symbol world now is_up n.stable_id hint event.repo)
        (import_symbol-IsKeeping n.stable_id hint event.repo) names

  import_node-IsKeeping :
      (event : ParsedFileEvent) (n : ParsedNode)
      → IsKeeping start (import_node world now is_up event n)
  unfolding import_node
  import_node-IsKeeping event n =
      import_all-IsKeeping event n (parse_import_body (world.ast n.body))

  process_event-IsKeeping :
      (event : ParsedFileEvent) → IsKeeping start (process_event world now is_up event)
  unfolding process_event
  process_event-IsKeeping event =
      let nodes = keep (λ (n : ParsedNode). n.type == "import") event.nodes in
      then_keeps (P start) (for_each (import_node world now is_up event) nodes)
        (retry_list world now is_up event.repo)
        (for_each_keeps (P start) (import_node world now is_up event) (import_node-IsKeeping event)
          nodes)
        (retry_list-IsKeeping event.repo)

  xack-IsKeeping : (msg_id : String) → IsKeeping start (xack world now is_up msg_id)
  unfolding xack
  xack-IsKeeping msg_id =
      command-IsKeeping start world now is_up (acknowledged world now is_up msg_id) (λ s h. h)

  on_error-IsKeeping :
      (msg_id : String) (e : Exception) → IsKeeping start (on_error world now is_up msg_id e)
  on_error-IsKeeping msg_id cancelled s h = h
  on_error-IsKeeping msg_id (key_error t) s h = xack-IsKeeping msg_id s h
  on_error-IsKeeping msg_id (value_error t) s h = xack-IsKeeping msg_id s h
  on_error-IsKeeping msg_id (failure t) s h = xack-IsKeeping msg_id s h

  loop_error-IsKeeping : (e : Exception) → IsKeeping start (loop_error world now is_up e)
  loop_error-IsKeeping cancelled s h = h
  loop_error-IsKeeping (key_error t) s h = h
  loop_error-IsKeeping (value_error t) s h = h
  loop_error-IsKeeping (failure t) s h = h

  handle-IsKeeping : (m : Message) → IsKeeping start (handle world now is_up m)
  unfolding handle
  handle-IsKeeping m =
      let body : ParsedFileEvent → Action (State F) (Unit {0}) =
        λ event. process_event world now is_up event >> xack world now is_up m.0 in
      try_keeps (P start) ((λ (s : State F). (event_or_raise world m.1, s)) >>= body)
        (on_error world now is_up m.0)
        (bind_keeps (P start) (λ (s : State F). (event_or_raise world m.1, s)) body (λ s h. h)
          (λ event.
            then_keeps (P start) (process_event world now is_up event) (xack world now is_up m.0)
              (process_event-IsKeeping event) (xack-IsKeeping m.0)))
        (on_error-IsKeeping m.0)

  -- Whatever messages the resolver reads, and whichever commands of Neo4j and Redis fail: nodes and CALLS
  -- edges stay as they are, and if every IMPORTS edge started at a node of the graph, ended at a node or a
  -- package and stood once, the same holds afterwards.
  pub consume-IsLinked :
      (reads : List (List Message)) (s : State F)
      → IsLinked start s.graph
      → IsLinked start (consume world now is_up reads s).1.graph
  unfolding consume
  consume-IsLinked =
      for_each_keeps (P start)
        (λ events.
          try_except (for_each (handle world now is_up) events) (loop_error world now is_up))
        (λ events.
          try_keeps (P start) (for_each (handle world now is_up) events)
            (loop_error world now is_up)
            (for_each_keeps (P start) (handle world now is_up) handle-IsKeeping events)
            loop_error-IsKeeping)
