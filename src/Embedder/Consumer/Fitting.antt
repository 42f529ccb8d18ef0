-- ===== src/Embedder/Consumer/Fitting.antt =====
-- The dimension of the vectors that are published.
use tersecontext.Prelude.{
  ℕ, suc, String, Bool, true, ◌≡◌, Option, List, [], ◌∷◌, All, All-append, Bool-cases, inl, inr,
  if◌then◌else◌,
}
use tersecontext.Prelude.Effects.{
  Exception, key_error, value_error, failure, cancelled, Result, ok, raise, Action, try_except,
  for_each, pure, ◌>>◌, then_keeps, bind_keeps, for_each_keeps, try_keeps,
}
use tersecontext.Prelude.Results.{Holds}
use tersecontext.Embedder.{ParsedFileEvent, EmbeddedNode, EmbeddedNodesEvent}
use tersecontext.Embedder.Batches.{fits, embed_nodes-fits}
use tersecontext.Embedder.Consumer.{
  Message, Service, World, ids, is_bad_message, command, hashes, get_node_hashes, no_hashes,
  sent_out, xadd, acknowledged, xack, event_or_raise, lift, embed_with, event_of, publish,
  process_event, process, on_error, handle, loop_error, consume,
}

module _ {F : Type 0} (world : World F) (is_up : ℕ → Bool) where
  abbrev pub FitsAll : List (EmbeddedNode F) → Type 0
  FitsAll = All (λ (n : EmbeddedNode F). fits world.embedding_dim n.vector ≡ true)

  abbrev pub FitsEvent : EmbeddedNodesEvent F → Type 0
  FitsEvent out = FitsAll out.nodes

  -- All that has been published has the dimension.
  abbrev pub P : Service F → Type 0
  P s = All FitsEvent s.published

  abbrev IsKeeping : {A : Type 0} → Action (Service F) A → Type 0
  IsKeeping m = (s : Service F) → P s → P (m s).1

  command-IsKeeping :
      {A : Type 0} (change : Service F → A × Service F)
      → ((s : Service F) → P s → P (change s).1)
      → IsKeeping (command world is_up change)
  unfolding command
  command-IsKeeping change k s h = elim (Bool-cases (is_up s.commands)) [
    | inl e ↦ rw e (k (record s { commands = suc s.commands }) h)
    | inr e ↦ rw e h
  ]

  get_node_hashes-IsKeeping : (xs : List String) → IsKeeping (get_node_hashes world is_up xs)
  unfolding get_node_hashes
  get_node_hashes-IsKeeping [] s h = h
  get_node_hashes-IsKeeping (x ∷ xs) s h =
      command-IsKeeping (hashes world is_up (x ∷ xs)) (λ s h. h) s h

  no_hashes-IsKeeping : (e : Exception) → IsKeeping (no_hashes world is_up e)
  no_hashes-IsKeeping cancelled s h = h
  no_hashes-IsKeeping (key_error t) s h = h
  no_hashes-IsKeeping (value_error t) s h = h
  no_hashes-IsKeeping (failure t) s h = h

  xack-IsKeeping : (msg_id : String) → IsKeeping (xack world is_up msg_id)
  unfolding xack
  xack-IsKeeping msg_id = command-IsKeeping (acknowledged world is_up msg_id) (λ s h. h)

  publish-IsKeeping :
      (event : ParsedFileEvent) (r : Result (List (EmbeddedNode F)))
      → Holds FitsAll r
      → IsKeeping (publish world is_up event r)
  unfolding publish xadd
  publish-IsKeeping event (ok nodes) f =
      command-IsKeeping (sent_out world is_up (event_of world is_up event nodes))
        (λ s h. All-append FitsEvent s.published (event_of world is_up event nodes ∷ []) h (f, tt))
  publish-IsKeeping event (raise e) f = λ s h. h

  process_event-IsKeeping : (event : ParsedFileEvent) → IsKeeping (process_event world is_up event)
  unfolding process_event
  process_event-IsKeeping event =
      bind_keeps P
        (try_except (get_node_hashes world is_up (ids event.nodes)) (no_hashes world is_up))
        (λ cache. publish world is_up event (embed_with world is_up event cache))
        (try_keeps P (get_node_hashes world is_up (ids event.nodes)) (no_hashes world is_up)
          (get_node_hashes-IsKeeping (ids event.nodes)) no_hashes-IsKeeping)
        (λ cache. publish-IsKeeping event (embed_with world is_up event cache) (
          embed_nodes-fits world.embed event.file_path event.language event.nodes cache
            world.batch_size world.embedding_dim))

  process-IsKeeping : (raw : Option String) → IsKeeping (process world is_up raw)
  unfolding process
  process-IsKeeping raw =
      bind_keeps P (lift world is_up (event_or_raise world is_up raw)) (process_event world is_up)
        (λ s h. h) process_event-IsKeeping

  unless_bad-IsKeeping :
      (msg_id : String) (e : Exception)
      → IsKeeping (if is_bad_message e then xack world is_up msg_id else pure tt)
  unless_bad-IsKeeping msg_id e s h = elim (Bool-cases (is_bad_message e)) [
    | inl b ↦ rw b (xack-IsKeeping msg_id s h)
    | inr b ↦ rw b h
  ]

  on_error-IsKeeping : (msg_id : String) (e : Exception) → IsKeeping (on_error world is_up msg_id e)
  on_error-IsKeeping msg_id cancelled s h = h
  on_error-IsKeeping msg_id (key_error t) s h = unless_bad-IsKeeping msg_id (key_error t) s h
  on_error-IsKeeping msg_id (value_error t) s h = unless_bad-IsKeeping msg_id (value_error t) s h
  on_error-IsKeeping msg_id (failure t) s h = unless_bad-IsKeeping msg_id (failure t) s h

  loop_error-IsKeeping : (e : Exception) → IsKeeping (loop_error world is_up e)
  loop_error-IsKeeping cancelled s h = h
  loop_error-IsKeeping (key_error t) s h = h
  loop_error-IsKeeping (value_error t) s h = h
  loop_error-IsKeeping (failure t) s h = h

  handle-IsKeeping : (m : Message) → IsKeeping (handle world is_up m)
  unfolding handle
  handle-IsKeeping m =
      try_keeps P (process world is_up m.1 >> xack world is_up m.0) (on_error world is_up m.0)
        (then_keeps P (process world is_up m.1) (xack world is_up m.0) (process-IsKeeping m.1)
          (xack-IsKeeping m.0))
        (on_error-IsKeeping m.0)

  -- Whatever messages the embedder reads, whatever the provider answers, and whichever commands of
  -- Neo4j and Redis fail: each vector that is published has the dimension that the service is set to,
  -- where it is set to one.
  pub consume-fits :
      (reads : List (List Message)) (s : Service F)
      → All FitsEvent s.published
      → All FitsEvent (consume world is_up reads s).1.published
  unfolding consume
  consume-fits =
      for_each_keeps P
        (λ events. try_except (for_each (handle world is_up) events) (loop_error world is_up))
        (λ events.
          try_keeps P (for_each (handle world is_up) events) (loop_error world is_up)
            (for_each_keeps P (handle world is_up) handle-IsKeeping events) loop_error-IsKeeping)
