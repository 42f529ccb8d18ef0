-- ===== src/VectorWriter/Latest.antt =====
-- The collection against the events: a node has the point of its last embedding, unless it was deleted since.
use tersecontext.Prelude.{
  ℕ, suc, String, Bool, true, false, ◌≡◌, refl, ◌∙◌, sym, ap, Option, none, some, List, [], ◌∷◌,
  ◌==◌, elem, arith, eq_iff, Bool-cases, inl, inr, if◌then◌else◌,
}
use tersecontext.Prelude.Dict
use tersecontext.Prelude.Dict.{Dict}
use tersecontext.Prelude.Effects.{
  key_error, value_error, failure, cancelled, Result, ok, raise, Action, handled, try_except,
  continue, ◌>>=◌, ◌>>◌,
}
use tersecontext.VectorWriter.{
  EmbeddedNode, EmbeddedNodesEvent, FileChangedEvent, Point, Store, World, Message, embedded_nodes,
  file_changed, or_raise, point_of, upsert, delete, command, acknowledged, xack, upserted,
  unless_nil, upsert_points, deleted, delete_points, lift, upsert_event, delete_event,
  process_embedded, process_delete, on_error, handle, consume,
}

-- What a message can be read as.
abbrev is_bad_or_ok : {E : Type 0} → Result E → Bool
is_bad_or_ok (ok event) = true
is_bad_or_ok (raise (key_error t)) = true
is_bad_or_ok (raise (value_error t)) = true
is_bad_or_ok (raise _) = false

or_raise-fine :
    {E : Type 0} (of_json : String → Option E) (raw : Option String)
    → is_bad_or_ok (or_raise of_json raw) ≡ true
or_raise-fine of_json none = refl
or_raise-fine of_json (some raw) = ground (arith, of_json raw)

module _ {F : Type 0} (world : World F) where
  -- The last one of the nodes with the identity, or else what was there.
  abbrev pub last_of : String → String → List (EmbeddedNode F) → Option (Point F) → Option (Point F)
  last_of sid repo [] before = before
  last_of sid repo (n ∷ nodes) before =
      last_of sid repo nodes (if n.stable_id == sid then some (point_of world repo n) else before)

  abbrev pub after_embedded :
      String → Result (EmbeddedNodesEvent F) → Option (Point F) → Option (Point F)
  after_embedded sid (ok event) before = last_of sid event.repo event.nodes before
  after_embedded sid (raise e) before = before

  abbrev pub after_deleted : String → Result FileChangedEvent → Option (Point F) → Option (Point F)
  after_deleted sid (ok event) before = if elem sid event.deleted_nodes then none else before
  after_deleted sid (raise e) before = before

  -- What a node has in the index after the messages: the specification of the vector writer.
  abbrev pub latest : String → List Message → Option (Point F) → Option (Point F)
  latest sid [] before = before
  latest sid (embedded_nodes msg_id raw ∷ messages) before =
      latest sid messages (after_embedded sid (or_raise world.embedded_of_json raw) before)
  latest sid (file_changed msg_id raw ∷ messages) before =
      latest sid messages (after_deleted sid (or_raise world.changed_of_json raw) before)

  module _ (injective : (a b : String) → world.uuid5 a ≡ world.uuid5 b → a ≡ b) where
    uuid5-eq : (a b : String) → (world.uuid5 a == world.uuid5 b) ≡ (a == b)
    uuid5-eq a b = elim (Bool-cases (a == b)) [
      | inl e ↦ ground (arith, e, eq_iff a b, eq_iff (world.uuid5 a) (world.uuid5 b))
      | inr e ↦ ground (arith, e, injective a b, eq_iff a b, eq_iff (world.uuid5 a) (world.uuid5 b))
    ]

    get-upsert :
        (sid repo : String) (nodes : List (EmbeddedNode F)) (points : Dict (Point F))
        → Dict.get (world.uuid5 sid) (upsert world repo nodes points)
          ≡ last_of sid repo nodes (Dict.get (world.uuid5 sid) points)
    unfolding upsert
    get-upsert sid repo [] points = refl
    get-upsert sid repo (n ∷ nodes) points =
        get-upsert sid repo nodes _
        ∙ ap (last_of sid repo nodes) (
            Dict.get-put (world.uuid5 n.stable_id) (world.uuid5 sid) (point_of world repo n) points
            ∙ rw (uuid5-eq n.stable_id sid) refl)

    get-delete :
        (sid : String) (ids : List String) (points : Dict (Point F))
        → Dict.get (world.uuid5 sid) (delete world ids points)
          ≡ (if elem sid ids then none else Dict.get (world.uuid5 sid) points)
    unfolding delete
    get-delete sid [] points = refl
    get-delete sid (i ∷ ids) points = ground (
      arith,
      get-delete sid ids (Dict.remove (world.uuid5 i) points),
      Dict.get-remove (world.uuid5 i) (world.uuid5 sid) points,
      uuid5-eq i sid,
    )

    module _ (is_up : ℕ → Bool) (up : (n : ℕ) → is_up n ≡ true) where
      command_up :
          (change : Store F → Store F) (s : Store F)
          → command world is_up change s ≡ (ok tt, change (record s { commands = suc s.commands }))
      unfolding command
      command_up change s = rw (up s.commands) refl

      -- A write of a list, which no list needs.
      unless_nil-effect :
          {A : Type 0} (k : String) (xs : List A) (change : Store F → Store F)
          (effect : List A → Option (Point F) → Option (Point F)) (s : Store F)
          → ((t : Store F) → Dict.get k (change t).points ≡ effect xs (Dict.get k t.points))
          → ((b : Option (Point F)) → effect [] b ≡ b)
          → let r =
              unless_nil world is_up xs
                (unless_nil world is_up xs (command world is_up change))
                s in
            (r.0 ≡ ok tt) × (Dict.get k r.1.points ≡ effect xs (Dict.get k s.points))
      unless_nil-effect k [] change effect s h none_ = (refl, sym (none_ (Dict.get k s.points)))
      unless_nil-effect k (x ∷ xs) change effect s h none_ =
          rw (command_up change s) (refl, h (record s { commands = suc s.commands }))

      -- What the message is acknowledged after.
      finish :
          (k msg_id : String) (after : Option (Point F)) (r : Result (Unit {0})) (t : Store F)
          → r ≡ ok tt
          → Dict.get k t.points ≡ after
          → let end =
              handled
                (continue r (λ _. xack world is_up msg_id) t).0
                (on_error world is_up msg_id)
                (continue r (λ _. xack world is_up msg_id) t).1 in
            (end.0 ≡ ok tt) × (Dict.get k end.1.points ≡ after)
      unfolding xack
      finish k msg_id after r t e h =
          rw e (rw (command_up (acknowledged world is_up msg_id) t) (refl, h))

      reject :
          (k msg_id : String) (s : Store F)
          → let end = xack world is_up msg_id s in
            (end.0 ≡ ok tt) × (Dict.get k end.1.points ≡ Dict.get k s.points)
      unfolding xack
      reject k msg_id s = rw (command_up (acknowledged world is_up msg_id) s) (refl, refl)

      abbrev step_of :
          {E : Type 0}
          → Result E
          → (E → Action (Store F) (Unit {0}))
          → String
          → Action (Store F) (Unit {0})
      step_of r body msg_id =
          try_except ((lift world is_up r >>= body) >> xack world is_up msg_id)
            (on_error world is_up msg_id)

      embedded-step :
          (sid msg_id : String) (r : Result (EmbeddedNodesEvent F)) (s : Store F)
          → is_bad_or_ok r ≡ true
          → let end = step_of r (upsert_event world is_up) msg_id s in
            (end.0 ≡ ok tt)
            × (Dict.get (world.uuid5 sid) end.1.points
                ≡ after_embedded sid r (Dict.get (world.uuid5 sid) s.points))
      unfolding upsert_points
      embedded-step sid msg_id (ok event) s b =
          let (g, h) =
            unless_nil-effect (world.uuid5 sid) event.nodes (upserted world is_up event)
              (last_of sid event.repo) s (λ t. get-upsert sid event.repo event.nodes t.points)
              (λ b. refl) in
          finish (world.uuid5 sid) msg_id _ (upsert_event world is_up event s).0
            (upsert_event world is_up event s).1 g h
      embedded-step sid msg_id (raise (key_error t)) s b = reject (world.uuid5 sid) msg_id s
      embedded-step sid msg_id (raise (value_error t)) s b = reject (world.uuid5 sid) msg_id s
      embedded-step sid msg_id (raise (failure t)) s b = ground arith
      embedded-step sid msg_id (raise cancelled) s b = ground arith

      deleted-step :
          (sid msg_id : String) (r : Result FileChangedEvent) (s : Store F)
          → is_bad_or_ok r ≡ true
          → let end = step_of r (delete_event world is_up) msg_id s in
            (end.0 ≡ ok tt)
            × (Dict.get (world.uuid5 sid) end.1.points
                ≡ after_deleted sid r (Dict.get (world.uuid5 sid) s.points))
      unfolding delete_points
      deleted-step sid msg_id (ok event) s b =
          let (g, h) =
            unless_nil-effect (world.uuid5 sid) event.deleted_nodes
              (deleted world is_up event.deleted_nodes) (λ ids b. if elem sid ids then none else b)
              s (λ t. get-delete sid event.deleted_nodes t.points) (λ b. refl) in
          finish (world.uuid5 sid) msg_id _ (delete_event world is_up event s).0
            (delete_event world is_up event s).1 g h
      deleted-step sid msg_id (raise (key_error t)) s b = reject (world.uuid5 sid) msg_id s
      deleted-step sid msg_id (raise (value_error t)) s b = reject (world.uuid5 sid) msg_id s
      deleted-step sid msg_id (raise (failure t)) s b = ground arith
      deleted-step sid msg_id (raise cancelled) s b = ground arith

      handle-latest :
          (sid : String) (m : Message) (s : Store F)
          → ((handle world is_up m s).0 ≡ ok tt)
            × (Dict.get (world.uuid5 sid) (handle world is_up m s).1.points
                ≡ latest sid (m ∷ []) (Dict.get (world.uuid5 sid) s.points))
      unfolding handle process_embedded process_delete
      handle-latest sid (embedded_nodes msg_id raw) s =
          embedded-step sid msg_id (or_raise world.embedded_of_json raw) s
            (or_raise-fine world.embedded_of_json raw)
      handle-latest sid (file_changed msg_id raw) s =
          deleted-step sid msg_id (or_raise world.changed_of_json raw) s
            (or_raise-fine world.changed_of_json raw)

      latest-cons :
          (sid : String) (m : Message) (messages : List Message) (b : Option (Point F))
          → latest sid messages (latest sid (m ∷ []) b) ≡ latest sid (m ∷ messages) b
      latest-cons sid (embedded_nodes msg_id raw) messages b = refl
      latest-cons sid (file_changed msg_id raw) messages b = refl

      -- While Qdrant and Redis are up, the two consumers, whatever order their messages are handled in,
      -- implement the index they stand for: under the id of a node is the point of the last embedding of
      -- the node, with its payload, unless the node was deleted since, and bad messages change nothing.
      -- Different nodes must have different ids.
      pub consume-latest :
          (sid : String) (messages : List Message) (s : Store F)
          → Dict.get (world.uuid5 sid) (consume world is_up messages s).1.points
            ≡ latest sid messages (Dict.get (world.uuid5 sid) s.points)
      unfolding consume
      consume-latest sid [] s = refl
      consume-latest sid (m ∷ messages) s =
          let (g, h) = handle-latest sid m s in
          rw g (
            consume-latest sid messages (handle world is_up m s).1
            ∙ (ap (latest sid messages) h ∙ latest-cons sid m messages _))
