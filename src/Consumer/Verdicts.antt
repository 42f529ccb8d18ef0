-- ===== src/Consumer/Verdicts.antt =====
-- What `handle` answers for each message of a batch, and what the loop owes Redis for the answer:
-- an independent description of the settling of a batch, with no Redis in it.
use tersecontext.Prelude.{String, Bool, true, false, List, [], ◌∷◌, ◌++◌, ◌≡◌}
use tersecontext.Prelude.Effects.{
  Exception, key_error, value_error, failure, cancelled, Result, ok, raise,
}
use tersecontext.Consumer.{Message, Redis, Subclass}

-- Handled and malformed messages are acknowledged; a failed one is left for redelivery.
abbrev pub acks : {D : Type 0} → Message D → Result (Unit {0}) → List String
acks m (ok _) = m.msg_id ∷ []
acks m (raise (key_error _)) = m.msg_id ∷ []
acks m (raise (value_error _)) = m.msg_id ∷ []
acks m (raise (failure _)) = []
acks m (raise cancelled) = []

-- Malformed messages alone go to the dead-letter stream.
abbrev pub letters : {D : Type 0} → Message D → Result (Unit {0}) → List (String × Exception × D)
letters m (raise (key_error t)) = (m.msg_id, key_error t, m.body) ∷ []
letters m (raise (value_error t)) = (m.msg_id, value_error t, m.body) ∷ []
letters m _ = []

-- Only a cancellation ends the batch early.
abbrev pub ends : Result (Unit {0}) → Result (Unit {0})
ends (raise cancelled) = raise cancelled
ends _ = ok tt

abbrev pub is_cancelled : Result (Unit {0}) → Bool
is_cancelled (raise cancelled) = true
is_cancelled _ = false

module _ {C D : Type 0} (sub : Subclass C D) where
  -- The answers of `handle` down the batch, up to a cancellation, from a state of the subclass.
  unfoldable pub all_acks : List (Message D) → C → List String
  all_acks [] c = []
  all_acks (m ∷ ms) c =
      let (r, c') = sub.handle m.body c in
      elim (is_cancelled r) [ true ↦ acks m r | false ↦ acks m r ++ all_acks ms c' ]

  unfoldable pub all_letters : List (Message D) → C → List (String × Exception × D)
  all_letters [] c = []
  all_letters (m ∷ ms) c =
      let (r, c') = sub.handle m.body c in
      elim (is_cancelled r) [ true ↦ letters m r | false ↦ letters m r ++ all_letters ms c' ]

  unfoldable pub verdict : List (Message D) → C → Result (Unit {0})
  verdict [] c = ok tt
  verdict (m ∷ ms) c =
      let (r, c') = sub.handle m.body c in
      elim (is_cancelled r) [ true ↦ raise cancelled | false ↦ verdict ms c' ]

  unfoldable pub self_after : List (Message D) → C → C
  self_after [] c = c
  self_after (m ∷ ms) c =
      let (r, c') = sub.handle m.body c in
      elim (is_cancelled r) [ true ↦ c' | false ↦ self_after ms c' ]

-- The messages of one read, in the order in which the loop visits them.
abbrev pub messages : {D : Type 0} → List (String × List (Message D)) → List (Message D)
messages [] = []
messages ((stream, ms) ∷ rest) = ms ++ messages rest

-- A Redis that answers: XACK and XADD raise nothing and do what Redis documents, as seen through
-- the list of acknowledged identifiers and the content of the dead-letter stream.
pub record IsReliable {R D : Type 0} (redis : Redis R D) (acked : R → List String)
    (dlq : R → List (String × Exception × D)) : Type 0 where
  pub xack_ok : (id : String) (s : R) → (redis.xack id s).0 ≡ ok tt
  pub acked-xack : (id : String) (s : R) → acked (redis.xack id s).1 ≡ acked s ++ id ∷ []
  pub dlq-xack : (id : String) (s : R) → dlq (redis.xack id s).1 ≡ dlq s
  pub xadd_ok : (id : String) (e : Exception) (d : D) (s : R) → (redis.xadd_dlq id e d s).0 ≡ ok tt
  pub acked-xadd :
      (id : String) (e : Exception) (d : D) (s : R) → acked (redis.xadd_dlq id e d s).1 ≡ acked s
  pub dlq-xadd :
      (id : String) (e : Exception) (d : D) (s : R)
      → dlq (redis.xadd_dlq id e d s).1 ≡ dlq s ++ (id, e, d) ∷ []
  pub acked-xreadgroup : (s : R) → acked (redis.xreadgroup s).1 ≡ acked s
  pub dlq-xreadgroup : (s : R) → dlq (redis.xreadgroup s).1 ≡ dlq s
