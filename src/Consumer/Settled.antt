-- ===== src/Consumer/Settled.antt =====
-- Over a Redis that answers, the loop settles a batch as `Verdicts` describes.
use tersecontext.Prelude.{String, some, List, [], ◌∷◌, ◌++◌, ◌≡◌, append_assoc, append-nil, arith}
use tersecontext.Prelude.Effects.{
  Exception, key_error, value_error, Result, ok, raise, Action, continue, try_except,
}
use tersecontext.Consumer.{
  Message, Redis, Subclass, Process, on_redis, dead_letter, on_error, iteration, process,
  process_streams,
}
use tersecontext.Consumer.Verdicts.{
  acks, letters, ends, messages, all_acks, all_letters, verdict, self_after, IsReliable,
}

-- The state that a batch leaves, as the description has it.
pub record Settles {R C D : Type 0} (acked : R → List String)
    (dlq : R → List (String × Exception × D)) (before : R) (done : Result (Unit {0}) × Process R C)
    (result : Result (Unit {0})) (self : C) (ids : List String)
    (dead : List (String × Exception × D)) : Type 0 where
  pub ending : done.0 ≡ result
  pub self_state : done.1.self ≡ self
  pub acknowledged : acked done.1.redis ≡ acked before ++ ids
  pub dead_lettered : dlq done.1.redis ≡ dlq before ++ dead

module _ {R C D : Type 0} {redis : Redis R D} (sub : Subclass C D) {acked : R → List String}
    {dlq : R → List (String × Exception × D)} (reliable : IsReliable redis acked dlq) where
  dead_letter-Settles :
      (m : Message D) (e : Exception) (p : Process R C)
      → Settles acked dlq p.redis
          (dead_letter redis sub m e p)
          (ok tt)
          p.self
          (m.msg_id ∷ [])
          ((m.msg_id, e, m.body) ∷ [])
  unfolding dead_letter
  dead_letter-Settles m e p =
      let added = (redis.xadd_dlq m.msg_id e m.body p.redis).1 in
      ground (
        arith,
        reliable.xadd_ok m.msg_id e m.body p.redis,
        reliable.acked-xadd m.msg_id e m.body p.redis,
        reliable.dlq-xadd m.msg_id e m.body p.redis,
        reliable.xack_ok m.msg_id added,
        reliable.acked-xack m.msg_id added,
        reliable.dlq-xack m.msg_id added,
      )

  -- What follows an answer of `handle`, whatever answer it is.
  after : Message D → Result (Unit {0}) → Action (Process R C) (Unit {0})
  after m r = try_except (continue r (λ _. on_redis (redis.xack m.msg_id))) (on_error redis sub m)

  after-Settles :
      (m : Message D) (r : Result (Unit {0})) (p : Process R C)
      → Settles acked dlq p.redis (after m r p) (ends r) p.self (acks m r) (letters m r)
  unfolding after on_error
  after-Settles m (ok tt) p = ground (
    arith,
    reliable.xack_ok m.msg_id p.redis,
    reliable.acked-xack m.msg_id p.redis,
    reliable.dlq-xack m.msg_id p.redis,
    append-nil (dlq p.redis),
  )
  after-Settles m (raise (key_error t)) p = dead_letter-Settles m (key_error t) p
  after-Settles m (raise (value_error t)) p = dead_letter-Settles m (value_error t) p
  after-Settles m (raise _) p = ground (arith, append-nil (acked p.redis), append-nil (dlq p.redis))

  process-Settles :
      (m : Message D) (p : Process R C)
      → Settles acked dlq p.redis
          (process redis sub m p)
          (ends (sub.handle m.body p.self).0)
          (sub.handle m.body p.self).1
          (acks m (sub.handle m.body p.self).0)
          (letters m (sub.handle m.body p.self).0)
  unfolding process after
  process-Settles m p =
      let (r, c) = sub.handle m.body p.self in after-Settles m r (record p { self = c })

  streams-Settles :
      (streams : List (String × List (Message D))) (p : Process R C)
      → Settles acked dlq p.redis
          (process_streams redis sub streams p)
          (verdict sub (messages streams) p.self)
          (self_after sub (messages streams) p.self)
          (all_acks sub (messages streams) p.self)
          (all_letters sub (messages streams) p.self)
  unfolding process_streams verdict self_after all_acks all_letters
  streams-Settles [] p = ground (arith, append-nil (acked p.redis), append-nil (dlq p.redis))
  streams-Settles ((name, []) ∷ rest) p = streams-Settles rest p
  streams-Settles ((name, m ∷ ms) ∷ rest) p =
      let (r, c) = sub.handle m.body p.self in
      let p' = (process redis sub m p).1 in
      ground (
        arith,
        process-Settles m p,
        streams-Settles ((name, ms) ∷ rest) p',
        append_assoc (acked p.redis) (acks m r) (all_acks sub (ms ++ messages rest) c),
        append_assoc (dlq p.redis) (letters m r) (all_letters sub (ms ++ messages rest) c),
      )

module _ {R C D : Type 0} {redis : Redis R D} (sub : Subclass C D) {acked : R → List String}
    {dlq : R → List (String × Exception × D)} (reliable : IsReliable redis acked dlq)
    (p : Process R C) (streams : List (String × List (Message D)))
    (answer : (redis.xreadgroup p.redis).0 ≡ ok (some streams)) where
  -- If no XACK and no XADD of Redis raises, then in one round over the messages that a read brings,
  -- whatever `handle` and `post_batch` do: the messages that `handle` accepted or found malformed are
  -- acknowledged, in order, and no other one; the malformed ones are in the dead-letter stream with
  -- their errors, in order, and nothing else is added to it. A message whose handling failed is
  -- neither and stays pending, and so do those behind a cancellation.
  pub iteration-settles :
      (acked (iteration redis sub p).1.redis
        ≡ acked p.redis ++ all_acks sub (messages streams) p.self)
      × (dlq (iteration redis sub p).1.redis
          ≡ dlq p.redis ++ all_letters sub (messages streams) p.self)
  unfolding iteration
  iteration-settles =
      let p' = record p { redis = (redis.xreadgroup p.redis).1 } in
      let s = streams-Settles sub reliable streams p' in
      ground (
        arith,
        s.acknowledged,
        s.dead_lettered,
        answer,
        reliable.acked-xreadgroup p.redis,
        reliable.dlq-xreadgroup p.redis,
      )
