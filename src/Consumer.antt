-- ===== src/Consumer.antt =====
-- services/shared/consumer.py: `RedisConsumerBase`, the loop that reads a stream in batches, hands
-- each message to the subclass, acknowledges it or moves it to the dead-letter stream, and closes
-- a batch by `post_batch`. Redis and the subclass are parameters; both may raise at any call.
pub mod Verdicts
pub mod Settled
pub mod Keeps
pub mod Escapes
mod Examples
use tersecontext.Prelude.{
  ℕ, zero, suc, String, Bool, true, false, Option, none, some, List, [], ◌∷◌, ◌++◌,
}
use tersecontext.Prelude.Effects.{
  Exception, key_error, value_error, failure, cancelled, Result, ok, raise, Action, pure, throw,
  try_except, try_finally, ◌>>=◌, ◌>>◌, for_each,
}

pub record Message (D : Type 0) : Type 0 where
  pub msg_id : String
  pub body : D

-- The commands that `run` sends, over the state of the Redis client; closing it does not raise.
-- `busy_group` says whether an error text of XGROUP CREATE holds "BUSYGROUP".
pub record Redis (R D : Type 0) : Type 0 where
  pub xgroup_create : Action R (Unit {0})
  pub busy_group : Exception → Bool
  pub xreadgroup : Action R (Option (List (String × List (Message D))))
  pub xack : String → Action R (Unit {0})
  pub xadd_dlq : String → Exception → D → Action R (Unit {0})
  pub aclose : R → R

-- What a subclass gives: its two methods, over its own state.
pub record Subclass (C D : Type 0) : Type 0 where
  pub handle : D → Action C (Unit {0})
  pub post_batch : Action C (Unit {0})

pub record Process (R C : Type 0) : Type 0 where
  pub redis : R
  pub self : C

module _ {R C A : Type 0} where
  abbrev pub on_redis : Action R A → Action (Process R C) A
  on_redis m p = let (r, s) = m p.redis in (r, record p { redis = s })

  abbrev pub on_self : Action C A → Action (Process R C) A
  on_self m p = let (r, s) = m p.self in (r, record p { self = s })

module _ {R C D : Type 0} (redis : Redis R D) (sub : Subclass C D) where
  -- The body of the inner `try`.
  unfoldable pub attempt : Message D → Action (Process R C) (Unit {0})
  attempt m = on_self (sub.handle m.body) >> on_redis (redis.xack m.msg_id)

  unfoldable pub dead_letter : Message D → Exception → Action (Process R C) (Unit {0})
  dead_letter m e = on_redis (redis.xadd_dlq m.msg_id e m.body) >> on_redis (redis.xack m.msg_id)

  -- The `except` clauses of the inner `try`, in their order.
  unfoldable pub on_error : Message D → Exception → Action (Process R C) (Unit {0})
  unfolding dead_letter
  on_error m (key_error t) = dead_letter m (key_error t)
  on_error m (value_error t) = dead_letter m (value_error t)
  on_error m cancelled = throw cancelled
  on_error m (failure t) = pure tt

  unfoldable pub process : Message D → Action (Process R C) (Unit {0})
  unfolding attempt on_error
  process m = try_except (attempt m) (on_error m)

  -- `for _stream, events in (messages or []): for msg_id, data in events: ...`
  unfoldable pub process_streams :
      List (String × List (Message D)) → Action (Process R C) (Unit {0})
  process_streams [] = pure tt
  process_streams ((stream, events) ∷ rest) = for_each process events >> process_streams rest

abbrev pub had_events : {D : Type 0} → List (String × List (Message D)) → Bool
had_events [] = false
had_events ((stream, []) ∷ rest) = had_events rest
had_events ((stream, m ∷ ms) ∷ rest) = true

abbrev pub or_nil :
    {D : Type 0} → Option (List (String × List (Message D))) → List (String × List (Message D))
or_nil none = []
or_nil (some messages) = messages

abbrev when : {S : Type 0} → Bool → Action S (Unit {0}) → Action S (Unit {0})
when true m = m
when false m = pure tt

module _ {R C D : Type 0} (redis : Redis R D) (sub : Subclass C D) where
  -- Everything in the loop behind the read.
  unfoldable pub consume : List (String × List (Message D)) → Action (Process R C) (Unit {0})
  consume streams =
      process_streams redis sub streams >> when (had_events streams) (on_self sub.post_batch)

  -- The outer `except` clauses.
  unfoldable pub on_loop_error : Exception → Action (Process R C) (Unit {0})
  on_loop_error cancelled = throw cancelled
  on_loop_error (key_error t) = pure tt
  on_loop_error (value_error t) = pure tt
  on_loop_error (failure t) = pure tt

  -- One round of `while True`.
  unfoldable pub iteration : Action (Process R C) (Unit {0})
  unfolding consume on_loop_error
  iteration =
      try_except (do messages ← on_redis redis.xreadgroup; consume (or_nil messages)) on_loop_error

  -- The first n rounds; an exception that leaves a round ends the loop.
  unfoldable pub rounds : ℕ → Action (Process R C) (Unit {0})
  rounds zero = pure tt
  rounds (suc n) = iteration >> rounds n

  unfoldable pub create_group : Action (Process R C) (Unit {0})
  create_group =
      try_except (on_redis redis.xgroup_create)
        λ e. elim (redis.busy_group e) [ true ↦ pure tt | false ↦ throw e ]

  -- `run`, cut off after n rounds; the client is closed however it ends.
  unfoldable pub run : ℕ → Action (Process R C) (Unit {0})
  unfolding rounds create_group
  run n = try_finally (create_group >> rounds n) (λ p. record p { redis = redis.aclose p.redis })
