-- ===== src/Consumer/Keeps.antt =====
-- Invariants of a subclass through the loop: what `handle` and `post_batch` keep, `run` keeps,
-- whatever Redis answers and wherever an exception ends a step.
use tersecontext.Prelude.{ℕ, zero, suc, String, Bool, true, false, List, [], ◌∷◌, ◌≡◌, arith}
use tersecontext.Prelude.Effects.{
  Exception, key_error, value_error, failure, cancelled, Result, ok, raise, Action, for_each,
  continue, handled, try_except, pure, throw, ◌>>=◌,
}
use tersecontext.Consumer.{
  Message, Redis, Subclass, Process, on_redis, on_self, when, or_nil, had_events, attempt,
  dead_letter, on_error, process, process_streams, consume, on_loop_error, iteration, rounds,
  create_group, run,
}

-- An action keeps a predicate of the subclass's state.
pub record Keeps {R C A : Type 0} (P : C → Type 0) (m : Action (Process R C) A) : Type 0 where
  pub at : (p : Process R C) → P p.self → P (m p).1.self

module _ {R C A : Type 0} {P : C → Type 0} where
  Keeps-pure : (a : A) → Keeps {R = R} P (pure a)
  Keeps-pure a = record { at = λ p h. h }

  Keeps-throw : (e : Exception) → Keeps {R = R} {A = A} P (throw e)
  Keeps-throw e = record { at = λ p h. h }

  Keeps-on_redis : (m : Action R A) → Keeps P (on_redis m)
  Keeps-on_redis m = record { at = λ p h. h }

  Keeps-handled :
      (r : Result A) (handler : Exception → Action (Process R C) A)
      → ((e : Exception) → Keeps P (handler e))
      → Keeps P (handled r handler)
  Keeps-handled (ok a) handler kh = record { at = λ p h. h }
  Keeps-handled (raise e) handler kh = kh e

  Keeps-try :
      (m : Action (Process R C) A) (handler : Exception → Action (Process R C) A)
      → Keeps P m
      → ((e : Exception) → Keeps P (handler e))
      → Keeps P (try_except m handler)
  Keeps-try m handler km kh = record {
    at = λ p h. let (r, p') = m p in (Keeps-handled r handler kh).at p' (km.at p h);
  }

module _ {R C A B : Type 0} {P : C → Type 0} where
  Keeps-continue :
      (r : Result A) (f : A → Action (Process R C) B)
      → ((a : A) → Keeps P (f a))
      → Keeps P (continue r f)
  Keeps-continue (ok a) f kf = kf a
  Keeps-continue (raise e) f kf = record { at = λ p h. h }

  Keeps-bind :
      (m : Action (Process R C) A) (f : A → Action (Process R C) B)
      → Keeps P m
      → ((a : A) → Keeps P (f a))
      → Keeps P (m >>= f)
  Keeps-bind m f km kf = record {
    at = λ p h. let (r, p') = m p in (Keeps-continue r f kf).at p' (km.at p h);
  }

module _ {R C D : Type 0} (redis : Redis R D) (sub : Subclass C D) {P : C → Type 0}
    (handle_keeps : (d : D) (c : C) → P c → P (sub.handle d c).1)
    (post_batch_keeps : (c : C) → P c → P (sub.post_batch c).1) where
  Keeps-handle : (d : D) → Keeps {R = R} P (on_self (sub.handle d))
  Keeps-handle d = record { at = λ p. handle_keeps d p.self }

  Keeps-post_batch : Keeps {R = R} P (on_self sub.post_batch)
  Keeps-post_batch = record { at = λ p. post_batch_keeps p.self }

  Keeps-dead_letter : (m : Message D) (e : Exception) → Keeps P (dead_letter redis sub m e)
  unfolding dead_letter
  Keeps-dead_letter m e =
      Keeps-bind (on_redis (redis.xadd_dlq m.msg_id e m.body)) (λ _. on_redis (redis.xack m.msg_id))
        (Keeps-on_redis _) (λ _. Keeps-on_redis _)

  Keeps-on_error : (m : Message D) (e : Exception) → Keeps P (on_error redis sub m e)
  unfolding on_error
  Keeps-on_error m (key_error t) = Keeps-dead_letter m (key_error t)
  Keeps-on_error m (value_error t) = Keeps-dead_letter m (value_error t)
  Keeps-on_error m cancelled = Keeps-throw cancelled
  Keeps-on_error m (failure t) = Keeps-pure tt

  Keeps-attempt : (m : Message D) → Keeps P (attempt redis sub m)
  unfolding attempt
  Keeps-attempt m =
      Keeps-bind (on_self (sub.handle m.body)) (λ _. on_redis (redis.xack m.msg_id))
        (Keeps-handle m.body) (λ _. Keeps-on_redis _)

  Keeps-process : (m : Message D) → Keeps P (process redis sub m)
  unfolding process
  Keeps-process m =
      Keeps-try (attempt redis sub m) (on_error redis sub m) (Keeps-attempt m) (Keeps-on_error m)

  Keeps-for_each : (ms : List (Message D)) → Keeps P (for_each (process redis sub) ms)
  Keeps-for_each [] = Keeps-pure tt
  Keeps-for_each (m ∷ ms) =
      Keeps-bind (process redis sub m) (λ _. for_each (process redis sub) ms) (Keeps-process m)
        (λ _. Keeps-for_each ms)

  Keeps-process_streams :
      (streams : List (String × List (Message D))) → Keeps P (process_streams redis sub streams)
  unfolding process_streams
  Keeps-process_streams [] = Keeps-pure tt
  Keeps-process_streams ((name, ms) ∷ rest) =
      Keeps-bind (for_each (process redis sub) ms) (λ _. process_streams redis sub rest)
        (Keeps-for_each ms) (λ _. Keeps-process_streams rest)

  Keeps-when : (b : Bool) → Keeps {R = R} P (when b (on_self sub.post_batch))
  Keeps-when true = Keeps-post_batch
  Keeps-when false = Keeps-pure tt

  Keeps-consume : (streams : List (String × List (Message D))) → Keeps P (consume redis sub streams)
  unfolding consume
  Keeps-consume streams =
      Keeps-bind (process_streams redis sub streams)
        (λ _. when (had_events streams) (on_self sub.post_batch)) (Keeps-process_streams streams)
        (λ _. Keeps-when (had_events streams))

  Keeps-on_loop_error : (e : Exception) → Keeps P (on_loop_error redis sub e)
  unfolding on_loop_error
  Keeps-on_loop_error cancelled = Keeps-throw cancelled
  Keeps-on_loop_error (key_error t) = Keeps-pure tt
  Keeps-on_loop_error (value_error t) = Keeps-pure tt
  Keeps-on_loop_error (failure t) = Keeps-pure tt

  Keeps-iteration : Keeps P (iteration redis sub)
  unfolding iteration
  Keeps-iteration =
      Keeps-try (on_redis redis.xreadgroup >>= λ read. consume redis sub (or_nil read))
        (on_loop_error redis sub)
        (Keeps-bind (on_redis redis.xreadgroup) (λ read. consume redis sub (or_nil read))
          (Keeps-on_redis redis.xreadgroup) (λ read. Keeps-consume (or_nil read)))
        Keeps-on_loop_error

  Keeps-rounds : (n : ℕ) → Keeps P (rounds redis sub n)
  unfolding rounds
  Keeps-rounds zero = Keeps-pure tt
  Keeps-rounds (suc n) =
      Keeps-bind (iteration redis sub) (λ _. rounds redis sub n) Keeps-iteration
        (λ _. Keeps-rounds n)

  self-create_group : (p : Process R C) → (create_group redis sub p).1.self ≡ p.self
  unfolding create_group
  self-create_group p = ground arith

  -- What `handle` and `post_batch` of a subclass keep, also where they raise, the whole loop keeps:
  -- through every batch, every exception and every answer of Redis, for any number of rounds.
  pub run-Keeps : (n : ℕ) (p : Process R C) → P p.self → P (run redis sub n p).1.self
  unfolding run
  run-Keeps n p h =
      (Keeps-bind (create_group redis sub) (λ _. rounds redis sub n)
          (record { at = λ q k. rw (self-create_group q) k }) (λ _. Keeps-rounds n)).at
        p h
