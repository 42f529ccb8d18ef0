-- ===== src/Consumer/Examples.antt =====
-- A small Redis and a small subclass, and the theorems about the loop at them.
use tersecontext.Prelude.{
  ℕ, ◌+◌, String, Bool, false, Option, some, List, [], ◌∷◌, ◌++◌, ◌≡◌, refl, arith, eqb,
  if◌then◌else◌,
}
use tersecontext.Prelude.Effects.{Exception, value_error, failure, cancelled, Result, ok, raise}
use tersecontext.Consumer.{
  Message, Redis, Subclass, Process, iteration, create_group, run, process, process_streams,
  consume, rounds, on_error, attempt,
}
use tersecontext.Consumer.Verdicts.{messages, all_acks, all_letters, IsReliable}
use tersecontext.Consumer.Settled.{iteration-settles}
use tersecontext.Consumer.Escapes.{run-only_cancelled}

record Server : Type 0 where
  feed : List (List (String × List (Message ℕ)))
  acked : List String
  dlq : List (String × Exception × ℕ)
  is_open : Bool

abbrev next_read : Server → Result (Option (List (String × List (Message ℕ)))) × Server
next_read s = elim s.feed [
  | [] ↦ (raise cancelled, s)
  | x ∷ xs ↦ (ok (some x), record s { feed = xs })
]

abbrev server_redis : Redis Server ℕ
server_redis = record {
  xgroup_create = λ s. (raise (failure "BUSYGROUP"), s);
  busy_group = λ e. elim e [ failure t ↦ Bool.true | _ ↦ false ];
  xreadgroup = next_read;
  xack = λ id s. (ok tt, record s { acked = s.acked ++ id ∷ [] });
  xadd_dlq = λ id e d s. (ok tt, record s { dlq = s.dlq ++ (id, e, d) ∷ [] });
  aclose = λ s. record s { is_open = false };
}

-- The state is the sum of the bodies; 0 is malformed and 1 fails.
abbrev summing : Subclass ℕ ℕ
summing = record {
  handle = λ d c.
      if eqb d 0
      then (raise (value_error "zero"), c)
      else if eqb d 1
      then (raise (failure "one"), c)
      else (ok tt, c + d);
  post_batch = λ c. (ok tt, c);
}

abbrev batch : List (String × List (Message ℕ))
batch =
    (
      "s",
      record { msg_id = "a"; body = 5 }
          ∷ record { msg_id = "b"; body = 0 }
          ∷ record { msg_id = "c"; body = 1 }
          ∷ record { msg_id = "d"; body = 7 }
          ∷ [],
    )
    ∷ []

abbrev start : Process Server ℕ
start = record {
  redis = record { feed = batch ∷ []; acked = []; dlq = []; is_open = Bool.true };
  self = 0;
}

next_read_keeps : (s : Server) → ((next_read s).1.acked ≡ s.acked) × ((next_read s).1.dlq ≡ s.dlq)
next_read_keeps s = ground arith

server-IsReliable : IsReliable server_redis (λ s. s.acked) (λ s. s.dlq)
server-IsReliable = record {
  xack_ok = λ id s. refl;
  acked-xack = λ id s. refl;
  dlq-xack = λ id s. refl;
  xadd_ok = λ id e d s. refl;
  acked-xadd = λ id e d s. refl;
  dlq-xadd = λ id e d s. refl;
  acked-xreadgroup = λ s. (next_read_keeps s).0;
  dlq-xreadgroup = λ s. (next_read_keeps s).1;
}

batch_acks : all_acks summing (messages batch) 0 ≡ "a" ∷ "b" ∷ "d" ∷ []
unfolding all_acks
batch_acks = refl

iteration-settles_example :
    ((iteration server_redis summing start).1.redis.acked
      ≡ [] ++ all_acks summing (messages batch) 0)
    × ((iteration server_redis summing start).1.redis.dlq
        ≡ [] ++ all_letters summing (messages batch) 0)
iteration-settles_example = iteration-settles summing server-IsReliable start batch refl

run_is_cancelled : (run server_redis summing 3 start).0 ≡ raise cancelled
unfolding run rounds iteration consume process_streams process attempt on_error create_group
run_is_cancelled = refl

group_exists : (create_group server_redis summing start).0 ≡ ok tt
unfolding create_group
group_exists = refl

run-only_cancelled_example : cancelled ≡ cancelled
run-only_cancelled_example =
    run-only_cancelled server_redis summing 3 start cancelled group_exists run_is_cancelled
