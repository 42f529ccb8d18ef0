-- ===== src/Consumer/Escapes.antt =====
-- Which exceptions leave the loop, and what a cancellation and an idle read do.
use tersecontext.Prelude.{ℕ, zero, suc, ◌≡◌, arith}
use tersecontext.Prelude.Effects.{Exception, cancelled, ok, raise}
use tersecontext.Consumer.{Redis, Subclass, Process, iteration, rounds, create_group, run}

module _ {R C D : Type 0} (redis : Redis R D) (sub : Subclass C D) where
  iteration_raises :
      (p : Process R C) (e : Exception) → (iteration redis sub p).0 ≡ raise e → e ≡ cancelled
  unfolding iteration
  iteration_raises p e h = ground arith

  rounds_raise :
      (n : ℕ) (p : Process R C) (e : Exception) → (rounds redis sub n p).0 ≡ raise e → e ≡ cancelled
  unfolding rounds
  rounds_raise zero p e h = ground arith
  rounds_raise (suc n) p e h =
      ground (arith, iteration_raises p e, rounds_raise n (iteration redis sub p).1 e)

  -- Once the consumer group exists, only a cancellation ends the loop: no error of a message, of
  -- `post_batch` or of a Redis command leaves it, in any number of rounds.
  pub run-only_cancelled :
      (n : ℕ) (p : Process R C) (e : Exception)
      → (create_group redis sub p).0 ≡ ok tt
      → (run redis sub n p).0 ≡ raise e
      → e ≡ cancelled
  unfolding run
  run-only_cancelled n p e created h = ground (arith, rounds_raise n (create_group redis sub p).1 e)
