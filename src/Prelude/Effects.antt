-- ===== src/Prelude/Effects.antt =====
-- Python statements that change a state and may raise. What was changed before an exception stays
-- changed, so the state comes back beside the exception too.
use mathlib.Core.List.{List, [], ◌∷◌}
use Prim.Native.String.{String}

-- `failure` stands for every `Exception` that is neither a `KeyError` nor a `ValueError` (pydantic's
-- `ValidationError` is a `ValueError`); `cancelled` for `asyncio.CancelledError`, a `BaseException`.
pub data Exception : Type 0 where
  key_error value_error failure : String → Exception
  cancelled : Exception

pub data Result (A : Type 0) : Type 0 where
  ok : A → Result A
  raise : Exception → Result A

abbrev pub Action : Type 0 → Type 0 → Type 0
Action S A = S → Result A × S

module _ {S A : Type 0} where
  abbrev pub pure : A → Action S A
  pure a s = (ok a, s)

  abbrev pub throw : Exception → Action S A
  throw e s = (raise e, s)

  abbrev pub handled : Result A → (Exception → Action S A) → Action S A
  handled (ok a) handler s = (ok a, s)
  handled (raise e) handler s = handler e s

  -- `try: body` / `except ...: handler`; a handler throws again what it does not catch.
  abbrev pub try_except : Action S A → (Exception → Action S A) → Action S A
  try_except body handler s = let (r, s') = body s in handled r handler s'

  -- `try: body` / `finally: cleanup`
  abbrev pub try_finally : Action S A → (S → S) → Action S A
  try_finally body cleanup s = let (r, s') = body s in (r, cleanup s')

module _ {S A B : Type 0} where
  abbrev pub continue : Result A → (A → Action S B) → Action S B
  continue (ok a) f s = f a s
  continue (raise e) f s = (raise e, s)

  infixl 5 ◌>>=◌ ◌>>◌
  abbrev pub ◌>>=◌ : Action S A → (A → Action S B) → Action S B
  ◌>>=◌ m f s = let (r, s') = m s in continue r f s'

  abbrev pub ◌>>◌ : Action S A → Action S B → Action S B
  m >> n = m >>= λ _. n

-- A loop over a list.
abbrev pub for_each : {S A : Type 0} → (A → Action S (Unit {0})) → List A → Action S (Unit {0})
for_each body [] = pure tt
for_each body (x ∷ xs) = body x >> for_each body xs

module _ {S A B : Type 0} (P : S → Type 0) where
  continue_keeps :
      (r : Result A) (f : A → Action S B)
      → ((a : A) (s : S) → P s → P (f a s).1)
      → (s : S) → P s
      → P (continue r f s).1
  continue_keeps (ok a) f kf s h = kf a s h
  continue_keeps (raise e) f kf s h = h

  -- What two statements keep, the one behind the other keeps, also where the first one raises.
  pub then_keeps :
      (m : Action S A) (n : Action S B)
      → ((s : S) → P s → P (m s).1)
      → ((s : S) → P s → P (n s).1)
      → (s : S) → P s
      → P ((m >> n) s).1
  then_keeps m n km kn s h = continue_keeps (m s).0 (λ _. n) (λ _. kn) (m s).1 (km s h)

  pub bind_keeps :
      (m : Action S A) (f : A → Action S B)
      → ((s : S) → P s → P (m s).1)
      → ((a : A) (s : S) → P s → P (f a s).1)
      → (s : S) → P s
      → P ((m >>= f) s).1
  bind_keeps m f km kf s h = continue_keeps (m s).0 f kf (m s).1 (km s h)

pub for_each_keeps :
    {S A : Type 0} (P : S → Type 0) (body : A → Action S (Unit {0}))
    → ((a : A) (s : S) → P s → P (body a s).1)
    → (xs : List A) (s : S) → P s
    → P (for_each body xs s).1
for_each_keeps P body k [] s h = h
for_each_keeps P body k (x ∷ xs) s h =
    then_keeps P (body x) (for_each body xs) (k x) (for_each_keeps P body k xs) s h

module _ {S A : Type 0} (P : S → Type 0) where
  handled_keeps :
      (r : Result A) (handler : Exception → Action S A)
      → ((e : Exception) (s : S) → P s → P (handler e s).1)
      → (s : S) → P s
      → P (handled r handler s).1
  handled_keeps (ok a) handler kh s h = h
  handled_keeps (raise e) handler kh s h = kh e s h

  pub try_keeps :
      (m : Action S A) (handler : Exception → Action S A)
      → ((s : S) → P s → P (m s).1)
      → ((e : Exception) (s : S) → P s → P (handler e s).1)
      → (s : S) → P s
      → P (try_except m handler s).1
  try_keeps m handler km kh s h = handled_keeps (m s).0 handler kh (m s).1 (km s h)
