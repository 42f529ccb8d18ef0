-- ===== src/Prelude/Results.antt =====
-- Python expressions that may raise, without a state: chains of them, and what holds of a value
-- when no exception is raised.
use tersecontext.Prelude.Effects.{Exception, failure, Result, ok, raise}
use tersecontext.Prelude.Lists.{All}
use mathlib.Core.Logic.{◌⊎◌, inl, inr}
use mathlib.Core.Path.{◌≡◌, refl, subst}
use mathlib.Core.Bool.{Bool, true, false}
use tersecontext.Prelude.Tests.{if◌then◌else◌}
use mathlib.Core.Option.{Option, none, some}
use mathlib.Core.List.{List, [], ◌∷◌}

infixl 5 ◌>>=◌ ◌>>◌
abbrev pub ◌>>=◌ : {A B : Type 0} → Result A → (A → Result B) → Result B
ok a >>= f = f a
raise e >>= f = raise e

abbrev pub ◌>>◌ : {B : Type 0} → Result (Unit {0}) → Result B → Result B
m >> k = m >>= λ _. k

-- A use of `None` where an object is needed.
abbrev pub object_or_raise : {A : Type 0} → Option A → Result A
object_or_raise none = raise (failure "'NoneType' object")
object_or_raise (some a) = ok a

-- A loop that changes its local state.
unfoldable pub fold : {A S : Type 0} → (A → S → Result S) → List A → S → Result S
fold body [] s = ok s
fold body (x ∷ xs) s = do s' ← body x s; fold body xs s'

-- What holds of the value, if there is one.
abbrev pub Holds : {A : Type 0} → (A → Type 0) → Result A → Type 0
Holds P (ok a) = P a
Holds P (raise e) = Unit

module _ {A B : Type 0} (P : B → Type 0) where
  pub Holds-bind : (m : Result A) (f : A → Result B) → ((a : A) → Holds P (f a)) → Holds P (m >>= f)
  Holds-bind (ok a) f h = h a
  Holds-bind (raise e) f h = tt

  -- The same, with what holds of the first value.
  pub Holds-chain :
      (Q : A → Type 0) (m : Result A) (f : A → Result B)
      → Holds Q m
      → ((a : A) → Q a → Holds P (f a))
      → Holds P (m >>= f)
  Holds-chain Q (ok a) f hq h = h a hq
  Holds-chain Q (raise e) f hq h = tt

pub if-Holds :
    {A : Type 0} (P : A → Type 0) (b : Bool) (r s : Result A)
    → Holds P r
    → Holds P s
    → Holds P (if b then r else s)
if-Holds P true r s h k = h
if-Holds P false r s h k = k

pub Holds-ok : {A : Type 0} (P : A → Type 0) {r : Result A} {a : A} → r ≡ ok a → Holds P r → P a
Holds-ok P e h = subst (Holds P) e h

pub Result-cases :
    {A : Type 0} (r : Result A) → ((a : A) × (r ≡ ok a)) ⊎ ((e : Exception) × (r ≡ raise e))
Result-cases (ok a) = inl (a, refl)
Result-cases (raise e) = inr (e, refl)

-- An invariant of a loop whose elements have a property.
pub fold-All :
    {A S : Type 0} (Q : A → Type 0) (P : S → Type 0) (body : A → S → Result S)
    → ((x : A) (s : S) → Q x → P s → Holds P (body x s))
    → (xs : List A) → All Q xs
    → (s : S) → P s
    → Holds P (fold body xs s)
unfolding fold
fold-All Q P body keeps [] q s h = h
fold-All Q P body keeps (x ∷ xs) q s h =
    Holds-chain P P (body x s) (fold body xs) (keeps x s q.0 h) (fold-All Q P body keeps xs q.1)

pub fold-Holds :
    {A S : Type 0} (P : S → Type 0) (body : A → S → Result S)
    → ((x : A) (s : S) → P s → Holds P (body x s))
    → (xs : List A) (s : S) → P s
    → Holds P (fold body xs s)
unfolding fold
fold-Holds P body keeps [] s h = h
fold-Holds P body keeps (x ∷ xs) s h =
    Holds-chain P P (body x s) (fold body xs) (keeps x s h) (fold-Holds P body keeps xs)

pub Holds-weaken :
    {A : Type 0} (P Q : A → Type 0) (r : Result A) → ((a : A) → P a → Q a) → Holds P r → Holds Q r
Holds-weaken P Q (ok a) f h = f a h
Holds-weaken P Q (raise e) f h = tt
