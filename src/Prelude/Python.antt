-- ===== src/Prelude/Python.antt =====
-- What the Python modules share: exceptions, and methods that change an object and may raise.
use mathlib.Core.Path.{◌≡◌, refl}
use mathlib.Core.Logic.{◌⊎◌, inl, inr}
use mathlib.Core.Option.{Option, none, some}

-- The exceptions that the modelled code raises or catches.
pub data Exc : Type 0 where
  key_error value_error name_error queue_empty os_error zero_division unpickling_error runtime_error
        invalid_state_error shutting_down_error :
      Exc
  invalid_command_error invalid_user_error type_error : Exc
  struct_error unicode_error overflow_error assertion_error : Exc
  serialization_error deserialization_error not_implemented attribute_error : Exc

pub data Result {ℓ} (A : Type ℓ) : Type ℓ where
  return : A → Result A
  raise : Exc → Result A

-- A method on an object with state `S`. The changes made before an exception stay.
abbrev pub Action : Type 0 → Type 0 → Type 0
Action S A = S → Result A × S

module _ {S A : Type 0} where
  abbrev pub pure : A → Action S A
  pure a s = (return a, s)

  abbrev pub throw : Exc → Action S A
  throw e s = (raise e, s)

module _ {S : Type 0} where
  abbrev pub get : Action S S
  get s = (return s, s)

  abbrev pub modify : (S → S) → Action S (Unit {0})
  modify f s = (return tt, f s)

module _ {S A B : Type 0} where
  abbrev pub and_then : Result A → (A → Action S B) → Action S B
  and_then (return a) f = f a
  and_then (raise e) f = throw e

  infixl 5 ◌>>=◌ ◌>>◌
  abbrev pub ◌>>=◌ : Action S A → (A → Action S B) → Action S B
  m >>= f = λ s. let (r, s') = m s in and_then r f s'

  abbrev pub ◌>>◌ : Action S A → Action S B → Action S B
  m >> n = m >>= λ _. n

-- `d[k]` raises KeyError on a missing key.
abbrev pub or_raise {ℓ} : {A : Type ℓ} → Exc → Option A → Result A
or_raise e none = raise e
or_raise e (some a) = return a

-- The same as a step of a method.
abbrev pub lift : {S A : Type 0} → Result A → Action S A
lift r s = (r, s)

pub Result-cases {ℓ} :
    {A : Type ℓ} (r : Result A) → ((a : A) × (r ≡ return a)) ⊎ ((e : Exc) × (r ≡ raise e))
Result-cases (return a) = inl (a, refl)
Result-cases (raise e) = inr (e, refl)
