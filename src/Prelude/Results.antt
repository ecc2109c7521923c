-- ===== src/Prelude/Results.antt =====
-- Chains of results that change no state.
use mathlib.Core.Path.{◌≡◌, refl}
use func_x.Prelude.Python.{Result, return, raise}

infixl 5 ◌>>=◌
abbrev pub ◌>>=◌ {ℓ κ} : {A : Type ℓ} {B : Type κ} → Result A → (A → Result B) → Result B
return a >>= f = f a
raise e >>= f = raise e

-- A chain that returns has a first link that returns.
pub bind-returned {ℓ κ} :
    {A : Type ℓ} {B : Type κ} (r : Result A) (f : A → Result B) (b : B)
    → (r >>= f) ≡ return b
    → (a : A) × (r ≡ return a) × (f a ≡ return b)
bind-returned (return a) f b h = (a, refl, h)
bind-returned (raise e) f b h = absurd (cc)
