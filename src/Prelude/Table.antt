-- ===== src/Prelude/Table.antt =====
-- Python's dict with numbers for keys, in insertion order.
use func_x.Prelude.{ℕ, Option, none, some, List, [], ◌∷◌, ◌==◌, if◌then◌else◌}

abbrev pub Table {ℓ} : Type ℓ → Type ℓ
Table V = List (ℕ × V)

module _ {ℓ} {V : Type ℓ} where
  unfoldable pub get_at? : ℕ → Table V → Option V
  get_at? p [] = none
  get_at? p ((q, v) ∷ d) = if q == p then some v else get_at? p d

  unfoldable pub put_at : ℕ → V → Table V → Table V
  put_at p v [] = (p, v) ∷ []
  put_at p v ((q, w) ∷ d) = if q == p then (p, v) ∷ d else (q, w) ∷ put_at p v d

  unfoldable pub remove_at : ℕ → Table V → Table V
  remove_at p [] = []
  remove_at p ((q, w) ∷ d) = let rest = remove_at p d in if q == p then rest else (q, w) ∷ rest
