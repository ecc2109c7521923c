-- ===== src/Prelude/Dict.antt =====
-- Python's dict with text keys: an association list in insertion order.
use Prim.Native.String.{String}
use text.Mathlib.Text.{◌==◌ as str_eq}
use text.Mathlib.TextEquality.{eq_iff}
use mathlib.Core.Path.{◌≡◌, refl, ap}
use mathlib.Core.Logic.{◌≢◌, inl, inr}
use mathlib.Core.Bool.{Bool, true, false}
use mathlib.Core.Option.{Option, none, some}
use mathlib.Core.List.{List, [], ◌∷◌, ◌++◌, map}
use native.Mathlib.Omega.{arith}
use Prim.Native.Nat.{ℕ, zero, suc, ◌+◌}
use func_x.Prelude.Lists.{replicate, All}
use func_x.Prelude.Tests.{if◌then◌else◌, Bool-cases}

infix 50 ◌=?◌
abbrev pub ◌=?◌ : String → String → Bool
a =? b = str_eq a b

pub =?_iff : (a b : String) → ((a =? b) ≡ true → a ≡ b) × (a ≡ b → (a =? b) ≡ true)
=?_iff a b = (λ h. (eq_iff a b).0 h, λ h. (eq_iff a b).1 h)

pub =?_refl : (a : String) → (a =? a) ≡ true
=?_refl a = (eq_iff a a).1 refl

pub =?-ne : (a b : String) → a ≢ b → (a =? b) ≡ false
=?-ne a b h = elim (Bool-cases (a =? b)) [ inl e ↦ absurd (h ((=?_iff a b).0 e)) | inr e ↦ e ]

abbrev pub Dict {ℓ} : Type ℓ → Type ℓ
Dict V = List (String × V)

module _ {ℓ} {V : Type ℓ} where
  unfoldable pub get? : String → Dict V → Option V
  get? k [] = none
  get? k ((j, v) ∷ d) = if j =? k then some v else get? k d

  -- `d[k] = v`: in place, or at the end.
  unfoldable pub put : String → V → Dict V → Dict V
  put k v [] = (k, v) ∷ []
  put k v ((j, w) ∷ d) = if j =? k then (j, v) ∷ d else (j, w) ∷ put k v d

  -- `del d[k]`, which leaves a dict without the key as it is.
  unfoldable pub remove : String → Dict V → Dict V
  remove k [] = []
  remove k ((j, w) ∷ d) = let rest = remove k d in if j =? k then rest else (j, w) ∷ rest

  abbrev pub keys : Dict V → List String
  keys d = map (λ e. e.0) d

  abbrev pub default : V → Option V → V
  default v none = v
  default v (some w) = w

  -- `d.get(k, v)`
  abbrev pub get_or : String → V → Dict V → V
  get_or k v d = default v (get? k d)

  abbrev pub is_some : Option V → Bool
  is_some none = false
  is_some (some v) = true

  -- `k in d`
  abbrev pub has : String → Dict V → Bool
  has k d = is_some (get? k d)

  pub get?-put :
      (j k : String) (v : V) (d : Dict V)
      → get? j (put k v d) ≡ (if k =? j then some v else get? j d)
  unfolding get? put
  get?-put j k v [] = refl
  get?-put j k v ((i, w) ∷ d) = ground (arith, =?_iff k j, =?_iff i k, =?_iff i j, get?-put j k v d)

  pub get?-put_self : (k : String) (v : V) (d : Dict V) → get? k (put k v d) ≡ some v
  get?-put_self k v d = rw (get?-put k k v d, =?_refl k)

  pub get?-put_ne : (j k : String) (v : V) (d : Dict V) → k ≢ j → get? j (put k v d) ≡ get? j d
  get?-put_ne j k v d h = rw (get?-put j k v d, =?-ne k j h)

-- No key stands twice, as in a Python dict.
abbrev pub Distinct {ℓ} : {V : Type ℓ} → Dict V → Type 0
Distinct [] = Unit
Distinct ((k, v) ∷ d) = (has k d ≡ false) × Distinct d

pub put-Distinct {ℓ} :
    {V : Type ℓ} (k : String) (v : V) (d : Dict V) → Distinct d → Distinct (put k v d)
unfolding get? put
put-Distinct k v [] h = (refl, tt)
put-Distinct k v ((j, w) ∷ d) h = elim (Bool-cases (j =? k)) [
  | inl e ↦ rw (e, put) h
  | inr e ↦
      rw (e, put)
        (unfold put in
          (ground (arith, get?-put j k v d, =?_iff j k, =?_iff k j), put-Distinct k v d h.1))
]

-- How often a text stands in a list.
abbrev pub count : String → List String → ℕ
count k [] = 0
count k (x ∷ xs) = if x =? k then suc (count k xs) else count k xs

pub count-append : (k : String) (xs ys : List String) → count k (xs ++ ys) ≡ count k xs + count k ys
count-append k [] ys = omega arith
count-append k (x ∷ xs) ys = ground (arith, count-append k xs ys)

pub count-replicate_self : (n : ℕ) (k : String) → count k (replicate n k) ≡ n
count-replicate_self zero k = refl
count-replicate_self (suc n) k = rw (=?_refl k) (ap suc (count-replicate_self n k))

pub count-replicate_ne : (n : ℕ) (j k : String) → (j =? k) ≡ false → count k (replicate n j) ≡ 0
count-replicate_ne zero j k e = refl
count-replicate_ne (suc n) j k e = rw e (count-replicate_ne n j k e)

pub count-replicate : (n : ℕ) (j k : String) → count k (replicate n j) ≡ (if j =? k then n else 0)
count-replicate n j k = elim (Bool-cases (j =? k)) [
  | inl e ↦ rw ((=?_iff j k).0 e, =?_refl k) (count-replicate_self n k)
  | inr e ↦ rw e (count-replicate_ne n j k e)
]

-- `s.add(k)` and `s.discard(k)` on a set of texts.
abbrev pub add_new : String → List String → List String
add_new k [] = k ∷ []
add_new k (x ∷ xs) = if x =? k then x ∷ xs else x ∷ add_new k xs

abbrev pub discard : String → List String → List String
discard k [] = []
discard k (x ∷ xs) = let rest = discard k xs in if x =? k then rest else x ∷ rest

has-cons {ℓ} :
    {V : Type ℓ} (j k : String) (v : V) (d : Dict V) → has j d ≡ true → has j ((k, v) ∷ d) ≡ true
unfolding get?
has-cons j k v d h = ground arith

keys-has_part {ℓ} :
    {V : Type ℓ} (part d : Dict V)
    → ((k : String) → has k part ≡ true → has k d ≡ true)
    → All (λ k. has k d ≡ true) (keys part)
keys-has_part [] d sub = tt
keys-has_part ((k, v) ∷ part) d sub = (
  sub k (unfold get? in rw (=?_refl k) refl),
  keys-has_part part d (λ j h. sub j (has-cons j k v part h)),
)

-- Every key of a dict is there.
pub keys-has {ℓ} : {V : Type ℓ} (d : Dict V) → All (λ k. has k d ≡ true) (keys d)
keys-has d = keys-has_part d d (λ k h. h)

-- A change of a key that is there brings no new key.
pub has-put_old {ℓ} :
    {V : Type ℓ} (j k : String) (v : V) (d : Dict V) → has k d ≡ true → has j (put k v d) ≡ has j d
has-put_old j k v d h = ground (arith, get?-put j k v d, =?_iff k j)

-- A new key leaves the others where they are.
pub has-put_grows {ℓ} :
    {V : Type ℓ} (j k : String) (v : V) (d : Dict V) → has j d ≡ true → has j (put k v d) ≡ true
has-put_grows j k v d h = ground (arith, get?-put j k v d)

pub has-put_self {ℓ} : {V : Type ℓ} (k : String) (v : V) (d : Dict V) → has k (put k v d) ≡ true
has-put_self k v d = rw (get?-put_self k v d) refl

pub get?-remove {ℓ} :
    {V : Type ℓ} (j k : String) (d : Dict V)
    → get? j (remove k d) ≡ (if k =? j then none else get? j d)
unfolding get? remove
get?-remove j k [] = ground arith
get?-remove j k ((i, v) ∷ d) = ground (arith, get?-remove j k d, =?_iff i k, =?_iff i j, =?_iff k j)

pub add_new-All :
    (P : String → Type 0) (k : String) (xs : List String) → P k → All P xs → All P (add_new k xs)
add_new-All P k [] p h = (p, tt)
add_new-All P k (x ∷ xs) p h = elim (Bool-cases (x =? k)) [
  | inl e ↦ rw e h
  | inr e ↦ rw e (h.0, add_new-All P k xs p h.1)
]

-- What is left of a set has another name and was there.
pub discard-All :
    (P : String → Type 0) (k : String) (xs : List String)
    → All P xs
    → All (λ x. P x × ((x =? k) ≡ false)) (discard k xs)
discard-All P k [] h = tt
discard-All P k (x ∷ xs) h = elim (Bool-cases (x =? k)) [
  | inl e ↦ rw e (discard-All P k xs h.1)
  | inr e ↦ rw e ((h.0, e), discard-All P k xs h.1)
]

pub All-map {ℓ κ μ} :
    {A : Type ℓ} (P : A → Type κ) (Q : A → Type μ) (xs : List A)
    → ((x : A) → P x → Q x)
    → All P xs
    → All Q xs
All-map P Q [] f h = tt
All-map P Q (x ∷ xs) f h = (f x h.0, All-map P Q xs f h.1)

pub remove-Distinct {ℓ} :
    {V : Type ℓ} (k : String) (d : Dict V) → Distinct d → Distinct (remove k d)
unfolding remove
remove-Distinct k [] u = tt
remove-Distinct k ((j, v) ∷ d) u = elim (Bool-cases (j =? k)) [
  | inl e ↦ rw (e, remove) (remove-Distinct k d u.1)
  | inr e ↦ rw (e, remove) (ground (arith, get?-remove j k d, u.0), remove-Distinct k d u.1)
]
