-- ===== src/WorkerMap/Counts.antt =====
-- Counts kept in a dict: what a change does to one count, and to their sum.
use func_x.Prelude.{◌≡◌, ◌≢◌, String, true, false, [], ◌∷◌, arith, Bool-cases, inl, inr}
use func_x.Prelude.Int.{ℤ, pos, ◌+ℤ◌, int_laws, parts}
use func_x.Prelude.Dict.{Dict, get?, put, get_or, has, ◌=?◌, get?-put, get?-put_ne, get?-put_self}
use func_x.Prelude.Python.{return, raise, key_error}
use func_x.WorkerMap.{add_to, bump, sum_values}

pub sum_values-put :
    (k : String) (v : ℤ) (d : Dict ℤ)
    → sum_values (put k v d) +ℤ get_or k (pos 0) d ≡ sum_values d +ℤ v
unfolding put get?
sum_values-put k v [] = omega int_laws
sum_values-put k v ((j, w) ∷ d) = elim (Bool-cases (j =? k)) [
  | inl e ↦ rw (e, put, get?) (omega int_laws)
  | inr e ↦ rw (e, put, get?) (omega (int_laws, parts (sum_values-put k v d)))
]

pub sum_values-add_to :
    (k : String) (n : ℤ) (d : Dict ℤ) → sum_values (add_to k n d) ≡ sum_values d +ℤ n
sum_values-add_to k n d = omega (int_laws, parts (sum_values-put k (get_or k (pos 0) d +ℤ n) d))

pub get_or-add_to_self :
    (k : String) (n : ℤ) (d : Dict ℤ) → get_or k (pos 0) (add_to k n d) ≡ get_or k (pos 0) d +ℤ n
get_or-add_to_self k n d = rw (get?-put_self k (get_or k (pos 0) d +ℤ n) d)

pub get_or-add_to_ne :
    (j k : String) (n : ℤ) (d : Dict ℤ)
    → k ≢ j
    → get_or j (pos 0) (add_to k n d) ≡ get_or j (pos 0) d
get_or-add_to_ne j k n d h = rw (get?-put_ne j k (get_or k (pos 0) d +ℤ n) d h)

-- A key that is there stays there.
pub has-put {ℓ} :
    {V : Type ℓ} (j k : String) (v : V) (d : Dict V) → has j d ≡ true → has j (put k v d) ≡ true
has-put j k v d h = ground (arith, get?-put j k v d)

pub has-put_self {ℓ} : {V : Type ℓ} (k : String) (v : V) (d : Dict V) → has k (put k v d) ≡ true
has-put_self k v d = rw (get?-put_self k v d)

-- A key that is there after a change was there, or is the new one.
pub has-put_inv {ℓ} :
    {V : Type ℓ} (j k : String) (v : V) (d : Dict V)
    → has j (put k v d) ≡ true
    → k ≢ j
    → has j d ≡ true
has-put_inv j k v d h ne = rw (get?-put_ne j k v d ne) at h

-- `d[k] += n` on a key that is there.
pub bump-eq-return :
    (k : String) (n : ℤ) (d : Dict ℤ) → has k d ≡ true → bump k n d ≡ return (add_to k n d)
bump-eq-return k n d h = ground arith

pub bump-eq-raise :
    (k : String) (n : ℤ) (d : Dict ℤ) → has k d ≡ false → bump k n d ≡ raise key_error
bump-eq-raise k n d h = ground arith
