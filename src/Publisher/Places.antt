-- ===== src/Publisher/Places.antt =====
-- The places where a future may stand, and what the steps do to how often it stands there.
use func_x.Prelude.{
  ℕ, ◌+◌, ◌≤◌, ◌<◌, ◌≡◌, refl, ap, String, false, some, List, [], ◌∷◌, ◌++◌, arith, Bool-cases, inl,
  inr, if_both, if◌then◌else◌, ltb, ◌==◌,
}
use func_x.Prelude.Table.{Table, get_at?, put_at, remove_at}
use func_x.Publisher.{
  Settlement, Publisher, Verdict, ack, nack, neither, completions, lower_tags, not_lower_tags,
}

-- How often a future stands in the three places.
abbrev pub queued : ℕ → List (ℕ × String) → ℕ
queued g [] = 0
queued g ((f, msg) ∷ q) = (if f == g then 1 else 0) + queued g q

abbrev pub held : ℕ → Table ℕ → ℕ
held g [] = 0
held g ((dtag, f) ∷ d) = (if f == g then 1 else 0) + held g d

abbrev pub told : ℕ → List (ℕ × Settlement) → ℕ
told g [] = 0
told g ((f, o) ∷ xs) = (if f == g then 1 else 0) + told g xs

abbrev pub places : ℕ → Publisher → ℕ
places g s = queued g s.outstanding + held g s.awaiting_confirmation + told g s.settled

-- The tags go up, from above one bound to another at most.
abbrev pub IsAscending : ℕ → Table ℕ → ℕ → Type 0
IsAscending low [] high = low ≤ high
IsAscending low ((dtag, f) ∷ d) high = (low < dtag) × IsAscending dtag d high

pub queued-append :
    (g : ℕ) (xs ys : List (ℕ × String)) → queued g (xs ++ ys) ≡ queued g xs + queued g ys
queued-append g [] ys = omega arith
queued-append g ((f, msg) ∷ xs) ys = omega (arith, queued-append g xs ys)

pub told-append :
    (g : ℕ) (xs ys : List (ℕ × Settlement)) → told g (xs ++ ys) ≡ told g xs + told g ys
told-append g [] ys = omega arith
told-append g ((f, o) ∷ xs) ys = omega (arith, told-append g xs ys)

pub IsAscending-lower :
    (low low' high : ℕ) (d : Table ℕ)
    → low' ≤ low
    → IsAscending low d high
    → IsAscending low' d high
IsAscending-lower low low' high [] e h = omega (arith, e, h)
IsAscending-lower low low' high ((t, f) ∷ d) e h = (omega (arith, e, h.0), h.1)

pub IsAscending-bounds : (low high : ℕ) (d : Table ℕ) → IsAscending low d high → low ≤ high
IsAscending-bounds low high [] h = h
IsAscending-bounds low high ((t, f) ∷ d) h = omega (arith, h.0, IsAscending-bounds t high d h.1)

remove_at-absent :
    (t low high : ℕ) (d : Table ℕ) → t ≤ low → IsAscending low d high → remove_at t d ≡ d
unfolding remove_at
remove_at-absent t low high [] e h = refl
remove_at-absent t low high ((k, f) ∷ d) e h =
    let rest = remove_at-absent t k high d (omega (arith, e, h.0)) h.1 in
    let other : (k == t) ≡ false = ground (arith, e, h.0) in
    rw (other, remove_at) (ap (λ r. (k, f) ∷ r) rest)

pub held-remove_at :
    (g t f low high : ℕ) (d : Table ℕ)
    → get_at? t d ≡ some f
    → IsAscending low d high
    → held g (remove_at t d) + (if f == g then 1 else 0) ≡ held g d
unfolding remove_at get_at?
held-remove_at g t f low high [] e h = absurd (cc)
held-remove_at g t f low high ((k, x) ∷ d) e h = elim (Bool-cases (k == t)) [
  | inl q ↦
      let found : some x ≡ some f = rw (q, get_at?) at e in
      let same : x ≡ f = cc (found) in
      let here : t ≤ k = ground (arith, q) in
      rw (q, remove_at) (rw (remove_at-absent t k high d here h.1, same) (omega arith))
  | inr q ↦
      rw (q, remove_at) (omega (arith, held-remove_at g t f k high d (rw (q, get_at?) at e) h.1))
]

pub remove_at-IsAscending :
    (t low high : ℕ) (d : Table ℕ) → IsAscending low d high → IsAscending low (remove_at t d) high
unfolding remove_at
remove_at-IsAscending t low high [] h = h
remove_at-IsAscending t low high ((k, f) ∷ d) h =
    let rest = remove_at-IsAscending t k high d h.1 in
    if_both (λ e. IsAscending low e high) (k == t) _ ((k, f) ∷ remove_at t d)
      (IsAscending-lower k low high (remove_at t d) (omega (arith, h.0)) rest) (h.0, rest)

pub not_lower_tags-IsAscending :
    (t low high : ℕ) (d : Table ℕ)
    → IsAscending low d high
    → IsAscending low (not_lower_tags t d) high
unfolding not_lower_tags
not_lower_tags-IsAscending t low high [] h = h
not_lower_tags-IsAscending t low high ((k, f) ∷ d) h =
    let rest = not_lower_tags-IsAscending t k high d h.1 in
    if_both (λ e. IsAscending low e high) (ltb k t) _ ((k, f) ∷ not_lower_tags t d)
      (IsAscending-lower k low high (not_lower_tags t d) (omega (arith, h.0)) rest) (h.0, rest)

-- A frame that is an ack or a nack.
abbrev pub IsVerdict : Verdict → Type 0
IsVerdict neither = ⊥
IsVerdict _ = Unit

pub told-completions :
    (g : ℕ) (v : Verdict) (t f : ℕ)
    → IsVerdict v
    → told g (completions v t f) ≡ (if f == g then 1 else 0)
told-completions g ack t f h = omega arith
told-completions g nack t f h = omega arith
told-completions g neither t f h = absurd h

pub told-lower_tags :
    (g : ℕ) (v : Verdict) (t : ℕ) (d : Table ℕ)
    → IsVerdict v
    → told g (lower_tags v t d) + held g (not_lower_tags t d) ≡ held g d
unfolding lower_tags not_lower_tags
told-lower_tags g v t [] h = refl
told-lower_tags g v t ((k, f) ∷ d) h = elim (Bool-cases (ltb k t)) [
  | inl e ↦
      rw (e, lower_tags, not_lower_tags)
        (omega (
          arith,
          told-append g (completions v k f) (lower_tags v t d),
          told-completions g v k f h,
          told-lower_tags g v t d h,
        ))
  | inr e ↦ rw (e, lower_tags, not_lower_tags) (omega (arith, told-lower_tags g v t d h))
]

pub held-put_at :
    (g t f low high : ℕ) (d : Table ℕ)
    → high < t
    → IsAscending low d high
    → (held g (put_at t f d) ≡ held g d + (if f == g then 1 else 0))
      × IsAscending low (put_at t f d) t
unfolding put_at
held-put_at g t f low high [] e h = (omega arith, (omega (arith, e, h), omega arith))
held-put_at g t f low high ((k, x) ∷ d) e h =
    let last = IsAscending-bounds k high d h.1 in
    let (count, order) = held-put_at g t f k high d e h.1 in
    let other : (k == t) ≡ false = ground (arith, last, e) in
    rw (other, put_at) (omega (arith, count), (h.0, order))
