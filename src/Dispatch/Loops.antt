-- ===== src/Dispatch/Loops.antt =====
-- The rule of `Fetching` for the methods that are built of fetch loops.
use mathlib.Core.Path.{subst}
use func_x.Prelude.{
  ℕ, ◌+◌, ◌-◌, ◌≤◌, ◌≡◌, refl, String, Bool, true, false, List, [], ◌∷◌, Option-cases, Bool-cases,
  inl, inr, arith, if◌then◌else◌,
}
use func_x.Prelude.Int.{pos, ltb_ℤ}
use func_x.Prelude.Dict.{get?, has, keys, ◌=?◌, keys-has}
use func_x.Prelude.Python.{return, pure, ◌>>=◌, ◌>>◌}
use func_x.Dispatch.{
  Fetch, use_slot, use_worker, has_slot, has_unused, fetch_loop, fetch_own, get_tasks_hard,
  fetch_warm, fetch_unused, warm_loop, cold_loop, get_tasks_soft,
}
use func_x.Dispatch.Fetching.{
  Keeps, Leaves, Ends, Fine, Offers, Leaves-bind, Leaves-then, Leaves-weaken, Keeps-shift,
  Keeps-Fine, Keeps-Offers, own_slots, unused_slots, fetch_loop-Leaves, use_worker-Charges,
}

module _ (P : ℕ → Fetch → Type 0) (keeps : Keeps P) where
  fetch_own-Leaves :
      (t : String) (n : ℕ) (f : Fetch) → Fine P n f → Leaves (Fine P) (fetch_own t n f)
  unfolding fetch_own
  fetch_own-Leaves t n f h = elim (Bool-cases (has t f.manager.free)) [
    | inr e ↦ rw (e, fetch_own) h
    | inl e ↦
        rw (e, fetch_own)
          (Leaves-weaken (Fine P) (Offers (t ∷ []) (Fine P)) _ (λ m g k. k.1)
            (own_slots (Offers (t ∷ []) (Fine P))
              (Keeps-Offers (t ∷ []) (Fine P) (Keeps-Fine P keeps)) t t t (λ m g k. k.0.0) n f
              ((e, tt), h)))
  ]

  hard_rounds :
      (t : String) (n : ℕ) (f : Fetch)
      → Fine P n f
      → Ends (Fine P) (
          (do
            left ← fetch_own t n
            fetch_loop t t (has_slot "unused") (use_slot "unused") left
            pure tt)
            f)
  hard_rounds t n f h =
      Leaves-bind (Fine P) (Fine P) (fetch_own t n f) _ (fetch_own-Leaves t n f h) λ left g k.
        Leaves-bind (Fine P) (Fine P)
          (fetch_loop t t (has_slot "unused") (use_slot "unused") left g) _
          (own_slots (Fine P) (Keeps-Fine P keeps) t t "unused" (λ m g' k'. k'.0.unused) left g k)
          (λ m g' k'. (refl, (m, k')))

  pub get_tasks_hard-Ends : (n : ℕ) (f : Fetch) → Fine P n f → Ends (Fine P) (get_tasks_hard n f)
  unfolding get_tasks_hard
  get_tasks_hard-Ends n f h = elim (Bool-cases (f.manager.worker_type =? "")) [
    | inl e ↦ rw (e, get_tasks_hard) (refl, (n, h))
    | inr e ↦ elim (Bool-cases (has f.manager.worker_type f.pending)) [
      | inl e' ↦ rw (e, e', get_tasks_hard) (hard_rounds f.manager.worker_type n f h)
      | inr e' ↦ rw (e, e', get_tasks_hard) (refl, (n, h))
    ]
  ]

  warm_rounds :
      (t : String) (types : List String) (n bound : ℕ) (f : Fetch)
      → bound ≤ n
      → Offers (t ∷ types) (Fine P) n f
      → Leaves
          (Offers (t ∷ types) (Fine P))
          ((do left ← fetch_loop t t (has_slot t) (use_slot t) bound; pure (n - bound + left)) f)
  warm_rounds t types n bound f fits h =
      let c = n - bound in
      let start : n ≡ c + bound = omega arith in
      let Q = λ (m : ℕ) (g : Fetch). Offers (t ∷ types) (Fine P) (c + m) g in
      Leaves-then (Offers (t ∷ types) (Fine P)) Q (fetch_loop t t (has_slot t) (use_slot t) bound f)
        _
        (own_slots Q
          (Keeps-shift (Offers (t ∷ types) (Fine P)) c
            (Keeps-Offers (t ∷ types) (Fine P) (Keeps-Fine P keeps)))
          t t t (λ m g k. k.0.0) bound f (subst (λ k. Offers (t ∷ types) (Fine P) k f) start h))
        (λ m g k. k)

  fetch_warm-Leaves :
      (t : String) (types : List String) (n : ℕ) (f : Fetch)
      → Offers (t ∷ types) (Fine P) n f
      → Leaves (Offers (t ∷ types) (Fine P)) (fetch_warm t n f)
  unfolding fetch_warm
  fetch_warm-Leaves t types n f h = elim (Bool-cases (has t f.pending)) [
    | inr e ↦ rw (e, fetch_warm) h
    | inl e ↦ elim (Option-cases (get? t f.manager.total)) [
      | inl e' ↦ absurd (ground (arith, h.1.0.totals t h.0.0))
      | inr (total, e') ↦ rw (e, e', fetch_warm) (warm_rounds t types n _ f (omega arith) h)
    ]
  ]

  fetch_unused-Leaves :
      (types offered : List String) (n : ℕ) (f : Fetch)
      → Offers offered (Fine P) n f
      → Leaves (Offers offered (Fine P)) (fetch_unused types n f)
  unfolding fetch_unused
  fetch_unused-Leaves [] offered n f h = h
  fetch_unused-Leaves (t ∷ types) offered n f h =
      let Q = Offers offered (Fine P) in
      Leaves-then Q Q (fetch_loop "unused" t has_unused (use_slot "unused") n f)
        (fetch_unused types)
        (unused_slots Q (Keeps-Offers offered (Fine P) (Keeps-Fine P keeps)) t
          (λ m g k. k.1.0.unused) n f h)
        (λ m g k. fetch_unused-Leaves types offered m g k)

  module _ (shuffle : List String → List String) where
    warm_type-Leaves :
        (t : String) (types : List String) (n : ℕ) (f : Fetch)
        → Offers (t ∷ types) (Fine P) n f
        → Leaves (Offers (t ∷ types) (Fine P)) (
            if t =? "unused"
            then (if has "unused" f.pending
                then fetch_unused (shuffle (keys f.pending)) n f
                else (return n, f))
            else fetch_warm t n f)
    warm_type-Leaves t types n f h = elim (Bool-cases (t =? "unused")) [
      | inr e ↦ rw e (fetch_warm-Leaves t types n f h)
      | inl e ↦ elim (Bool-cases (has "unused" f.pending)) [
        | inl e' ↦ rw (e, e') (fetch_unused-Leaves (shuffle (keys f.pending)) (t ∷ types) n f h)
        | inr e' ↦ rw (e, e') h
      ]
    ]

    warm_loop-Ends :
        (types : List String) (n : ℕ) (f : Fetch)
        → Offers types (Fine P) n f
        → Ends (Fine P) (warm_loop shuffle types n f)
    unfolding warm_loop
    warm_loop-Ends [] n f h = (refl, (n, h.1))
    warm_loop-Ends (t ∷ types) n f h =
        Leaves-bind (Fine P) (Offers (t ∷ types) (Fine P)) _ (warm_loop shuffle types)
          (warm_type-Leaves t types n f h) (λ m g k. warm_loop-Ends types m g (k.0.1, k.1))

    cold_type-Leaves :
        (t : String) (n : ℕ) (f : Fetch)
        → Fine P n f
        → Leaves (Fine P) (
            if has t f.pending
            then fetch_loop t t (λ m. return (ltb_ℤ (pos 0) m.total_workers)) use_worker n f
            else (return n, f))
    cold_type-Leaves t n f h = elim (Bool-cases (has t f.pending)) [
      | inr e ↦ rw e h
      | inl e ↦ rw e (
          fetch_loop-Leaves (Fine P) (Keeps-Fine P keeps) t t _ use_worker
            (λ m pass. use_worker-Charges m) (λ m g x k r. cc) n f h)
    ]

    cold_loop-Ends :
        (types : List String) (n : ℕ) (f : Fetch)
        → Fine P n f
        → Ends (Fine P) (cold_loop shuffle types n f)
    unfolding cold_loop
    cold_loop-Ends [] n f h = (refl, (n, h))
    cold_loop-Ends (t ∷ types) n f h =
        Leaves-bind (Fine P) (Fine P) _ (cold_loop shuffle types) (cold_type-Leaves t n f h)
          (λ m g k. cold_loop-Ends types m g k)

    pub get_tasks_soft-Ends :
        (warm : Bool) (n : ℕ) (f : Fetch)
        → Fine P n f
        → Ends (Fine P) (get_tasks_soft shuffle warm n f)
    unfolding get_tasks_soft
    get_tasks_soft-Ends true n f h =
        warm_loop-Ends (keys f.manager.free) n f (keys-has f.manager.free, h)
    get_tasks_soft-Ends false n f h = cold_loop-Ends (shuffle (keys f.pending)) n f h
