-- ===== src/Scaling/Idle.antt =====
-- The kill timer over many rounds: resources go only after an idle time without a break.
use func_x.Prelude.{
  ℕ, zero, suc, ◌+◌, ◌*◌, ◌<◌, ◌≡◌, ◌==◌, refl, Bool, true, false, ◌&&◌, Option, none, some, List,
  [], ◌∷◌, arith, ap, ltb, leb, if◌then◌else◌, Bool-cases, inl, inr, ◌⊎◌,
}
use func_x.Prelude.Python.{Result, return, raise, Result-cases}
use func_x.Scaling.{
  ceil_div, Floats, active, Report, Order, scale_in, scale_out, tasks_per_node, is_set, or_now,
  cool_down, request, simple_strategize, timer_after,
}

-- The newest rounds had no tasks, back to one at the time `since`.
pub data IdleSince (since : ℕ) : List Report → Type 0 where
  starts :
      (r : Report) (rs : List Report)
      → r.active_tasks ≡ 0
      → r.now ≡ since
      → IdleSince since (r ∷ rs)
  goes_on :
      (r : Report) (rs : List Report)
      → r.active_tasks ≡ 0
      → IdleSince since rs
      → IdleSince since (r ∷ rs)

-- A timer that is set tells the truth.
IsTrue : Option ℕ → List Report → Type 0
IsTrue none rs = Unit
IsTrue (some zero) rs = Unit
IsTrue (some (suc n)) rs = IdleSince (suc n) rs

-- Whether some order removes blocks.
abbrev removes : List Order → Bool
removes [] = false
removes (scale_in n ∷ os) = true
removes (scale_out n ∷ os) = removes os

-- The timer when a round with tasks has stopped it.
abbrev kept : Report → Option ℕ → Option ℕ
kept r idle = if ltb 0 r.active_tasks && is_set idle then none else idle

kept-IsTrue :
    (r : Report) (rs : List Report) (idle : Option ℕ)
    → IsTrue idle rs
    → IsTrue (kept r idle) (r ∷ rs)
unfolding IsTrue
kept-IsTrue r rs none h = elim (Bool-cases (ltb 0 r.active_tasks)) [
  | inl e ↦ rw e tt
  | inr e ↦ rw e tt
]
kept-IsTrue r rs (some zero) h = elim (Bool-cases (ltb 0 r.active_tasks)) [
  | inl e ↦ rw e tt
  | inr e ↦ rw e tt
]
kept-IsTrue r rs (some (suc n)) h = elim (Bool-cases (ltb 0 r.active_tasks)) [
  | inl e ↦ rw e tt
  | inr e ↦ rw e (goes_on r rs (ground arith) h)
]

module _ (floats : Floats) (max_idletime : ℕ) where
  -- Every round keeps the timer, up to stopping it, and removes nothing, or is a round without tasks
  -- that cools down.
  IsQuiet : Report → Option ℕ → Result (List Order) × Option ℕ → Type 0
  IsQuiet r idle (return os, after) = (after ≡ kept r idle) × (removes os ≡ false)
  IsQuiet r idle (raise e, after) = after ≡ kept r idle

  IsRound : Report → Option ℕ → Result (List Order) × Option ℕ → Type 0
  IsRound r idle o =
      IsQuiet r idle o
      ⊎ ((r.active_tasks ≡ 0) × (o ≡ cool_down floats max_idletime r (kept r idle)))

  request-IsQuiet :
      (r : Report) (idle : Option ℕ) → IsQuiet r idle (request floats max_idletime r, kept r idle)
  unfolding request IsQuiet
  request-IsQuiet r idle =
      let slots = active r.status * tasks_per_node r.max_workers_per_node * r.nodes_per_block in
      elim (Result-cases (
        ceil_div (floats.excess r.active_tasks slots)
          (tasks_per_node r.max_workers_per_node * r.nodes_per_block))) [
            | inr (e, h) ↦ rw (h, request) refl
            | inl (n, h) ↦ rw (h, request) (refl, refl)
          ]

  strategize-IsRound :
      (r : Report) (idle : Option ℕ) → IsRound r idle (simple_strategize floats max_idletime r idle)
  unfolding simple_strategize IsRound IsQuiet
  strategize-IsRound r idle =
      let slots = active r.status * tasks_per_node r.max_workers_per_node * r.nodes_per_block in
      elim (Bool-cases (r.active_tasks == 0)) [
        | inl z ↦ elim (Bool-cases (leb (active r.status) r.min_blocks)) [
          | inl l ↦ rw (z, l, simple_strategize) (inl (refl, refl))
          | inr l ↦ rw (z, l, simple_strategize) (inr (ground arith, refl))
        ]
        | inr z ↦ elim (Bool-cases (floats.below slots r.active_tasks)) [
          | inl b ↦ elim (Bool-cases (leb r.max_blocks (active r.status))) [
            | inl l ↦ rw (z, b, l, simple_strategize) (inl (refl, refl))
            | inr l ↦ rw (z, b, l, simple_strategize) (inl (request-IsQuiet r idle))
          ]
          | inr b ↦ elim (Bool-cases ((slots == 0) && ltb 0 r.active_tasks)) [
            | inr s ↦ rw (z, b, s, simple_strategize) (inl (refl, refl))
            | inl s ↦ elim (Bool-cases (ltb (active r.status) r.max_blocks)) [
              | inl l ↦ rw (z, b, s, l, simple_strategize) (inl (refl, refl))
              | inr l ↦ rw (z, b, s, l, simple_strategize) (inl (refl, refl))
            ]
          ]
        ]
      ]

  or_now-IdleSince :
      (r : Report) (rs : List Report) (idle : Option ℕ)
      → r.active_tasks ≡ 0
      → IsTrue idle rs
      → IdleSince (or_now r.now idle) (r ∷ rs)
  unfolding IsTrue
  or_now-IdleSince r rs none z h = starts r rs z refl
  or_now-IdleSince r rs (some zero) z h = starts r rs z refl
  or_now-IdleSince r rs (some (suc n)) z h = goes_on r rs z h

  set-IsTrue : (since : ℕ) (rs : List Report) → IdleSince since rs → IsTrue (some since) rs
  unfolding IsTrue
  set-IsTrue zero rs h = tt
  set-IsTrue (suc n) rs h = h

  kept_idle : (r : Report) (idle : Option ℕ) → r.active_tasks ≡ 0 → kept r idle ≡ idle
  kept_idle r idle z = rw z refl

  after-IsTrue :
      (r : Report) (rs : List Report) (idle : Option ℕ) (o : Result (List Order) × Option ℕ)
      → IsTrue idle rs
      → IsRound r idle o
      → IsTrue o.1 (r ∷ rs)
  unfolding IsRound IsQuiet cool_down
  after-IsTrue r rs idle (return os, after) h (inl q) = rw q.0 (kept-IsTrue r rs idle h)
  after-IsTrue r rs idle (raise e, after) h (inl q) = rw q (kept-IsTrue r rs idle h)
  after-IsTrue r rs idle o h (inr (z, e)) =
      let e1 : o.1 ≡ some (or_now r.now (kept r idle)) = ap (λ p. p.1) e in
      rw (e1, kept_idle r idle z)
        (set-IsTrue (or_now r.now idle) (r ∷ rs) (or_now-IdleSince r rs idle z h))

  timer-IsTrue : (rs : List Report) → IsTrue (timer_after floats max_idletime rs) rs
  unfolding timer_after IsTrue
  timer-IsTrue [] = tt
  timer-IsTrue (r ∷ rs) =
      after-IsTrue r rs (timer_after floats max_idletime rs) _ (timer-IsTrue rs)
        (strategize-IsRound r (timer_after floats max_idletime rs))

  removal-since :
      (r : Report) (rs : List Report) (idle : Option ℕ) (n : ℕ) (o : Result (List Order) × Option ℕ)
      → IsTrue idle rs
      → IsRound r idle o
      → o.0 ≡ return (scale_in n ∷ [])
      → (since : ℕ) × IdleSince since (r ∷ rs) × (since + max_idletime < r.now)
  unfolding IsRound IsQuiet cool_down
  removal-since r rs idle n (return os, after) h (inl q) e = absurd (ground arith)
  removal-since r rs idle n (raise x, after) h (inl q) e = absurd (cc)
  removal-since r rs idle n o h (inr (z, e')) e =
      (or_now r.now idle, or_now-IdleSince r rs idle z h, ground (arith, kept_idle r idle z))

  -- Blocks are removed in a round only if it and the rounds before it had no tasks, back to a round
  -- that is more than the maximal idle time ago.
  pub removal-IdleSince :
      (r : Report) (rs : List Report) (n : ℕ)
      → (simple_strategize floats max_idletime r (timer_after floats max_idletime rs)).0
        ≡ return (scale_in n ∷ [])
      → (since : ℕ) × IdleSince since (r ∷ rs) × (since + max_idletime < r.now)
  removal-IdleSince r rs n e =
      removal-since r rs (timer_after floats max_idletime rs) n _ (timer-IsTrue rs)
        (strategize-IsRound r (timer_after floats max_idletime rs)) e
