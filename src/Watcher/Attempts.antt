-- ===== src/Watcher/Attempts.antt =====
-- How a watcher that cannot connect ends its attempts.
use mathlib.Core.Path.{subst}
use func_x.Prelude.{
  ℕ, zero, suc, ◌+◌, ◌≤◌, ◌<◌, lt→ltb, ◌≡◌, refl, ◌∙◌, ap, String, true, false, not, ◌&&◌, ◌||◌,
  Option, none, some, List, [], ◌∷◌, ◌⊎◌, inl, inr, if◌then◌else◌, if_both, is_empty, Option-cases,
  Bool-cases, sym, arith, ltb,
}
use func_x.Prelude.Dict.{get?, is_some, keys}
use func_x.Prelude.Python.{Result, return, raise, Action, Result-cases}
use func_x.Watcher.{
  Watcher, acknowledge, common, pop_futures, complete_one, complete, match_results_to_futures,
  event_watcher,
}
use func_x.Watcher.Connection.{Limits, connect, on_open_failed}

-- What comes of an attempt that opens no connection: `_connect` raises, or the watcher has its rounds,
-- at least one and as many more as there are until the opening fails.
pub data Attempt : Type 0 where
  connect_raises : Attempt
  fails_to_open : (rounds : ℕ) (exc : String) → Attempt

module _ {V : Type 0} (deserialize : String → Result V) (shuffle : List String → List String)
    (l : Limits) where
  -- The rounds end with the first that raises.
  unfoldable pub watch_rounds : ℕ → Action (Watcher V) (Unit {0})
  watch_rounds zero w = event_watcher deserialize shuffle w
  watch_rounds (suc n) w =
      let (result, w') = event_watcher deserialize shuffle w in
      elim result [ raise e ↦ (raise e, w') | return _ ↦ watch_rounds n w' ]

  -- The body of the `try`. What is raised is logged.
  unfoldable pub attempt : Attempt → Watcher V → Watcher V
  unfolding watch_rounds
  attempt connect_raises w = w
  attempt (fails_to_open rounds exc) w =
      let (result, w') = watch_rounds rounds w in
      elim result [ raise e ↦ w' | return _ ↦ on_open_failed l exc w' ]

  -- The loop of `run` while no connection opens, with the number of attempts. `outcomes` is asked by
  -- the number of the attempt.
  unfoldable pub attempts : (ℕ → Attempt) → ℕ → Watcher V → ℕ × Watcher V
  unfolding attempt
  attempts outcomes zero w = (0, w)
  attempts outcomes (suc fuel) w = elim (connect l w) [
    | none ↦ (0, w)
    | some w' ↦
        let (n, after) = attempts outcomes fuel (attempt (outcomes w'.connection_tries) w') in
        (suc n, after)
  ]

  -- The fields that decide on another attempt.
  abbrev Alike : Watcher V → Watcher V → Type 0
  Alike w w' =
      (w'.connection_tries ≡ w.connection_tries)
      × (w'.time_to_stop ≡ w.time_to_stop)
      × (w'.cancellation_reason ≡ w.cancellation_reason)

  Alike-then : (a b c : Watcher V) → Alike a b → Alike b c → Alike a c
  Alike-then a b c h k = (k.0 ∙ h.0, k.1 ∙ h.1, k.2 ∙ h.2)

  acknowledge-Alike : (ms : List ℕ) (w : Watcher V) → w.to_ack ≡ ms → Alike w (acknowledge w)
  unfolding acknowledge
  acknowledge-Alike [] w e = rw (e, acknowledge) (refl, refl, refl)
  acknowledge-Alike (m ∷ ms) w e = rw (e, acknowledge) (refl, refl, refl)

  complete-Alike : (fs : List ℕ) (w : Watcher V) → Alike w (complete deserialize fs w).1
  unfolding complete
  complete-Alike [] w = (refl, refl, refl)
  complete-Alike (f ∷ fs) w = elim (Option-cases (w.futures f).task_id) [
    | inl e ↦ rw (e, complete) (refl, refl, refl)
    | inr (tid, e) ↦ elim (Option-cases (get? tid w.received_results)) [
      | inl q ↦ rw (e, q, complete) (refl, refl, refl)
      | inr (res, q) ↦ elim (Result-cases (complete_one deserialize f res w.futures).0) [
        | inl (u, r) ↦ rw (e, q, r, complete) (complete-Alike fs _)
        | inr (x, r) ↦ rw (e, q, r, complete) (refl, refl, refl)
      ]
    ]
  ]

  match-Alike : (w : Watcher V) → Alike w (match_results_to_futures deserialize shuffle w).1
  unfolding match_results_to_futures
  match-Alike w =
      let tids = shuffle (common (keys w.open_futures) w.received_results) in
      let popped = pop_futures tids w.open_futures in
      complete-Alike popped.0 (record w {
        open_futures = popped.1;
        open_futures_empty = is_empty popped.1 || w.open_futures_empty;
      })

  event_watcher-Alike : (w : Watcher V) → Alike w (event_watcher deserialize shuffle w).1
  unfolding event_watcher
  event_watcher-Alike w =
      let acked = acknowledge w in
      let same = acknowledge-Alike w.to_ack w refl in
      if_both (λ (r : Result (Unit {0}) × Watcher V). Alike w r.1) w.time_to_stop _ _
        (refl, refl, refl)
        (if_both (λ (r : Result (Unit {0}) × Watcher V). Alike w r.1) acked.time_to_check_results _
          _
          (Alike-then w acked
            (match_results_to_futures deserialize shuffle
              (record acked { time_to_check_results = false })).1
            same (match-Alike (record acked { time_to_check_results = false })))
          same)

  watch_rounds-Alike : (n : ℕ) (w : Watcher V) → Alike w (watch_rounds n w).1
  unfolding watch_rounds
  watch_rounds-Alike zero w = event_watcher-Alike w
  watch_rounds-Alike (suc n) w =
      let first = event_watcher-Alike w in
      let next : Watcher V = (event_watcher deserialize shuffle w).1 in
      elim (Result-cases (event_watcher deserialize shuffle w).0) [
        | inl (u, r) ↦
            rw (r, watch_rounds)
              (Alike-then w next (watch_rounds n next).1 first (watch_rounds-Alike n next))
        | inr (x, r) ↦ rw (r, watch_rounds) first
      ]

  -- After the last attempt: the reason is what the opening failed with, if it got as far as that.
  abbrev pub Reasoned : Attempt → Option String → Type 0
  Reasoned connect_raises reason = reason ≡ none
  Reasoned (fails_to_open rounds exc) reason = (reason ≡ none) ⊎ (reason ≡ some exc)

  attempt-Alike :
      (a : Attempt) (w : Watcher V)
      → w.connection_tries < l.connect_attempt_limit
      → Alike w (attempt a w)
  unfolding attempt on_open_failed
  attempt-Alike connect_raises w h = (refl, refl, refl)
  attempt-Alike (fails_to_open rounds exc) w h =
      let after = (watch_rounds rounds w).1 in
      let same = watch_rounds-Alike rounds w in
      let less : ltb after.connection_tries l.connect_attempt_limit ≡ true =
        lt→ltb _ _ (omega (arith, h, same.0)) in
      elim (Result-cases (watch_rounds rounds w).0) [
        | inl (u, r) ↦ rw (r, less, attempt) same
        | inr (x, r) ↦ rw (r, attempt) same
      ]

  attempt-last :
      (a : Attempt) (w : Watcher V)
      → w.cancellation_reason ≡ none
      → ((attempt a w).connection_tries ≡ w.connection_tries)
        × ((attempt a w).time_to_stop ≡ w.time_to_stop)
        × Reasoned a (attempt a w).cancellation_reason
  unfolding attempt on_open_failed
  attempt-last connect_raises w c = (refl, refl, c)
  attempt-last (fails_to_open rounds exc) w c =
      let after = (watch_rounds rounds w).1 in
      let same = watch_rounds-Alike rounds w in
      elim (Result-cases (watch_rounds rounds w).0) [
        | inl (u, r) ↦ elim (Bool-cases (ltb after.connection_tries l.connect_attempt_limit)) [
          | inl e ↦ rw (r, e, attempt) (same.0, same.1, inl (same.2 ∙ c))
          | inr e ↦ rw (r, e, attempt) (same.0, same.1, inr refl)
        ]
        | inr (x, r) ↦ rw (r, attempt) (same.0, same.1, inl (same.2 ∙ c))
      ]

  abbrev tried : Watcher V → Watcher V
  tried w = record w { connection_tries = w.connection_tries + 1 }

  connect_more :
      (w : Watcher V)
      → w.connection_tries < l.connect_attempt_limit
      → w.time_to_stop ≡ false
      → w.cancellation_reason ≡ none
      → connect l w ≡ some (tried w)
  unfolding connect
  connect_more w a b c =
      let less : ltb w.connection_tries l.connect_attempt_limit ≡ true = lt→ltb _ _ a in
      let goes : (ltb w.connection_tries l.connect_attempt_limit
            && not (w.time_to_stop || is_some w.cancellation_reason))
          ≡ true =
        ground (arith, less, b, c) in
      ap (λ t. if t then some (tried w) else none) goes

  connect_ended :
      (w : Watcher V) → w.connection_tries ≡ l.connect_attempt_limit → connect l w ≡ none
  unfolding connect
  connect_ended w c =
      let ends : (ltb w.connection_tries l.connect_attempt_limit
            && not (w.time_to_stop || is_some w.cancellation_reason))
          ≡ false =
        ground (arith, c) in
      ap (λ t. if t then some (tried w) else none) ends

  attempts_step :
      (outcomes : ℕ → Attempt) (fuel : ℕ) (w w' : Watcher V)
      → connect l w ≡ some w'
      → let rest = attempts outcomes fuel (attempt (outcomes w'.connection_tries) w') in
        attempts outcomes (suc fuel) w ≡ (suc rest.0, rest.1)
  unfolding attempts
  attempts_step outcomes fuel w w' e = rw (e, attempts) refl

  attempts_none :
      (outcomes : ℕ → Attempt) (fuel : ℕ) (w : Watcher V)
      → w.connection_tries ≡ l.connect_attempt_limit
      → attempts outcomes fuel w ≡ (0, w)
  unfolding attempts
  attempts_none outcomes zero w c = refl
  attempts_none outcomes (suc fuel) w c = rw (connect_ended w c, attempts) refl

  -- How the loop ends: the number of attempts, and the watcher that they leave.
  abbrev pub EndsAfter : (ℕ → Attempt) → ℕ → ℕ × Watcher V → Type 0
  EndsAfter outcomes n (made, w) =
      (made ≡ n)
      × (w.connection_tries ≡ l.connect_attempt_limit)
      × (connect l w ≡ none)
      × (w.time_to_stop ≡ false)
      × Reasoned (outcomes l.connect_attempt_limit) w.cancellation_reason

  EndsAfter-one :
      (outcomes : ℕ → Attempt) (w : Watcher V) (n : ℕ)
      → n ≡ l.connect_attempt_limit
      → w.connection_tries ≡ n
      → w.time_to_stop ≡ false
      → Reasoned (outcomes n) w.cancellation_reason
      → EndsAfter outcomes 1 (1, w)
  EndsAfter-one outcomes w n last a b c = (
    refl,
    a ∙ last,
    connect_ended w (a ∙ last),
    b,
    subst (λ k. Reasoned (outcomes k) w.cancellation_reason) last c,
  )

  -- While no connection opens, whether `_connect` or the watcher raises or the opening fails: with a
  -- limit that is not reached yet, no reason to end, and fuel for the attempts that are left, each of
  -- these is made, then no other. The thread is not told to stop then, and its reason is what the last
  -- opening failed with; there is none if `_connect` raised in the last attempt, and there may be none
  -- if the watcher did.
  pub attempts_end :
      (outcomes : ℕ → Attempt) (n fuel : ℕ) (w : Watcher V)
      → w.connection_tries + suc n ≡ l.connect_attempt_limit
      → w.time_to_stop ≡ false
      → w.cancellation_reason ≡ none
      → suc n ≤ fuel
      → EndsAfter outcomes (suc n) (attempts outcomes fuel w)
  attempts_end outcomes n zero w a b c h = absurd (omega (arith, h))
  attempts_end outcomes zero (suc fuel) w a b c h =
      let after = attempt (outcomes (tried w).connection_tries) (tried w) in
      let ended = attempt-last (outcomes (tried w).connection_tries) (tried w) c in
      let last : (tried w).connection_tries ≡ l.connect_attempt_limit = omega (arith, a) in
      let all : attempts outcomes (suc fuel) w ≡ (1, after) =
        attempts_step outcomes fuel w (tried w) (connect_more w (omega (arith, a)) b c)
        ∙ ap (λ r. (suc r.0, r.1)) (attempts_none outcomes fuel after (ended.0 ∙ last)) in
      subst (EndsAfter outcomes 1) (sym all)
        (EndsAfter-one outcomes after (tried w).connection_tries last ended.0 (ended.1 ∙ b) ended.2)
  attempts_end outcomes (suc n) (suc fuel) w a b c h =
      let after = attempt (outcomes (tried w).connection_tries) (tried w) in
      let same = attempt-Alike (outcomes (tried w).connection_tries) (tried w) (omega (arith, a)) in
      let rest =
        attempts_end outcomes n fuel after (omega (arith, a, same.0)) (same.1 ∙ b) (same.2 ∙ c)
          (omega (arith, h)) in
      let all = attempts_step outcomes fuel w (tried w) (connect_more w (omega (arith, a)) b c) in
      subst (EndsAfter outcomes (suc (suc n))) (sym all)
        (ap suc rest.0, rest.1, rest.2, rest.3, rest.4)
