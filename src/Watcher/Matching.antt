-- ===== src/Watcher/Matching.antt =====
-- Completing futures, one and several.
use func_x.Prelude.{
  ℕ, ◌≤◌, ◌==◌, ==_iff, ◌≡◌, ◌≢◌, refl, ◌∙◌, sym, ap, String, true, false, none, some, List, [],
  ◌∷◌, Bool-cases, Option-cases, inl, inr, ltb, if◌then◌else◌, arith,
}
use func_x.Prelude.Dict.{Dict, count, get?, has, remove, =?_iff, =?_refl}
use func_x.Prelude.Python.{Result, Result-cases, return, raise}
use func_x.Watcher.Popping.{Belong, AllNamed}
use func_x.Watcher.{
  task_execution_failed, malformed, Outcome, finished, failed, Future, Received, Watcher, is_done,
  set_outcome, complete_one, complete,
}

module _ {V : Type 0} where
  pub set_outcome-other :
      (f g : ℕ) (o : Outcome V) (futures : ℕ → Future V)
      → g ≢ f
      → (set_outcome f o futures).1 g ≡ futures g
  unfolding set_outcome
  set_outcome-other f g o futures ne = ground (arith, ==_iff g f)

  pub set_outcome-task_id :
      (f g : ℕ) (o : Outcome V) (futures : ℕ → Future V)
      → ((set_outcome f o futures).1 g).task_id ≡ (futures g).task_id
  unfolding set_outcome
  set_outcome-task_id f g o futures = elim (Bool-cases (is_done (futures f).outcome)) [
    | inl e ↦ rw (e, set_outcome) refl
    | inr e ↦ elim (Bool-cases (g == f)) [
      | inl q ↦ rw (e, set_outcome) (rw q refl)
      | inr q ↦ rw (e, set_outcome) (rw q refl)
    ]
  ]

  pub set_outcome_pending :
      (f : ℕ) (o : Outcome V) (futures : ℕ → Future V)
      → is_done (futures f).outcome ≡ false
      → ((set_outcome f o futures).0 ≡ return tt) × (((set_outcome f o futures).1 f).outcome ≡ o)
  unfolding set_outcome
  set_outcome_pending f o futures e =
      let same : (f == f) ≡ true = ground (arith, ==_iff f f) in
      rw (e, set_outcome) (refl, rw same refl)

module _ {V : Type 0} (deserialize : String → Result V) where
  -- What a future is completed with.
  abbrev pub expected : Received → Outcome V
  expected res =
      if res.is_error
      then failed (task_execution_failed res.body)
      else elim (deserialize res.body) [
        | return v ↦ finished v
        | raise e ↦ failed (malformed res.body)
      ]

  complete_one_futures :
      (f : ℕ) (res : Received) (futures : ℕ → Future V)
      → (complete_one deserialize f res futures).1 ≡ (set_outcome f (expected res) futures).1
  unfolding complete_one
  complete_one_futures f res futures = elim (Bool-cases res.is_error) [
    | inl e ↦ rw (e, complete_one) refl
    | inr e ↦ elim (Result-cases (deserialize res.body)) [
      | inl (v, q) ↦ rw (e, q, complete_one) refl
      | inr (x, q) ↦ rw (e, q, complete_one) refl
    ]
  ]

  pub complete_one_returns :
      (f : ℕ) (res : Received) (futures : ℕ → Future V)
      → is_done (futures f).outcome ≡ false
      → (complete_one deserialize f res futures).0 ≡ return tt
  unfolding complete_one
  complete_one_returns f res futures e = elim (Bool-cases res.is_error) [
    | inl h ↦
        rw (h, complete_one)
          (set_outcome_pending f (failed (task_execution_failed res.body)) futures e).0
    | inr h ↦ elim (Result-cases (deserialize res.body)) [
      | inl (v, q) ↦ rw (h, q, complete_one) refl
      | inr (x, q) ↦
          rw (h, q, complete_one) (set_outcome_pending f (failed (malformed res.body)) futures e).0
    ]
  ]

  pub complete_one-other :
      (f g : ℕ) (res : Received) (futures : ℕ → Future V)
      → g ≢ f
      → (complete_one deserialize f res futures).1 g ≡ futures g
  complete_one-other f g res futures ne =
      ap (λ h. h g) (complete_one_futures f res futures)
      ∙ set_outcome-other f g (expected res) futures ne

  complete_one-task_id :
      (f g : ℕ) (res : Received) (futures : ℕ → Future V)
      → ((complete_one deserialize f res futures).1 g).task_id ≡ (futures g).task_id
  complete_one-task_id f g res futures =
      ap (λ h. (h g).task_id) (complete_one_futures f res futures)
      ∙ set_outcome-task_id f g (expected res) futures

  pub complete_one_pending :
      (f : ℕ) (res : Received) (futures : ℕ → Future V)
      → is_done (futures f).outcome ≡ false
      → ((complete_one deserialize f res futures).1 f).outcome ≡ expected res
  complete_one_pending f res futures e =
      ap (λ h. (h f).outcome) (complete_one_futures f res futures)
      ∙ (set_outcome_pending f (expected res) futures e).1

  -- The state after one future of the loop.
  abbrev pub after_one : ℕ → String → Received → Watcher V → Watcher V
  after_one f tid res w = record w {
    received_results = remove tid w.received_results;
    futures = (complete_one deserialize f res w.futures).1;
  }

  pub complete_step :
      (f : ℕ) (fs : List ℕ) (tid : String) (res : Received) (w : Watcher V)
      → (w.futures f).task_id ≡ some tid
      → get? tid w.received_results ≡ some res
      → complete deserialize (f ∷ fs) w ≡ elim (complete_one deserialize f res w.futures).0 [
        | raise e ↦ (raise e, after_one f tid res w)
        | return _ ↦ complete deserialize fs (after_one f tid res w)
      ]
  unfolding complete
  complete_step f fs tid res w a b = rw (a, b, complete) refl

  pub after_one-task_id :
      (f : ℕ) (tid : String) (res : Received) (w : Watcher V) (g : ℕ)
      → ((after_one f tid res w).futures g).task_id ≡ (w.futures g).task_id
  after_one-task_id f tid res w g = complete_one-task_id f g res w.futures

  pub complete-task_id :
      (fs : List ℕ) (w : Watcher V) (g : ℕ)
      → ((complete deserialize fs w).1.futures g).task_id ≡ (w.futures g).task_id
  unfolding complete
  complete-task_id [] w g = refl
  complete-task_id (f ∷ fs) w g = elim (Option-cases (w.futures f).task_id) [
    | inl e ↦ rw (e, complete) refl
    | inr (tid, e) ↦ elim (Option-cases (get? tid w.received_results)) [
      | inl h ↦ rw (e, h, complete) refl
      | inr (res, h) ↦ elim (Result-cases (complete_one deserialize f res w.futures).0) [
        | inl (u, r) ↦
            rw (e, h, r, complete)
              (complete-task_id fs (after_one f tid res w) g ∙ after_one-task_id f tid res w g)
        | inr (x, r) ↦ rw (e, h, r, complete) (after_one-task_id f tid res w g)
      ]
    ]
  ]

  -- A future whose task is not among these is left alone.
  pub complete-other :
      (ks : List String) (fs : List ℕ) (d : Dict ℕ) (w : Watcher V) (g : ℕ) (k : String)
      → Belong d ks fs
      → AllNamed d w.futures
      → (w.futures g).task_id ≡ some k
      → count k ks ≡ 0
      → (complete deserialize fs w).1.futures g ≡ w.futures g
  unfolding complete
  complete-other [] [] d w g k b named e none_of = refl
  complete-other (j ∷ ks) [] d w g k b named e none_of = absurd b
  complete-other [] (f ∷ fs) d w g k b named e none_of = absurd b
  complete-other (j ∷ ks) (f ∷ fs) d w g k b named e none_of =
      let carries = named j f b.0 in
      elim (Option-cases (get? j w.received_results)) [
        | inl h ↦ rw (carries, h, complete) refl
        | inr (res, h) ↦
            let other : g ≢ f = λ q.
              (let same : some k ≡ some j = sym e ∙ ap (λ i. (w.futures i).task_id) q ∙ carries in
                ground (arith, none_of, same, =?_refl k, =?_iff j k)) in
            let next = complete_one-other f g res w.futures other in
            elim (Result-cases (complete_one deserialize f res w.futures).0) [
              | inl (u, r) ↦
                  rw (carries, h, r, complete)
                    (complete-other ks fs d (after_one f j res w) g k b.1
                        (λ i x q. after_one-task_id f j res w x ∙ named i x q)
                        (after_one-task_id f j res w g ∙ e) (ground (arith, none_of))
                      ∙ next)
              | inr (x, r) ↦ rw (carries, h, r, complete) next
            ]
      ]

  -- What completing the futures of these tasks is to come to.
  pub record Completes (ks : List String) (d : Dict ℕ) (w : Watcher V) : Type 0 where
    pub named : AllNamed d w.futures
    pub once : (k : String) → count k ks ≤ 1
    pub ready : (k : String) → 1 ≤ count k ks → has k w.received_results ≡ true
    pub waits :
        (k : String) (f : ℕ)
        → 1 ≤ count k ks
        → get? k d ≡ some f
        → is_done (w.futures f).outcome ≡ false

  pub record Completed (ks : List String) (d : Dict ℕ) (w w' : Watcher V) : Type 0 where
    pub done :
        (k : String) (f : ℕ) (res : Received)
        → 1 ≤ count k ks
        → get? k d ≡ some f
        → get? k w.received_results ≡ some res
        → (w'.futures f).outcome ≡ expected res
    pub taken :
        (k : String)
        → get? k w'.received_results
          ≡ (if ltb 0 (count k ks) then none else get? k w.received_results)
