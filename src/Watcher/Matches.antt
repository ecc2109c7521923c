-- ===== src/Watcher/Matches.antt =====
-- Matching results to futures: what comes of it, and what a cancelled future does to the others.
use func_x.Prelude.{
  ℕ, ◌≡◌, refl, ◌∙◌, ap, String, Bool, true, false, not, ◌&&◌, ◌||◌, none, some, List, [], ◌∷◌,
  Option-cases, inl, inr, is_empty, if◌then◌else◌, arith,
}
use func_x.Prelude.Dict.{Dict, Distinct, get?, has, remove, keys}
use func_x.Prelude.Python.{invalid_state_error, Result, Result-cases, return, raise}
use func_x.Watcher.Popping.{Belong, AllNamed, pop_futures-Belong, get?-pop_futures}
use func_x.Watcher.Matched.{complete_lem, IsReading, count-shuffle}
use func_x.Watcher.Matching.{expected, after_one, complete_step, complete-other}
use func_x.Watcher.{
  Future, Received, Watcher, is_done, set_outcome, common, pop_futures, complete_one, complete,
  match_results_to_futures,
}

module _ {V : Type 0} (deserialize : String → Result V) where
  -- A field that completing futures does not touch.
  pub complete_keeps :
      {A : Type 0} (field : Watcher V → A) (fs : List ℕ) (w : Watcher V)
      → ((received : Dict Received) (futures : ℕ → Future V) (w : Watcher V)
          → field (record w { received_results = received; futures = futures }) ≡ field w)
      → field (complete deserialize fs w).1 ≡ field w
  unfolding complete
  complete_keeps field [] w same = refl
  complete_keeps field (f ∷ fs) w same = elim (Option-cases (w.futures f).task_id) [
    | inl e ↦ rw (e, complete) refl
    | inr (tid, e) ↦ elim (Option-cases (get? tid w.received_results)) [
      | inl h ↦ rw (e, h, complete) refl
      | inr (res, h) ↦
          let one =
            same (remove tid w.received_results) (complete_one deserialize f res w.futures).1 w in
          elim (Result-cases (complete_one deserialize f res w.futures).0) [
            | inl (u, r) ↦
                rw (e, h, r, complete)
                  (complete_keeps field fs (after_one deserialize f tid res w) same ∙ one)
            | inr (x, r) ↦ rw (e, h, r, complete) one
          ]
    ]
  ]

  module _ (shuffle : List String → List String) (reads : IsReading deserialize shuffle) where
    -- Whether a watched future has its result.
    abbrev pub is_matched : Watcher V → String → Bool
    is_matched w k = has k w.open_futures && has k w.received_results

    pub has-match :
        (w : Watcher V) (k : String)
        → Distinct w.open_futures
        → has k (match_results_to_futures deserialize shuffle w).1.open_futures
          ≡ (has k w.open_futures && not (has k w.received_results))
    unfolding match_results_to_futures
    has-match w k u =
        let tids = shuffle (common (keys w.open_futures) w.received_results) in
        let (fs, known) = pop_futures tids w.open_futures in
        ap (has k) (complete_keeps (λ w. w.open_futures) fs _ (λ r f w. refl))
        ∙ ground (
          arith,
          get?-pop_futures tids w.open_futures k,
          count-shuffle deserialize shuffle reads w k u,
        )

    -- Watched futures are named once and carry their tasks, and none that has its result is done:
    -- matching returns, gives each of these its result, forgets both, and leaves the other futures,
    -- results and watched tasks as they are.
    pub match_results_to_futures_lem :
        (w : Watcher V)
        → Distinct w.open_futures
        → AllNamed w.open_futures w.futures
        → ((k : String) (f : ℕ)
            → get? k w.open_futures ≡ some f
            → has k w.received_results ≡ true
            → is_done (w.futures f).outcome ≡ false)
        → let (result, after) = match_results_to_futures deserialize shuffle w in
          (result ≡ return tt)
          × ((k : String) (f : ℕ) (res : Received)
              → get? k w.open_futures ≡ some f
              → get? k w.received_results ≡ some res
              → (after.futures f).outcome ≡ expected deserialize res)
          × ((k : String)
              → has k after.open_futures ≡ (has k w.open_futures && not (has k w.received_results)))
          × ((k : String)
              → get? k after.received_results
                ≡ (if has k w.open_futures then none else get? k w.received_results))
          × ((f : ℕ) (k : String)
              → (w.futures f).task_id ≡ some k
              → is_matched w k ≡ false
              → after.futures f ≡ w.futures f)
    match_results_to_futures_lem w u named waits =
        let tids = shuffle (common (keys w.open_futures) w.received_results) in
        let counted = λ (k : String). count-shuffle deserialize shuffle reads w k u in
        let d = w.open_futures in
        let (fs, known) = pop_futures tids d in
        let ready : Watcher V = record w {
          open_futures = known;
          open_futures_empty = is_empty known || w.open_futures_empty;
        } in
        let belong : Belong d tids fs =
          pop_futures-Belong tids d (λ k. ground (arith, counted k))
            (λ k h. ground (arith, h, counted k)) in
        let (returns, rest) = complete_lem deserialize tids fs d ready belong (record {
          named = named;
          once = λ k. ground (arith, counted k);
          ready = λ k h. ground (arith, h, counted k);
          waits = λ k f h q. waits k f q (ground (arith, h, counted k));
        }) in
        unfold match_results_to_futures in
        (
          returns,
          (λ k f res q r. rest.done k f res (ground (arith, q, r, counted k)) q r),
          (λ k. has-match w k u),
          (λ k. ground (arith, rest.taken k, counted k)),
          (λ f k e h.
              complete-other deserialize tids fs d ready f k belong named e
                (ground (arith, h, counted k))),
        )

    -- A failure for a future that is done.
    complete_one_done :
        (f : ℕ) (res : Received) (futures : ℕ → Future V)
        → res.is_error ≡ true
        → is_done (futures f).outcome ≡ true
        → complete_one deserialize f res futures ≡ (raise invalid_state_error, futures)
    unfolding complete_one set_outcome
    complete_one_done f res futures wrong over =
        rw (wrong, complete_one) (rw (over, set_outcome) refl)

    pop_futures-cons :
        (k : String) (ks : List String) (f : ℕ) (d : Dict ℕ)
        → get? k d ≡ some f
        → pop_futures (k ∷ ks) d
          ≡ (f ∷ (pop_futures ks (remove k d)).0, (pop_futures ks (remove k d)).1)
    unfolding pop_futures
    pop_futures-cons k ks f d e = rw (e, pop_futures) refl

    -- Watched futures are named once and carry their tasks, and of those that have their results the
    -- first in the order in which they are read is done, say cancelled by the user, and its result is
    -- an error: matching raises, every future stays as it is, and those that have their results are
    -- no longer watched.
    pub match_results_to_futures-done :
        (w : Watcher V) (k : String) (ks : List String) (f : ℕ) (res : Received)
        → Distinct w.open_futures
        → AllNamed w.open_futures w.futures
        → shuffle (common (keys w.open_futures) w.received_results) ≡ k ∷ ks
        → get? k w.open_futures ≡ some f
        → get? k w.received_results ≡ some res
        → res.is_error ≡ true
        → is_done (w.futures f).outcome ≡ true
        → let (result, after) = match_results_to_futures deserialize shuffle w in
          (result ≡ raise invalid_state_error)
          × ((g : ℕ) → after.futures g ≡ w.futures g)
          × ((j : String) → is_matched w j ≡ true → has j after.open_futures ≡ false)
    match_results_to_futures-done w k ks f res u named order e r wrong over =
        let popped =
          ap (λ tids. pop_futures tids w.open_futures) order
          ∙ pop_futures-cons k ks f w.open_futures e in
        let (fs, known) = pop_futures ks (remove k w.open_futures) in
        let ready : Watcher V = record w {
          open_futures = known;
          open_futures_empty = is_empty known || w.open_futures_empty;
        } in
        let told = complete_one_done f res w.futures wrong over in
        let step : match_results_to_futures deserialize shuffle w
            ≡ (raise invalid_state_error, after_one deserialize f k res ready) =
          unfold match_results_to_futures in
          (ap
              (λ p. complete deserialize p.0 (record w {
                open_futures = p.1;
                open_futures_empty = is_empty p.1 || w.open_futures_empty;
              }))
              popped
            ∙ complete_step deserialize f fs k res ready (named k f e) r
            ∙ rw (ap (λ p. p.0) told) refl) in
        (
          ap (λ p. p.0) step,
          (λ g. ap (λ p. p.1.futures g) step ∙ ap (λ p. p.1 g) told),
          (λ j h. has-match w j u ∙ ground (arith, h)),
        )
