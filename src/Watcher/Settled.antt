-- ===== src/Watcher/Settled.antt =====
-- The invariant of the watcher: what matching and the messages keep.
use mathlib.Core.Path.{subst}
use func_x.Prelude.{if_both}
use func_x.Prelude.{
  ℕ, ◌≡◌, refl, ◌∙◌, sym, ap, String, true, not, ◌&&◌, ◌||◌, Option, none, some, List, [], ◌∷◌,
  ◌++◌, is_empty, Bool-cases, Option-cases, inl, inr, arith,
}
use func_x.Prelude.Dict.{Distinct, get?, has, remove, keys, get?-remove}
use func_x.Prelude.Python.{Result, Result-cases}
use func_x.Watcher.{
  Received, Watcher, to_watch, update, watch_for_task_results, on_message, common, pop_futures,
  complete_one, complete, match_results_to_futures, acknowledge, latest,
}
use func_x.Watcher.Watching.{
  some_received, pop_futures-Distinct, pop_futures_nil, is_empty_nil, to_watch-Pairs, update_named,
}
use func_x.Watcher.Popping.{AllNamed, get?-pop_futures}
use func_x.Watcher.Matching.{complete-task_id, after_one}
use func_x.Watcher.Matched.{IsReading}
use func_x.Watcher.Matches.{complete_keeps, has-match}

pub record IsSettled {V : Type 0} (w : Watcher V) : Type 0 where
  pub distinct : Distinct w.open_futures
  pub named : AllNamed w.open_futures w.futures
  pub flagged : w.open_futures_empty ≡ true → w.open_futures ≡ []
  pub alert :
      (k : String)
      → has k w.open_futures ≡ true
      → has k w.received_results ≡ true
      → w.time_to_check_results ≡ true

module _ {V : Type 0} where
  pub watch-IsSettled :
      (fs : List ℕ) (w : Watcher V) → IsSettled w → IsSettled (watch_for_task_results fs w).1
  unfolding watch_for_task_results
  watch-IsSettled fs w s =
      let found = to_watch w.futures fs w.open_futures [] in
      let (u, n) =
        update_named w.futures w.open_futures found s.distinct s.named
          (to_watch-Pairs w.futures fs w.open_futures [] tt) in
      if_both (λ (r : Result ℕ × Watcher V). IsSettled r.1) w.closed _ _ s
        (if_both IsSettled (is_empty (update w.open_futures found)) _ _ s (record {
          distinct = u;
          named = n;
          flagged = λ h. absurd (cc h);
          alert = λ k a b. some_received w.received_results w.time_to_check_results k b;
        }))

  pub message-IsSettled :
      (id : ℕ) (body : Option (String × Received)) (w : Watcher V)
      → IsSettled w
      → IsSettled (on_message id body w)
  unfolding on_message
  message-IsSettled id none w s = record {
    distinct = s.distinct;
    named = s.named;
    flagged = s.flagged;
    alert = s.alert;
  }
  message-IsSettled id (some (tid, res)) w s = record {
    distinct = s.distinct;
    named = s.named;
    flagged = s.flagged;
    alert = λ k a b. refl;
  }

  -- Fewer futures that are watched, and the same tasks in the futures.
  pub fewer-IsSettled :
      (w w' : Watcher V)
      → Distinct w'.open_futures
      → ((k : String) (f : ℕ) → get? k w'.open_futures ≡ some f → get? k w.open_futures ≡ some f)
      → ((f : ℕ) → (w'.futures f).task_id ≡ (w.futures f).task_id)
      → (w'.open_futures_empty ≡ true → w'.open_futures ≡ [])
      → ((k : String)
          → has k w'.open_futures ≡ true
          → has k w'.received_results ≡ true
          → w'.time_to_check_results ≡ true)
      → IsSettled w
      → IsSettled w'
  fewer-IsSettled w w' u sub same flagged alert s = record {
    distinct = u;
    named = λ k f e. same f ∙ s.named k f (sub k f e);
    flagged = flagged;
    alert = alert;
  }

  -- A field that sending acks does not touch.
  pub acknowledge_keeps : (w : Watcher V) → IsSettled w → IsSettled (acknowledge w)
  unfolding acknowledge
  acknowledge_keeps w s =
      elim w.to_ack
        as (λ acks. IsSettled (elim acks [
          | [] ↦ w
          | m ∷ ms ↦ record w { acknowledged = w.acknowledged ++ latest m ms ∷ []; to_ack = [] }
        ])) [
          | [] ↦ s
          | m ∷ ms ↦ record {
            distinct = s.distinct;
            named = s.named;
            flagged = s.flagged;
            alert = s.alert;
          }
        ]

  module _ (deserialize : String → Result V) where
    -- Completing futures takes results, and adds none.
    complete_received :
        (fs : List ℕ) (w : Watcher V) (k : String)
        → has k (complete deserialize fs w).1.received_results ≡ true
        → has k w.received_results ≡ true
    unfolding complete
    complete_received [] w k = λ h. h
    complete_received (f ∷ fs) w k = elim (Option-cases (w.futures f).task_id) [
      | inl e ↦ rw (e, complete) (λ h. h)
      | inr (tid, e) ↦ elim (Option-cases (get? tid w.received_results)) [
        | inl q ↦ rw (e, q, complete) (λ h. h)
        | inr (res, q) ↦
            let less : has k (remove tid w.received_results) ≡ true
                → has k w.received_results ≡ true =
              λ h. ground (arith, h, get?-remove k tid w.received_results) in
            elim (Result-cases (complete_one deserialize f res w.futures).0) [
              | inl (u, r) ↦
                  rw (e, q, r, complete)
                    (λ h. less (complete_received fs (after_one deserialize f tid res w) k h))
              | inr (x, r) ↦ rw (e, q, r, complete) less
            ]
      ]
    ]

    module _ (shuffle : List String → List String) (reads : IsReading deserialize shuffle) where
      pub match-IsSettled :
          (w : Watcher V)
          → Distinct w.open_futures
          → AllNamed w.open_futures w.futures
          → (w.open_futures_empty ≡ true → w.open_futures ≡ [])
          → IsSettled (match_results_to_futures deserialize shuffle w).1
      match-IsSettled w u n flagged =
          let tids = shuffle (common (keys w.open_futures) w.received_results) in
          let (fs, known) = pop_futures tids w.open_futures in
          let ready : Watcher V = record w {
            open_futures = known;
            open_futures_empty = is_empty known || w.open_futures_empty;
          } in
          let after = (complete deserialize fs ready).1 in
          let same : after.open_futures ≡ known =
            complete_keeps deserialize (λ w. w.open_futures) fs ready (λ r f w. refl) in
          let flag : after.open_futures_empty ≡ (is_empty known || w.open_futures_empty) =
            complete_keeps deserialize (λ w. w.open_futures_empty) fs ready (λ r f w. refl) in
          let matched : (k : String)
              → has k after.open_futures
                ≡ (has k w.open_futures && not (has k w.received_results)) =
            λ k. unfold match_results_to_futures in has-match deserialize shuffle reads w k u in
          unfold match_results_to_futures in
          record {
            distinct = subst Distinct (sym same) (pop_futures-Distinct tids w.open_futures u);
            named = λ k f e.
                complete-task_id deserialize fs ready f
                ∙ n k f
                    (ground (arith, e, ap (get? k) same, get?-pop_futures tids w.open_futures k));
            flagged = λ h. same ∙ elim (Bool-cases (is_empty known)) [
              | inl e ↦ is_empty_nil known e
              | inr e ↦
                  ap (λ d. (pop_futures tids d).1) (flagged (ground (arith, h, flag, e)))
                  ∙ pop_futures_nil tids
            ];
            alert = λ k a b. absurd (ground (arith, a, matched k, complete_received fs ready k b));
          }
