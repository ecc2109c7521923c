-- ===== src/Watcher/Run.antt =====
-- Histories of a watcher: what the executor, the user, the broker and the event loop do to it.
use mathlib.Core.Path.{subst}
use func_x.Prelude.{
  ℕ, ◌+◌, ◌==◌, ◌≡◌, refl, ◌∙◌, sym, ap, String, Bool, true, not, ◌&&◌, ◌||◌, Option, none, some,
  List, [], ◌∷◌, is_empty, inl, inr, arith, reverse, ltb,
}
use func_x.Prelude.Dict.{Distinct, get?, has, remove, get?-remove, remove-Distinct, is_some}
use func_x.Prelude.Python.{Result, Result-cases}
use func_x.Watcher.{
  Outcome, failed, Failure, Future, Received, Watcher, init, is_done, set_outcome,
  watch_for_task_results, on_message, acknowledge, event_watcher,
}
use func_x.Watcher.Matching.{set_outcome-task_id}
use func_x.Watcher.Matched.{IsReading}
use func_x.Watcher.Settled.{
  IsSettled, watch-IsSettled, message-IsSettled, acknowledge_keeps, match-IsSettled,
}
use func_x.Prelude.{if_both}
use func_x.Watcher.Connection.{
  Limits, connect, on_open_failed, on_connection_open, on_channel_closed, fail_all, give_up, cancel,
  cancel_all, is_finished, shutdown, stopper_thread,
}

-- `cancels` is the user's cancel of a future.
pub data Event : Type 0 where
  watches : (fs : List ℕ) → Event
  receives : (msg_id : ℕ) (body : Option (String × Received)) → Event
  ticks : Event
  cancels : (f : ℕ) → Event
  shuts_down : (cancel_futures : Bool) → Event
  stops : Event
  connects : Event
  fails_to_open : (exc : String) → Event
  opens : Event
  closes : (now : ℕ) → Event
  quits : Event

module _ {V : Type 0} where
  set_outcome-IsSettled :
      (f : ℕ) (o : Outcome V) (w : Watcher V)
      → IsSettled w
      → IsSettled (record w { futures = (set_outcome f o w.futures).1 })
  set_outcome-IsSettled f o w s = record {
    distinct = s.distinct;
    named = λ k g e. set_outcome-task_id f g o w.futures ∙ s.named k g e;
    flagged = s.flagged;
    alert = s.alert;
  }

  remove-IsSettled :
      (k : String) (w : Watcher V)
      → IsSettled w
      → IsSettled (record w { open_futures = remove k w.open_futures })
  unfolding remove
  remove-IsSettled k w s = record {
    distinct = remove-Distinct k w.open_futures s.distinct;
    named = λ j f e. s.named j f (ground (arith, e, get?-remove j k w.open_futures));
    flagged = λ h. ap (remove k) (s.flagged h);
    alert = λ j a b. s.alert j (ground (arith, a, get?-remove j k w.open_futures)) b;
  }

  emptied-IsSettled :
      (w : Watcher V)
      → IsSettled w
      → IsSettled (record w { open_futures = []; open_futures_empty = true })
  unfolding get?
  emptied-IsSettled w s = record {
    distinct = tt;
    named = λ k f e. absurd (cc e);
    flagged = λ h. refl;
    alert = λ k a b. absurd (cc a);
  }

  fail_all-IsSettled :
      (e : Failure) (fs : List (String × ℕ)) (w : Watcher V)
      → IsSettled w
      → IsSettled (fail_all e fs w).1
  unfolding fail_all
  fail_all-IsSettled e [] w s = emptied-IsSettled w s
  fail_all-IsSettled e ((tid, f) ∷ fs) w s =
      let told = set_outcome-IsSettled f (failed e) _ (remove-IsSettled tid w s) in
      elim (Result-cases (set_outcome f (failed e) w.futures).0) [
        | inl (u, r) ↦ rw (r, fail_all) (fail_all-IsSettled e fs _ told)
        | inr (x, r) ↦ rw (r, fail_all) told
      ]

  cancel-task_id :
      (f g : ℕ) (futures : ℕ → Future V) → (cancel f futures g).task_id ≡ (futures g).task_id
  unfolding cancel
  cancel-task_id f g futures =
      if_both (λ (h : ℕ → Future V). (h g).task_id ≡ (futures g).task_id)
        (is_done (futures f).outcome) _ _ refl
        (if_both (λ (x : Future V). x.task_id ≡ (futures g).task_id) (g == f) _ _ refl refl)

  cancel_futures-IsSettled :
      (f : ℕ) (w : Watcher V) → IsSettled w → IsSettled (record w { futures = cancel f w.futures })
  unfolding cancel
  cancel_futures-IsSettled f w s = record {
    distinct = s.distinct;
    named = λ k g e. cancel-task_id f g w.futures ∙ s.named k g e;
    flagged = s.flagged;
    alert = s.alert;
  }

  cancel_all-IsSettled :
      (fs : List (String × ℕ)) (w : Watcher V) → IsSettled w → IsSettled (cancel_all fs w).1
  unfolding cancel_all
  cancel_all-IsSettled [] w s = emptied-IsSettled w s
  cancel_all-IsSettled ((tid, f) ∷ fs) w s =
      let told = cancel_futures-IsSettled f _ (remove-IsSettled tid w s) in
      let w' : Watcher V = record w {
        open_futures = remove tid w.open_futures;
        futures = cancel f w.futures;
      } in
      if_both (λ (r : Result (Unit {0}) × Watcher V). IsSettled r.1)
        (is_finished (w'.futures f).outcome) _ _ told (cancel_all-IsSettled fs w' told)

  -- Changes of the other fields.
  same-IsSettled :
      (w w' : Watcher V)
      → w'.open_futures ≡ w.open_futures
      → w'.futures ≡ w.futures
      → w'.open_futures_empty ≡ w.open_futures_empty
      → w'.received_results ≡ w.received_results
      → w'.time_to_check_results ≡ w.time_to_check_results
      → IsSettled w
      → IsSettled w'
  same-IsSettled w w' a b c d e s = record {
    distinct = subst Distinct (sym a) s.distinct;
    named = λ k f q. ap (λ h. (h f).task_id) b ∙ s.named k f (sym (ap (get? k) a) ∙ q);
    flagged = λ h. a ∙ s.flagged (sym c ∙ h);
    alert = λ k x y. e ∙ s.alert k (sym (ap (has k) a) ∙ x) (sym (ap (has k) d) ∙ y);
  }

  give_up-IsSettled : (w : Watcher V) → IsSettled w → IsSettled (give_up w).1
  unfolding give_up
  give_up-IsSettled w s =
      if_both (λ (r : Result (Unit {0}) × Watcher V). IsSettled r.1) _ _ _
        (fail_all-IsSettled _ _ _ (same-IsSettled w _ refl refl refl refl refl s)) s

  shutdown-IsSettled : (b : Bool) (w : Watcher V) → IsSettled w → IsSettled (shutdown b w).1
  unfolding shutdown
  shutdown-IsSettled b w s =
      let s' = same-IsSettled w (record w { closed = true }) refl refl refl refl refl s in
      if_both (λ (r : Result (Unit {0}) × Watcher V). IsSettled r.1) b _ _
        (cancel_all-IsSettled (reverse w.open_futures) _ s') s'

  closed-IsSettled :
      (l : Limits) (now : ℕ) (w : Watcher V) → IsSettled w → IsSettled (on_channel_closed l now w).1
  unfolding on_channel_closed
  closed-IsSettled l now w s =
      if_both (λ (r : Bool × Watcher V). IsSettled r.1) w.closed _ _ s
        (if_both (λ (r : Bool × Watcher V). IsSettled r.1) _ _ _
          (same-IsSettled w _ refl refl refl refl refl s)
          (same-IsSettled w _ refl refl refl refl refl s))

  module _ (deserialize : String → Result V) (shuffle : List String → List String)
      (l : Limits) where
    abbrev or_same : Watcher V → Option (Watcher V) → Watcher V
    or_same w none = w
    or_same w (some w') = w'

    unfoldable pub step : Event → Watcher V → Watcher V
    step (watches fs) w = (watch_for_task_results fs w).1
    step (receives msg_id body) w = on_message msg_id body w
    step ticks w = (event_watcher deserialize shuffle w).1
    step (cancels f) w = record w { futures = cancel f w.futures }
    step (shuts_down b) w = (shutdown b w).1
    step stops w = or_same w (stopper_thread w)
    step connects w = or_same w (connect l w)
    step (fails_to_open exc) w = on_open_failed l exc w
    step opens w = on_connection_open w
    step (closes now) w = (on_channel_closed l now w).1
    step quits w = (give_up w).1

    unfoldable pub run : List Event → Watcher V → Watcher V
    run [] w = w
    run (e ∷ es) w = run es (step e w)

    module _ (reads : IsReading deserialize shuffle) where
      event_watcher-IsSettled :
          (w : Watcher V) → IsSettled w → IsSettled (event_watcher deserialize shuffle w).1
      unfolding event_watcher
      event_watcher-IsSettled w s =
          let acked = acknowledge_keeps w s in
          if_both (λ (r : Result (Unit {0}) × Watcher V). IsSettled r.1) w.time_to_stop _ _
            (same-IsSettled w _ refl refl refl refl refl s)
            (if_both (λ (r : Result (Unit {0}) × Watcher V). IsSettled r.1)
              (acknowledge w).time_to_check_results _ _
              (match-IsSettled deserialize shuffle reads _ acked.distinct acked.named acked.flagged)
              acked)

      step-IsSettled : (e : Event) (w : Watcher V) → IsSettled w → IsSettled (step e w)
      unfolding step connect stopper_thread on_open_failed on_connection_open
      step-IsSettled (watches fs) w s = watch-IsSettled fs w s
      step-IsSettled (receives id body) w s = message-IsSettled id body w s
      step-IsSettled ticks w s = event_watcher-IsSettled w s
      step-IsSettled (cancels f) w s = cancel_futures-IsSettled f w s
      step-IsSettled (shuts_down b) w s = shutdown-IsSettled b w s
      step-IsSettled stops w s =
          if_both (λ o. IsSettled (or_same w o)) (is_empty w.open_futures || w.open_futures_empty)
            (some (record w { time_to_stop = true })) none
            (same-IsSettled w (record w { time_to_stop = true }) refl refl refl refl refl s) s
      step-IsSettled connects w s =
          if_both (λ o. IsSettled (or_same w o))
            (ltb w.connection_tries l.connect_attempt_limit
              && not (w.time_to_stop || is_some w.cancellation_reason))
            (some (record w { connection_tries = w.connection_tries + 1 })) none
            (same-IsSettled w (record w { connection_tries = w.connection_tries + 1 }) refl refl
              refl refl refl s)
            s
      step-IsSettled (fails_to_open exc) w s =
          if_both IsSettled _ _ _ s (same-IsSettled w _ refl refl refl refl refl s)
      step-IsSettled opens w s = same-IsSettled w _ refl refl refl refl refl s
      step-IsSettled (closes now) w s = closed-IsSettled l now w s
      step-IsSettled quits w s = give_up-IsSettled w s

      run-IsSettled : (es : List Event) (w : Watcher V) → IsSettled w → IsSettled (run es w)
      unfolding run
      run-IsSettled [] w s = s
      run-IsSettled (e ∷ es) w s = run-IsSettled es (step e w) (step-IsSettled e w s)

      init-IsSettled : (futures : ℕ → Future V) → IsSettled (init futures)
      unfolding get?
      init-IsSettled futures = record {
        distinct = tt;
        named = λ k f e. absurd (cc e);
        flagged = λ h. refl;
        alert = λ k a b. absurd (cc a);
      }

      -- After any history of a new watcher, where a set is read with each element once: no task is
      -- watched twice, each watched future carries its task, the flag for no open futures is set only
      -- if there are none, and whenever a watched future has its result the next check is due. It
      -- holds also after exceptions.
      pub run-init-IsSettled :
          (futures : ℕ → Future V) (es : List Event) → IsSettled (run es (init futures))
      run-init-IsSettled futures es = run-IsSettled es (init futures) (init-IsSettled futures)
