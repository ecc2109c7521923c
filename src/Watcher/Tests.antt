-- ===== src/Watcher/Tests.antt =====
-- Runs of a watcher, and the theorems at inputs that meet their hypotheses.
use func_x.Prelude.{
  All, ℕ, ◌≡◌, ◌==◌, refl, String, true, false, not, ◌&&◌, Option, none, some, List, [], ◌∷◌,
  if◌then◌else◌, arith,
}
use func_x.Prelude.Dict.{Distinct, get?, put, has, remove, ◌=?◌}
use func_x.Prelude.Python.{
  value_error, invalid_state_error, shutting_down_error, Result, return, raise,
}
use func_x.Watcher.{
  Outcome, pending, cancelled, finished, failed, task_execution_failed, quit, Future, Received,
  Watcher, init, is_done, set_outcome, to_watch, update, watch_for_task_results, on_message, common,
  pop_futures, complete_one, complete, match_results_to_futures, acknowledge, event_watcher,
}
use func_x.Watcher.Connection.{
  Limits, recent, connect, on_open_failed, on_connection_open, on_channel_closed, fail_all, give_up,
  cancel, cancel_all, shutdown, stopper_thread, reason,
}
use func_x.Watcher.Popping.{AllNamed, All-AllNamed}
use func_x.Watcher.Matching.{expected}
use func_x.Watcher.Matches.{match_results_to_futures_lem, match_results_to_futures-done}
use func_x.Watcher.Settled.{IsSettled}
use func_x.Prelude.{if_both}
use func_x.Watcher.Attempts.{
  Attempt, connect_raises, fails_to_open as opening_fails, attempts, EndsAfter, attempts_end,
}
use func_x.Watcher.Ends.{give_up_lem}
use func_x.Watcher.Run.{
  Event, watches, receives, ticks, cancels, shuts_down, stops, connects, fails_to_open, opens,
  closes, quits, step, run, run-init-IsSettled,
}

-- The text "bad" cannot be read.
abbrev read_text : String → Result ℕ
read_text body = if body =? "bad" then raise value_error else return 7

abbrev in_order : List String → List String
in_order xs = xs

abbrev limits : Limits
limits = record {
  connect_attempt_limit = 2;
  channel_close_window_s = 10;
  channel_close_window_limit = 3;
}

-- Three futures with tasks, and others without.
abbrev named : Option String → Outcome ℕ → Future ℕ
named task_id outcome = record { task_id = task_id; outcome = outcome }

abbrev futures : ℕ → Future ℕ
futures f =
    if f == 0
    then named (some "a") pending
    else (if f == 1
        then named (some "b") pending
        else (if f == 2 then named (some "c") pending else named none pending))

abbrev good : Received
good = record { is_error = false; body = "good" }

abbrev wrong : Received
wrong = record { is_error = true; body = "Traceback" }

program : Unit {0}
unfolding set_outcome to_watch update watch_for_task_results on_message common pop_futures
    complete_one complete match_results_to_futures acknowledge event_watcher recent connect
    on_open_failed on_connection_open on_channel_closed fail_all give_up cancel cancel_all shutdown
    stopper_thread step run get? put remove
program = tt

abbrev history : List Event
history =
    connects
    ∷ opens
    ∷ watches (0 ∷ 1 ∷ 2 ∷ 3 ∷ [])
    ∷ receives 5 (some ("a", good))
    ∷ receives 4 (some ("b", wrong))
    ∷ receives 6 none
    ∷ []

-- A result and a failure reach their futures, the message that could not be read is refused, and the
-- acks go up to the latest tag.
matched :
    let w =
      run read_text in_order limits
        (ticks ∷ [])
        (run read_text in_order limits history (init futures)) in
    ((w.futures 0).outcome ≡ finished 7)
    × ((w.futures 1).outcome ≡ failed (task_execution_failed "Traceback"))
    × (w.open_futures ≡ ("c", 2) ∷ [])
    × (w.acknowledged ≡ 5 ∷ [])
    × (w.rejected ≡ 6 ∷ [])
unfolding program
matched = (refl, refl, refl, refl, refl)

-- Without a connection the future that is left fails, and no more are taken after a shutdown.
gave_up :
    let w =
      run read_text in_order limits
        (connects ∷ fails_to_open "no route" ∷ connects ∷ fails_to_open "no route" ∷ quits ∷ [])
        (run read_text in_order limits (watches (2 ∷ []) ∷ []) (init futures)) in
    ((w.futures 2).outcome ≡ failed (quit "no route"))
    × ((watch_for_task_results (0 ∷ []) (shutdown true w).1).0 ≡ raise shutting_down_error)
unfolding program
gave_up = (refl, refl)

-- The third close within the window ends the watcher.
closed_thrice :
    (run read_text in_order limits (closes 1 ∷ closes 2 ∷ closes 3 ∷ []) (init futures)).closed
    ≡ true
unfolding program
closed_thrice = refl

-- A future that is cancelled by shutting down, and the thread that then stops.
stopped :
    let w =
      run read_text in_order limits
        (watches (0 ∷ []) ∷ cancels 0 ∷ shuts_down true ∷ stops ∷ [])
        (init futures) in
    ((w.futures 0).outcome ≡ cancelled) × (w.time_to_stop ≡ true)
unfolding program
stopped = (refl, refl)

run-init-IsSettled_example : IsSettled (run read_text in_order limits history (init futures))
run-init-IsSettled_example =
    run-init-IsSettled read_text in_order limits (λ xs k. refl) futures history

-- Two watched futures with their results, and one without.
abbrev waiting : (ℕ → Future ℕ) → Watcher ℕ
waiting futures = record (init futures) {
  open_futures = ("a", 0) ∷ ("b", 1) ∷ ("c", 2) ∷ [];
  received_results = ("a", wrong) ∷ ("b", good) ∷ [];
  time_to_check_results = true;
  open_futures_empty = false;
}

waiting-Distinct : (h : ℕ → Future ℕ) → Distinct (waiting h).open_futures
unfolding get?
waiting-Distinct h = (refl, (refl, (refl, tt)))

waiting-AllNamed :
    (h : ℕ → Future ℕ)
    → (h 0).task_id ≡ some "a"
    → (h 1).task_id ≡ some "b"
    → (h 2).task_id ≡ some "c"
    → AllNamed (waiting h).open_futures h
waiting-AllNamed h a b c = All-AllNamed h (waiting h).open_futures (a, (b, (c, tt)))

-- Which of them a task can name.
waiting-Pending :
    (k : String) (f : ℕ)
    → get? k (waiting futures).open_futures ≡ some f
    → has k (waiting futures).received_results ≡ true
    → is_done (futures f).outcome ≡ false
waiting-Pending k f e r =
    if_both (λ (x : Future ℕ). is_done x.outcome ≡ false) (f == 0) _ _ refl
      (if_both (λ (x : Future ℕ). is_done x.outcome ≡ false) (f == 1) _ _ refl
        (if_both (λ (x : Future ℕ). is_done x.outcome ≡ false) (f == 2) _ _ refl refl))

match_results_to_futures_lem_example :
    let w = waiting futures in
    let (result, after) = match_results_to_futures read_text in_order w in
    (result ≡ return tt)
    × ((k : String) (f : ℕ) (res : Received)
        → get? k w.open_futures ≡ some f
        → get? k w.received_results ≡ some res
        → (after.futures f).outcome ≡ expected read_text res)
    × ((k : String)
        → has k after.open_futures ≡ (has k w.open_futures && not (has k w.received_results)))
    × ((k : String)
        → get? k after.received_results
          ≡ (if has k w.open_futures then none else get? k w.received_results))
    × ((f : ℕ) (k : String)
        → (w.futures f).task_id ≡ some k
        → (has k w.open_futures && has k w.received_results) ≡ false
        → after.futures f ≡ w.futures f)
match_results_to_futures_lem_example =
    match_results_to_futures_lem read_text in_order (λ xs k. refl) (waiting futures)
      (waiting-Distinct futures) (waiting-AllNamed futures refl refl refl) waiting-Pending

-- The same futures, the first one cancelled.
abbrev one_cancelled : ℕ → Future ℕ
one_cancelled f = if f == 0 then named (some "a") cancelled else futures f

match_results_to_futures-done_example :
    let w = waiting one_cancelled in
    let (result, after) = match_results_to_futures read_text in_order w in
    (result ≡ raise invalid_state_error)
    × ((g : ℕ) → after.futures g ≡ one_cancelled g)
    × ((j : String)
        → (has j w.open_futures && has j w.received_results) ≡ true
        → has j after.open_futures ≡ false)
match_results_to_futures-done_example =
    match_results_to_futures-done read_text in_order (λ xs k. refl) (waiting one_cancelled) "a"
      ("b" ∷ []) 0 wrong (waiting-Distinct one_cancelled)
      (waiting-AllNamed one_cancelled refl refl refl) (unfold common get? in refl)
      (unfold get? in refl) (unfold get? in refl) refl refl

-- The first attempt raises at once, the second has two rounds and fails.
abbrev outcomes : ℕ → Attempt
outcomes n = if n == 1 then connect_raises else opening_fails 1 "no route"

attempts_end_example :
    EndsAfter read_text in_order limits outcomes 2
      (attempts read_text in_order limits outcomes 9 (init futures))
attempts_end_example =
    attempts_end read_text in_order limits outcomes 1 9 (init futures) refl refl refl (omega arith)

-- A watcher with one open future, after a history.
abbrev settled : Watcher ℕ
settled =
    run read_text in_order limits (watches (2 ∷ []) ∷ fails_to_open "no route" ∷ []) (init futures)

settled_waits :
    (settled.time_to_stop ≡ false)
    × All (λ e. is_done (settled.futures e.1).outcome ≡ false) settled.open_futures
unfolding program
settled_waits = (refl, (refl, tt))

give_up_lem_example :
    let (result, after) = give_up settled in
    (result ≡ return tt)
    × All
        (λ e. (after.futures e.1).outcome ≡ failed (quit (reason settled.cancellation_reason)))
        settled.open_futures
    × (after.open_futures ≡ [])
give_up_lem_example =
    give_up_lem settled
      (run-init-IsSettled read_text in_order limits (λ xs k. refl) futures
        (watches (2 ∷ []) ∷ fails_to_open "no route" ∷ []))
      settled_waits.0 settled_waits.1
