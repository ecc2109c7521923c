-- ===== src/Htex/Run.antt =====
-- Histories of the interchange: tasks that come in, requests to cancel, turns of the main loop.
use func_x.Prelude.{ℕ, refl, String, none, some, List, [], ◌∷◌, All, Option, Option-cases, inl, inr}
use func_x.Prelude.Dict.{get?}
use func_x.Prelude.Python.{Result, return, raise, Action, and_then}
use func_x.Htex.{Htex, start, Incoming, receive_task}
use func_x.Htex.Cancel.{enqueue_task_cancel}
use func_x.Htex.Loop.{
  Config, Request, ResultBatch, dispatch_tasks, read_request, read_results, send_all,
  forward_status, turn,
}
use func_x.Htex.Status.{status_report}
use func_x.Htex.Sections.{
  enqueue_task_cancel-Untouched, send_all-Untouched, manager_results-IsRight,
}
use func_x.Htex.Sound.{
  IsRight, IsProperMessage, Untouched-IsRight, manager_message-IsRight, receive_task-IsRight,
  expire-IsRight, dispatch_tasks-IsRight,
}

-- What happens to the interchange. A puller that waits at a full queue makes no step.
pub data Event : Type 0 where
  receives : (message : Incoming) (now : ℕ) → Event
  cancels : (task_id : String) → Event
  reports : Event
  turns :
      (request : Option Request) (batch : Option ResultBatch) (status : Option String)
      (last_cold now : ℕ)
      → Event

abbrev pub IsProperRequest : Option Request → Type 0
IsProperRequest none = Unit
IsProperRequest (some r) = IsProperMessage r.message

abbrev pub IsProper : Event → Type 0
IsProper (turns request batch status last_cold now) = IsProperRequest request
IsProper _ = Unit

module _ (shuffle : List String → List String) (c : Config) where
  unfoldable pub step : Event → Htex → Htex
  step (receives message now) s = elim (receive_task message now s) [ none ↦ s | some s' ↦ s' ]
  step (cancels task_id) s = enqueue_task_cancel task_id s
  step reports s = (status_report s).1
  step (turns request batch status last_cold now) s =
      (turn shuffle c request batch status last_cold now s).1

  unfoldable pub run : List Event → Htex → Htex
  run [] s = s
  run (e ∷ es) s = run es (step e s)

  module _ (keeps : (P : String → Type 0) (xs : List String) → All P xs → All P (shuffle xs)) where
    -- One link of the chain behind another, where a link that raises ends it.
    chain-IsRight :
        {A B : Type 0} (r : Result A × Htex) (k : A → Action Htex B)
        → IsRight r.1
        → ((a : A) (s : Htex) → IsRight s → IsRight (k a s).1)
        → IsRight (and_then r.0 k r.1).1
    chain-IsRight (return a, s) k b next = next a s b
    chain-IsRight (raise e, s) k b next = b

    read_request-IsRight :
        (request : Option Request) (now : ℕ) (s : Htex)
        → IsProperRequest request
        → IsRight s
        → IsRight (read_request shuffle c request now s).1
    unfolding read_request
    read_request-IsRight none now s p b = b
    read_request-IsRight (some r) now s p b =
        manager_message-IsRight c.suppress_failure r.sender r.message now s p b

    read_results-IsRight :
        (batch : Option ResultBatch) (now : ℕ) (s : Htex)
        → IsRight s
        → IsRight (read_results shuffle c batch now s).1
    unfolding read_results
    read_results-IsRight none now s b = b
    read_results-IsRight (some r) now s b =
        manager_results-IsRight r.sender r.report r.items now s b

    forward_status-IsRight :
        (status : Option String) (s : Htex)
        → IsRight s
        → IsRight (forward_status shuffle c status s)
    unfolding forward_status
    forward_status-IsRight none s b = b
    forward_status-IsRight (some body) s b = Untouched-IsRight s _ (refl, refl) b

    turn-IsRight :
        (request : Option Request) (batch : Option ResultBatch) (status : Option String)
        (last_cold now : ℕ) (s : Htex)
        → IsProperRequest request
        → IsRight s
        → IsRight (turn shuffle c request batch status last_cold now s).1
    unfolding turn
    turn-IsRight request batch status last_cold now s p b =
        chain-IsRight (read_request shuffle c request now s) _
          (read_request-IsRight request now s p b)
          λ _ s1 b1.
            chain-IsRight (dispatch_tasks shuffle c _ s1) _
              (dispatch_tasks-IsRight shuffle c keeps _ s1 b1).2
              λ tasks s2 b2.
                chain-IsRight (send_all shuffle c now tasks s2) _
                  (Untouched-IsRight s2 _ (send_all-Untouched shuffle c now tasks s2) b2)
                  λ _ s3 b3.
                    chain-IsRight (read_results shuffle c batch now s3) _
                      (read_results-IsRight batch now s3 b3)
                      λ _ s4 b4.
                        expire-IsRight c.heartbeat_threshold now _
                          (forward_status-IsRight status s4 b4)

    step-IsRight : (e : Event) (s : Htex) → IsProper e → IsRight s → IsRight (step e s)
    unfolding step
    step-IsRight (receives message now) s p b = elim (Option-cases (receive_task message now s)) [
      | inl e ↦ rw (e, step) b
      | inr (s', e) ↦ rw (e, step) (receive_task-IsRight message now s s' e b)
    ]
    step-IsRight (cancels id) s p b =
        Untouched-IsRight s (enqueue_task_cancel id s) (enqueue_task_cancel-Untouched id s) b
    step-IsRight reports s p b =
        Untouched-IsRight s (status_report s).1 (unfold status_report in (refl, refl)) b
    step-IsRight (turns request batch status last_cold now) s p b =
        turn-IsRight request batch status last_cold now s p b

    run-IsRight : (es : List Event) (s : Htex) → All IsProper es → IsRight s → IsRight (run es s)
    unfolding run
    run-IsRight [] s p b = b
    run-IsRight (e ∷ es) s p b = run-IsRight es (step e s) p.1 (step-IsRight e s p.0 b)

    start-IsRight : IsRight start
    unfolding start get?
    start-IsRight = record {
      sound = record { within = λ name m e. absurd (cc); known = tt };
      counted = refl;
    }

    -- After any history of a new interchange in which the managers send proper messages, and with a
    -- shuffle that keeps what holds of all elements: the count of pending tasks is the number of
    -- tasks in the queues, every manager is within its bounds, and every interesting one is known. It
    -- holds also where an exception has ended a turn.
    pub run-start-IsRight : (es : List Event) → All IsProper es → IsRight (run es start)
    run-start-IsRight es p = run-IsRight es start p start-IsRight
