-- ===== src/Publisher/Tests.antt =====
-- Runs of a publisher, and the theorems at inputs that meet their hypotheses.
use func_x.Prelude.{◌≡◌, refl, String, Bool, true, false, some, List, [], ◌∷◌, arith}
use func_x.Prelude.Table.{get_at?, put_at, remove_at}
use func_x.Publisher.{
  confirmed, init_publisher, publish, ack, lower_tags, not_lower_tags, settle_lower, on_delivery,
  send_one, send_each, reset_tries, watch_events, queue_verified, Event, publishes, confirms,
  watches, verifies, publisher_run, publisher_step,
}
use func_x.Publisher.Places.{places}
use func_x.Publisher.Tracked.{IsComplete, publisher_run-IsComplete}
use func_x.Publisher.Reopened.{reopened, reopened-loses}

abbrev accepts_all : String → Bool
accepts_all msg = true

-- Three messages, of which the broker confirms the first two at once.
abbrev three : List Event
three =
    publishes "a"
    ∷ verifies 5
    ∷ publishes "b"
    ∷ publishes "c"
    ∷ watches 6
    ∷ confirms (record { verdict = ack; multiple = true; delivery_tag = 2 })
    ∷ []

program : Unit {0}
unfolding init_publisher publish get_at? put_at remove_at lower_tags not_lower_tags settle_lower
    on_delivery send_one send_each reset_tries watch_events queue_verified publisher_step
    publisher_run
program = tt

three_run :
    ((publisher_run accepts_all three init_publisher).settled
      ≡ (1, confirmed) ∷ (0, confirmed) ∷ [])
    × ((publisher_run accepts_all three init_publisher).awaiting_confirmation ≡ (3, 2) ∷ [])
unfolding program
three_run = (refl, refl)

publisher_run-IsComplete_example :
    IsComplete accepts_all (publisher_run accepts_all three init_publisher)
unfolding init_publisher
publisher_run-IsComplete_example =
    publisher_run-IsComplete accepts_all three init_publisher (tt, (tt, (tt, (tt, (tt, (tt, tt))))))
      (omega arith, (λ g. ground arith), refl)

-- The first of two messages is sent; the second one waits when the channel is opened again.
abbrev one_waits : List Event
one_waits = publishes "a" ∷ verifies 5 ∷ watches 6 ∷ publishes "b" ∷ []

abbrev confirms_one : Event
confirms_one = confirms (record { verdict = ack; multiple = false; delivery_tag = 1 })

reopened-loses_example :
    let s = publisher_run accepts_all one_waits init_publisher in
    (get_at? 1 (reopened accepts_all 10 11 s).awaiting_confirmation ≡ some 1)
    × (places 0 (publisher_run accepts_all (confirms_one ∷ []) (reopened accepts_all 10 11 s)) ≡ 0)
reopened-loses_example =
    let s = publisher_run accepts_all one_waits init_publisher in
    reopened-loses accepts_all 0 1 "b" [] 10 11 s (confirms_one ∷ []) (unfold program in refl)
      (unfold program in refl) (unfold program in omega arith) (unfold program in refl)
      (unfold program in refl) refl
