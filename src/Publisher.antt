-- ===== src/Publisher.antt =====
-- endpoint/rabbit_mq/result_publisher.py: class ResultPublisher, a thread that sends messages to a
-- broker and completes a future for each when the broker confirms it. A future is a number;
-- `settled` lists which futures were completed, and how. pika, its event loop and the attempts to
-- connect are left out; `accepts` says for which messages `basic_publish` raises no error.
mod Places
mod Tracked
mod Reopened
mod Tests
use func_x.Prelude.{
  ℕ, suc, ◌+◌, String, Bool, true, false, Option, none, some, List, [], map, ◌∷◌, ◌++◌, length, ltb,
  ◌&&◌, not, if◌then◌else◌,
}
use func_x.Prelude.Table.{Table, get_at?, put_at, remove_at}
use func_x.Prelude.Python.{key_error, value_error, return, raise, Action}

pub data Settlement : Type 0 where
  confirmed publish_failed : Settlement
  refused : (delivery_tag : ℕ) → Settlement

pub record Publisher : Type 0 where
  pub awaiting_confirmation : Table ℕ
  pub outstanding : List (ℕ × String)
  pub total_published : ℕ
  pub delivery_tag_index : ℕ
  pub stop_event : Bool
  pub connected : Bool
  pub connected_at : Option ℕ
  pub connection_tries : ℕ
  pub channel_closes : List ℕ
  pub settled : List (ℕ × Settlement)
  pub next_future : ℕ

unfoldable pub init_publisher : Publisher
init_publisher = record {
  awaiting_confirmation = [];
  outstanding = [];
  total_published = 0;
  delivery_tag_index = 0;
  stop_event = false;
  connected = false;
  connected_at = none;
  connection_tries = 0;
  channel_closes = [];
  settled = [];
  next_future = 0;
}

-- `publish`: the future's number, and the message behind the others.
unfoldable pub publish : Bool → String → Action Publisher ℕ
publish alive message s = if not alive then (raise value_error, s) else (
  return s.next_future,
  record s {
    outstanding = s.outstanding ++ (s.next_future, message) ∷ [];
    next_future = suc s.next_future;
  },
)

-- A frame of the broker: an ack, a nack, or neither.
pub data Verdict : Type 0 where
  ack nack neither : Verdict

pub record Frame : Type 0 where
  pub verdict : Verdict
  pub multiple : Bool
  pub delivery_tag : ℕ

abbrev pub outcome_of : Verdict → ℕ → List Settlement
outcome_of ack dtag = confirmed ∷ []
outcome_of nack dtag = refused dtag ∷ []
outcome_of neither dtag = []

abbrev pub completions : Verdict → ℕ → ℕ → List (ℕ × Settlement)
completions verdict dtag f = map (λ o. (f, o)) (outcome_of verdict dtag)

-- The futures with a lower tag, in the order of the table, and what is left of the table.
unfoldable pub lower_tags : Verdict → ℕ → Table ℕ → List (ℕ × Settlement)
lower_tags verdict frame_dtag [] = []
lower_tags verdict frame_dtag ((dtag, f) ∷ d) =
    let rest = lower_tags verdict frame_dtag d in
    if ltb dtag frame_dtag then completions verdict dtag f ++ rest else rest

unfoldable pub not_lower_tags : ℕ → Table ℕ → Table ℕ
not_lower_tags frame_dtag [] = []
not_lower_tags frame_dtag ((dtag, f) ∷ d) =
    let rest = not_lower_tags frame_dtag d in if ltb dtag frame_dtag then rest else (dtag, f) ∷ rest

unfoldable pub settle_lower : Frame → Publisher → Publisher
unfolding lower_tags not_lower_tags
settle_lower frame s = record s {
  awaiting_confirmation = not_lower_tags frame.delivery_tag s.awaiting_confirmation;
  settled = s.settled ++ lower_tags frame.verdict frame.delivery_tag s.awaiting_confirmation;
}

abbrev pub is_verdict : Verdict → Bool
is_verdict neither = false
is_verdict _ = true

-- `_on_delivery`
unfoldable pub on_delivery : Frame → Action Publisher (Unit {0})
unfolding settle_lower
on_delivery frame s = elim (get_at? frame.delivery_tag s.awaiting_confirmation) [
  | none ↦ (raise key_error, s)
  | some f ↦
      let s' : Publisher = record s {
        awaiting_confirmation = remove_at frame.delivery_tag s.awaiting_confirmation;
        settled = s.settled ++ completions frame.verdict frame.delivery_tag f;
      } in
      (
        return tt,
        (if frame.multiple && is_verdict frame.verdict then settle_lower frame s' else s'),
      )
]

-- A connection that has lasted for a minute is stable.
unfoldable pub reset_tries : ℕ → Publisher → Publisher
reset_tries now s = elim s.connected_at [
  | none ↦ s
  | some since ↦ if ltb (since + 60) now then record s { connection_tries = 0 } else s
]

module _ (accepts : String → Bool) where
  unfoldable pub send_one : ℕ → String → Publisher → Publisher
  send_one f msg s =
      if accepts msg
      then record s {
        delivery_tag_index = suc s.delivery_tag_index;
        awaiting_confirmation = put_at (suc s.delivery_tag_index) f s.awaiting_confirmation;
        total_published = suc s.total_published;
      }
      else record s { settled = s.settled ++ (f, publish_failed) ∷ [] }

  -- The loop over the queue, until it is empty.
  unfoldable pub send_each : List (ℕ × String) → Publisher → Publisher
  unfolding send_one
  send_each [] s = record s { outstanding = [] }
  send_each ((f, msg) ∷ queue) s = send_each queue (send_one f msg s)

  -- `_event_watcher`
  unfoldable pub watch_events : ℕ → Publisher → Publisher
  unfolding send_each reset_tries
  watch_events now s =
      let s' = reset_tries now s in
      if s.stop_event then s else if s.connected then send_each s'.outstanding s' else s'

-- `_on_channel_open`, `_on_queue_verified`, and `_on_channel_closed`, which opens the channel again
-- (after a second) unless it was closed too often in the window.
unfoldable pub channel_open : Publisher → Publisher
channel_open s = record s { delivery_tag_index = 0 }

unfoldable pub queue_verified : ℕ → Publisher → Publisher
queue_verified now s = record s { connected = true; connected_at = some now }

abbrev pub later_than : ℕ → ℕ → List ℕ → List ℕ
later_than window now [] = []
later_than window now (cc ∷ closes) =
    let rest = later_than window now closes in if ltb now (cc + window) then cc ∷ rest else rest

-- Whether the channel is to be opened again, too.
unfoldable pub channel_closed : ℕ → ℕ → ℕ → Publisher → Bool × Publisher
channel_closed window limit now s =
    let closes = later_than window now s.channel_closes ++ now ∷ [] in
    let s' : Publisher = record s {
      connected = false;
      connected_at = none;
      channel_closes = closes;
    } in
    if ltb (length closes) limit
    then (not s.stop_event, s')
    else (false, record s' { stop_event = true })

-- What happens while one channel lasts.
pub data Event : Type 0 where
  publishes : (message : String) → Event
  confirms : Frame → Event
  watches verifies : (now : ℕ) → Event

module _ (accepts : String → Bool) where
  unfoldable pub publisher_step : Event → Publisher → Publisher
  unfolding publish on_delivery watch_events queue_verified
  publisher_step (publishes message) s = (publish true message s).1
  publisher_step (confirms frame) s = (on_delivery frame s).1
  publisher_step (watches now) s = watch_events accepts now s
  publisher_step (verifies now) s = queue_verified now s

  unfoldable pub publisher_run : List Event → Publisher → Publisher
  unfolding publisher_step
  publisher_run [] s = s
  publisher_run (e ∷ es) s = publisher_run es (publisher_step e s)
