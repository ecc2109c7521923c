-- ===== src/Publisher/Tracked.antt =====
-- Where the futures are while one channel lasts.
use mathlib.Core.Path.{subst}
use func_x.Prelude.{
  ℕ, suc, ◌+◌, ◌≡◌, sym, ap, String, Bool, true, List, [], ◌∷◌, ◌++◌, All, arith, Bool-cases,
  Option-cases, inl, inr, if_both, if◌then◌else◌, ltb,
}
use func_x.Prelude.Table.{get_at?, remove_at}
use func_x.Publisher.{
  publish_failed, Publisher, publish, Frame, completions, lower_tags, settle_lower, on_delivery,
  send_one, send_each, reset_tries, watch_events, queue_verified, Event, publishes, confirms,
  watches, verifies, publisher_step, publisher_run,
}
use func_x.Publisher.Places.{
  places, IsAscending, queued-append, told-append, held-remove_at, remove_at-IsAscending,
  not_lower_tags-IsAscending, IsVerdict, told-completions, told-lower_tags, held-put_at,
}

-- The futures that were handed out stand in one place each, the others in none.
abbrev pub each_once : ℕ → ℕ → ℕ
each_once next g = if ltb g next then 1 else 0

-- The tags in use go up, to the index at most, and the futures below a number were handed out.
abbrev pub IsTracked : ℕ → Publisher → Type 0
IsTracked n s =
    IsAscending 0 s.awaiting_confirmation s.delivery_tag_index
    × ((g : ℕ) → places g s ≡ each_once n g)
    × (s.next_future ≡ n)

settle_lower-IsTracked :
    (n : ℕ) (frame : Frame) (s : Publisher)
    → IsVerdict frame.verdict
    → IsTracked n s
    → IsTracked n (settle_lower frame s)
unfolding settle_lower
settle_lower-IsTracked n frame s v h = (
  not_lower_tags-IsAscending frame.delivery_tag 0 s.delivery_tag_index s.awaiting_confirmation h.0,
  λ g. omega (
    arith,
    h.1 g,
    told-append g s.settled (lower_tags frame.verdict frame.delivery_tag s.awaiting_confirmation),
    told-lower_tags g frame.verdict frame.delivery_tag s.awaiting_confirmation v,
  ),
  h.2,
)

on_delivery-IsTracked :
    (n : ℕ) (frame : Frame) (s : Publisher)
    → IsVerdict frame.verdict
    → IsTracked n s
    → IsTracked n (on_delivery frame s).1
unfolding on_delivery
on_delivery-IsTracked n frame s v h =
    elim (Option-cases (get_at? frame.delivery_tag s.awaiting_confirmation)) [
      | inl e ↦ rw (e, on_delivery) h
      | inr (f, e) ↦
          let popped = record s {
            awaiting_confirmation = remove_at frame.delivery_tag s.awaiting_confirmation;
            settled = s.settled ++ completions frame.verdict frame.delivery_tag f;
          } in
          let first : IsTracked n popped = (
            remove_at-IsAscending frame.delivery_tag 0 s.delivery_tag_index s.awaiting_confirmation
                h.0,
            λ g. omega (
              arith,
              h.1 g,
              told-append g s.settled (completions frame.verdict frame.delivery_tag f),
              told-completions g frame.verdict frame.delivery_tag f v,
              held-remove_at g frame.delivery_tag f 0 s.delivery_tag_index s.awaiting_confirmation e
                  h.0,
            ),
            h.2,
          ) in
          rw (e, on_delivery)
            (if_both (IsTracked n) _ (settle_lower frame popped) popped
              (settle_lower-IsTracked n frame popped v first) first)
    ]

module _ (accepts : String → Bool) where
  send_one-IsTracked :
      (n : ℕ) (f : ℕ) (msg : String) (rest : List (ℕ × String)) (s : Publisher)
      → IsTracked n (record s { outstanding = (f, msg) ∷ rest })
      → IsTracked n (record (send_one accepts f msg s) { outstanding = rest })
  unfolding send_one
  send_one-IsTracked n f msg rest s h = elim (Bool-cases (accepts msg)) [
    | inl e ↦
        rw (e, send_one)
          (
            (held-put_at 0 (suc s.delivery_tag_index) f 0 s.delivery_tag_index
                s.awaiting_confirmation (omega arith) h.0).1,
            λ g.
                let (count, order) =
                  held-put_at g (suc s.delivery_tag_index) f 0 s.delivery_tag_index
                    s.awaiting_confirmation (omega arith) h.0 in
                omega (arith, h.1 g, count),
            h.2,
          )
    | inr e ↦
        rw (e, send_one)
          (h.0, λ g. omega (arith, h.1 g, told-append g s.settled ((f, publish_failed) ∷ [])), h.2)
  ]

  send_each-IsTracked :
      (n : ℕ) (queue : List (ℕ × String)) (s : Publisher)
      → IsTracked n (record s { outstanding = queue })
      → IsTracked n (send_each accepts queue s)
  unfolding send_each
  send_each-IsTracked n [] s h = h
  send_each-IsTracked n ((f, msg) ∷ queue) s h =
      send_each-IsTracked n queue (send_one accepts f msg s) (send_one-IsTracked n f msg queue s h)

  reset_tries-IsTracked :
      (n : ℕ) (now : ℕ) (s : Publisher) → IsTracked n s → IsTracked n (reset_tries now s)
  unfolding reset_tries
  reset_tries-IsTracked n now s h = elim (Option-cases s.connected_at) [
    | inl e ↦ rw (e, reset_tries) h
    | inr (since, e) ↦ rw (e, reset_tries) (if_both (IsTracked n) (ltb (since + 60) now) _ s h h)
  ]

  watch_events-IsTracked :
      (n : ℕ) (now : ℕ) (s : Publisher) → IsTracked n s → IsTracked n (watch_events accepts now s)
  unfolding watch_events
  watch_events-IsTracked n now s h =
      let same = reset_tries-IsTracked n now s h in
      if_both (IsTracked n) s.stop_event s _ h (
        if_both (IsTracked n) s.connected _ (reset_tries now s)
          (send_each-IsTracked n (reset_tries now s).outstanding (reset_tries now s) same) same)

  publish-IsTracked :
      (n : ℕ) (message : String) (s : Publisher)
      → IsTracked n s
      → IsTracked (suc n) (publish true message s).1
  unfolding publish
  publish-IsTracked n message s h = (
    h.0,
    λ g. ground (arith, h.1 g, h.2, queued-append g s.outstanding ((s.next_future, message) ∷ [])),
    ap suc h.2,
  )

  -- The broker's frames are acks and nacks.
  abbrev pub IsProperEvent : Event → Type 0
  IsProperEvent (confirms frame) = IsVerdict frame.verdict
  IsProperEvent _ = Unit

  -- All futures that were handed out stand in one place each, the others in none.
  abbrev pub IsComplete : Publisher → Type 0
  IsComplete s = IsTracked s.next_future s

  same_number : (n : ℕ) (s : Publisher) → IsTracked n s → IsComplete s
  same_number n s h = subst (λ m. IsTracked m s) (sym h.2) h

  publisher_step-IsComplete :
      (e : Event) (s : Publisher)
      → IsProperEvent e
      → IsComplete s
      → IsComplete (publisher_step accepts e s)
  unfolding publisher_step queue_verified
  publisher_step-IsComplete (publishes message) s p h =
      same_number _ ((publish true message s).1) (publish-IsTracked s.next_future message s h)
  publisher_step-IsComplete (confirms frame) s p h =
      same_number _ ((on_delivery frame s).1) (on_delivery-IsTracked s.next_future frame s p h)
  publisher_step-IsComplete (watches now) s p h =
      same_number _ (watch_events accepts now s) (watch_events-IsTracked s.next_future now s h)
  publisher_step-IsComplete (verifies now) s p h = h

  -- While one channel lasts, whatever is published, is sent or refused, and is confirmed by acks and
  -- nacks, also several at a time: each future that was handed out is in the queue, awaits its
  -- confirmation, or is settled, in one of these places and once, if it was so before.
  pub publisher_run-IsComplete :
      (es : List Event) (s : Publisher)
      → All IsProperEvent es
      → IsComplete s
      → IsComplete (publisher_run accepts es s)
  unfolding publisher_run
  publisher_run-IsComplete [] s p h = h
  publisher_run-IsComplete (e ∷ es) s p h =
      publisher_run-IsComplete es (publisher_step accepts e s) p.1
        (publisher_step-IsComplete e s p.0 h)
