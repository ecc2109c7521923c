-- ===== src/Publisher/Reopened.antt =====
-- What becomes of the futures that await their confirmation when the channel is opened again: the tags
-- begin anew, and the table is not emptied.
use mathlib.Core.Path.{subst}
use func_x.Prelude.{
  ℕ, suc, ◌+◌, ◌≤◌, ◌<◌, ◌≡◌, refl, sym, ◌∙◌, ap, String, Bool, true, false, some, List, [], ◌∷◌,
  ◌++◌, arith, Bool-cases, Option-cases, inl, inr, ltb, ◌==◌, if◌then◌else◌, if_both,
}
use func_x.Prelude.Table.{Table, get_at?, put_at, remove_at}
use func_x.Publisher.{
  publish_failed, Publisher, Verdict, ack, nack, neither, Frame, completions, lower_tags,
  not_lower_tags, settle_lower, on_delivery, publish, channel_open, queue_verified, send_one,
  send_each, reset_tries, watch_events, Event, publishes, confirms, watches, verifies,
  publisher_step, publisher_run,
}
use func_x.Publisher.Places.{queued, held, told, places, queued-append, told-append}

held-get_at? : (f t : ℕ) (d : Table ℕ) → get_at? t d ≡ some f → 1 ≤ held f d
unfolding get_at?
held-get_at? f t [] e = absurd (cc)
held-get_at? f t ((k, x) ∷ d) e = elim (Bool-cases (k == t)) [
  | inl q ↦
      let found : some x ≡ some f = rw (q, get_at?) at e in
      let same : x ≡ f = cc (found) in rw same (ground arith)
  | inr q ↦ omega (arith, held-get_at? f t d (rw (q, get_at?) at e))
]

-- A future whose tag is given to another one.
held-put_at_over :
    (f g t : ℕ) (d : Table ℕ)
    → get_at? t d ≡ some f
    → (g == f) ≡ false
    → held f (put_at t g d) + 1 ≡ held f d
unfolding get_at? put_at
held-put_at_over f g t [] e ne = absurd (cc)
held-put_at_over f g t ((k, x) ∷ d) e ne = elim (Bool-cases (k == t)) [
  | inl q ↦
      let found : some x ≡ some f = rw (q, get_at?) at e in
      let same : x ≡ f = cc (found) in rw (q, put_at) (rw (same, ne) (ground arith))
  | inr q ↦ rw (q, put_at) (omega (arith, held-put_at_over f g t d (rw (q, get_at?) at e) ne))
]

get_at?-put_at_self : (t g : ℕ) (d : Table ℕ) → get_at? t (put_at t g d) ≡ some g
unfolding get_at? put_at
get_at?-put_at_self t g [] = ground arith
get_at?-put_at_self t g ((k, x) ∷ d) = elim (Bool-cases (k == t)) [
  | inl q ↦ rw (q, put_at) (ground arith)
  | inr q ↦ rw (q, put_at) (rw q (get_at?-put_at_self t g d))
]

get_at?-put_at_ne : (t u g : ℕ) (d : Table ℕ) → t < u → get_at? t (put_at u g d) ≡ get_at? t d
unfolding get_at? put_at
get_at?-put_at_ne t u g [] h = ground (arith, h)
get_at?-put_at_ne t u g ((k, x) ∷ d) h = elim (Bool-cases (k == u)) [
  | inl q ↦ rw (q, put_at) (ground (arith, q, h))
  | inr q ↦ rw (q, put_at) (ap (λ o. if k == t then some x else o) (get_at?-put_at_ne t u g d h))
]

held-put_at-le :
    (f g t : ℕ) (d : Table ℕ) → held f (put_at t g d) ≤ held f d + (if g == f then 1 else 0)
unfolding put_at
held-put_at-le f g t [] = omega arith
held-put_at-le f g t ((k, x) ∷ d) = elim (Bool-cases (k == t)) [
  | inl q ↦ rw (q, put_at) (omega arith)
  | inr q ↦ rw (q, put_at) (omega (arith, held-put_at-le f g t d))
]

held-remove_at-le : (f t : ℕ) (d : Table ℕ) → held f (remove_at t d) ≤ held f d
unfolding remove_at
held-remove_at-le f t [] = omega arith
held-remove_at-le f t ((k, x) ∷ d) =
    let rest = held-remove_at-le f t d in
    if_both (λ e. held f e ≤ held f ((k, x) ∷ d)) (k == t) (remove_at t d) ((k, x) ∷ remove_at t d)
      (omega (arith, rest)) (omega (arith, rest))

told-completions-le :
    (f : ℕ) (v : Verdict) (t x : ℕ) → told f (completions v t x) ≤ (if x == f then 1 else 0)
told-completions-le f ack t x = omega arith
told-completions-le f nack t x = omega arith
told-completions-le f neither t x = omega arith

lower_tags-le :
    (f : ℕ) (v : Verdict) (t : ℕ) (d : Table ℕ)
    → told f (lower_tags v t d) + held f (not_lower_tags t d) ≤ held f d
unfolding lower_tags not_lower_tags
lower_tags-le f v t [] = omega arith
lower_tags-le f v t ((k, x) ∷ d) = elim (Bool-cases (ltb k t)) [
  | inl e ↦
      rw (e, lower_tags, not_lower_tags)
        (omega (
          arith,
          told-append f (completions v k x) (lower_tags v t d),
          told-completions-le f v k x,
          lower_tags-le f v t d,
        ))
  | inr e ↦ rw (e, lower_tags, not_lower_tags) (omega (arith, lower_tags-le f v t d))
]

-- A future that was handed out and stands in no place.
abbrev IsGone : ℕ → Publisher → Type 0
IsGone f s = (places f s ≡ 0) × (f < s.next_future)

settle_lower-IsGone :
    (f : ℕ) (frame : Frame) (s : Publisher) → IsGone f s → IsGone f (settle_lower frame s)
unfolding settle_lower
settle_lower-IsGone f frame s h = (
  omega (
    arith,
    h.0,
    told-append f s.settled (lower_tags frame.verdict frame.delivery_tag s.awaiting_confirmation),
    lower_tags-le f frame.verdict frame.delivery_tag s.awaiting_confirmation,
  ),
  h.1,
)

on_delivery-IsGone :
    (f : ℕ) (frame : Frame) (s : Publisher) → IsGone f s → IsGone f (on_delivery frame s).1
unfolding on_delivery
on_delivery-IsGone f frame s h =
    elim (Option-cases (get_at? frame.delivery_tag s.awaiting_confirmation)) [
      | inl e ↦ rw (e, on_delivery) h
      | inr (x, e) ↦
          let popped : Publisher = record s {
            awaiting_confirmation = remove_at frame.delivery_tag s.awaiting_confirmation;
            settled = s.settled ++ completions frame.verdict frame.delivery_tag x;
          } in
          let other : (x == f) ≡ false = elim (Bool-cases (x == f)) [
            | inl same ↦
                let equal : x ≡ f = ground (arith, same) in
                let here : get_at? frame.delivery_tag s.awaiting_confirmation ≡ some f =
                  subst (λ y. get_at? frame.delivery_tag s.awaiting_confirmation ≡ some y) equal
                    e in
                absurd (
                  omega
                    (arith, h.0, held-get_at? f frame.delivery_tag s.awaiting_confirmation here))
            | inr ne ↦ ne
          ] in
          let silent : told f (completions frame.verdict frame.delivery_tag x) ≡ 0 =
            ground (arith, told-completions-le f frame.verdict frame.delivery_tag x, other) in
          let first : IsGone f popped = (
            omega (
              arith,
              h.0,
              silent,
              told-append f s.settled (completions frame.verdict frame.delivery_tag x),
              held-remove_at-le f frame.delivery_tag s.awaiting_confirmation,
            ),
            h.1,
          ) in
          rw (e, on_delivery)
            (if_both (IsGone f) _ (settle_lower frame popped) popped
              (settle_lower-IsGone f frame popped first) first)
    ]

module _ (accepts : String → Bool) where
  send_one-IsGone :
      (f x : ℕ) (msg : String) (rest : List (ℕ × String)) (s : Publisher)
      → IsGone f (record s { outstanding = (x, msg) ∷ rest })
      → IsGone f (record (send_one accepts x msg s) { outstanding = rest })
  unfolding send_one
  send_one-IsGone f x msg rest s h = elim (Bool-cases (accepts msg)) [
    | inl e ↦
        rw (e, send_one)
          (
            omega
                (arith, h.0, held-put_at-le f x (suc s.delivery_tag_index) s.awaiting_confirmation),
            h.1,
          )
    | inr e ↦
        rw (e, send_one)
          (omega (arith, h.0, told-append f s.settled ((x, publish_failed) ∷ [])), h.1)
  ]

  send_each-IsGone :
      (f : ℕ) (queue : List (ℕ × String)) (s : Publisher)
      → IsGone f (record s { outstanding = queue })
      → IsGone f (send_each accepts queue s)
  unfolding send_each
  send_each-IsGone f [] s h = h
  send_each-IsGone f ((x, msg) ∷ queue) s h =
      send_each-IsGone f queue (send_one accepts x msg s) (send_one-IsGone f x msg queue s h)

  -- What is sent later gets a later tag.
  send_each-tag :
      (t g : ℕ) (queue : List (ℕ × String)) (s : Publisher)
      → get_at? t s.awaiting_confirmation ≡ some g
      → t ≤ s.delivery_tag_index
      → get_at? t (send_each accepts queue s).awaiting_confirmation ≡ some g
  unfolding send_each send_one
  send_each-tag t g [] s e h = e
  send_each-tag t g ((x, msg) ∷ queue) s e h = elim (Bool-cases (accepts msg)) [
    | inl q ↦
        rw (q, send_each, send_one)
          (send_each-tag t g queue _
            (get_at?-put_at_ne t (suc s.delivery_tag_index) x s.awaiting_confirmation
                (omega (arith, h))
              ∙ e)
            (omega (arith, h)))
    | inr q ↦ rw (q, send_each, send_one) (send_each-tag t g queue _ e h)
  ]

  reset_tries-keeps :
      (P : Publisher → Type 0) (now : ℕ) (s : Publisher)
      → P s
      → P (record s { connection_tries = 0 })
      → P (reset_tries now s)
  unfolding reset_tries
  reset_tries-keeps P now s h k = elim (Option-cases s.connected_at) [
    | inl e ↦ rw (e, reset_tries) h
    | inr (since, e) ↦ rw (e, reset_tries) (if_both P (ltb (since + 60) now) _ s k h)
  ]

  watch_events-IsGone :
      (f now : ℕ) (s : Publisher) → IsGone f s → IsGone f (watch_events accepts now s)
  unfolding watch_events
  watch_events-IsGone f now s h =
      let same = reset_tries-keeps (IsGone f) now s h h in
      if_both (IsGone f) s.stop_event s _ h (
        if_both (IsGone f) s.connected _ (reset_tries now s)
          (send_each-IsGone f (reset_tries now s).outstanding (reset_tries now s) same) same)

  publisher_run-IsGone :
      (f : ℕ) (es : List Event) (s : Publisher) → IsGone f s → IsGone f (publisher_run accepts es s)
  unfolding publisher_run publisher_step publish queue_verified
  publisher_run-IsGone f [] s h = h
  publisher_run-IsGone f (publishes message ∷ es) s h = publisher_run-IsGone f es _ (
    ground (arith, h.0, h.1, queued-append f s.outstanding ((s.next_future, message) ∷ [])),
    omega (arith, h.1),
  )
  publisher_run-IsGone f (confirms frame ∷ es) s h =
      publisher_run-IsGone f es _ (on_delivery-IsGone f frame s h)
  publisher_run-IsGone f (watches now ∷ es) s h =
      publisher_run-IsGone f es _ (watch_events-IsGone f now s h)
  publisher_run-IsGone f (verifies now ∷ es) s h = publisher_run-IsGone f es _ h

  -- The channel is opened again, its queue is verified, and the watcher has a round.
  abbrev pub reopened : ℕ → ℕ → Publisher → Publisher
  reopened now later s = watch_events accepts later (queue_verified now (channel_open s))

  abbrev Loses : ℕ → ℕ → Publisher → Type 0
  Loses f g s = (get_at? 1 s.awaiting_confirmation ≡ some g) × IsGone f s

  send_first-Loses :
      (f g : ℕ) (msg : String) (queue : List (ℕ × String)) (s : Publisher)
      → get_at? 1 s.awaiting_confirmation ≡ some f
      → places f s ≡ 1
      → f < s.next_future
      → s.outstanding ≡ (g, msg) ∷ queue
      → s.delivery_tag_index ≡ 0
      → accepts msg ≡ true
      → Loses f g (send_each accepts ((g, msg) ∷ queue) s)
  unfolding send_each send_one
  send_first-Loses f g msg queue s tagged once old waits index e =
      let count : queued f ((g, msg) ∷ queue) + held f s.awaiting_confirmation + told f s.settled
          ≡ 1 =
        ap (λ q. queued f q + held f s.awaiting_confirmation + told f s.settled) (sym waits)
        ∙ once in
      let there = held-get_at? f 1 s.awaiting_confirmation tagged in
      let other : (g == f) ≡ false = ground (arith, count, there) in
      let over = held-put_at_over f g 1 s.awaiting_confirmation tagged other in
      rw (e, index, send_each, send_one)
        (
          send_each-tag 1 g queue _ (get_at?-put_at_self 1 g s.awaiting_confirmation) (omega arith),
          send_each-IsGone f queue _ (ground (arith, count, over, other), old),
        )

  watching :
      (now : ℕ) (s : Publisher) (queue : List (ℕ × String))
      → s.stop_event ≡ false
      → s.connected ≡ true
      → (reset_tries now s).outstanding ≡ queue
      → watch_events accepts now s ≡ send_each accepts queue (reset_tries now s)
  unfolding watch_events
  watching now s queue goes on waits =
      ap
        (λ b.
          if b
          then s
          else (if s.connected
              then send_each accepts (reset_tries now s).outstanding (reset_tries now s)
              else reset_tries now s))
        goes
      ∙ ap
          (λ b.
            if b
            then send_each accepts (reset_tries now s).outstanding (reset_tries now s)
            else reset_tries now s)
          on
      ∙ ap (λ q. send_each accepts q (reset_tries now s)) waits

  -- A future awaits its confirmation under the first tag, and is nowhere else, when the channel is opened
  -- again with accepted messages in the queue: the first of these takes its tag, and whatever happens
  -- then while the new channel lasts, the first future is never completed, and stands in no place.
  pub reopened-loses :
      (f g : ℕ) (msg : String) (queue : List (ℕ × String)) (now later : ℕ) (s : Publisher)
      (es : List Event)
      → get_at? 1 s.awaiting_confirmation ≡ some f
      → places f s ≡ 1
      → f < s.next_future
      → s.outstanding ≡ (g, msg) ∷ queue
      → s.stop_event ≡ false
      → accepts msg ≡ true
      → (get_at? 1 (reopened now later s).awaiting_confirmation ≡ some g)
        × (places f (publisher_run accepts es (reopened now later s)) ≡ 0)
  unfolding queue_verified channel_open
  reopened-loses f g msg queue now later s es tagged once old waits goes e =
      let opened = queue_verified now (channel_open s) in
      let sent : Loses f g (send_each accepts ((g, msg) ∷ queue) (reset_tries later opened)) =
        reset_tries-keeps (λ u. Loses f g (send_each accepts ((g, msg) ∷ queue) u)) later opened
          (send_first-Loses f g msg queue opened tagged once old waits refl e)
          (send_first-Loses f g msg queue (record opened { connection_tries = 0 }) tagged once old
            waits refl e) in
      let kept : (reset_tries later opened).outstanding ≡ (g, msg) ∷ queue =
        reset_tries-keeps (λ u. u.outstanding ≡ (g, msg) ∷ queue) later opened waits waits in
      let out : Loses f g (reopened now later s) =
        subst (Loses f g) (sym (watching later opened ((g, msg) ∷ queue) goes refl kept)) sent in
      (out.0, (publisher_run-IsGone f es (reopened now later s) out.1).0)
