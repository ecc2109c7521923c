-- ===== src/Watcher/Connection.antt =====
-- The watcher's thread: connecting, channels that close, shutting down, and what becomes of the
-- futures at the end of `run`.
use func_x.Prelude.{
  ℕ, ◌+◌, String, Bool, true, false, not, ◌&&◌, ◌||◌, Option, none, some, List, [], ◌∷◌, ◌++◌,
  length, is_empty, if◌then◌else◌, ltb, reverse,
}
use func_x.Prelude.Dict.{is_some, remove}
use func_x.Prelude.Python.{runtime_error, return, raise, Action}
use func_x.Watcher.{
  Failure, quit, Outcome, pending, cancelled, finished, failed, Future, Watcher, store, is_done,
  set_outcome,
}

-- The attributes of the same names.
pub record Limits : Type 0 where
  pub connect_attempt_limit : ℕ
  pub channel_close_window_s : ℕ
  pub channel_close_window_limit : ℕ

-- `[cc for cc in self._channel_closes if cc > then]`, with `then = now - window`.
unfoldable pub recent : ℕ → ℕ → List ℕ → List ℕ
recent window now [] = []
recent window now (cc ∷ ccs) =
    let rest = recent window now ccs in if ltb now (cc + window) then cc ∷ rest else rest

abbrev pub reason : Option String → String
reason none = "SDK thread quit unexpectedly."
reason (some r) = r

module _ {V : Type 0} where
  -- The condition of the loop in `run`: `none` where it ends.
  unfoldable pub connect : Limits → Watcher V → Option (Watcher V)
  connect l w =
      if ltb w.connection_tries l.connect_attempt_limit
        && not (w.time_to_stop || is_some w.cancellation_reason)
      then some (record w { connection_tries = w.connection_tries + 1 })
      else none

  unfoldable pub on_open_failed : Limits → String → Watcher V → Watcher V
  on_open_failed l exc w =
      if ltb w.connection_tries l.connect_attempt_limit
      then w
      else record w { cancellation_reason = some exc }

  unfoldable pub on_connection_open : Watcher V → Watcher V
  on_connection_open w = record w { connection_tries = 0 }

  -- It answers whether the channel is opened again.
  unfoldable pub on_channel_closed : Limits → ℕ → Watcher V → Bool × Watcher V
  on_channel_closed l now w =
      let closes = recent l.channel_close_window_s now w.channel_closes ++ now ∷ [] in
      if w.closed
      then (false, w)
      else (if ltb (length closes) l.channel_close_window_limit
          then (true, record w { channel_closes = closes })
          else (
            false,
            record w {
              channel_closes = closes;
              closed = true;
              cancellation_reason = some "Unable to sustain channel";
            },
          ))

  -- The futures from the last one on, each removed before it is told.
  unfoldable pub fail_all : Failure → List (String × ℕ) → Action (Watcher V) (Unit {0})
  fail_all e [] w = (return tt, record w { open_futures = []; open_futures_empty = true })
  fail_all e ((tid, f) ∷ fs) w =
      let (result, futures) = set_outcome f (failed e) w.futures in
      let w' = record w { open_futures = remove tid w.open_futures; futures = futures } in
      elim result [ raise x ↦ (raise x, w') | return _ ↦ fail_all e fs w' ]

  -- What `run` does after its loop.
  unfoldable pub give_up : Action (Watcher V) (Unit {0})
  give_up w =
      if not (is_empty w.open_futures) && (not w.time_to_stop || is_some w.cancellation_reason)
      then fail_all (quit (reason w.cancellation_reason)) (reverse w.open_futures) (record w {
        time_to_stop = true;
        cancellation_reason = some (reason w.cancellation_reason);
      })
      else (return tt, w)

  -- `fut.cancel()`: a future that is done stays what it is.
  unfoldable pub cancel : ℕ → (ℕ → Future V) → ℕ → Future V
  cancel f futures = if is_done (futures f).outcome then futures else store f cancelled futures

  abbrev pub is_finished : Outcome V → Bool
  is_finished pending = false
  is_finished cancelled = false
  is_finished (finished v) = true
  is_finished (failed e) = true

  -- `fut.set_running_or_notify_cancel()` after `fut.cancel()` raises if the future was finished.
  unfoldable pub cancel_all : List (String × ℕ) → Action (Watcher V) (Unit {0})
  cancel_all [] w = (return tt, record w { open_futures = []; open_futures_empty = true })
  cancel_all ((tid, f) ∷ fs) w =
      let w' = record w {
        open_futures = remove tid w.open_futures;
        futures = cancel f w.futures;
      } in
      if is_finished (w'.futures f).outcome then (raise runtime_error, w') else cancel_all fs w'

  -- `shutdown` from another thread, of a thread that lives.
  unfoldable pub shutdown : Bool → Action (Watcher V) (Unit {0})
  shutdown cancel_futures w =
      let w' = record w { closed = true } in
      if cancel_futures then cancel_all (reverse w.open_futures) w' else (return tt, w')

  -- The thread that it starts: `none` while it waits.
  unfoldable pub stopper_thread : Watcher V → Option (Watcher V)
  stopper_thread w =
      if is_empty w.open_futures || w.open_futures_empty
      then some (record w { time_to_stop = true })
      else none
