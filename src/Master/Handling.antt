-- ===== src/Master/Handling.antt =====
-- What a message does to the children, the cache and the log.
use func_x.Prelude.{ℕ, ◌≡◌, Option, none, some, Bool-cases, Option-cases, inl, inr, if_both, ltb}
use func_x.Prelude.Dict.{◌=?◌}
use func_x.Prelude.Python.{Result, return, raise, Action}
use func_x.Master.{Passwd, Arguments, World, Master}
use func_x.Master.Commands.{
  Identity, Command, CommandMessage, Occurrence, finds, distance, local_user, command_func,
  or_notice, execute, authorize, check_time, handle_message,
}
use func_x.Master.Safe.{IsSafe, send_failure_notice-IsSafe, cmd_start_endpoint-IsSafe}

module _ (w : World) (IsAllowed : Passwd → Type 0) where
  -- Who a command comes from is an allowed user, if it is a user at all.
  abbrev pub IsFromAllowed : Command → ℕ → Type 0
  IsFromAllowed c now =
      (i : Identity) (u : Passwd)
      → c.identity ≡ some i
      → local_user w i.identities now ≡ some u
      → IsAllowed u

  abbrev pub IsMessageFromAllowed : Option CommandMessage → ℕ → Type 0
  IsMessageFromAllowed none now = Unit
  IsMessageFromAllowed (some m) now = (c : Command) → m.body ≡ some c → IsFromAllowed c now

  abbrev pub IsOccurrenceFromAllowed : Occurrence → Type 0
  IsOccurrenceFromAllowed (finds f) = IsMessageFromAllowed f.message f.now
  IsOccurrenceFromAllowed _ = Unit

  abbrev Safe : Master → Type 0
  Safe s = IsSafe w IsAllowed s

  or_notice-IsSafe :
      (kwargs : Arguments) (r : Result (Unit {0})) (s : Master)
      → Safe s
      → Safe (or_notice w kwargs r s).1
  or_notice-IsSafe kwargs (return _) s h = h
  or_notice-IsSafe kwargs (raise e) s h = send_failure_notice-IsSafe w IsAllowed kwargs s h

  execute-IsSafe :
      (u : Passwd) (c : Command) (now : ℕ) (s : Master)
      → IsAllowed u
      → Safe s
      → Safe (execute w u c now s).1
  unfolding execute command_func
  execute-IsSafe u c now s allowed h =
      or_notice-IsSafe c.kwargs (command_func w u c now s).0 (command_func w u c now s).1 (
        if_both (λ (act : Action Master (Unit {0})). Safe (act s).1)
          (c.command =? "cmd_start_endpoint") _ _
          (cmd_start_endpoint-IsSafe w IsAllowed u c.args c.kwargs now s allowed h) h)

  authorize-IsSafe :
      (c : Command) (now : ℕ) (s : Master)
      → IsFromAllowed c now
      → Safe s
      → Safe (authorize w c now s).1
  unfolding authorize
  authorize-IsSafe c now s from h = elim (Option-cases c.identity) [
    | inl e ↦ rw (e, authorize) (send_failure_notice-IsSafe w IsAllowed c.kwargs s h)
    | inr (i, e) ↦ elim (Option-cases (local_user w i.identities now)) [
      | inl q ↦ rw (e, q, authorize) (send_failure_notice-IsSafe w IsAllowed c.kwargs s h)
      | inr (u, q) ↦ rw (e, q, authorize) (execute-IsSafe u c now s (from i u e q) h)
    ]
  ]

  check_time-IsSafe :
      (t : Option ℕ) (c : Command) (now : ℕ) (s : Master)
      → IsFromAllowed c now
      → Safe s
      → Safe (check_time w t c now s).1
  unfolding check_time
  check_time-IsSafe none c now s from h = h
  check_time-IsSafe (some t) c now s from h =
      if_both (λ (r : Result (Unit {0}) × Master). Safe r.1) (ltb 180 (distance now t)) _ _
        (if_both (λ (r : Result (Unit {0}) × Master). Safe r.1) (w.has_date t) _ _
          (send_failure_notice-IsSafe w IsAllowed c.kwargs s h) h)
        (authorize-IsSafe c now s from h)

  pub handle_message-IsSafe :
      (m : CommandMessage) (now : ℕ) (s : Master)
      → IsMessageFromAllowed (some m) now
      → Safe s
      → Safe (handle_message w m now s).1
  unfolding handle_message
  handle_message-IsSafe m now s from h = elim (Bool-cases (m.content_type =? "application/json")) [
    | inl e ↦ elim (Option-cases m.body) [
      | inl q ↦ rw (e, q, handle_message) h
      | inr (c, q) ↦ rw (e, q, handle_message) (check_time-IsSafe m.timestamp c now s (from c q) h)
    ]
    | inr e ↦ rw (e, handle_message) h
  ]
