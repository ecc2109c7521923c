-- ===== src/Master/Survival.antt =====
-- Which messages end the main loop of a multi-user endpoint.
use mathlib.Core.Path.{subst}
use func_x.Prelude.{
  ℕ, ◌≡◌, refl, ◌∙◌, String, Bool, true, false, none, some, List, ltb, Bool-cases, Option-cases,
  inl, inr, if_both, Option,
}
use func_x.Prelude.Dict.{◌=?◌}
use func_x.Prelude.Python.{
  type_error, value_error, attribute_error, os_error, Exc, Result, return, raise, Action,
}
use func_x.Master.{
  Passwd, Kwargs, Arguments, dict, falsy, truthy, World, Master, find_running, is_forbidden,
  fork_child, notice_record, send_failure_notice, start_new, start_endpoint, cmd_start_endpoint,
}
use func_x.Master.Commands.{
  Command, CommandMessage, distance, local_user, command_func, or_notice, execute, authorize,
  check_time, handle_message,
}

abbrev pub is_dict : Arguments → Bool
is_dict (dict kwargs) = true
is_dict _ = false

module _ (w : World) where
  -- What can make the telling of a failure raise: keyword arguments that are no dict, and a fork that
  -- fails.
  pub data Untold (kwargs : Arguments) (s : Master) : Exc → Type 0 where
    unnamed : is_dict kwargs ≡ false → Untold kwargs s attribute_error
    unforked : w.fork s.attempts ≡ none → Untold kwargs s os_error

  -- What can make a message raise.
  pub data Cause (m : CommandMessage) (now : ℕ) (s : Master) : Exc → Type 0 where
    no_timestamp : m.timestamp ≡ none → Cause m now s type_error
    no_date :
        (t : ℕ)
        → m.timestamp ≡ some t
        → ltb 180 (distance now t) ≡ true
        → w.has_date t ≡ false
        → Cause m now s value_error
    untold : {e : Exc} (c : Command) → m.body ≡ some c → Untold c.kwargs s e → Cause m now s e

  -- Where an action raises, it has left the children and whether to stop, and there is a reason.
  abbrev Explains : (Exc → Type 0) → Master → Result (Unit {0}) × Master → Type 0
  Explains Why s (return _, s') = Unit
  Explains Why s (raise e, s') =
      (s'.children ≡ s.children) × (s'.time_to_stop ≡ s.time_to_stop) × Why e

  -- A change that is no reason for a fork to fail.
  abbrev Leaves : Master → Master → Type 0
  Leaves s s' =
      (s'.children ≡ s.children)
      × (s'.time_to_stop ≡ s.time_to_stop)
      × (w.fork s'.attempts ≡ none → w.fork s.attempts ≡ none)

  LeavesOrDone : Master → Result (Unit {0}) × Master → Type 0
  LeavesOrDone s out = elim out.0 [ return _ ↦ Unit | raise e ↦ Leaves s out.1 ]

  send_failure_notice-Explains :
      (kwargs : Arguments) (s : Master)
      → Explains (Untold kwargs s) s (send_failure_notice w kwargs s)
  unfolding send_failure_notice fork_child notice_record
  send_failure_notice-Explains (dict kwargs) s = elim (Option-cases (w.fork s.attempts)) [
    | inl e ↦ rw (e, send_failure_notice) (refl, refl, unforked e)
    | inr (p, e) ↦ rw (e, send_failure_notice) tt
  ]
  send_failure_notice-Explains falsy s = elim (Option-cases (w.fork s.attempts)) [
    | inl e ↦ rw (e, send_failure_notice) (refl, refl, unforked e)
    | inr (p, e) ↦ rw (e, send_failure_notice) (refl, refl, unnamed refl)
  ]
  send_failure_notice-Explains truthy s = elim (Option-cases (w.fork s.attempts)) [
    | inl e ↦ rw (e, send_failure_notice) (refl, refl, unforked e)
    | inr (p, e) ↦ rw (e, send_failure_notice) (refl, refl, unnamed refl)
  ]

  start_new-LeavesOrDone :
      (u : Passwd) (args : List String) (kwargs : Kwargs) (s : Master)
      → LeavesOrDone s (start_new w u args kwargs s)
  unfolding start_new fork_child LeavesOrDone
  start_new-LeavesOrDone u args kwargs s = elim (Bool-cases (is_forbidden w u)) [
    | inl f ↦ rw (f, start_new) (refl, refl, λ e. e)
    | inr f ↦ elim (Option-cases (w.fork s.attempts)) [
      | inl e ↦ rw (f, e, start_new) (refl, refl, λ q. e)
      | inr (p, e) ↦ rw (f, e, start_new) tt
    ]
  ]

  start_endpoint-LeavesOrDone :
      (u : Passwd) (args : List String) (kwargs : Kwargs) (now : ℕ) (s : Master)
      → LeavesOrDone s (start_endpoint w u args kwargs now s)
  unfolding start_endpoint LeavesOrDone
  start_endpoint-LeavesOrDone u args kwargs now s = elim (Bool-cases (kwargs.name =? "")) [
    | inl e ↦ rw (e, start_endpoint) (refl, refl, λ q. q)
    | inr e ↦ elim (Option-cases (find_running kwargs.name s.children)) [
      | inl q ↦ rw (e, q, start_endpoint) (start_new-LeavesOrDone u args kwargs s)
      | inr (p, q) ↦ rw (e, q, start_endpoint) tt
    ]
  ]

  cmd_start_endpoint-LeavesOrDone :
      (u : Passwd) (args : List String) (kwargs : Arguments) (now : ℕ) (s : Master)
      → LeavesOrDone s (cmd_start_endpoint w u args kwargs now s)
  unfolding cmd_start_endpoint LeavesOrDone
  cmd_start_endpoint-LeavesOrDone u args (dict kwargs) now s =
      start_endpoint-LeavesOrDone u args kwargs now s
  cmd_start_endpoint-LeavesOrDone u args falsy now s = (refl, refl, λ q. q)
  cmd_start_endpoint-LeavesOrDone u args truthy now s = (refl, refl, λ q. q)

  Untold-earlier :
      {kwargs : Arguments} {s s' : Master} {e : Exc}
      → Leaves s s'
      → Untold kwargs s' e
      → Untold kwargs s e
  Untold-earlier l (unnamed q) = unnamed q
  Untold-earlier l (unforked q) = unforked (l.2 q)

  Explains-earlier :
      (kwargs : Arguments) (s s' : Master) (out : Result (Unit {0}) × Master)
      → Leaves s s'
      → Explains (Untold kwargs s') s' out
      → Explains (Untold kwargs s) s out
  Explains-earlier kwargs s s' (return _, after) l h = tt
  Explains-earlier kwargs s s' (raise e, after) l h = (h.0 ∙ l.0, h.1 ∙ l.1, Untold-earlier l h.2)

  or_notice-Explains :
      (kwargs : Arguments) (r : Result (Unit {0})) (s s' : Master)
      → LeavesOrDone s (r, s')
      → Explains (Untold kwargs s) s (or_notice w kwargs r s')
  unfolding LeavesOrDone
  or_notice-Explains kwargs (return _) s s' l = tt
  or_notice-Explains kwargs (raise e) s s' l =
      Explains-earlier kwargs s s' (send_failure_notice w kwargs s') l
        (send_failure_notice-Explains kwargs s')

  execute-Explains :
      (u : Passwd) (c : Command) (now : ℕ) (s : Master)
      → Explains (Untold c.kwargs s) s (execute w u c now s)
  unfolding execute command_func LeavesOrDone
  execute-Explains u c now s =
      or_notice-Explains c.kwargs (command_func w u c now s).0 s (command_func w u c now s).1 (
        if_both (λ (act : Action Master (Unit {0})). LeavesOrDone s (act s))
          (c.command =? "cmd_start_endpoint") _ _
          (cmd_start_endpoint-LeavesOrDone u c.args c.kwargs now s) (refl, refl, λ q. q))

  authorize-Explains :
      (c : Command) (now : ℕ) (s : Master) → Explains (Untold c.kwargs s) s (authorize w c now s)
  unfolding authorize
  authorize-Explains c now s = elim (Option-cases c.identity) [
    | inl e ↦ rw (e, authorize) (send_failure_notice-Explains c.kwargs s)
    | inr (i, e) ↦ elim (Option-cases (local_user w i.identities now)) [
      | inl q ↦ rw (e, q, authorize) (send_failure_notice-Explains c.kwargs s)
      | inr (u, q) ↦ rw (e, q, authorize) (execute-Explains u c now s)
    ]
  ]

  Explains-Cause :
      (m : CommandMessage) (c : Command) (now : ℕ) (s : Master) (out : Result (Unit {0}) × Master)
      → m.body ≡ some c
      → Explains (Untold c.kwargs s) s out
      → Explains (Cause m now s) s out
  Explains-Cause m c now s (return _, s') q h = tt
  Explains-Cause m c now s (raise e, s') q h = (h.0, h.1, untold c q h.2)

  check_time-Explains :
      (m : CommandMessage) (c : Command) (now : ℕ) (s : Master) (timestamp : Option ℕ)
      → m.timestamp ≡ timestamp
      → m.body ≡ some c
      → Explains (Cause m now s) s (check_time w timestamp c now s)
  unfolding check_time
  check_time-Explains m c now s none e q = (refl, refl, no_timestamp e)
  check_time-Explains m c now s (some t) e q = elim (Bool-cases (ltb 180 (distance now t))) [
    | inl late ↦ elim (Bool-cases (w.has_date t)) [
      | inl dated ↦
          rw (late, dated, check_time)
            (Explains-Cause m c now s _ q (send_failure_notice-Explains c.kwargs s))
      | inr undated ↦ rw (late, undated, check_time) (refl, refl, no_date t e late undated)
    ]
    | inr early ↦ rw (early, check_time) (Explains-Cause m c now s _ q (authorize-Explains c now s))
  ]

  handle_message-Explains :
      (Why : Exc → Type 0) (m : CommandMessage) (now : ℕ) (s : Master)
      → ((c : Command) → m.body ≡ some c → Explains Why s (check_time w m.timestamp c now s))
      → Explains Why s (handle_message w m now s)
  unfolding handle_message
  handle_message-Explains Why m now s checks =
      elim (Bool-cases (m.content_type =? "application/json")) [
        | inl e ↦ elim (Option-cases m.body) [
          | inl q ↦ rw (e, q, handle_message) tt
          | inr (c, q) ↦ rw (e, q, handle_message) (checks c q)
        ]
        | inr e ↦ rw (e, handle_message) tt
      ]

  explained :
      (Why : Exc → Type 0) (s : Master) (out : Result (Unit {0}) × Master) (e : Exc)
      → Explains Why s out
      → out.0 ≡ raise e
      → (out.1.children ≡ s.children) × (out.1.time_to_stop ≡ s.time_to_stop) × Why e
  explained Why s (return _, s') e h q = absurd (cc (q))
  explained Why s (raise x, s') e h q = let same : x ≡ e = cc (q) in (h.0, h.1, subst Why same h.2)

  -- What ends the main loop by an exception is a message without a timestamp; one whose time differs
  -- from ours by more than three minutes and has no date; one whose keyword arguments are no dict; or
  -- a fork that fails. The children and whether to stop are then as before the message.
  pub handle_message_raises :
      (m : CommandMessage) (now : ℕ) (s : Master) (e : Exc)
      → (handle_message w m now s).0 ≡ raise e
      → let s' = (handle_message w m now s).1 in
        (s'.children ≡ s.children) × (s'.time_to_stop ≡ s.time_to_stop) × Cause m now s e
  handle_message_raises m now s e q =
      explained (Cause m now s) s (handle_message w m now s) e
        (handle_message-Explains (Cause m now s) m now s
          (λ c b. check_time-Explains m c now s m.timestamp refl b))
        q
