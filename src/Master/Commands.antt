-- ===== src/Master/Commands.antt =====
-- `_event_loop`: what is done with a command, and the loop with its start and its end.
use func_x.Prelude.{
  ℕ, suc, ◌+◌, ◌-◌, String, Bool, true, false, ◌||◌, Option, none, some, List, [], ◌∷◌, is_empty,
  ltb, leb, not, if◌then◌else◌,
}
use func_x.Prelude.Dict.{◌=?◌}
use func_x.Prelude.Python.{
  type_error, value_error, invalid_command_error, Result, return, raise, Action, throw, pure,
}
use func_x.Master.{
  Passwd, Arguments, Mapped, maps_to, lookup_fails, mapping_fails, World, Master,
  send_failure_notice, cmd_start_endpoint,
}
use func_x.Master.Children.{Exit, wait_for_children}

-- Who a command comes from: `identities` is none where the set cannot be read.
pub record Identity : Type 0 where
  pub effective_identity : String
  pub identities : Option (List String)
  pub globus_username : String

-- The arguments are texts, as is the name of the endpoint among the keyword arguments.
pub record Command : Type 0 where
  pub command : String
  pub args : List String
  pub kwargs : Arguments
  pub identity : Option Identity

-- A message of the queue; `body` is none where it is no JSON object.
pub record CommandMessage : Type 0 where
  pub timestamp : Option ℕ
  pub content_type : String
  pub body : Option Command

abbrev member_of : String → List String → Bool
member_of x [] = false
member_of x (y ∷ ys) = (x =? y) || member_of x ys

-- `parent_identities.intersection(cmd_identities)`, whether there is any.
unfoldable pub intersects : List String → List String → Bool
intersects [] ys = false
intersects (x ∷ xs) ys = member_of x ys || intersects xs ys

abbrev pub or_empty : Option (List String) → List String
or_empty none = []
or_empty (some xs) = xs

abbrev pub distance : ℕ → ℕ → ℕ
distance a b = (a - b) + (b - a)

module _ (w : World) where
  -- The local user that a command may run as, if any, by the user database.
  unfoldable pub look_up : ℕ → Mapped → Option Passwd
  look_up now (maps_to none) = none
  look_up now (maps_to (some local_username)) =
      if local_username =? "" then none else w.getpwnam now local_username
  look_up now lookup_fails = none
  look_up now mapping_fails = none

  -- Without a mapper, or with identities of the parent process, only those may give commands.
  abbrev pub as_parent : Option (List String) → Option Passwd
  as_parent identities =
      if intersects w.parent_identities (or_empty identities) then some w.mu_user else none

  unfoldable pub local_user : Option (List String) → ℕ → Option Passwd
  unfolding look_up
  local_user identities now = elim w.identity_mapper [
    | none ↦ as_parent identities
    | some map_identity ↦
        if not (is_empty w.parent_identities)
        then as_parent identities
        else look_up now (map_identity now identities)
  ]

  -- `valid_method_name_re` and `getattr`: there is one method whose name begins with `cmd_`.
  unfoldable pub command_func : Passwd → Command → ℕ → Action Master (Unit {0})
  command_func user c now =
      if c.command =? "cmd_start_endpoint"
      then cmd_start_endpoint w user c.args c.kwargs now
      else throw invalid_command_error

  -- Every exception of a command is told to the user.
  abbrev pub or_notice : Arguments → Result (Unit {0}) → Action Master (Unit {0})
  or_notice kwargs (return _) = pure tt
  or_notice kwargs (raise e) = send_failure_notice w kwargs

  unfoldable pub execute : Passwd → Command → ℕ → Action Master (Unit {0})
  unfolding command_func
  execute user c now s = let (r, s') = command_func user c now s in or_notice c.kwargs r s'

  unfoldable pub authorize : Command → ℕ → Action Master (Unit {0})
  unfolding local_user execute
  authorize c now s = elim c.identity [
    | none ↦ send_failure_notice w c.kwargs s
    | some i ↦ elim (local_user i.identities now) [
      | none ↦ send_failure_notice w c.kwargs s
      | some user ↦ execute user c now s
    ]
  ]

  -- A command with another time than ours, by more than three minutes, is refused, and its date goes
  -- into the notice. The difference to no timestamp raises.
  unfoldable pub check_time : Option ℕ → Command → ℕ → Action Master (Unit {0})
  unfolding authorize
  check_time none c now s = (raise type_error, s)
  check_time (some server_cmd_ts) c now s =
      if ltb 180 (distance now server_cmd_ts)
      then (if w.has_date server_cmd_ts
          then send_failure_notice w c.kwargs s
          else (raise value_error, s))
      else authorize c now s

  unfoldable pub handle_message : CommandMessage → ℕ → Action Master (Unit {0})
  unfolding check_time
  handle_message m now s =
      if m.content_type =? "application/json"
      then elim m.body [ none ↦ (return tt, s) | some c ↦ check_time m.timestamp c now s ]
      else (return tt, s)

-- What a turn of the loop finds: the children that have stopped, a message, whether the
-- subscriber has ended, and the time.
pub record Found : Type 0 where
  pub dead : List (ℕ × Exit)
  pub message : Option CommandMessage
  pub command_stop_event : Bool
  pub now : ℕ

-- Signals that arrive, and what a turn of the loop finds.
pub data Occurrence : Type 0 where
  sigchld sigterm : Occurrence
  finds : Found → Occurrence

abbrev pub or_rest :
    Result (Unit {0}) → Master → Result (Unit {0}) × Master → Result (Unit {0}) × Master
or_rest (raise e) s rest = (raise e, s)
or_rest (return _) s rest = rest

module _ (w : World) where
  unfoldable pub reap_if_asked : Found → Master → Master
  reap_if_asked f s = if s.wait_for_child then wait_for_children w f.dead f.now s else s

  unfoldable pub heartbeat_if_due : ℕ → Master → Master
  heartbeat_if_due now s =
      if leb (s.last_heartbeat + w.heartbeat_period) now
      then record s { heartbeats = suc s.heartbeats; last_heartbeat = now }
      else s

  unfoldable pub take_message : Found → Action Master (Unit {0})
  unfolding handle_message
  take_message f s = elim f.message [
    | none ↦ (return tt, (if f.command_stop_event then record s { time_to_stop = true } else s))
    | some m ↦ handle_message w m f.now s
  ]

  unfoldable pub master_turn : Found → Action Master (Unit {0})
  unfolding reap_if_asked heartbeat_if_due take_message
  master_turn f s = take_message f (heartbeat_if_due f.now (reap_if_asked f s))

  -- The signal handlers, which may run between any two turns.
  unfoldable pub set_child_died : Master → Master
  set_child_died s = record s { wait_for_child = true }

  unfoldable pub request_shutdown : Master → Master
  request_shutdown s = record s { time_to_stop = true }

  -- `_event_loop`, where the parent's identities are known: it ends when it is told to stop, and by
  -- what a turn raises.
  unfoldable pub event_loop : List Occurrence → Action Master (Unit {0})
  event_loop [] s = (return tt, s)
  event_loop (sigchld ∷ fs) s = event_loop fs (set_child_died s)
  event_loop (sigterm ∷ fs) s = event_loop fs (request_shutdown s)
  event_loop (finds f ∷ fs) s =
      let (r, s') = master_turn f s in
      let rest = event_loop fs s' in if s.time_to_stop then (return tt, s) else or_rest r s' rest

  -- After each of the two signals to the children it waits, for ten seconds at most, for them to stop.
  -- The arguments are what there is to reap, look by look.
  unfoldable pub wait_phase : List (List (ℕ × Exit)) → ℕ → Master → Master
  wait_phase [] now s = s
  wait_phase (dead ∷ looks) now s =
      let rest = wait_phase looks now (wait_for_children w dead now s) in
      if is_empty s.children then s else rest

  -- `start`: the loop, whatever it ends with, the last heartbeat, and the two phases.
  unfoldable pub start_master :
      List Occurrence → List (List (ℕ × Exit)) → List (List (ℕ × Exit)) → ℕ → Master → Master
  unfolding event_loop wait_phase
  start_master fs terminated killed now s =
      let ended = (event_loop fs s).1 in
      wait_phase killed now
        (wait_phase terminated now (record ended { heartbeats = suc ended.heartbeats }))
