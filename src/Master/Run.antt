-- ===== src/Master/Run.antt =====
-- The life of a multi-user endpoint, from its start to its end.
use mathlib.Core.Path.{subst}
use func_x.Prelude.{ℕ, List, [], ◌∷◌, All, arith, Option-cases, inl, inr, if_both, is_empty}
use func_x.Prelude.Python.{Result, return, raise}
use func_x.Master.{Passwd, World, Master, init_master}
use func_x.Master.Children.{Exit, wait_for_children}
use func_x.Master.Commands.{
  Found, Occurrence, sigchld, sigterm, finds, or_rest, reap_if_asked, heartbeat_if_due,
  take_message, master_turn, set_child_died, request_shutdown, event_loop, wait_phase, start_master,
}
use func_x.Master.Safe.{IsSafe}
use func_x.Master.Handling.{IsMessageFromAllowed, IsOccurrenceFromAllowed, handle_message-IsSafe}
use func_x.Master.Reaping.{IsRefreshed, wait_for_children-IsSafe}

module _ (w : World) (IsAllowed : Passwd → Type 0) where
  abbrev Safe : Master → Type 0
  Safe s = IsSafe w IsAllowed s

  take_message-IsSafe :
      (f : Found) (s : Master)
      → IsMessageFromAllowed w IsAllowed f.message f.now
      → Safe s
      → Safe (take_message w f s).1
  unfolding take_message
  take_message-IsSafe f s from h = elim (Option-cases f.message) [
    | inl e ↦ rw (e, take_message) (if_both Safe f.command_stop_event _ s h h)
    | inr (m, e) ↦
        rw (e, take_message)
          (handle_message-IsSafe w IsAllowed m f.now s
            (subst (λ o. IsMessageFromAllowed w IsAllowed o f.now) e from) h)
  ]

  master_turn-IsSafe :
      (f : Found) (s : Master)
      → IsRefreshed w IsAllowed
      → IsMessageFromAllowed w IsAllowed f.message f.now
      → Safe s
      → Safe (master_turn w f s).1
  unfolding master_turn reap_if_asked heartbeat_if_due
  master_turn-IsSafe f s again from h =
      let reaped =
        if_both Safe s.wait_for_child (wait_for_children w f.dead f.now s) s
          (wait_for_children-IsSafe w IsAllowed f.dead f.now s again h) h in
      take_message-IsSafe f _ from (if_both Safe _ _ (reap_if_asked w f s) reaped reaped)

  or_rest-IsSafe :
      (r : Result (Unit {0})) (s : Master) (rest : Result (Unit {0}) × Master)
      → Safe s
      → Safe rest.1
      → Safe (or_rest r s rest).1
  or_rest-IsSafe (raise e) s rest h k = h
  or_rest-IsSafe (return _) s rest h k = k

  event_loop-IsSafe :
      (fs : List Occurrence) (s : Master)
      → IsRefreshed w IsAllowed
      → All (IsOccurrenceFromAllowed w IsAllowed) fs
      → Safe s
      → Safe (event_loop w fs s).1
  unfolding event_loop set_child_died request_shutdown
  event_loop-IsSafe [] s again from h = h
  event_loop-IsSafe (sigchld ∷ fs) s again from h = event_loop-IsSafe fs _ again from.1 h
  event_loop-IsSafe (sigterm ∷ fs) s again from h = event_loop-IsSafe fs _ again from.1 h
  event_loop-IsSafe (finds f ∷ fs) s again from h =
      let next = master_turn-IsSafe f s again from.0 h in
      let rest = event_loop-IsSafe fs (master_turn w f s).1 again from.1 next in
      if_both (λ (r : Result (Unit {0}) × Master). Safe r.1) s.time_to_stop _ _ h
        (or_rest-IsSafe (master_turn w f s).0 _ (event_loop w fs (master_turn w f s).1) next rest)

  wait_phase-IsSafe :
      (looks : List (List (ℕ × Exit))) (now : ℕ) (s : Master)
      → IsRefreshed w IsAllowed
      → Safe s
      → Safe (wait_phase w looks now s)
  unfolding wait_phase
  wait_phase-IsSafe [] now s again h = h
  wait_phase-IsSafe (dead ∷ looks) now s again h = if_both Safe (is_empty s.children) s _ h (
      wait_phase-IsSafe looks now (wait_for_children w dead now s) again
        (wait_for_children-IsSafe w IsAllowed dead now s again h))

  -- The whole life of a new multi-user endpoint, its end included, whatever it is sent and whichever
  -- forks fail: if every command that comes from a local user comes from an allowed one, and an allowed
  -- user stays allowed when it is looked up again, then user endpoints are started for allowed users
  -- only, never for the user that is forbidden as it runs the manager, and no two children run user
  -- endpoints of one name.
  pub start_master-IsSafe :
      (fs : List Occurrence) (terminated killed : List (List (ℕ × Exit))) (now : ℕ)
      → IsRefreshed w IsAllowed
      → All (IsOccurrenceFromAllowed w IsAllowed) fs
      → IsSafe w IsAllowed (start_master w fs terminated killed now init_master)
  unfolding start_master
  start_master-IsSafe fs terminated killed now again from =
      let fresh : Safe init_master = unfold init_master in (tt, tt, λ n. omega arith) in
      let ended = event_loop-IsSafe fs init_master again from fresh in
      wait_phase-IsSafe killed now _ again (wait_phase-IsSafe terminated now _ again ended)
