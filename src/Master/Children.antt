-- ===== src/Master/Children.antt =====
-- `wait_for_children` and `_revive_child`: children that have stopped, and those that are started
-- again because a command to start them came while they were stopping. An argument of a method is
-- what `os.waitpid` answers, in its order.
use func_x.Prelude.Table.{Table, get_at?, remove_at}
use func_x.Prelude.{ℕ, ◌+◌, false, Option, none, some, List, [], ◌∷◌, ltb, not, if◌then◌else◌}
use func_x.Master.{StartArgs, World, Master, dict, cmd_start_endpoint}

-- `os.waitstatus_to_exitcode`: 0, a positive code, a signal, or a ValueError.
pub data Exit : Type 0 where
  stopped_normally : Exit
  return_code : ℕ → Exit
  by_signal : ℕ → Exit
  unknown_code : Exit

module _ (w : World) where
  -- The cached arguments of a child, unless they have expired.
  unfoldable pub cached_args : ℕ → Table (ℕ × StartArgs) → ℕ → Option StartArgs
  cached_args pid d now = elim (get_at? pid d) [
    | none ↦ none
    | some (since, start_args) ↦ if ltb now (since + w.grace_period) then some start_args else none
  ]

  -- What is raised on the way is logged.
  unfoldable pub revive_child : StartArgs → ℕ → Master → Master
  revive_child a now s = elim (w.getpwuid now a.user_record.pw_uid) [
    | none ↦ s
    | some updated_rec ↦ (cmd_start_endpoint w updated_rec a.args (dict a.kwargs) now s).1
  ]

  abbrev pub uncache : ℕ → Master → Master
  uncache pid s = record s { cached_cmd_start_args = remove_at pid s.cached_cmd_start_args }

  -- `pop` takes the arguments out of the cache before they are looked at.
  unfoldable pub stopped_child : ℕ → ℕ → Master → Master
  unfolding revive_child cached_args
  stopped_child pid now s = elim (cached_args pid s.cached_cmd_start_args now) [
    | none ↦ uncache pid s
    | some a ↦ if not s.time_to_stop then revive_child a now (uncache pid s) else uncache pid s
  ]

  unfoldable pub reap_child : ℕ → Exit → ℕ → Master → Master
  unfolding stopped_child
  reap_child pid stopped_normally now s =
      stopped_child pid now (record s { children = remove_at pid s.children })
  reap_child pid _ now s = record s { children = remove_at pid s.children }

  unfoldable pub reap_all : List (ℕ × Exit) → ℕ → Master → Master
  unfolding reap_child
  reap_all [] now s = s
  reap_all ((pid, exit) ∷ dead) now s = reap_all dead now (reap_child pid exit now s)

  unfoldable pub wait_for_children : List (ℕ × Exit) → ℕ → Master → Master
  unfolding reap_all
  wait_for_children dead now s = reap_all dead now (record s { wait_for_child = false })
