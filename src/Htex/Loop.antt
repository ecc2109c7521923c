-- ===== src/Htex/Loop.antt =====
-- One turn of the main loop in `start`. What the sockets have to read is given; the pollers and the
-- clock are read once in a turn.
use func_x.Prelude.{
  ℕ, ◌+◌, String, Bool, Option, none, some, List, [], ◌∷◌, ◌++◌, if◌then◌else◌, ltb,
}
use func_x.Prelude.Int.{pos, ◌-ℤ◌}
use func_x.Prelude.Dict.{Dict}
use func_x.Prelude.Python.{return, raise, Action, ◌>>=◌, ◌>>◌}
use func_x.Dispatch.{Task}
use func_x.Dispatch.Rounds.{Interchange, naive_interchange_task_dispatch}
use func_x.Htex.{Htex, TaskResult, packed_status_report}
use func_x.Htex.Managers.{ManagerMessage, manager_message, expire}
use func_x.Htex.Cancel.{send_cancels, send_tasks, merge_deltas}
use func_x.Htex.Results.{ManagerStatusReport, manager_results}

pub record Config : Type 0 where
  pub suppress_failure : Bool
  pub scheduler_mode : String
  pub cold_routing_interval : ℕ
  pub heartbeat_threshold : ℕ

-- A message on `task_outgoing`, and one on `results_incoming`.
pub record Request : Type 0 where
  pub sender : String
  pub message : ManagerMessage

pub record ResultBatch : Type 0 where
  pub sender : String
  pub report : Option ManagerStatusReport
  pub items : List TaskResult

abbrev pub to_dispatch : Htex → Interchange
to_dispatch s = record {
  task_dispatch = [];
  interesting_managers = s.interesting_managers;
  pending_task_queue = s.pending_task_queue;
  ready_manager_queue = s.ready_manager_queue;
}

abbrev pub with_dispatch : Interchange → Htex → Htex
with_dispatch i s = record s {
  interesting_managers = i.interesting_managers;
  pending_task_queue = i.pending_task_queue;
  ready_manager_queue = i.ready_manager_queue;
}

module _ (shuffle : List String → List String) (c : Config) where
  -- The tasks that may be passed on, by manager.
  unfoldable pub dispatch_tasks : Bool → Action Htex (Dict (List Task))
  dispatch_tasks cold_routing s =
      let (result, i) =
        naive_interchange_task_dispatch shuffle c.scheduler_mode cold_routing (to_dispatch s) in
      elim result [
        | raise e ↦ (raise e, with_dispatch i s)
        | return dispatched ↦ (
          return i.task_dispatch,
          record (with_dispatch i s) {
            total_pending_task_count = s.total_pending_task_count -ℤ pos dispatched;
          },
        )
      ]

  unfoldable pub read_request : Option Request → ℕ → Action Htex (Unit {0})
  read_request none now s = (return tt, s)
  read_request (some r) now s = manager_message c.suppress_failure r.sender r.message now s

  unfoldable pub read_results : Option ResultBatch → ℕ → Action Htex (Unit {0})
  read_results none now s = (return tt, s)
  read_results (some b) now s = manager_results b.sender b.report b.items now s

  unfoldable pub send_all : ℕ → Dict (List Task) → Action Htex (Unit {0})
  send_all now dispatch s = (return tt, merge_deltas (send_tasks now dispatch (send_cancels s)))

  -- A report that waits in `status_report_queue`, if any.
  unfoldable pub forward_status : Option String → Htex → Htex
  forward_status none s = s
  forward_status (some body) s = record s {
    results_outgoing = s.results_outgoing ++ packed_status_report body ∷ [];
  }

  -- It returns the time of the last cold routing.
  unfoldable pub turn : Option Request → Option ResultBatch → Option String → ℕ → ℕ → Action Htex ℕ
  turn request batch status last_cold_routing_time now =
      let cold_routing = ltb (last_cold_routing_time + c.cold_routing_interval) now in
      do
        read_request request now
        dispatch ← dispatch_tasks cold_routing
        send_all now dispatch
        read_results batch now
        λ s. (
          return (if cold_routing then now else last_cold_routing_time),
          expire c.heartbeat_threshold now (forward_status status s),
        )
