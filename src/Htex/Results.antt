-- ===== src/Htex/Results.antt =====
-- The results_incoming section of the main loop.
use func_x.Prelude.{ℕ, String, Option, none, some, List, [], ◌∷◌, ◌++◌, length, if◌then◌else◌}
use func_x.Prelude.Int.{pos, ◌-ℤ◌}
use func_x.Prelude.Dict.{Dict, get?, put, get_or, discard, add_new}
use func_x.Prelude.Python.{key_error, Result, return, raise, Action}
use func_x.Dispatch.{Manager}
use func_x.Htex.{Htex, TaskTransition, TaskResult, heartbeat, results}
use func_x.Htex.Cancel.{member, merge}

pub record ManagerStatusReport : Type 0 where
  pub task_statuses : Dict (List TaskTransition)
  pub container_switch_count : ℕ

-- What is noted of the report that a batch begins with, if it begins with one.
unfoldable pub note_report : String → Option ManagerStatusReport → ℕ → Htex → Htex
note_report manager none now s = s
note_report manager (some report) now s = record s {
  task_deltas_to_merge = merge report.task_statuses s.task_deltas_to_merge;
  task_outgoing = s.task_outgoing ++ (manager, heartbeat) ∷ [];
  container_switch_count = put manager report.container_switch_count s.container_switch_count;
}

abbrev pub heard : Option ManagerStatusReport → ℕ → Manager → Manager
heard none now m = m
heard (some report) now m = record m { last = now }

-- `tasks[container].remove(tid)` of a dict of sets that makes a missing set: KeyError, and the set
-- stays, where the task is not in it.
unfoldable pub take_task :
    String → String → Dict (List String) → Result (Unit {0}) × Dict (List String)
take_task container tid tasks =
    let tids = get_or container [] tasks in
    if member tid tids
    then (return tt, put container (discard tid tids) tasks)
    else (raise key_error, put container tids tasks)

-- The loop over the results.
unfoldable pub take_results :
    Dict String → List TaskResult → Dict (List String) → Result (Unit {0}) × Dict (List String)
take_results containers [] tasks = (return tt, tasks)
take_results containers (r ∷ rs) tasks = elim (get? r.container_id containers) [
  | none ↦ (raise key_error, tasks)
  | some container ↦
      let (result, tasks') = take_task container r.task_id tasks in
      elim result [ raise e ↦ (raise e, tasks') | return _ ↦ take_results containers rs tasks' ]
]

unfoldable pub manager_results :
    String → Option ManagerStatusReport → List TaskResult → ℕ → Action Htex (Unit {0})
manager_results manager report rs now s = elim (get? manager s.ready_manager_queue) [
  | none ↦ (return tt, s)
  | some m ↦
      let s' = note_report manager report now s in
      let (result, tasks') = take_results s.containers rs m.tasks in
      let m' = record (heard report now m) { tasks = tasks' } in
      elim result [
        | raise e ↦
            (raise e, record s' { ready_manager_queue = put manager m' s.ready_manager_queue })
        | return _ ↦ (
          return tt,
          record s' {
            ready_manager_queue =
                put manager (record m' { total_tasks = m.total_tasks -ℤ pos (length rs) })
                  s.ready_manager_queue;
            results_outgoing = s.results_outgoing ++ results rs ∷ [];
            interesting_managers = add_new manager s.interesting_managers;
          },
        )
      ]
]
