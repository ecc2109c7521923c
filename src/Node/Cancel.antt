-- ===== src/Node/Cancel.antt =====
-- The TASK_CANCEL branch of `pull_tasks`: the worker that has the task is killed, and another one is
-- started in its place.
use func_x.Prelude.{String, Bool, true, false, Option, none, some, [], ◌∷◌, ◌++◌}
use func_x.Prelude.Dict.{get?, remove}
use func_x.Prelude.Decimal.{str}
use func_x.Prelude.Python.{
  key_error, Exc, Result, raise, return, Action, get, modify, pure, lift, or_raise, ◌>>=◌, ◌>>◌,
}
use func_x.WorkerMap.{start_remove_worker, remove_worker}
use func_x.WorkerMap.Launch.{Options, add_worker}
use func_x.Node.{Setup, Placement, Node, packed, on_workers, update_all, remove_task, own_type}

-- The `try`, up to the TaskCancelled that it ends with.
unfoldable pub kill_worker : Placement → Action Node (Unit {0})
kill_worker place = do
  on_workers (start_remove_worker place.task_type)
  s ← get
  proc ← lift (or_raise key_error (get? place.worker_id s.worker_procs))
  modify (λ s. record s { worker_procs = remove place.worker_id s.worker_procs })
  on_workers (remove_worker place.worker_id)

abbrev pub raised : Result (Unit {0}) → Option Exc
raised (return _) = none
raised (raise e) = some e

-- `add_worker` is called without the worker mode, which is then the one without containers.
abbrev pub plain_options : Options → Options
plain_options options = record options { mode = "no_container" }

-- What follows the `try`: the result that tells of the exception, a new worker, and the books.
unfoldable pub finish_cancel : Setup → String → String → Option Exc → Action Node (Unit {0})
finish_cancel c task_id worker_type error = do
  modify (λ s. record s {
    pending_result_queue =
        s.pending_result_queue
        ++ packed
            (record { task_id = task_id; container_id = worker_type; body = c.error_details error })
          ∷ [];
  })
  s ← get
  worker_proc ←
      on_workers (
        add_worker c.os (plain_options c.options) (str s.worker_map.worker_id_counter) (own_type c))
  modify (λ s. record s {
    worker_procs = update_all worker_proc s.worker_procs;
    task_worker_map = remove task_id s.task_worker_map;
  })
  remove_task task_id

-- Whether the turn goes on to the scheduling, and does not `continue` with the next turn.
unfoldable pub task_cancel : Setup → String → Action Node Bool
unfolding kill_worker finish_cancel
task_cancel c task_id s = elim (get? task_id s.task_worker_map) [
  | none ↦ (return false, s)
  | some place ↦
      let (r, s') = kill_worker place s in
      (finish_cancel c task_id place.task_type (raised r) >> pure true) s'
]
