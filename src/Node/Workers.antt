-- ===== src/Node/Workers.antt =====
-- `poll_funcx_task_socket`: what the workers of a node send. What the handling raises is logged, and
-- the changes that it has made stay.
use func_x.Prelude.{ℕ, String, [], ◌∷◌, ◌++◌}
use func_x.Prelude.Dict.{get?, remove}
use func_x.Prelude.Python.{
  key_error, Result, raise, return, Action, get, modify, pure, throw, lift, or_raise, ◌>>=◌, ◌>>◌,
}
use func_x.WorkerMap.{register_worker, put_worker, remove_worker}
use func_x.Htex.{TaskResult}
use func_x.Node.{Node, packed, on_workers, remove_task}

pub data WorkerMessage : Type 0 where
  register_msg : (worker_type : String) → WorkerMessage
  task_ret : TaskResult → WorkerMessage
  wrkr_die : WorkerMessage
  other : WorkerMessage

-- The `else` of the `try` around remove_task: the result is passed on, and the worker is free.
abbrev pub pass_result : String → TaskResult → Action Node (Unit {0})
pass_result w_id message = do
  modify (λ s. record s { pending_result_queue = s.pending_result_queue ++ packed message ∷ [] })
  on_workers (put_worker w_id)

abbrev pub after_removal : String → TaskResult → Result (Unit {0}) → Action Node (Unit {0})
after_removal w_id message (raise key_error) = pure tt
after_removal w_id message (raise e) = throw e
after_removal w_id message (return _) = pass_result w_id message

abbrev pub drop_worker : String → Action Node (Unit {0})
drop_worker w_id = do
  on_workers (remove_worker w_id)
  s ← get
  proc ← lift (or_raise key_error (get? w_id s.worker_procs))
  modify (λ s. record s { worker_procs = remove w_id s.worker_procs })

unfoldable pub handle_worker : String → WorkerMessage → ℕ → Action Node (Unit {0})
unfolding remove_task
handle_worker w_id (register_msg worker_type) now s =
    (return tt, record s { worker_map = register_worker w_id worker_type now s.worker_map })
handle_worker w_id (task_ret message) now s =
    let (r, s') = remove_task message.task_id s in after_removal w_id message r s'
handle_worker w_id wrkr_die now s = drop_worker w_id s
handle_worker w_id other now s = (return tt, s)

unfoldable pub poll_funcx_task_socket : String → WorkerMessage → ℕ → Node → Node
unfolding handle_worker
poll_funcx_task_socket w_id message now s = (handle_worker w_id message now s).1
