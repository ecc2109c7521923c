-- ===== src/Htex/Cancel.antt =====
-- Cancelling tasks, and sending the dispatched ones: `enqueue_task_cancel` and the middle sections of
-- the main loop.
use func_x.Prelude.{ℕ, String, Bool, true, false, List, [], ◌∷◌, ◌++◌, is_empty, if◌then◌else◌}
use func_x.Prelude.Dict.{Dict, put, has, remove, ◌=?◌}
use func_x.Dispatch.{Task, Manager}
use func_x.Htex.{
  Htex, TaskTransition, waiting_for_launch, interchange, ToManager, cancel, launch, extend,
}

-- `tid == task_id` for some `tid` of a set.
abbrev pub member : String → List String → Bool
member k [] = false
member k (x ∷ xs) = let rest = member k xs in if x =? k then true else rest

-- One type's tasks of one manager: a task that runs there is moved from the trap to the queue.
unfoldable pub cancel_in : String → String → List String → Htex → Htex
cancel_in task_id manager tids s =
    if member task_id tids
    then record s {
      task_cancel_running_queue = s.task_cancel_running_queue ++ (manager, task_id) ∷ [];
      task_cancel_pending_trap = remove task_id s.task_cancel_pending_trap;
    }
    else s

unfoldable pub cancel_on : String → String → Dict (List String) → Htex → Htex
cancel_on task_id manager [] s = s
cancel_on task_id manager ((task_type, tids) ∷ tasks) s =
    cancel_on task_id manager tasks (cancel_in task_id manager tids s)

unfoldable pub cancel_running : String → Dict Manager → Htex → Htex
cancel_running task_id [] s = s
cancel_running task_id ((name, m) ∷ d) s =
    cancel_running task_id d (cancel_on task_id name m.tasks s)

unfoldable pub enqueue_task_cancel : String → Htex → Htex
enqueue_task_cancel task_id s =
    cancel_running task_id s.ready_manager_queue
      (record s { task_cancel_pending_trap = put task_id task_id s.task_cancel_pending_trap })

-- All requests that wait in the queue, in one go.
abbrev pub cancels : List (String × String) → List (String × ToManager)
cancels [] = []
cancels ((manager, task_id) ∷ rest) = (manager, cancel task_id) ∷ cancels rest

unfoldable pub send_cancels : Htex → Htex
send_cancels s = record s {
  task_outgoing = s.task_outgoing ++ cancels s.task_cancel_running_queue;
  task_cancel_running_queue = [];
}

-- A task that was sent: either it is in the trap, and its cancellation follows, or it is announced.
unfoldable pub announce : String → ℕ → Task → Htex → Htex
announce manager now x s =
    let t : TaskTransition = record {
      timestamp = now;
      state = waiting_for_launch;
      actor = interchange;
    } in
    if has x.task_id s.task_cancel_pending_trap
    then record s {
      task_outgoing = s.task_outgoing ++ (manager, cancel x.task_id) ∷ [];
      task_cancel_pending_trap = remove x.task_id s.task_cancel_pending_trap;
    }
    else record s { task_deltas_to_merge = extend x.task_id (t ∷ []) s.task_deltas_to_merge }

unfoldable pub announce_all : String → ℕ → List Task → Htex → Htex
announce_all manager now [] s = s
announce_all manager now (x ∷ xs) s = announce_all manager now xs (announce manager now x s)

-- The tasks that were dispatched, one message for each manager.
unfoldable pub send_tasks : ℕ → Dict (List Task) → Htex → Htex
send_tasks now [] s = s
send_tasks now ((manager, tasks) ∷ dispatch) s =
    if is_empty tasks
    then send_tasks now dispatch s
    else send_tasks now dispatch (
        announce_all manager now tasks
          (record s { task_outgoing = s.task_outgoing ++ (manager, launch tasks) ∷ [] }))

abbrev pub merge :
    Dict (List TaskTransition) → Dict (List TaskTransition) → Dict (List TaskTransition)
merge [] deltas = deltas
merge ((task_id, ts) ∷ rest) deltas = merge rest (extend task_id ts deltas)

unfoldable pub merge_deltas : Htex → Htex
merge_deltas s = record s {
  task_status_deltas = merge s.task_deltas_to_merge s.task_status_deltas;
  task_deltas_to_merge = [];
}
