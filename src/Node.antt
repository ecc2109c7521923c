-- ===== src/Node.antt =====
-- engines/high_throughput/manager.py: class Manager, which runs on a node and hands the tasks that
-- the interchange sends to the workers that it starts and stops. A `Node` is what its methods change,
-- the variables of pull_tasks and push_results included; `Setup` is what its constructor is given.
-- ZeroMQ messages are lists of what was sent; JSON, dill and the packing of tasks are left out.
pub mod Workers
pub mod Cancel
pub mod Scheduling
pub mod Turn
pub mod Reports
pub mod Counted
mod Kept
mod Turns
mod Run
mod Finished
mod Pushing
mod Race
mod Tests
use func_x.Prelude.{
  ℕ, suc, min, String, Bool, false, Option, none, some, List, [], ◌∷◌, ◌++◌, length, is_empty, not,
  if◌then◌else◌,
}
use func_x.Prelude.Int.{ℤ, negsuc}
use func_x.Prelude.Dict.{Dict, get?, put, remove, get_or, default, ◌=?◌}
use func_x.Prelude.Python.{
  key_error, queue_empty, Exc, Result, raise, return, Action, get, modify, pure, lift, or_raise,
  ◌>>=◌, ◌>>◌,
}
use func_x.WorkerMap.{
  WorkerMap, bump, get_nowait, get_worker, update_worker_idle, start_remove_worker,
}
use func_x.WorkerMap.Launch.{Os, Options}
use func_x.WorkerMap.Choose.{Ads}
use func_x.Htex.{TaskTransition, TaskResult, running, manager, extend}
use func_x.Htex.Managers.{Registration}

-- What the constructor is given, and what it asks of the node: `cores` is the number of workers that
-- fit on the cores, `share` and `shuffle` are those of the scheduler and the worker map,
-- `error_details` is what a result tells of an exception, `none` for the cancellation that the
-- manager raises itself. `none_key` is None as a key, a text that stands for no worker type.
pub record Setup : Type 0 where
  pub os : Os
  pub options : Options
  pub worker_type : Option String
  pub none_key : String
  pub block_id : String
  pub scheduler_mode : String
  pub max_workers : Option ℕ
  pub cores : ℕ
  pub available_accelerators : List String
  pub queue_size : ℕ
  pub worker_max_idletime : ℕ
  pub heartbeat_period : ℕ
  pub heartbeat_threshold : ℕ
  pub poll_period : ℕ
  pub share : ℕ → ℕ → ℕ → ℕ
  pub shuffle : List String → List String
  pub error_details : Option Exc → String

-- A task as the interchange sends it, unpacked.
pub record NodeTask : Type 0 where
  pub task_id : String
  pub container_id : String
  pub task_buffer : String

-- Where a task was sent to.
pub record Placement : Type 0 where
  pub worker_id : String
  pub task_type : String

-- What waits for the result pusher. A report is put on the queue with the dict of the transitions
-- itself, which the queue's own thread reads when it serializes the report.
pub data Pending : Type 0 where
  packed : TaskResult → Pending
  live_report : (container_switch_count : ℕ) → Pending
  report : (task_statuses : Dict (List TaskTransition)) (container_switch_count : ℕ) → Pending

-- What is sent on task_incoming.
pub data ToInterchange : Type 0 where
  registration : Registration → ToInterchange
  advert : Ads → ToInterchange

pub record Node : Type 0 where
  pub worker_map : WorkerMap
  pub task_queues : Dict (List NodeTask)
  pub outstanding_task_count : Dict ℤ
  pub task_type_mapping : Dict String
  pub task_worker_map : Dict Placement
  pub task_status_deltas : Dict (List TaskTransition)
  pub task_done_counter : ℕ
  pub task_recv_counter : ℕ
  pub worker_procs : Dict ℕ
  pub next_worker_q : List String
  pub switch_count : ℕ
  pub kill_event : Bool
  pub poll_timer : ℕ
  pub last_interchange_contact : ℕ
  pub pending_result_queue : List Pending
  pub items : List Pending
  pub task_incoming : List ToInterchange
  pub funcx_task_socket : List (String × NodeTask)
  pub result_outgoing : List (List Pending)

-- `min(max_workers, floor(cores_on_node / cores_per_worker))`, and no more than there are accelerators.
unfoldable pub max_worker_count : Setup → ℕ
max_worker_count c =
    let fitting : ℕ = elim c.max_workers [ none ↦ c.cores | some n ↦ min n c.cores ] in
    if is_empty c.available_accelerators
    then fitting
    else min fitting (length c.available_accelerators)

unfoldable pub init_node : Setup → Node
unfolding max_worker_count
init_node c = record {
  worker_map = func_x.WorkerMap.init (max_worker_count c) c.available_accelerators;
  task_queues = elim c.worker_type [ none ↦ [] | some t ↦ if t =? "" then [] else (t, []) ∷ [] ];
  outstanding_task_count = [];
  task_type_mapping = [];
  task_worker_map = [];
  task_status_deltas = [];
  task_done_counter = 0;
  task_recv_counter = 0;
  worker_procs = [];
  next_worker_q = [];
  switch_count = 0;
  kill_event = false;
  poll_timer = c.poll_period;
  last_interchange_contact = 0;
  pending_result_queue = [];
  items = [];
  task_incoming = [];
  funcx_task_socket = [];
  result_outgoing = [];
}

-- A method of the worker map, called by a method of the manager.
abbrev pub on_workers : {A : Type 0} → Action WorkerMap A → Action Node A
on_workers act s = let (r, m) = act s.worker_map in (r, record s { worker_map = m })

-- `d.update(new)`
abbrev pub update_all {ℓ} : {V : Type ℓ} → Dict V → Dict V → Dict V
update_all [] d = d
update_all ((k, v) ∷ new) d = update_all new (put k v d)

unfoldable pub remove_task : String → Action Node (Unit {0})
remove_task task_id = do
  s ← get
  task_type ← lift (or_raise key_error (get? task_id s.task_type_mapping))
  modify (λ s. record s {
    task_type_mapping = remove task_id s.task_type_mapping;
    task_status_deltas = remove task_id s.task_status_deltas;
  })
  counts ← lift (bump task_type (negsuc 0) s.outstanding_task_count)
  modify (λ s. record s {
    outstanding_task_count = counts;
    task_done_counter = suc s.task_done_counter;
  })

abbrev pub kill_task : NodeTask
kill_task = record { task_id = "KILL"; container_id = "RAW"; task_buffer = "KILL" }

-- `remove_worker_init`
unfoldable pub remove_worker_init : String → Action Node (Unit {0})
remove_worker_init worker_type = do
  on_workers (start_remove_worker worker_type)
  s ← get
  queue ← lift (or_raise key_error (get? worker_type s.task_queues))
  modify (λ s. record s { task_queues = put worker_type (queue ++ kill_task ∷ []) s.task_queues })

-- A task is noted as running, and where, unless it tells the worker to stop.
unfoldable pub note_running : NodeTask → String → String → ℕ → Node → Node
note_running task worker_id task_type now s =
    if not (task.task_id =? "KILL")
    then record s {
      task_status_deltas =
          extend task.task_id (record { timestamp = now; state = running; actor = manager } ∷ [])
            s.task_status_deltas;
      task_worker_map =
          put task.task_id (record { worker_id = worker_id; task_type = task_type })
            s.task_worker_map;
    }
    else s

-- `get` on an empty queue would wait; the caller has seen that the queue is not empty.
unfoldable pub send_task_to_worker : String → ℕ → Action Node (Unit {0})
unfolding note_running
send_task_to_worker task_type now = do
  s ← get
  queue ← lift (or_raise key_error (get? task_type s.task_queues))
  (task, rest) ← lift (get_nowait queue)
  modify (λ s. record s { task_queues = put task_type rest s.task_queues })
  worker_id ← on_workers (get_worker task_type)
  modify (λ s. record s {
    funcx_task_socket = s.funcx_task_socket ++ (worker_id, task) ∷ [];
    worker_map = update_worker_idle task_type now s.worker_map;
  })
  modify (note_running task worker_id task_type now)

-- The worker type with which add_worker is called outside of the scheduling.
abbrev pub own_type : Setup → String
own_type c = default c.none_key c.worker_type
