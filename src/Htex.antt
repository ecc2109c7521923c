-- ===== src/Htex.antt =====
-- engines/high_throughput/interchange.py, class Interchange: its state, the thread that pulls tasks
-- in, and what it counts for the strategy. The children have the sections of the main loop. What is
-- sent on a socket is appended to a list. Threads take turns at these operations.
pub mod Managers
pub mod Cancel
pub mod Results
pub mod Loop
pub mod Blocks
pub mod Status
pub mod Sound
pub mod Sections
pub mod Run
pub mod Lost
pub mod Cancelled
pub mod Trap
pub mod Stray
pub mod Faults
pub mod Chunks
mod Tests
use func_x.Prelude.{
  ℕ, zero, suc, ◌+◌, ◌==◌, String, Bool, true, false, Option, none, some, List, [], ◌∷◌, ◌++◌,
  length, if◌then◌else◌,
}
use func_x.Prelude.Int.{ℤ, pos, ◌+ℤ◌, ◌-ℤ◌}
use func_x.Prelude.Dict.{Dict, get?, put, get_or, has}
use func_x.Dispatch.{Task, Manager}

pub data TaskState : Type 0 where
  waiting_for_nodes waiting_for_launch running : TaskState

pub data ActorName : Type 0 where
  interchange manager : ActorName

pub record TaskTransition : Type 0 where
  pub timestamp : ℕ
  pub state : TaskState
  pub actor : ActorName

-- A result from a worker: its task, the container type that the task ran in, and the rest of it.
pub record TaskResult : Type 0 where
  pub task_id : String
  pub container_id : String
  pub body : String

-- What is sent to a manager, and what is sent to the engine.
pub data ToManager : Type 0 where
  heartbeat : ToManager
  cancel : (task_id : String) → ToManager
  launch : (tasks : List Task) → ToManager

pub data ToEngine : Type 0 where
  bad_registration : (manager : String) → ToEngine
  results : List TaskResult → ToEngine
  manager_lost : (manager_tasks : List (String × String)) → ToEngine
  packed_status_report : (body : String) → ToEngine

-- `interesting_managers` and `task_deltas_to_merge` are variables of the main loop.
pub record Htex : Type 0 where
  pub interesting_managers : List String
  pub pending_task_queue : Dict (List Task)
  pub ready_manager_queue : Dict Manager
  pub containers : Dict String
  pub total_pending_task_count : ℤ
  pub task_cancel_running_queue : List (String × String)
  pub task_cancel_pending_trap : Dict String
  pub task_status_deltas : Dict (List TaskTransition)
  pub task_deltas_to_merge : Dict (List TaskTransition)
  pub container_switch_count : Dict ℕ
  pub kill_event : Bool
  pub task_outgoing : List (String × ToManager)
  pub results_outgoing : List ToEngine

pub start : Htex
start = record {
  interesting_managers = [];
  pending_task_queue = [];
  ready_manager_queue = [];
  containers = [];
  total_pending_task_count = pos 0;
  task_cancel_running_queue = [];
  task_cancel_pending_trap = [];
  task_status_deltas = [];
  task_deltas_to_merge = [];
  container_switch_count = [];
  kill_event = false;
  task_outgoing = [];
  results_outgoing = [];
}

-- `d[k].append(t)` and `d[k].extend(ts)`, for a dict of lists that makes a missing list.
abbrev pub extend {ℓ} : {A : Type ℓ} → String → List A → Dict (List A) → Dict (List A)
extend k ts d = put k (get_or k [] d ++ ts) d

-- A message on the task pipe, as far as it is told apart.
pub data Incoming : Type 0 where
  failed_to_unpack : Incoming
  heartbeat : Incoming
  task : (task_id container_id raw_buffer : String) → Incoming

abbrev pub max_queue : ℕ
max_queue = 1000000

-- One message in `migrate_tasks_to_internal`. A full queue makes `put` wait: there is no next state
-- until it has room.
unfoldable pub receive_task : Incoming → ℕ → Htex → Option Htex
receive_task failed_to_unpack now s = some s
receive_task heartbeat now s = some s
receive_task (task task_id container_id raw_buffer) now s =
    let pending = get_or container_id [] s.pending_task_queue in
    let x : Task = record { task_id = task_id; raw_buffer = raw_buffer } in
    let t : TaskTransition = record {
      timestamp = now;
      state = waiting_for_nodes;
      actor = interchange;
    } in
    if length pending == max_queue
    then none
    else some (record s {
      containers = put container_id container_id s.containers;
      pending_task_queue = put container_id (pending ++ x ∷ []) s.pending_task_queue;
      total_pending_task_count = s.total_pending_task_count +ℤ pos 1;
      task_status_deltas = extend task_id (t ∷ []) s.task_status_deltas;
    })

-- `get_total_tasks_outstanding`
abbrev pub add_count {ℓ} : {A : Type ℓ} → Dict (List A) → Dict ℕ → Dict ℕ
add_count [] outstanding = outstanding
add_count ((task_type, xs) ∷ d) outstanding =
    add_count d (put task_type (get_or task_type 0 outstanding + length xs) outstanding)

abbrev pub add_managers : Dict Manager → Dict ℕ → Dict ℕ
add_managers [] outstanding = outstanding
add_managers ((name, m) ∷ d) outstanding = add_managers d (add_count m.tasks outstanding)

pub get_total_tasks_outstanding : Htex → Dict ℕ
get_total_tasks_outstanding s =
    add_managers s.ready_manager_queue (add_count s.pending_task_queue [])

abbrev pub live_workers : Dict Manager → ℤ
live_workers [] = pos 0
live_workers ((name, m) ∷ d) =
    if m.active then m.max_worker_count +ℤ live_workers d else live_workers d

pub get_total_live_workers : Htex → ℤ
get_total_live_workers s = live_workers s.ready_manager_queue

-- `sum(len(tids) for tids in d.values())`
abbrev pub total_length {ℓ} : {A : Type ℓ} → Dict (List A) → ℕ
total_length [] = 0
total_length ((k, xs) ∷ d) = length xs + total_length d

abbrev pub breakdown : Dict Manager → List (String × ℤ × Bool)
breakdown [] = []
breakdown ((name, m) ∷ d) = (name, pos (total_length m.tasks), m.active) ∷ breakdown d

pub get_outstanding_breakdown : Htex → List (String × ℤ × Bool)
get_outstanding_breakdown s =
    ("interchange", s.total_pending_task_count, true) ∷ breakdown s.ready_manager_queue

-- `get_global_state_for_status_report`
pub record GlobalState : Type 0 where
  pub managers : ℕ
  pub total_workers : ℤ
  pub idle_workers : ℤ
  pub pending_tasks : ℤ
  pub outstanding_tasks : Dict ℕ

abbrev pub free_workers : Dict Manager → ℤ
free_workers [] = pos 0
free_workers ((name, m) ∷ d) = m.total_workers +ℤ free_workers d

pub get_global_state_for_status_report : Htex → GlobalState
unfolding get_total_live_workers get_total_tasks_outstanding
get_global_state_for_status_report s = record {
  managers = length s.ready_manager_queue;
  total_workers = get_total_live_workers s;
  idle_workers = free_workers s.ready_manager_queue;
  pending_tasks = s.total_pending_task_count;
  outstanding_tasks = get_total_tasks_outstanding s;
}
