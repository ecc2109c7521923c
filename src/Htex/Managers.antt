-- ===== src/Htex/Managers.antt =====
-- Managers: what they send on the task socket, putting them on hold, and dropping those that have
-- not been heard of for too long.
use func_x.Prelude.{
  ℕ, ◌+◌, String, Bool, true, false, ◌&&◌, none, some, List, [], ◌∷◌, ◌++◌, is_empty, ltb,
  if◌then◌else◌,
}
use func_x.Prelude.Int.{ℤ, pos}
use func_x.Prelude.Dict.{Dict, get?, put, remove, ◌=?◌, add_new, discard}
use func_x.Prelude.Python.{unpickling_error, return, raise, Action}
use func_x.WorkerMap.{sum_values}
use func_x.Dispatch.{Manager}
use func_x.Htex.{Htex, heartbeat, bad_registration, manager_lost}

-- What manager.py registers with; of the versions only log messages speak.
pub record Registration : Type 0 where
  pub max_worker_count : ℤ
  pub worker_type : String
  pub block_id : String

-- The second part of a message: a registration in JSON, the word HEARTBEAT, or a pickled
-- advertisement, `WorkerMap.advertisement` of the sender.
pub data ManagerMessage : Type 0 where
  registers : Registration → ManagerMessage
  beats : ManagerMessage
  advertises : (total free : Dict ℤ) → ManagerMessage

-- The first message of a manager has to be a registration.
unfoldable pub register : Bool → String → ManagerMessage → ℕ → Htex → Htex
register suppress_failure manager (registers r) now s = record s {
  interesting_managers = add_new manager s.interesting_managers;
  ready_manager_queue =
      put manager
        (record {
          worker_type = r.worker_type;
          max_worker_count = r.max_worker_count;
          active = true;
          total_tasks = pos 0;
          tasks = [];
          free = [];
          total = [];
          total_workers = pos 0;
          last = now;
          block_id = r.block_id;
        })
        s.ready_manager_queue;
}
register suppress_failure manager beats now s = if suppress_failure then s else record s {
  kill_event = true;
  results_outgoing = s.results_outgoing ++ bad_registration manager ∷ [];
}
register suppress_failure manager (advertises total free) now s =
    if suppress_failure then s else record s {
      kill_event = true;
      results_outgoing = s.results_outgoing ++ bad_registration manager ∷ [];
    }

-- A message of a manager that is registered. A second registration is no pickle.
unfoldable pub hear : String → Manager → ManagerMessage → ℕ → Action Htex (Unit {0})
hear manager m beats now s = (
  return tt,
  record s {
    ready_manager_queue = put manager (record m { last = now }) s.ready_manager_queue;
    task_outgoing = s.task_outgoing ++ (manager, heartbeat) ∷ [];
  },
)
hear manager m (advertises total free) now s = (
  return tt,
  record s {
    ready_manager_queue =
        put manager
          (record m { last = now; total = total; free = free; total_workers = sum_values free })
          s.ready_manager_queue;
    interesting_managers = add_new manager s.interesting_managers;
  },
)
hear manager m (registers r) now s = (
  raise unpickling_error,
  record s { ready_manager_queue = put manager (record m { last = now }) s.ready_manager_queue },
)

-- The task_outgoing section of the main loop.
unfoldable pub manager_message : Bool → String → ManagerMessage → ℕ → Action Htex (Unit {0})
manager_message suppress_failure manager message now s = elim (get? manager s.ready_manager_queue) [
  | none ↦ (return tt, register suppress_failure manager message now s)
  | some m ↦ hear manager m message now s
]

unfoldable pub hold_manager : String → Dict Manager → Dict Manager
hold_manager manager d = elim (get? manager d) [
  | none ↦ d
  | some m ↦ put manager (record m { active = false }) d
]

-- `_hold_block`: every active manager of the block is put on hold.
unfoldable pub hold_block : String → Dict Manager → Dict Manager
hold_block block_id [] = []
hold_block block_id ((name, m) ∷ d) =
    (name, (if m.active && (m.block_id =? block_id) then record m { active = false } else m))
    ∷ hold_block block_id d

-- Who has not been heard of since `now - heartbeat_threshold`.
unfoldable pub bad_managers : ℕ → ℕ → Dict Manager → Dict Manager
bad_managers heartbeat_threshold now [] = []
bad_managers heartbeat_threshold now ((name, m) ∷ d) =
    let rest = bad_managers heartbeat_threshold now d in
    if ltb (m.last + heartbeat_threshold) now then (name, m) ∷ rest else rest

-- The ManagerLost failures, one for each task of a manager.
abbrev pub task_failures : String → List String → List (String × String)
task_failures name [] = []
task_failures name (tid ∷ tids) = (name, tid) ∷ task_failures name tids

unfoldable pub failures : String → Dict (List String) → List (String × String)
failures name [] = []
failures name ((task_type, tids) ∷ tasks) = task_failures name tids ++ failures name tasks

unfoldable pub all_failures : Dict Manager → List (String × String)
all_failures [] = []
all_failures ((name, m) ∷ d) = failures name m.tasks ++ all_failures d

unfoldable pub drop_manager : String → Htex → Htex
drop_manager name s = record s {
  ready_manager_queue = remove name s.ready_manager_queue;
  interesting_managers = discard name s.interesting_managers;
}

unfoldable pub drop_managers : Dict Manager → Htex → Htex
drop_managers [] s = s
drop_managers ((name, m) ∷ d) s = drop_managers d (drop_manager name s)

-- The last section of the main loop.
unfoldable pub expire : ℕ → ℕ → Htex → Htex
expire heartbeat_threshold now s =
    let bad = bad_managers heartbeat_threshold now s.ready_manager_queue in
    let messages = all_failures bad in
    let s' = drop_managers bad s in
    if is_empty messages
    then s'
    else record s' { results_outgoing = s'.results_outgoing ++ manager_lost messages ∷ [] }
