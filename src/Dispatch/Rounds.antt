-- ===== src/Dispatch/Rounds.antt =====
-- `dispatch` and `naive_interchange_task_dispatch`: the round over the interesting managers.
use func_x.Prelude.{
  ℕ, ◌+◌, String, Bool, true, false, ◌&&◌, none, some, List, [], ◌∷◌, ◌++◌, length, is_empty,
  if◌then◌else◌,
}
use func_x.Prelude.Int.{ℤ, pos, pos_part, ltb_ℤ, ◌+ℤ◌, ◌-ℤ◌}
use func_x.Prelude.Dict.{Dict, get?, put, get_or, ◌=?◌, discard, add_new}
use func_x.Prelude.Python.{key_error, return, raise, Action, ◌>>=◌, pure}
use func_x.Dispatch.{Task, Manager, Fetch, get_tasks_hard, get_tasks_soft}

-- What a call of `dispatch` changes.
pub record Interchange : Type 0 where
  pub task_dispatch : Dict (List Task)
  pub interesting_managers : List String
  pub pending_task_queue : Dict (List Task)
  pub ready_manager_queue : Dict Manager

pub data Mode : Type 0 where
  hard : Mode
  soft : (warm : Bool) → Mode

abbrev pub min_ℤ : ℤ → ℤ → ℤ
min_ℤ a b = if ltb_ℤ b a then b else a

-- How many tasks a manager can be given.
abbrev pub real_capacity : Manager → ℤ
real_capacity m = min_ℤ m.total_workers (m.max_worker_count -ℤ m.total_tasks)

-- `tasks[task_type].update(ids)` for each type of `tids`.
abbrev pub update_set : List String → List String → List String
update_set [] ids = ids
update_set (x ∷ xs) ids = update_set xs (add_new x ids)

unfoldable pub merge_tids : Dict (List String) → Dict (List String) → Dict (List String)
merge_tids [] tasks = tasks
merge_tids ((task_type, ids) ∷ rest) tasks =
    merge_tids rest (put task_type (update_set ids (get_or task_type [] tasks)) tasks)

-- `interesting_managers.remove(manager)`
unfoldable pub forget : String → Interchange → Interchange
forget name s = record s { interesting_managers = discard name s.interesting_managers }

-- The fetched tasks are entered in the manager's record and in the dispatch.
unfoldable pub assign : String → Fetch → Interchange → Interchange
assign name f s =
    if is_empty f.tasks
    then record s {
      pending_task_queue = f.pending;
      ready_manager_queue = put name f.manager s.ready_manager_queue;
    }
    else record s {
      pending_task_queue = f.pending;
      ready_manager_queue =
          put name
            (record (f.manager) {
              tasks = merge_tids f.tids f.manager.tasks;
              total_tasks = f.manager.total_tasks +ℤ pos (length f.tasks);
            })
            s.ready_manager_queue;
      task_dispatch = put name (get_or name [] s.task_dispatch ++ f.tasks) s.task_dispatch;
    }

module _ (shuffle : List String → List String) where
  unfoldable pub get_tasks : Mode → ℕ → Action Fetch (Unit {0})
  get_tasks hard capacity = get_tasks_hard capacity
  get_tasks (soft warm) capacity = get_tasks_soft shuffle warm capacity

  -- A manager with capacity: fetch, assign, and keep it only while it has free workers. A KeyError
  -- leaves what was taken off the queues out of every record.
  unfoldable pub serve : Mode → String → Manager → Action Interchange ℕ
  serve mode name m s =
      let (result, f) =
        get_tasks mode (pos_part (real_capacity m))
          (record { pending = s.pending_task_queue; manager = m; tasks = []; tids = [] }) in
      elim result [
        | raise e ↦ (
          raise e,
          record s {
            pending_task_queue = f.pending;
            ready_manager_queue = put name f.manager s.ready_manager_queue;
          },
        )
        | return _ ↦
            let s' = assign name f s in
            (
              return (length f.tasks),
              (if ltb_ℤ (pos 0) f.manager.total_workers then s' else forget name s'),
            )
      ]

  -- One round of the loop over the managers.
  unfoldable pub visit : Mode → String → Action Interchange ℕ
  visit mode name s = elim (get? name s.ready_manager_queue) [
    | none ↦ (raise key_error, s)
    | some m ↦
        if ltb_ℤ (pos 0) (real_capacity m) && m.active
        then serve mode name m s
        else (return 0, forget name s)
  ]

  unfoldable pub visit_all : Mode → List String → ℕ → Action Interchange ℕ
  visit_all mode [] dispatched s = (return dispatched, s)
  visit_all mode (name ∷ names) dispatched s =
      (do n ← visit mode name; visit_all mode names (dispatched + n)) s

  unfoldable pub dispatch : Mode → Action Interchange ℕ
  dispatch mode s = visit_all mode (shuffle s.interesting_managers) 0 s

  -- `scheduler_mode` is "hard", "soft" or anything else, which dispatches nothing.
  unfoldable pub naive_interchange_task_dispatch : String → Bool → Action Interchange ℕ
  naive_interchange_task_dispatch scheduler_mode cold_routing s =
      if scheduler_mode =? "hard"
      then dispatch hard s
      else if scheduler_mode =? "soft"
      then (if cold_routing
          then (do warm ← dispatch (soft true); cold ← dispatch (soft false); pure (warm + cold)) s
          else dispatch (soft true) s)
      else (return 0, s)
