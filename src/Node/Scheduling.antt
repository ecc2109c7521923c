-- ===== src/Node/Scheduling.antt =====
-- The second half of a turn of `pull_tasks`: how many workers each type should have, starting and
-- stopping them, and handing tasks to the free ones.
use func_x.Prelude.{
  ℕ, zero, suc, ◌+◌, String, Bool, false, not, none, some, List, [], ◌∷◌, is_empty, if◌then◌else◌,
}
use func_x.Prelude.Int.{ℤ, pos_part}
use func_x.Prelude.Dict.{Dict, get?, get_or, ◌=?◌}
use func_x.Prelude.Python.{
  key_error, Result, raise, return, Action, get, modify, pure, lift, ◌>>=◌, ◌>>◌,
}
use func_x.WorkerMap.{get_worker_counts}
use func_x.WorkerMap.Launch.{spin_up_workers}
use func_x.WorkerMap.Choose.{get_next_worker_q, spin_down_workers}
use func_x.Scheduler.{naive_scheduler}
use func_x.Node.{
  Setup, Node, max_worker_count, on_workers, update_all, remove_worker_init, send_task_to_worker,
}

-- Whether a type has a task in its queue and a free worker. The second queue is looked up only
-- where there is a task.
unfoldable pub has_match : String → Node → Result Bool
has_match task_type s =
    if is_empty (get_or task_type [] s.task_queues)
    then return false
    else elim (get? task_type s.worker_map.worker_queues) [
      | none ↦ raise key_error
      | some workers ↦ return (not (is_empty workers))
    ]

unfoldable pub match_loop : ℕ → String → ℕ → Action Node (Unit {0})
unfolding has_match send_task_to_worker
match_loop zero task_type now = pure tt
match_loop (suc n) task_type now = do
  s ← get
  matched ← lift (has_match task_type s)
  if matched then send_task_to_worker task_type now else pure tt
  match_loop n task_type now

unfoldable pub match_types : Dict ℤ → ℕ → Action Node (Unit {0})
unfolding match_loop
match_types [] now = pure tt
match_types ((task_type, available_workers) ∷ rest) now = do
  if task_type =? "unused" then pure tt else match_loop (pos_part available_workers) task_type now
  match_types rest now

unfoldable pub remove_workers : List String → Action Node (Unit {0})
unfolding remove_worker_init
remove_workers [] = pure tt
remove_workers (w_type ∷ spin_downs) = do remove_worker_init w_type; remove_workers spin_downs

-- The scheduler's counts are numbers; none of the manager's is negative, by `Counted`.
abbrev pub task_counts : Dict ℤ → Dict ℕ
task_counts [] = []
task_counts ((k, n) ∷ d) = (k, pos_part n) ∷ task_counts d

unfoldable pub staff : Setup → Dict ℕ → ℕ → Action Node (Unit {0})
unfolding remove_workers match_types
staff c new_worker_map now = do
  s ← get
  (queue, need_more) ← lift (get_next_worker_q c.shuffle s.worker_map new_worker_map)
  modify (λ s. record s { next_worker_q = queue })
  (spin_ups, rest) ← on_workers (spin_up_workers c.os c.options queue)
  modify (λ s. record s { next_worker_q = rest; worker_procs = update_all spin_ups s.worker_procs })
  s ← get
  (spin_downs, switches) ← lift (
      spin_down_workers s.worker_map new_worker_map c.worker_max_idletime need_more c.scheduler_mode
        now)
  modify (λ s. record s { switch_count = s.switch_count + switches })
  remove_workers spin_downs
  s ← get
  match_types (get_worker_counts s.worker_map) now

-- With too few draws the scheduler is still at its loop, and nothing has happened.
unfoldable pub schedule : Setup → List String → ℕ → Action Node (Unit {0})
unfolding staff max_worker_count
schedule c draws now s =
    elim (naive_scheduler c.share (task_counts s.outstanding_task_count) (max_worker_count c)
      draws) [ none ↦ (return tt, s) | some new_worker_map ↦ staff c new_worker_map now s ]
