-- ===== src/Dispatch/Tests.antt =====
-- Runs of the dispatch, and the theorems at inputs that meet their hypotheses.
use func_x.Prelude.{◌≡◌, ◌≢◌, refl, String, true, false, some, List, [], ◌∷◌, ◌++◌, arith}
use mathlib.Core.Path.{subst}
use func_x.Prelude.Int.{pos, ◌+ℤ◌, ◌-ℤ◌}
use func_x.Prelude.Dict.{Dict, get?, put, get_or}
use func_x.Prelude.Python.{return}
use func_x.Dispatch.{
  Task, Manager, get_tasks_hard, get_tasks_soft, fetch_loop, fetched, use_slot, use_worker,
}
use func_x.Dispatch.Rounds.{
  Interchange, naive_interchange_task_dispatch, dispatch, visit_all, visit, serve, get_tasks,
  forget, assign, merge_tids,
}
use func_x.Dispatch.Fetching.{IsAdvert}
use func_x.Dispatch.Progress.{begin}
use func_x.Dispatch.Service.{IsSound, IsWithin, Serves}
use func_x.Dispatch.Total.{naive_interchange_task_dispatch-Serves}
use func_x.Dispatch.Order.{get_tasks_hard-fifo}

abbrev raw_task : String → Task
raw_task id = record { task_id = id; raw_buffer = "" }

abbrev queues : Dict (List Task)
queues = ("RAW", raw_task "a" ∷ raw_task "b" ∷ raw_task "c" ∷ []) ∷ ("img", raw_task "d" ∷ []) ∷ []

-- A manager of the type "RAW", with one free "RAW" slot and one unused slot.
abbrev manager : Manager
manager = record {
  worker_type = "RAW";
  max_worker_count = pos 3;
  active = true;
  total_tasks = pos 0;
  tasks = [];
  free = ("RAW", pos 1) ∷ ("unused", pos 1) ∷ [];
  total = ("RAW", pos 2) ∷ ("unused", pos 1) ∷ [];
  total_workers = pos 2;
  last = 0;
  block_id = "1";
}

abbrev interchange : Interchange
interchange = record {
  task_dispatch = [];
  interesting_managers = "m" ∷ [];
  pending_task_queue = queues;
  ready_manager_queue = ("m", manager) ∷ [];
}

program : Unit {0}
unfolding get_tasks_hard get_tasks_soft naive_interchange_task_dispatch dispatch visit_all visit
    serve get_tasks fetch_loop fetched use_slot use_worker forget assign merge_tids get? put ◌+ℤ◌
    ◌-ℤ◌
program = tt

-- The hard mode hands out both slots in the queue's order, and the manager is saturated.
hard_round :
    let (result, s) = naive_interchange_task_dispatch (λ xs. xs) "hard" false interchange in
    (result ≡ return 2)
    × (get? "m" s.task_dispatch ≡ some (raw_task "a" ∷ raw_task "b" ∷ []))
    × (get? "RAW" s.pending_task_queue ≡ some (raw_task "c" ∷ []))
    × (s.interesting_managers ≡ [])
unfolding program
hard_round = (refl, refl, refl, refl)

-- Warm routing reaches the "RAW" slot only; cold routing then takes the other worker.
soft_round :
    let (result, s) = naive_interchange_task_dispatch (λ xs. xs) "soft" true interchange in
    (result ≡ return 2) × (get? "m" s.task_dispatch ≡ some (raw_task "a" ∷ raw_task "b" ∷ []))
unfolding program
soft_round = (refl, refl)

manager-IsAdvert : IsAdvert manager
unfolding get?
manager-IsAdvert = record { unused = refl; totals = λ k h. ground arith }

interchange-IsSound : IsSound interchange
unfolding get?
interchange-IsSound = record {
  within = λ name m e.
      let same : manager ≡ m = ground arith in
      subst IsWithin same
        (record { fits = omega arith; free_workers = omega arith; advert = λ _. manager-IsAdvert });
  known = (refl, tt);
}

naive_interchange_task_dispatch-Serves_example :
    Serves interchange (naive_interchange_task_dispatch (λ xs. xs) "soft" true interchange)
naive_interchange_task_dispatch-Serves_example =
    naive_interchange_task_dispatch-Serves (λ xs. xs) (λ P xs h. h) "soft" true interchange
      interchange-IsSound

get_tasks_hard-fifo_example :
    let g = (get_tasks_hard 2 (begin queues manager)).1 in
    (g.tasks ++ get_or "RAW" [] g.pending ≡ get_or "RAW" [] queues)
    × ((k : String) → "RAW" ≢ k → get_or k [] g.pending ≡ get_or k [] queues)
get_tasks_hard-fifo_example = get_tasks_hard-fifo queues manager 2
