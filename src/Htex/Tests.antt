-- ===== src/Htex/Tests.antt =====
-- Runs of the interchange, and the theorems at inputs that meet their hypotheses.
use func_x.Prelude.{
  ◌≡◌, ◌≤◌, refl, String, true, false, ◌&&◌, none, some, List, [], ◌∷◌, ◌++◌, All, arith,
  if◌then◌else◌, length, is_empty, inr, ltb,
}
use func_x.Prelude.Int.{pos, ◌+ℤ◌, ◌-ℤ◌}
use func_x.Prelude.Dict.{Distinct, count, get?, put, has, remove, ◌=?◌}
use func_x.Prelude.Python.{key_error, name_error, return, raise}
use func_x.Prelude.Decimal.{str}
use func_x.Dispatch.{
  Task, Manager, get_tasks_hard, get_tasks_soft, fetch_loop, fetched, use_slot, use_worker, add_tid,
}
use func_x.Dispatch.Rounds.{
  naive_interchange_task_dispatch, dispatch, visit_all, visit, serve, get_tasks, forget, assign,
  merge_tids,
}
use func_x.Htex.{
  Htex, TaskTransition, TaskResult, cancel, launch, results, manager_lost, packed_status_report,
  start, task, waiting_for_launch, interchange, receive_task, get_total_live_workers,
  get_total_tasks_outstanding, get_outstanding_breakdown, get_global_state_for_status_report,
}
use func_x.Htex.Managers.{
  registers, advertises, register, hear, manager_message, hold_manager, hold_block, bad_managers,
  failures, all_failures, drop_manager, drop_managers, expire,
}
use func_x.Htex.Cancel.{
  cancel_in, cancel_on, cancel_running, enqueue_task_cancel, send_cancels, announce, announce_all,
  send_tasks, merge_deltas,
}
use func_x.Htex.Results.{note_report, take_task, take_results, manager_results}
use func_x.Htex.Loop.{
  Config, dispatch_tasks, read_request, read_results, send_all, forward_status, turn,
}
use func_x.Htex.Blocks.{
  Provider, Blocks, scale_out, drop_jobs, hold_blocks, pop_blocks, scale_in_blocks, scale_in,
}
use func_x.Htex.Status.{chunk_loop, chunk_by, status_report}
use func_x.Htex.Sound.{IsRight}
use func_x.Htex.Run.{Event, receives, cancels, reports, turns, step, run, run-start-IsRight}
use func_x.Htex.Lost.{is_silent, held_by, failed, expire-report}
use func_x.Htex.Cancelled.{requests, enqueue_task_cancel_lem}
use func_x.Htex.Trap.{Told, count_tasks, announce_all-Told}
use func_x.Htex.Chunks.{joined, statuses, status_report_lem}
use func_x.Htex.Faults.{IsHeld, scale_in_first}
use func_x.Htex.Stray.{manager_results_stray}

abbrev config : Config
config = record {
  suppress_failure = false;
  scheduler_mode = "hard";
  cold_routing_interval = 10;
  heartbeat_threshold = 120;
}

-- Two tasks come in and the first is to be cancelled. A manager with one worker registers and
-- advertises it, gets the tasks one after the other, and is lost with the second.
abbrev arrivals : List Event
arrivals =
    receives (task "t1" "RAW" "x") 1
    ∷ receives (task "t2" "RAW" "y") 2
    ∷ cancels "t1"
    ∷ turns
        (some (record {
          sender = "m";
          message =
              registers (record { max_worker_count = pos 1; worker_type = "RAW"; block_id = "1" });
        }))
        none (some "report") 0 3
    ∷ []

abbrev work : List Event
work =
    turns
      (some
        (record { sender = "m"; message = advertises (("RAW", pos 1) ∷ []) (("RAW", pos 1) ∷ []) }))
      none none 0 4
    ∷ reports
    ∷ []

abbrev loss : List Event
loss = turns none none none 0 200 ∷ []

program : Unit {0}
unfolding start receive_task get_total_live_workers get_total_tasks_outstanding
    get_outstanding_breakdown get_global_state_for_status_report register hear manager_message
    hold_manager hold_block bad_managers failures all_failures drop_manager drop_managers expire
    cancel_in cancel_on cancel_running enqueue_task_cancel send_cancels announce announce_all
    send_tasks merge_deltas note_report take_task take_results manager_results dispatch_tasks
    read_request read_results send_all forward_status turn scale_out drop_jobs hold_blocks
    pop_blocks scale_in_blocks scale_in chunk_loop chunk_by status_report step run get? put remove
    ◌+ℤ◌ ◌-ℤ◌ get_tasks_hard get_tasks_soft naive_interchange_task_dispatch dispatch visit_all visit
    serve get_tasks fetch_loop fetched use_slot use_worker add_tid str forget assign merge_tids
program = tt

abbrev raw : String → String → Task
raw id body = record { task_id = id; raw_buffer = body }

-- The first task is launched, and cancelled at once, as it was in the trap.
worked :
    let s = run (λ xs. xs) config work (run (λ xs. xs) config arrivals start) in
    (s.total_pending_task_count ≡ pos 1)
    × (s.task_outgoing ≡ ("m", launch (raw "t1" "x" ∷ [])) ∷ ("m", cancel "t1") ∷ [])
    × (s.task_cancel_pending_trap ≡ [])
    × (s.task_status_deltas ≡ [])
unfolding program
worked = (refl, refl, refl, refl)

-- The manager is lost with it.
lost :
    let s =
      run
        (λ xs. xs)
        config
        loss
        (run (λ xs. xs) config work (run (λ xs. xs) config arrivals start)) in
    (s.ready_manager_queue ≡ [])
    × (s.results_outgoing ≡ packed_status_report "report" ∷ manager_lost (("m", "t1") ∷ []) ∷ [])
unfolding program
lost = (refl, refl)

-- The manager of block 1 that runs t1, and an interchange with it.
abbrev manager : Manager
manager = record {
  worker_type = "RAW";
  max_worker_count = pos 2;
  active = true;
  total_tasks = pos 1;
  tasks = ("RAW", "t1" ∷ []) ∷ [];
  free = [];
  total = [];
  total_workers = pos 0;
  last = 0;
  block_id = "1";
}

abbrev transition : TaskTransition
transition = record { timestamp = 1; state = waiting_for_launch; actor = interchange }

abbrev busy : Htex
busy = record {
  interesting_managers = [];
  pending_task_queue = [];
  ready_manager_queue = ("m", manager) ∷ [];
  containers = ("RAW", "RAW") ∷ [];
  total_pending_task_count = pos 0;
  task_cancel_running_queue = [];
  task_cancel_pending_trap = ("t2", "t2") ∷ [];
  task_status_deltas = ("t1", transition ∷ []) ∷ [];
  task_deltas_to_merge = [];
  container_switch_count = [];
  kill_event = false;
  task_outgoing = [];
  results_outgoing = [];
}

abbrev result_of : String → TaskResult
result_of id = record { task_id = id; container_id = "RAW"; body = "" }

-- A result is sent on, and the task leaves its manager.
result_sent :
    let (r, s) = manager_results "m" none (result_of "t1" ∷ []) 5 busy in
    (r ≡ return tt)
    × (s.results_outgoing ≡ results (result_of "t1" ∷ []) ∷ [])
    × (get_total_tasks_outstanding s ≡ ("RAW", 0) ∷ [])
    × (get_outstanding_breakdown s ≡ ("interchange", pos 0, true) ∷ ("m", pos 0, true) ∷ [])
    × (get_total_live_workers s ≡ pos 2)
unfolding program
result_sent = (refl, refl, refl, refl, refl)

busy_reports : length (status_report busy).0 ≡ 1
unfolding program
busy_reports = refl

abbrev provider : Provider
provider = record {
  submit = λ n worker_type task_type. if worker_type =? "none" then "" else "job";
  cancel_type = λ n task_type. "job" ∷ [];
}

abbrev blocks : Blocks
blocks = record {
  blocks = [];
  block_id_map = [];
  block_counter = 0;
  ready_manager_queue = ("m", manager) ∷ [];
  cancelled = [];
}

-- A block is started, and given up again with the manager that runs in it.
scaled :
    let up = scale_out provider "hard" true 1 none blocks in
    let down = scale_in provider "hard" true none [] (some "RAW") up.1 in
    (up.0 ≡ return tt)
    × (up.1.blocks ≡ ("1", "job") ∷ [])
    × (down.0 ≡ return tt)
    × (down.1.blocks ≡ [])
    × (down.1.ready_manager_queue ≡ ("m", record (manager) { active = false }) ∷ [])
unfolding program
scaled = (refl, refl, refl, refl, refl)

held_manager :
    hold_manager "m" (("m", manager) ∷ []) ≡ ("m", record (manager) { active = false }) ∷ []
unfolding program
held_manager = refl

run-start-IsRight_example : IsRight (run (λ xs. xs) config arrivals start)
run-start-IsRight_example =
    run-start-IsRight (λ xs. xs) config (λ P xs h. h) arrivals (tt, (tt, (tt, (omega arith, tt))))

busy-Distinct : Distinct busy.ready_manager_queue
unfolding get?
busy-Distinct = (refl, tt)

expire-report_example :
    let after = expire 120 200 busy in
    let silent = bad_managers 120 200 busy.ready_manager_queue in
    ((name : String)
      → get? name after.ready_manager_queue ≡ elim (get? name busy.ready_manager_queue) [
        | none ↦ none
        | some m ↦ if is_silent 120 200 m then none else some m
      ])
    × (lost : List (String × String)) × ((tid : String)
        → count tid (failed lost) ≡ held_by tid silent)
    × (after.results_outgoing ≡ (if is_empty lost then [] else [] ++ manager_lost lost ∷ []))
expire-report_example = expire-report 120 200 busy busy-Distinct

enqueue_task_cancel_lem_example :
    let after = enqueue_task_cancel "t1" busy in
    let found = requests "t1" busy.ready_manager_queue in
    (after.task_cancel_running_queue ≡ [] ++ found)
    × (has "t1" after.task_cancel_pending_trap ≡ is_empty found)
enqueue_task_cancel_lem_example = enqueue_task_cancel_lem "t1" busy

abbrev sent : List Task
sent = raw "t2" "" ∷ raw "t3" "" ∷ []

announce_all-Told_example :
    Told "t2"
      (count_tasks "t2" sent)
      (has "t2" busy.task_cancel_pending_trap && ltb 0 (count_tasks "t2" sent))
      busy
      (announce_all "m" 7 sent busy)
announce_all-Told_example = announce_all-Told "t2" "m" 7 sent busy

status_report_lem_example :
    let (rs, after) = status_report busy in
    (joined (statuses rs) ≡ busy.task_status_deltas)
    × All (λ d. length d ≤ 4096) (statuses rs)
    × (1 ≤ length rs)
    × (after.task_status_deltas ≡ [])
status_report_lem_example = status_report_lem busy

abbrev two_blocks : Blocks
two_blocks = record (blocks) { blocks = ("1", "job") ∷ ("2", "other") ∷ [] }

two_blocks-Distinct : Distinct two_blocks.blocks
unfolding get?
two_blocks-Distinct = (refl, (refl, tt))

scale_in_first_example :
    let (result, after) = scale_in provider "hard" false (some 1) [] none two_blocks in
    (result ≡ raise name_error)
    × (after.blocks ≡ ("2", "other") ∷ [])
    × (after.cancelled ≡ [])
    × All (λ e. IsHeld ("1" ∷ []) e.1) after.ready_manager_queue
scale_in_first_example = scale_in_first provider "hard" false 1 two_blocks two_blocks-Distinct

manager_results_stray_example :
    let (result, s') = manager_results "m" none (result_of "t1" ∷ result_of "t9" ∷ []) 5 busy in
    (result ≡ raise key_error)
    × (s'.results_outgoing ≡ [])
    × (m' : Manager) × (get? "m" s'.ready_manager_queue ≡ some m')
    × (m'.total_tasks ≡ pos 1)
manager_results_stray_example =
    manager_results_stray "m" manager none (result_of "t1" ∷ []) [] (result_of "t9") 5 busy
      (unfold get? in refl) (inr ("RAW", unfold get? in refl, unfold get? in refl))
