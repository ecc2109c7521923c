-- ===== src/Node/Tests.antt =====
-- Runs of a small manager, and the theorems at inputs that meet their hypotheses.
use func_x.Prelude.{◌≡◌, ◌≢◌, refl, String, true, false, none, some, List, [], ◌∷◌, arith}
use func_x.Prelude.Int.{pos, ◌+ℤ◌, ◌-ℤ◌}
use func_x.Prelude.Dict.{get?, put, remove, =?_iff}
use func_x.Prelude.Decimal.{str}
use func_x.WorkerMap.{
  init, register_worker, get_worker, update_worker_idle, get_worker_counts, ready_worker_count,
}
use func_x.WorkerMap.Launch.{
  Os, Options, worker_id_option, assign_accelerator, modded_command, add_worker, spin_up_workers,
}
use func_x.WorkerMap.Choose.{
  removals, is_recent, num_remove, missing, spin_down_workers, get_next_worker_q, advertisement,
}
use func_x.Scheduler.{naive_scheduler, top_up, proportions}
use func_x.Node.Reports.{put_report, clear_deltas, feed, push_round}
use func_x.Dispatch.{Manager}
use func_x.Htex.{Htex, TaskResult, start, running, manager}
use func_x.Node.{Setup, NodeTask, Node, init_node, remove_task, packed, report}
use func_x.Node.Workers.{register_msg, task_ret}
use func_x.Node.Turn.{Polled, task_batch, cancel_task, turn_node, pull_loop}
use func_x.Node.Run.{
  Event, turns, puts_report, clears_deltas, feeds, pushes, step_node, run_node,
  run_node-init-IsRight,
}
use func_x.Node.Counted.{IsRight}
use func_x.Node.Finished.{BothBreak, turn_node-finished}
use func_x.Node.Pushing.{IsKept, run_node-IsKept}
use func_x.Node.Race.{report_race}

abbrev node_os : Os
node_os = record { exists = λ path. false; join = λ a b. b; popen = λ n command. some 700 }

abbrev node_options : Options
node_options = record {
  mode = "no_container";
  container_cmd_options = "";
  address = "127.0.0.1";
  debug = false;
  uid = "u";
  logdir = "/tmp";
  worker_port = "50001";
}

abbrev setup : Setup
setup = record {
  os = node_os;
  options = node_options;
  worker_type = some "RAW";
  none_key = "none";
  block_id = "0";
  scheduler_mode = "hard";
  max_workers = none;
  cores = 2;
  available_accelerators = [];
  queue_size = 10;
  worker_max_idletime = 60;
  heartbeat_period = 30;
  heartbeat_threshold = 120;
  poll_period = 100;
  share = λ size all workers. workers;
  shuffle = λ xs. xs;
  error_details = λ e. "cancelled";
}

abbrev hello : NodeTask
hello = record { task_id = "t1"; container_id = "RAW"; task_buffer = "b" }

abbrev result : TaskResult
result = record { task_id = "t1"; container_id = "RAW"; body = "42" }

abbrev arrives : Polled
arrives = record {
  worker = none;
  incoming = some (task_batch (("RAW", hello) ∷ []));
  draws = [];
  now = 5;
}

abbrev registers : Polled
registers = record { worker = some ("0", register_msg "RAW"); incoming = none; draws = []; now = 6 }

abbrev history : List Event
history = turns arrives ∷ turns registers ∷ puts_report ∷ feeds ∷ clears_deltas ∷ pushes true ∷ []

program : Unit {0}
unfolding init_node get? put remove ◌+ℤ◌ ◌-ℤ◌ str run_node step_node turn_node naive_scheduler
    top_up proportions spin_up_workers add_worker assign_accelerator modded_command worker_id_option
    spin_down_workers removals is_recent num_remove missing get_next_worker_q advertisement
    pull_loop remove_task put_report clear_deltas feed push_round register_worker get_worker
    update_worker_idle get_worker_counts ready_worker_count init
program = tt

-- The task is sent to the worker, and the report tells that it runs.
history_sends :
    ((run_node setup history (init_node setup)).funcx_task_socket ≡ ("0", hello) ∷ [])
    × ((run_node setup history (init_node setup)).result_outgoing
        ≡ (report (("t1", record { timestamp = 6; state = running; actor = manager } ∷ []) ∷ []) 0
            ∷ [])
          ∷ [])
unfolding program
history_sends = (refl, refl)

raw_is_no_slot : ◌≢◌ {A = String} "RAW" "unused"
raw_is_no_slot = ground (arith, =?_iff "RAW" "unused")

run_node-init-IsRight_example : IsRight (run_node setup history (init_node setup))
run_node-init-IsRight_example =
    run_node-init-IsRight setup history (tt, (raw_is_no_slot, (tt, (tt, (tt, (tt, tt))))))

-- The task has gone to worker "0".
abbrev busy : Node
busy = record (init_node setup) {
  outstanding_task_count = ("RAW", pos 1) ∷ [];
  task_type_mapping = ("t1", "RAW") ∷ [];
  task_worker_map = ("t1", record { worker_id = "0"; task_type = "RAW" }) ∷ [];
  task_recv_counter = 1;
}

abbrev its_entry : Manager
its_entry = record {
  worker_type = "RAW";
  max_worker_count = pos 2;
  active = true;
  total_tasks = pos 1;
  tasks = ("RAW", "t1" ∷ []) ∷ [];
  free = [];
  total = [];
  total_workers = pos 1;
  last = 5;
  block_id = "0";
}

abbrev interchange_state : Htex
interchange_state = record start {
  containers = ("RAW", "RAW") ∷ [];
  ready_manager_queue = ("m", its_entry) ∷ [];
}

turn_node-finished_example :
    BothBreak busy result
      (turn_node setup
        (record {
          worker = some ("0", task_ret result);
          incoming = some (cancel_task "t1");
          draws = [];
          now = 9;
        })
        busy)
      "m"
      none
      10
      interchange_state
unfolding get?
turn_node-finished_example =
    turn_node-finished setup "0" "RAW" (record { worker_id = "0"; task_type = "RAW" }) result [] 9
      busy "m" its_entry none 10 interchange_state refl refl refl refl refl

run_node-IsKept_example :
    IsKept
      (init_node setup)
      (run_node setup (puts_report ∷ feeds ∷ pushes true ∷ []) (init_node setup))
unfolding init_node
run_node-IsKept_example =
    run_node-IsKept setup (puts_report ∷ feeds ∷ pushes true ∷ []) (init_node setup)
      (tt, (tt, (tt, tt))) (tt, tt)

abbrev reporting : Node
reporting = record busy {
  task_status_deltas = ("t1", []) ∷ [];
  pending_result_queue = packed result ∷ [];
}

report_race_example :
    let early = run_node setup (puts_report ∷ feeds ∷ clears_deltas ∷ []) reporting in
    let late = run_node setup (puts_report ∷ clears_deltas ∷ feeds ∷ []) reporting in
    (early.pending_result_queue
      ≡ packed result ∷ report (("t1", []) ∷ []) reporting.switch_count ∷ [])
    × (late.pending_result_queue ≡ packed result ∷ report [] reporting.switch_count ∷ [])
    × (early.task_status_deltas ≡ [])
    × (late.task_status_deltas ≡ [])
report_race_example = report_race setup reporting tt
