-- ===== src/Node/Turn.antt =====
-- A turn of the loop of `pull_tasks`, and the start of the manager.
use func_x.Prelude.{
  ℕ, ◌+◌, ◌*◌, min, String, Bool, true, false, ◌&&◌, Option, none, some, List, [], ◌∷◌, ◌++◌,
  length, ltb, ◌==◌, if◌then◌else◌,
}
use func_x.Prelude.Int.{ℤ, pos, ltb_ℤ, ◌-ℤ◌}
use func_x.Prelude.Dict.{get_or, put, ◌=?◌}
use func_x.Prelude.Decimal.{str}
use func_x.Prelude.Python.{Result, raise, return, Action, get, modify, pure, ◌>>=◌, ◌>>◌}
use func_x.WorkerMap.{add_to, ready_worker_count}
use func_x.WorkerMap.Launch.{add_worker}
use func_x.WorkerMap.Choose.{advertisement}
use func_x.Htex.Managers.{Registration}
use func_x.Node.{
  Setup, NodeTask, Node, registration, advert, max_worker_count, on_workers, update_all, own_type,
}
use func_x.Node.Workers.{WorkerMessage, poll_funcx_task_socket}
use func_x.Node.Cancel.{plain_options, task_cancel}
use func_x.Node.Scheduling.{schedule}

-- What the interchange sends; each task comes with the type of container that runs it.
pub data FromInterchange : Type 0 where
  stop : FromInterchange
  cancel_task : (task_id : String) → FromInterchange
  heartbeat_code : FromInterchange
  task_batch : (tasks : List (String × NodeTask)) → FromInterchange

-- How a turn ends: with the scheduling, by `continue`, or by `break`.
pub data Flow : Type 0 where
  goes_on continues breaks : Flow

-- What a turn finds: the message of a worker, the message of the interchange, the draws of the
-- scheduler, and the time.
pub record Polled : Type 0 where
  pub worker : Option (String × WorkerMessage)
  pub incoming : Option FromInterchange
  pub draws : List String
  pub now : ℕ

-- create_reg_message; of the versions and the node only log messages speak.
unfoldable pub create_reg_message : Setup → Registration
create_reg_message c = record {
  max_worker_count = pos (max_worker_count c);
  worker_type = own_type c;
  block_id = c.block_id;
}

-- `pending_task_count`
abbrev pub pending_task_count : Node → ℤ
pending_task_count s = pos s.task_recv_counter -ℤ pos s.task_done_counter

unfoldable pub advertise : Setup → Node → Node
unfolding max_worker_count
advertise c s =
    if ltb_ℤ (pending_task_count s) (pos (c.queue_size + max_worker_count c))
      && ltb_ℤ (pos 0) (ready_worker_count s.worker_map)
    then record s { task_incoming = s.task_incoming ++ advert (advertisement s.worker_map) ∷ [] }
    else s

unfoldable pub take_in : String → NodeTask → Node → Node
take_in task_type task s = record s {
  task_queues = put task_type (get_or task_type [] s.task_queues ++ task ∷ []) s.task_queues;
  outstanding_task_count = add_to task_type (pos 1) s.outstanding_task_count;
  task_type_mapping = put task.task_id task_type s.task_type_mapping;
}

unfoldable pub take_in_all : List (String × NodeTask) → Node → Node
unfolding take_in
take_in_all [] s = s
take_in_all ((task_type, task) ∷ tasks) s = take_in_all tasks (take_in task_type task s)

unfoldable pub take_batch : List (String × NodeTask) → Node → Node
unfolding take_in_all
take_batch tasks s =
    take_in_all tasks (record s { task_recv_counter = s.task_recv_counter + length tasks })

unfoldable pub handle_incoming : Setup → FromInterchange → Action Node Flow
unfolding task_cancel take_batch
handle_incoming c stop s = (return breaks, record s { kill_event = true })
handle_incoming c (cancel_task task_id) s =
    (task_cancel c task_id >>= (λ finished. pure (if finished then goes_on else continues))) s
handle_incoming c heartbeat_code s = (return goes_on, s)
handle_incoming c (task_batch tasks) s = (return goes_on, take_batch tasks s)

-- The time to wait doubles up to the heartbeat period, which is in seconds.
unfoldable pub wait_longer : Setup → ℕ → ℕ
wait_longer c poll_timer =
    let timer = if poll_timer == 0 then c.poll_period else poll_timer in
    min (c.heartbeat_period * 1000) (timer * 2)

unfoldable pub no_incoming : Setup → ℕ → Action Node Flow
unfolding wait_longer
no_incoming c now s =
    let s' = record s { poll_timer = wait_longer c s.poll_timer } in
    if ltb (s.last_interchange_contact + c.heartbeat_threshold) now
    then (return breaks, record s' { kill_event = true })
    else (return goes_on, s')

unfoldable pub receive : Setup → Option FromInterchange → ℕ → Action Node Flow
unfolding handle_incoming no_incoming
receive c none now s = no_incoming c now s
receive c (some message) now s =
    handle_incoming c message (record s { poll_timer = 0; last_interchange_contact = now })

unfoldable pub poll_worker : Option (String × WorkerMessage) → ℕ → Node → Node
unfolding poll_funcx_task_socket
poll_worker none now s = s
poll_worker (some (w_id, message)) now s = poll_funcx_task_socket w_id message now s

abbrev pub after_receiving : Setup → Polled → Flow → Action Node Flow
after_receiving c p goes_on = do schedule c p.draws p.now; pure goes_on
after_receiving c p continues = pure continues
after_receiving c p breaks = pure breaks

unfoldable pub turn_node : Setup → Polled → Action Node Flow
unfolding advertise poll_worker receive schedule
turn_node c p = do
  modify (advertise c)
  modify (poll_worker p.worker p.now)
  flow ← receive c p.incoming p.now
  after_receiving c p flow

-- Whether there is another turn after one.
abbrev pub after_turn : Result Flow → Node → Result (Unit {0}) × Node → Result (Unit {0}) × Node
after_turn (raise e) s rest = (raise e, s)
after_turn (return breaks) s rest = (return tt, s)
after_turn (return continues) s rest = rest
after_turn (return goes_on) s rest = rest

-- The loop, on what its turns find.
unfoldable pub pull_loop : Setup → List Polled → Action Node (Unit {0})
pull_loop c [] s = (return tt, s)
pull_loop c (p ∷ ps) s =
    let (r, s') = turn_node c p s in
    let rest = pull_loop c ps s' in if s.kill_event then (return tt, s) else after_turn r s' rest

unfoldable pub pull_tasks : Setup → ℕ → List Polled → Action Node (Unit {0})
unfolding pull_loop create_reg_message
pull_tasks c now ps = do
  modify (λ s. record s {
    task_incoming = s.task_incoming ++ registration (create_reg_message c) ∷ [];
    last_interchange_contact = now;
    task_recv_counter = 0;
    poll_timer = c.poll_period;
  })
  pull_loop c ps

-- The first worker, which only a manager of a fixed type in hard mode starts.
abbrev pub is_hard : Setup → Bool
is_hard c = elim c.worker_type [
  | none ↦ false
  | some t ↦ if t =? "" then false else c.scheduler_mode =? "hard"
]

unfoldable pub start_first : Setup → Action Node (Unit {0})
start_first c = do
  s ← get
  procs ←
      on_workers (
        add_worker c.os (plain_options c.options) (str s.worker_map.worker_id_counter) (own_type c))
  modify (λ s. record s { worker_procs = update_all procs s.worker_procs })

unfoldable pub start_node : Setup → ℕ → List Polled → Action Node (Unit {0})
unfolding pull_tasks start_first
start_node c now ps = do if is_hard c then start_first c else pure tt; pull_tasks c now ps
