-- ===== src/Node/Finished.antt =====
-- A task that a worker has finished, and that is cancelled then: what the manager does, and what the
-- interchange does with what the manager sends.
use mathlib.Core.Path.{subst}
use mathlib.Core.List.{append_assoc}
use func_x.Prelude.{
  ℕ, suc, ◌≡◌, refl, ◌∙◌, ap, sym, String, true, Option, none, some, List, [], ◌∷◌, ◌++◌,
  Option-cases, inl, inr, if_both,
}
use func_x.Prelude.Int.{negsuc}
use func_x.Prelude.Dict.{Dict, get?, remove, has, =?_refl, get?-remove}
use func_x.Prelude.Decimal.{str}
use func_x.Prelude.Python.{key_error, Exc, Result, return, raise, Result-cases}
use func_x.WorkerMap.{WorkerMap, add_to, start_remove_worker}
use func_x.WorkerMap.Counts.{bump-eq-return}
use func_x.WorkerMap.Launch.{add_worker}
use func_x.Htex.{Htex, TaskResult}
use func_x.Dispatch.{Manager}
use func_x.Htex.Stray.{manager_results_twice}
use func_x.Htex.Results.{ManagerStatusReport, manager_results}
use func_x.Node.{Setup, Placement, Node, ToInterchange, packed, own_type, remove_task}
use func_x.Node.Workers.{task_ret, handle_worker, poll_funcx_task_socket, after_removal}
use func_x.Node.Cancel.{kill_worker, finish_cancel, task_cancel, raised, plain_options}
use func_x.Node.Turn.{
  Flow, cancel_task, Polled, advertise, handle_incoming, receive, poll_worker, turn_node,
}

remove_task_lem :
    (id t : String) (s : Node)
    → get? id s.task_type_mapping ≡ some t
    → has t s.outstanding_task_count ≡ true
    → remove_task id s ≡ (
      return tt,
      record s {
        task_type_mapping = remove id s.task_type_mapping;
        task_status_deltas = remove id s.task_status_deltas;
        outstanding_task_count = add_to t (negsuc 0) s.outstanding_task_count;
        task_done_counter = suc s.task_done_counter;
      },
    )
unfolding remove_task
remove_task_lem id t s e h = rw (e, bump-eq-return t (negsuc 0) s.outstanding_task_count h)

-- What a finished task leaves: the result is passed on, and it stays noted where the task was.
record IsFinished (r : TaskResult) (s s' : Node) : Type 0 where
  passed : s'.pending_result_queue ≡ s.pending_result_queue ++ packed r ∷ []
  placed : s'.task_worker_map ≡ s.task_worker_map
  gone : get? r.task_id s'.task_type_mapping ≡ none
  alive : s'.kill_event ≡ s.kill_event

poll_worker-IsFinished :
    (w t : String) (r : TaskResult) (now : ℕ) (s : Node)
    → get? r.task_id s.task_type_mapping ≡ some t
    → has t s.outstanding_task_count ≡ true
    → IsFinished r s (poll_worker (some (w, task_ret r)) now s)
unfolding poll_worker poll_funcx_task_socket handle_worker
poll_worker-IsFinished w t r now s e h =
    subst (λ x. IsFinished r s (after_removal w r x.0 x.1).1)
      (sym (remove_task_lem r.task_id t s e h))
      (record {
        passed = refl;
        placed = refl;
        gone = rw (get?-remove r.task_id r.task_id s.task_type_mapping, =?_refl r.task_id) refl;
        alive = refl;
      })

-- Killing a worker changes the worker map and the table of processes.
kill_worker_lem :
    (p : Placement) (s : Node)
    → (m : WorkerMap) × (d : Dict ℕ) × ((kill_worker p s).1
        ≡ record s { worker_map = m; worker_procs = d })
unfolding kill_worker
kill_worker_lem p s = elim (Result-cases (start_remove_worker p.task_type s.worker_map).0) [
  | inr (x, q) ↦ rw q (_, _, refl)
  | inl (u, q) ↦ elim (Option-cases (get? p.worker_id s.worker_procs)) [
    | inl e ↦ rw (q, e) (_, _, refl)
    | inr (proc, e) ↦ rw (q, e) (_, _, refl)
  ]
]

finish_cancel_done :
    (c : Setup) (id t : String) (error : Option Exc) (s : Node)
    → get? id s.task_type_mapping ≡ none
    → (e : Exc) × ((finish_cancel c id t error s).0 ≡ raise e)
      × ((finish_cancel c id t error s).1.kill_event ≡ s.kill_event)
      × ((finish_cancel c id t error s).1.pending_result_queue
          ≡ s.pending_result_queue
            ++ packed (record { task_id = id; container_id = t; body = c.error_details error })
              ∷ [])
unfolding finish_cancel remove_task
finish_cancel_done c id t error s h =
    elim (Result-cases
      (add_worker c.os (plain_options c.options) (str s.worker_map.worker_id_counter) (own_type c)
        s.worker_map).0) [
          | inl (procs, q) ↦ rw (q, h) (key_error, refl, refl, refl)
          | inr (e, q) ↦ rw q (e, refl, refl, refl)
        ]

-- The second result of a task.
abbrev pub cancelled : Setup → String → String → Option Exc → TaskResult
cancelled c id t error = record { task_id = id; container_id = t; body = c.error_details error }

-- An exception, no end of the other threads, and a second result of the task.
abbrev pub IsBroken : {A : Type 0} → Setup → String → String → Node → Result A × Node → Type 0
IsBroken c id t s out =
    (exc : Exc) × (error : Option Exc) × (out.0 ≡ raise exc)
    × (out.1.kill_event ≡ s.kill_event)
    × (out.1.pending_result_queue ≡ s.pending_result_queue ++ packed (cancelled c id t error) ∷ [])

task_cancel-IsBroken :
    (c : Setup) (id : String) (place : Placement) (s : Node)
    → get? id s.task_worker_map ≡ some place
    → get? id s.task_type_mapping ≡ none
    → IsBroken c id place.task_type s (task_cancel c id s)
unfolding task_cancel
task_cancel-IsBroken c id place s e h =
    let error = raised (kill_worker place s).0 in
    let (m, d, q) = kill_worker_lem place s in
    let killed = record s { worker_map = m; worker_procs = d } in
    let (exc, raises, alive, told) = finish_cancel_done c id place.task_type error killed h in
    rw (e, q, raises, task_cancel) (exc, error, refl, alive, told)

advertise-same :
    (c : Setup) (s : Node)
    → (out : List ToInterchange) × (advertise c s ≡ record s { task_incoming = out })
unfolding advertise
advertise-same c s =
    if_both (λ (x : Node). (out : List ToInterchange) × (x ≡ record s { task_incoming = out })) _ _
      _ (_, refl) (s.task_incoming, refl)

-- The message of the worker and the request to cancel, handled one after the other.
both_handled :
    (c : Setup) (w t : String) (place : Placement) (r : TaskResult) (p : Polled) (s : Node)
    → get? r.task_id s.task_type_mapping ≡ some t
    → has t s.outstanding_task_count ≡ true
    → get? r.task_id s.task_worker_map ≡ some place
    → (exc : Exc) × (error : Option Exc) × ((receive c
          (some (cancel_task r.task_id))
          p.now
          (poll_worker (some (w, task_ret r)) p.now s)).0
        ≡ raise exc)
      × ((receive c
            (some (cancel_task r.task_id))
            p.now
            (poll_worker (some (w, task_ret r)) p.now s)).1.kill_event
          ≡ s.kill_event)
      × ((receive c
            (some (cancel_task r.task_id))
            p.now
            (poll_worker (some (w, task_ret r)) p.now s)).1.pending_result_queue
          ≡ s.pending_result_queue
            ++ packed r ∷ packed (cancelled c r.task_id place.task_type error) ∷ [])
unfolding receive handle_incoming
both_handled c w t place r p s e h q =
    let begun = poll_worker (some (w, task_ret r)) p.now s in
    let f = poll_worker-IsFinished w t r p.now s e h in
    let (exc, error, raises, alive, told) =
      task_cancel-IsBroken c r.task_id place
        (record begun { poll_timer = 0; last_interchange_contact = p.now })
        (ap (λ d. get? r.task_id d) f.placed ∙ q) f.gone in
    rw (raises) (
      exc,
      error,
      refl,
      alive ∙ f.alive,
      told
          ∙ ap (λ x. x ++ packed (cancelled c r.task_id place.task_type error) ∷ []) f.passed
          ∙ append_assoc s.pending_result_queue (packed r ∷ []) _,
    )

-- What a turn did to the manager that raised in it, and what the interchange does with the two results.
abbrev pub BothBreak :
    Node → TaskResult → Result Flow × Node → String → Option ManagerStatusReport → ℕ → Htex → Type 0
BothBreak s r out name report now x =
    (exc : Exc) × (second : TaskResult) × (out.0 ≡ raise exc)
    × (out.1.kill_event ≡ s.kill_event)
    × (out.1.pending_result_queue ≡ s.pending_result_queue ++ packed r ∷ packed second ∷ [])
    × ((manager_results name report (r ∷ second ∷ []) now x).0 ≡ raise key_error)
    × ((manager_results name report (r ∷ second ∷ []) now x).1.results_outgoing
        ≡ x.results_outgoing)

-- A turn that finds the result of a task, which is noted with a type and a worker, and the request
-- to cancel it: the main loop ends with an exception, the other threads are not told to end, and the
-- task has a second result. An interchange that is sent the two by a manager that it knows, the
-- first naming the type that the task was sent as, ends with KeyError and passes neither on.
pub turn_node-finished :
    (c : Setup) (w t : String) (place : Placement) (r : TaskResult) (draws : List String) (now : ℕ)
    (s : Node) (name : String) (m : Manager) (report : Option ManagerStatusReport) (later : ℕ)
    (x : Htex)
    → get? r.task_id s.task_type_mapping ≡ some t
    → has t s.outstanding_task_count ≡ true
    → get? r.task_id s.task_worker_map ≡ some place
    → r.container_id ≡ place.task_type
    → get? name x.ready_manager_queue ≡ some m
    → BothBreak s r
        (turn_node c
          (record {
            worker = some (w, task_ret r);
            incoming = some (cancel_task r.task_id);
            draws = draws;
            now = now;
          })
          s)
        name
        report
        later
        x
unfolding turn_node
turn_node-finished c w t place r draws now s name m report later x e h q typed known =
    let p : Polled = record {
      worker = some (w, task_ret r);
      incoming = some (cancel_task r.task_id);
      draws = draws;
      now = now;
    } in
    let (out, same) = advertise-same c s in
    let (exc, error, raises, alive, told) =
      both_handled c w t place r p (record s { task_incoming = out }) e h q in
    let second = cancelled c r.task_id place.task_type error in
    let (broken, kept) =
      manager_results_twice name m report [] r second later x refl (sym typed) known in
    rw (same, raises) (exc, second, refl, alive, told, broken, kept)
