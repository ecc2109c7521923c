-- ===== src/Node/Kept.antt =====
-- What the methods of the manager do to its books.
use func_x.Prelude.{
  ℕ, zero, suc, ◌+◌, ◌≢◌, String, Bool, true, false, Option, List, [], ◌∷◌, Option-cases,
  Bool-cases, inl, inr, if◌then◌else◌,
}
use func_x.Prelude.Int.{ℤ, pos_part}
use func_x.Prelude.Dict.{Dict, get?, ◌=?◌}
use func_x.Prelude.Decimal.{str}
use func_x.Prelude.Python.{key_error, Exc, Result, return, raise, Action, pure, or_raise}
use func_x.WorkerMap.{start_remove_worker, remove_worker, get_worker, get_nowait, get_worker_counts}
use func_x.WorkerMap.Launch.{add_worker, spin_up_workers}
use func_x.WorkerMap.Choose.{spin_down_workers, get_next_worker_q}
use func_x.WorkerMap.Books.{register_worker-Books}
use func_x.WorkerMap.Removal.{start_remove_worker-Books}
use func_x.WorkerMap.Queueing.{put_worker-Books, get_worker-Books, update_worker_idle-Books}
use func_x.WorkerMap.Attempts.{add_worker-Books}
use func_x.WorkerMap.SpinUp.{spin_up_workers-Books}
use func_x.WorkerMap.Run.{removal-Books}
use func_x.Scheduler.{naive_scheduler}
use func_x.Htex.{TaskResult}
use func_x.Node.{
  Setup, NodeTask, Placement, Node, remove_task, remove_worker_init, note_running,
  send_task_to_worker, max_worker_count, own_type,
}
use func_x.Node.Workers.{
  WorkerMessage, register_msg, task_ret, wrkr_die, other, after_removal, pass_result, drop_worker,
  handle_worker, poll_funcx_task_socket,
}
use func_x.Node.Cancel.{kill_worker, finish_cancel, task_cancel, raised, plain_options}
use func_x.Node.Scheduling.{
  match_loop, match_types, remove_workers, staff, schedule, task_counts, has_match,
}
use func_x.Node.Counted.{IsRight, Keeps, then-IsRight, remove_task-Keeps}

if-Keeps :
    {A : Type 0} (b : Bool) (m n : Action Node A) → Keeps m → Keeps n → Keeps (if b then m else n)
if-Keeps true m n km kn = km
if-Keeps false m n km kn = kn

remove_worker_init-Keeps : (t : String) → Keeps (remove_worker_init t)
unfolding remove_worker_init
remove_worker_init-Keeps t s h =
    then-IsRight (start_remove_worker t s.worker_map).0 _ _
      (λ _ s h. then-IsRight (or_raise key_error (get? t s.task_queues)) _ _ (λ queue s h. h) h)
      (start_remove_worker-Books t s.worker_map h.0, h.1)

note_running-IsRight :
    (task : NodeTask) (w t : String) (now : ℕ) (s : Node)
    → IsRight s
    → IsRight (note_running task w t now s)
unfolding note_running
note_running-IsRight task w t now s h = elim (Bool-cases (task.task_id =? "KILL")) [
  | inl e ↦ rw (e, note_running) h
  | inr e ↦ rw (e, note_running) h
]

send_task_to_worker-Keeps : (t : String) (now : ℕ) → Keeps (send_task_to_worker t now)
unfolding send_task_to_worker
send_task_to_worker-Keeps t now s h =
    then-IsRight (or_raise key_error (get? t s.task_queues)) _ _
      (λ queue s h.
        then-IsRight (get_nowait queue) _ _
          (λ p s h.
            then-IsRight (get_worker t s.worker_map).0 _ _
              (λ w s h.
                note_running-IsRight p.0 w t now _
                  (update_worker_idle-Books t now s.worker_map h.0, h.1))
              (get_worker-Books t s.worker_map h.0, h.1))
          h)
      h

kill_worker-Keeps : (p : Placement) → Keeps (kill_worker p)
unfolding kill_worker
kill_worker-Keeps p s h =
    then-IsRight (start_remove_worker p.task_type s.worker_map).0 _ _
      (λ _ s h.
        then-IsRight (or_raise key_error (get? p.worker_id s.worker_procs)) _ _
          (λ proc s h. (removal-Books p.worker_id s.worker_map h.0, h.1)) h)
      (start_remove_worker-Books p.task_type s.worker_map h.0, h.1)

drop_worker-Keeps : (w : String) → Keeps (drop_worker w)
drop_worker-Keeps w s h =
    then-IsRight (remove_worker w s.worker_map).0 _ _
      (λ _ s h. then-IsRight (or_raise key_error (get? w s.worker_procs)) _ _ (λ proc s h. h) h)
      (removal-Books w s.worker_map h.0, h.1)

finish_cancel-Keeps :
    (c : Setup) (id t : String) (error : Option Exc) → Keeps (finish_cancel c id t error)
unfolding finish_cancel
finish_cancel-Keeps c id t error s h =
    then-IsRight
      (add_worker c.os (plain_options c.options) (str s.worker_map.worker_id_counter) (own_type c)
        s.worker_map).0
      _ _ (λ procs s h. remove_task-Keeps id _ h)
      (add_worker-Books c.os _ _ _ s.worker_map h.0, h.1)

pub task_cancel-Keeps : (c : Setup) (id : String) → Keeps (task_cancel c id)
unfolding task_cancel
task_cancel-Keeps c id s h = elim (Option-cases (get? id s.task_worker_map)) [
  | inl e ↦ rw (e, task_cancel) h
  | inr (p, e) ↦
      rw (e, task_cancel)
        (then-IsRight
          (finish_cancel c id p.task_type (raised (kill_worker p s).0) (kill_worker p s).1).0 _ _
          (λ _ s h. h)
          (finish_cancel-Keeps c id p.task_type (raised (kill_worker p s).0) _
            (kill_worker-Keeps p s h)))
]

pass_result-Keeps : (w : String) (r : TaskResult) → Keeps (pass_result w r)
pass_result-Keeps w r s h = (put_worker-Books w s.worker_map h.0, h.1)

after_removal-Keeps :
    (w : String) (m : TaskResult) (r : Result (Unit {0})) → Keeps (after_removal w m r)
after_removal-Keeps w m (return _) s h = pass_result-Keeps w m s h
after_removal-Keeps w m (raise key_error) s h = h
after_removal-Keeps w m (raise _) s h = h

-- No worker registers under the name of the free slots.
abbrev pub IsProper : WorkerMessage → Type 0
IsProper (register_msg worker_type) = worker_type ≢ "unused"
IsProper _ = Unit

pub poll_funcx_task_socket-IsRight :
    (w : String) (m : WorkerMessage) (now : ℕ) (s : Node)
    → IsProper m
    → IsRight s
    → IsRight (poll_funcx_task_socket w m now s)
unfolding poll_funcx_task_socket handle_worker
poll_funcx_task_socket-IsRight w (register_msg t) now s p h =
    (register_worker-Books w t now s.worker_map p h.0, h.1)
poll_funcx_task_socket-IsRight w (task_ret r) now s p h =
    after_removal-Keeps w r (remove_task r.task_id s).0 _ (remove_task-Keeps r.task_id s h)
poll_funcx_task_socket-IsRight w wrkr_die now s p h = drop_worker-Keeps w s h
poll_funcx_task_socket-IsRight w other now s p h = h

match_loop-Keeps : (n : ℕ) (t : String) (now : ℕ) → Keeps (match_loop n t now)
unfolding match_loop
match_loop-Keeps zero t now s h = h
match_loop-Keeps (suc n) t now s h =
    then-IsRight (has_match t s) _ _
      (λ matched s h.
        let first : Action Node (Unit {0}) =
          if matched then send_task_to_worker t now else pure tt in
        then-IsRight (first s).0 _ _ (λ _. match_loop-Keeps n t now)
          (if-Keeps matched (send_task_to_worker t now) (pure tt) (send_task_to_worker-Keeps t now)
            (λ s h. h) s h))
      h

match_types-Keeps : (d : Dict ℤ) (now : ℕ) → Keeps (match_types d now)
unfolding match_types
match_types-Keeps [] now s h = h
match_types-Keeps ((t, n) ∷ d) now s h =
    let first : Action Node (Unit {0}) =
      if t =? "unused" then pure tt else match_loop (pos_part n) t now in
    then-IsRight (first s).0 _ _ (λ _. match_types-Keeps d now)
      (if-Keeps (t =? "unused") (pure tt) (match_loop (pos_part n) t now) (λ s h. h)
        (match_loop-Keeps (pos_part n) t now) s h)

remove_workers-Keeps : (ts : List String) → Keeps (remove_workers ts)
unfolding remove_workers
remove_workers-Keeps [] s h = h
remove_workers-Keeps (t ∷ ts) s h =
    then-IsRight (remove_worker_init t s).0 _ _ (λ _. remove_workers-Keeps ts)
      (remove_worker_init-Keeps t s h)

staff-Keeps : (c : Setup) (wanted : Dict ℕ) (now : ℕ) → Keeps (staff c wanted now)
unfolding staff
staff-Keeps c wanted now s h =
    then-IsRight (get_next_worker_q c.shuffle s.worker_map wanted) _ _
      (λ q s h.
        then-IsRight (spin_up_workers c.os c.options q.0 s.worker_map).0 _ _
          (λ p s h.
            then-IsRight
              (spin_down_workers s.worker_map wanted c.worker_max_idletime q.1 c.scheduler_mode now)
              _ _
              (λ downs s h.
                then-IsRight
                  (remove_workers downs.0 (record s { switch_count = s.switch_count + downs.1 })).0
                  _ _ (λ _ s h. match_types-Keeps (get_worker_counts s.worker_map) now s h)
                  (remove_workers-Keeps downs.0 _ h))
              h)
          (spin_up_workers-Books c.os c.options q.0 s.worker_map h.0, h.1))
      h

pub schedule-Keeps : (c : Setup) (draws : List String) (now : ℕ) → Keeps (schedule c draws now)
unfolding schedule
schedule-Keeps c draws now s h =
    elim (Option-cases
      (naive_scheduler c.share (task_counts s.outstanding_task_count) (max_worker_count c) draws)) [
        | inl e ↦ rw (e, schedule) h
        | inr (wanted, e) ↦ rw (e, schedule) (staff-Keeps c wanted now s h)
      ]
