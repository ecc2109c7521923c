-- ===== src/WorkerMap/Run.antt =====
-- Histories of a `WorkerMap`: what the manager calls on it, in any order, with any arguments. What
-- a call raises is caught by the manager's loops; the changes that it has made stay.
use func_x.Prelude.{ℕ, ◌≢◌, String, List, [], ◌∷◌, All, Option-cases, inl, inr}
use func_x.Prelude.Dict.{get?}
use func_x.WorkerMap.{
  WorkerMap, init, register_worker, start_remove_worker, remove_worker, put_worker, get_worker,
  update_worker_idle,
}
use func_x.WorkerMap.Launch.{Os, Options, add_worker, spin_up_workers}
use func_x.WorkerMap.Books.{Books, init-Books, register_worker-Books}
use func_x.WorkerMap.Removal.{remove_worker-Books, remove_worker_unknown, start_remove_worker-Books}
use func_x.WorkerMap.Queueing.{put_worker-Books, get_worker-Books, update_worker_idle-Books}
use func_x.WorkerMap.Attempts.{add_worker-Books}
use func_x.WorkerMap.SpinUp.{spin_up_workers-Books}

pub data Call : Type 0 where
  registers : (worker_id worker_type : String) (now : ℕ) → Call
  starts_removal : (worker_type : String) → Call
  removes : (worker_id : String) → Call
  puts : (worker : String) → Call
  gets : (worker_type : String) → Call
  idles : (worker_type : String) (now : ℕ) → Call
  adds : (worker_id worker_type : String) → Call
  spins_up : (next_worker_q : List String) → Call

-- No worker registers under the name of the free slots.
abbrev pub IsProper : Call → Type 0
IsProper (registers worker_id worker_type now) = worker_type ≢ "unused"
IsProper _ = Unit

-- Whether or not the worker is known.
pub removal-Books : (id : String) (m : WorkerMap) → Books m → Books (remove_worker id m).1
removal-Books id m b = elim (Option-cases (get? id m.worker_types)) [
  | inl e ↦ rw (remove_worker_unknown id m e) b
  | inr (t, e) ↦ (remove_worker-Books id t m e b).1
]

module _ (os : Os) (options : Options) where
  unfoldable pub step : Call → WorkerMap → WorkerMap
  step (registers worker_id worker_type now) m = register_worker worker_id worker_type now m
  step (starts_removal worker_type) m = (start_remove_worker worker_type m).1
  step (removes worker_id) m = (remove_worker worker_id m).1
  step (puts worker) m = (put_worker worker m).1
  step (gets worker_type) m = (get_worker worker_type m).1
  step (idles worker_type now) m = update_worker_idle worker_type now m
  step (adds worker_id worker_type) m = (add_worker os options worker_id worker_type m).1
  step (spins_up next_worker_q) m = (spin_up_workers os options next_worker_q m).1

  unfoldable pub run : List Call → WorkerMap → WorkerMap
  unfolding step
  run [] m = m
  run (c ∷ cs) m = run cs (step c m)

  pub step-Books : (c : Call) (m : WorkerMap) → IsProper c → Books m → Books (step c m)
  unfolding step
  step-Books (registers id t now) m p b = register_worker-Books id t now m p b
  step-Books (starts_removal t) m p b = start_remove_worker-Books t m b
  step-Books (removes id) m p b = removal-Books id m b
  step-Books (puts worker) m p b = put_worker-Books worker m b
  step-Books (gets t) m p b = get_worker-Books t m b
  step-Books (idles t now) m p b = update_worker_idle-Books t now m b
  step-Books (adds id t) m p b = add_worker-Books os options id t m b
  step-Books (spins_up queue) m p b = spin_up_workers-Books os options queue m b

  run-Books : (cs : List Call) (m : WorkerMap) → All IsProper cs → Books m → Books (run cs m)
  unfolding run
  run-Books [] m p b = b
  run-Books (c ∷ cs) m p b = run-Books cs (step c m) p.1 (step-Books c m p.0 b)

  -- After any history of calls on a new map, in which no worker registers as "unused", the books are
  -- right: the free slots, the active and the pending workers add up to the maximum, the counts by type add up to those totals, each
  -- worker's type can be looked up in all the counts, and the dict of totals names no type twice.
  pub run-init-Books :
      (cs : List Call) (n : ℕ) (devices : List String)
      → All IsProper cs
      → Books (run cs (init n devices))
  run-init-Books cs n devices p = run-Books cs (init n devices) p (init-Books n devices)
