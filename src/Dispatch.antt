-- ===== src/Dispatch.antt =====
-- engines/high_throughput/interchange_task_dispatch.py: which pending tasks go to which manager.
-- The queues and the managers' records are changed in place, also where a KeyError ends the call.
-- `shuffle` is `random.shuffle`. A `queue.Queue` is always true, so `if not task_q` asks only
-- whether there is a queue. What a manager's `worker_type` leaves unset is the empty text.
pub mod Rounds
pub mod Fetching
pub mod Loops
pub mod Progress
pub mod Service
pub mod Total
pub mod Order
mod Tests
use func_x.Prelude.{
  ℕ, zero, suc, ◌+◌, ◌-◌, min, String, Bool, true, false, ◌&&◌, Option, none, some, List, [], ◌∷◌,
  ◌++◌, map, length, is_empty, if◌then◌else◌,
}
use func_x.Prelude.Int.{ℤ, pos, pos_part, ltb_ℤ, ◌+ℤ◌, ◌-ℤ◌}
use func_x.Prelude.Dict.{Dict, get?, put, get_or, has, keys, ◌=?◌, discard, add_new}
use func_x.Prelude.Python.{key_error, Result, return, raise, Action, pure, get, ◌>>=◌, ◌>>◌}

pub record Task : Type 0 where
  pub task_id : String
  pub raw_buffer : String

-- An entry of `ready_manager_queue`; `free`, `total` and `total_workers` are its `free_capacity`, and
-- `last` is when it was heard of last.
pub record Manager : Type 0 where
  pub worker_type : String
  pub max_worker_count : ℤ
  pub active : Bool
  pub total_tasks : ℤ
  pub tasks : Dict (List String)
  pub free : Dict ℤ
  pub total : Dict ℤ
  pub total_workers : ℤ
  pub last : ℕ
  pub block_id : String

-- What a call of `get_tasks_hard` or `get_tasks_soft` changes: the queues, the manager's record,
-- and its two results.
pub record Fetch : Type 0 where
  pub pending : Dict (List Task)
  pub manager : Manager
  pub tasks : List Task
  pub tids : Dict (List String)

-- `tids[task_type].add(task_id)`, for a dict of sets that makes a missing set.
unfoldable pub add_tid : String → String → Dict (List String) → Dict (List String)
add_tid task_type task_id tids = put task_type (add_new task_id (get_or task_type [] tids)) tids

-- The task `x`, taken off the queue `source`, is fetched as one of type `task_type`.
unfoldable pub fetched : String → String → Task → List Task → Manager → Fetch → Fetch
fetched source task_type x rest manager f = record f {
  pending = put source rest f.pending;
  manager = manager;
  tasks = f.tasks ++ x ∷ [];
  tids = add_tid task_type x.task_id f.tids;
}

-- One slot of the kind `k` is used up.
unfoldable pub use_slot : String → Manager → Manager
use_slot k m = record m {
  free = put k (get_or k (pos 0) m.free -ℤ pos 1) m.free;
  total_workers = m.total_workers -ℤ pos 1;
}

-- No slot of a kind: only the sum of the free workers goes down.
unfoldable pub use_worker : Manager → Manager
use_worker m = record m { total_workers = m.total_workers -ℤ pos 1 }

-- `free[k] > 0`
abbrev pub has_slot : String → Manager → Result Bool
has_slot k m = elim (get? k m.free) [ none ↦ raise key_error | some n ↦ return (ltb_ℤ (pos 0) n) ]

-- `free["unused"] > 0 and total_workers > 0`
pub has_unused : Manager → Result Bool
has_unused m = elim (has_slot "unused" m) [
  | raise e ↦ raise e
  | return b ↦ return (b && ltb_ℤ (pos 0) m.total_workers)
]

-- A `while` loop that fetches from one queue until the capacity is used up, the test fails, or the
-- queue is empty. It returns the capacity that is left.
module _ (source task_type : String) (test : Manager → Result Bool)
    (charge : Manager → Manager) where
  unfoldable pub fetch_loop : ℕ → Action Fetch ℕ
  fetch_loop zero f = (return zero, f)
  fetch_loop (suc n) f = elim (test f.manager) [
    | raise e ↦ (raise e, f)
    | return false ↦ (return (suc n), f)
    | return true ↦ elim (get_or source [] f.pending) [
      | [] ↦ (return (suc n), f)
      | x ∷ rest ↦ fetch_loop n (fetched source task_type x rest (charge f.manager) f)
    ]
  ]

-- The first round of the hard mode: slots of the manager's own type, if it advertises any.
pub fetch_own : String → ℕ → Action Fetch ℕ
fetch_own task_type capacity f =
    if has task_type f.manager.free
    then fetch_loop task_type task_type (has_slot task_type) (use_slot task_type) capacity f
    else (return capacity, f)

unfoldable pub get_tasks_hard : ℕ → Action Fetch (Unit {0})
unfolding fetch_own
get_tasks_hard real_capacity f =
    let task_type = f.manager.worker_type in
    if task_type =? ""
    then (return tt, f)
    else if has task_type f.pending
    then (do
      left ← fetch_own task_type real_capacity
      fetch_loop task_type task_type (has_slot "unused") (use_slot "unused") left
      pure tt)
        f
    else (return tt, f)

-- Warm routing to slots of one container type. Both capacities go down by one in a round, so the
-- loop runs on the smaller of them.
pub fetch_warm : String → ℕ → Action Fetch ℕ
fetch_warm task_type capacity f =
    if has task_type f.pending
    then elim (get? task_type f.manager.total) [
      | none ↦ (raise key_error, f)
      | some total ↦
          let inflight = pos (length (get_or task_type [] f.manager.tasks)) in
          let type_capacity =
            min (pos_part (get_or task_type (pos 0) f.manager.free))
              (pos_part (total -ℤ inflight)) in
          let bound = min capacity type_capacity in
          (do
            left ← fetch_loop task_type task_type (has_slot task_type) (use_slot task_type) bound
            pure (capacity - bound + left))
            f
    ]
    else (return capacity, f)

-- Warm routing to the unused slots: the tasks come from the queue named "unused", for each of the
-- pending types in turn.
pub fetch_unused : List String → ℕ → Action Fetch ℕ
fetch_unused [] capacity f = (return capacity, f)
fetch_unused (task_type ∷ types) capacity f =
    (do
      left ← fetch_loop "unused" task_type has_unused (use_slot "unused") capacity
      fetch_unused types left)
      f

module _ (shuffle : List String → List String) where
  -- The outer `for` loop of warm routing, over the types of the manager's free slots.
  pub warm_loop : List String → ℕ → Action Fetch (Unit {0})
  unfolding fetch_warm fetch_unused
  warm_loop [] capacity f = (return tt, f)
  warm_loop (task_type ∷ types) capacity f =
      (do
        left ← λ f.
            if task_type =? "unused"
            then (if has "unused" f.pending
                then fetch_unused (shuffle (keys f.pending)) capacity f
                else (return capacity, f))
            else fetch_warm task_type capacity f
        warm_loop types left)
        f

  -- Cold routing: tasks of any type, while the manager has free workers.
  pub cold_loop : List String → ℕ → Action Fetch (Unit {0})
  cold_loop [] capacity f = (return tt, f)
  cold_loop (task_type ∷ types) capacity f =
      (do
        left ← λ f.
            if has task_type f.pending
            then fetch_loop task_type task_type (λ m. return (ltb_ℤ (pos 0) m.total_workers))
                use_worker capacity f
            else (return capacity, f)
        cold_loop types left)
        f

  unfoldable pub get_tasks_soft : Bool → ℕ → Action Fetch (Unit {0})
  unfolding warm_loop cold_loop
  get_tasks_soft warm real_capacity f =
      if warm
      then warm_loop (keys f.manager.free) real_capacity f
      else cold_loop (shuffle (keys f.pending)) real_capacity f
