-- ===== src/WorkerMap.antt =====
-- engines/high_throughput/worker_map.py: the state of a `WorkerMap` and the methods that keep its
-- books. Times are numbers on one scale; log messages and `_noisy_log` have no effect and are left
-- out. Starting processes stands in `Launch`, choosing whom to stop and to start in `Choose`.
pub mod Launch
pub mod Choose
pub mod Counts
pub mod Books
pub mod Removal
pub mod Queueing
pub mod Attempts
pub mod SpinUp
pub mod SpinDown
pub mod Demand
pub mod Devices
pub mod Run
mod Tests
use func_x.Prelude.{ℕ, String, Option, none, some, List, [], ◌∷◌, ◌++◌, is_empty, if◌then◌else◌}
use func_x.Prelude.Int.{ℤ, pos, negsuc, ◌+ℤ◌, ◌-ℤ◌}
use func_x.Prelude.Dict.{Dict, get?, put, remove, get_or, has}
use func_x.Prelude.Python.{
  key_error, queue_empty, attribute_error, Result, return, raise, Action, get, modify, pure, lift,
  or_raise, ◌>>=◌, ◌>>◌,
}

pub record WorkerMap : Type 0 where
  pub max_worker_count : ℕ
  pub total_worker_type_counts : Dict ℤ
  pub ready_worker_type_counts : Dict ℤ
  pub pending_worker_type_counts : Dict ℤ
  pub worker_queues : Dict (List String)
  pub worker_types : Dict String
  pub worker_id_counter : ℕ
  pub active_workers : ℤ
  pub pending_workers : ℤ
  pub to_die_count : Dict ℤ
  pub worker_idle_since : Dict ℕ
  pub available_accelerators : Option (List String)
  pub assigned_accelerators : Dict String

-- `__init__`: the queue of devices exists only where some are given.
unfoldable pub init : ℕ → List String → WorkerMap
init max_worker_count available_accelerators = record {
  max_worker_count = max_worker_count;
  total_worker_type_counts = ("unused", pos max_worker_count) ∷ [];
  ready_worker_type_counts = ("unused", pos max_worker_count) ∷ [];
  pending_worker_type_counts = [];
  worker_queues = [];
  worker_types = [];
  worker_id_counter = 0;
  active_workers = pos 0;
  pending_workers = pos 0;
  to_die_count = [];
  worker_idle_since = [];
  available_accelerators =
      if is_empty available_accelerators then none else some available_accelerators;
  assigned_accelerators = [];
}

-- `d[k] = d.get(k, 0) + n`
abbrev pub add_to : String → ℤ → Dict ℤ → Dict ℤ
add_to k n d = put k (get_or k (pos 0) d +ℤ n) d

abbrev pub add_zero_unless_there : String → Dict ℤ → Dict ℤ
add_zero_unless_there k d = if has k d then d else put k (pos 0) d

-- `queues[k].put(worker)`, on a new queue where there is none.
abbrev pub enqueue : String → String → Dict (List String) → Dict (List String)
enqueue k worker queues = put k (get_or k [] queues ++ worker ∷ []) queues

unfoldable pub register_worker : String → String → ℕ → WorkerMap → WorkerMap
register_worker worker_id worker_type now m = record m {
  worker_types = put worker_id worker_type m.worker_types;
  total_worker_type_counts = add_to worker_type (pos 1) m.total_worker_type_counts;
  ready_worker_type_counts = add_to worker_type (pos 1) m.ready_worker_type_counts;
  pending_worker_type_counts = add_to worker_type (negsuc 0) m.pending_worker_type_counts;
  pending_workers = m.pending_workers -ℤ pos 1;
  active_workers = m.active_workers +ℤ pos 1;
  worker_queues = enqueue worker_type worker_id m.worker_queues;
  worker_idle_since = put worker_type now m.worker_idle_since;
  to_die_count = add_zero_unless_there worker_type m.to_die_count;
}

-- `d[k] += n`, which raises KeyError on a missing key.
abbrev pub bump : String → ℤ → Dict ℤ → Result (Dict ℤ)
bump k n d = elim (get? k d) [ none ↦ raise key_error | some v ↦ return (put k (v +ℤ n) d) ]

abbrev pub bump_total : String → ℤ → Action WorkerMap (Unit {0})
bump_total k n = do
  m ← get
  d ← lift (bump k n m.total_worker_type_counts)
  modify (λ m. record m { total_worker_type_counts = d })

abbrev pub bump_ready : String → ℤ → Action WorkerMap (Unit {0})
bump_ready k n = do
  m ← get
  d ← lift (bump k n m.ready_worker_type_counts)
  modify (λ m. record m { ready_worker_type_counts = d })

abbrev pub bump_to_die : String → ℤ → Action WorkerMap (Unit {0})
bump_to_die k n = do
  m ← get
  d ← lift (bump k n m.to_die_count)
  modify (λ m. record m { to_die_count = d })

unfoldable pub start_remove_worker : String → Action WorkerMap (Unit {0})
start_remove_worker worker_type = bump_to_die worker_type (pos 1)

-- The accelerator of a worker that is gone is put back, if the worker is known to have one.
-- Without a queue, `None.put` raises AttributeError.
unfoldable pub release_accelerator : String → Action WorkerMap (Unit {0})
release_accelerator worker_id m = elim (get? worker_id m.assigned_accelerators) [
  | none ↦ (return tt, m)
  | some device ↦
      let m' : WorkerMap = record m {
        assigned_accelerators = remove worker_id m.assigned_accelerators;
      } in
      elim m.available_accelerators [
        | none ↦ (raise attribute_error, m')
        | some devices ↦
            (return tt, record m' { available_accelerators = some (devices ++ device ∷ []) })
      ]
]

unfoldable pub remove_worker : String → Action WorkerMap (Unit {0})
remove_worker worker_id = do
  m ← get
  worker_type ← lift (or_raise key_error (get? worker_id m.worker_types))
  modify (λ m. record m { active_workers = m.active_workers -ℤ pos 1 })
  bump_total worker_type (negsuc 0)
  bump_to_die worker_type (negsuc 0)
  bump_total "unused" (pos 1)
  bump_ready "unused" (pos 1)
  release_accelerator worker_id

unfoldable pub update_worker_idle : String → ℕ → WorkerMap → WorkerMap
update_worker_idle worker_type now m = record m {
  worker_idle_since = put worker_type now m.worker_idle_since;
}

-- A queue is made before the count is touched, so it stays where the count is missing.
unfoldable pub put_worker : String → Action WorkerMap (Unit {0})
put_worker worker = do
  m ← get
  worker_type ← lift (or_raise key_error (get? worker m.worker_types))
  modify (λ m. record m {
    worker_queues =
        if has worker_type m.worker_queues
        then m.worker_queues
        else put worker_type [] m.worker_queues;
  })
  bump_ready worker_type (pos 1)
  modify (λ m. record m { worker_queues = enqueue worker_type worker m.worker_queues })

-- `Queue.get_nowait`
abbrev pub get_nowait {ℓ} : {A : Type ℓ} → List A → Result (A × List A)
get_nowait [] = raise queue_empty
get_nowait (x ∷ xs) = return (x, xs)

unfoldable pub get_worker : String → Action WorkerMap String
get_worker worker_type = do
  m ← get
  queue ← lift (or_raise key_error (get? worker_type m.worker_queues))
  (worker, rest) ← lift (get_nowait queue)
  modify (λ m. record m { worker_queues = put worker_type rest m.worker_queues })
  bump_ready worker_type (negsuc 0)
  pure worker

unfoldable pub get_worker_counts : WorkerMap → Dict ℤ
get_worker_counts m = m.total_worker_type_counts

-- `sum(d.values())`
abbrev pub sum_values : Dict ℤ → ℤ
sum_values [] = pos 0
sum_values ((k, v) ∷ d) = v +ℤ sum_values d

unfoldable pub ready_worker_count : WorkerMap → ℤ
ready_worker_count m = sum_values m.ready_worker_type_counts
