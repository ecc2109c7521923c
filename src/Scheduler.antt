-- ===== src/Scheduler.antt =====
-- engines/high_throughput/container_sched.py: how many workers each type of task should have. The
-- float product `floor(ratio * max_workers)` is the parameter `share`. The `while` loop draws types
-- at random until enough are handed out; it runs here on the draws, and has no result where they end
-- before it does. `to_die_list` and `old_worker_map` are read by log messages only.
pub mod Shares
mod Tests
use func_x.Prelude.{
  ℕ, zero, suc, ◌+◌, ◌-◌, min, String, Bool, true, false, Option, none, some, List, [], ◌∷◌,
  if◌then◌else◌, ltb,
}
use func_x.Prelude.Dict.{Dict, get?, put, get_or, keys}

-- `sum(d.values())`
abbrev pub total : Dict ℕ → ℕ
total [] = 0
total ((k, n) ∷ d) = n + total d

-- `random.choice(q_types)` over and over: a type that has more tasks than workers gets one more.
unfoldable pub top_up : Dict ℕ → List String → ℕ → Dict ℕ → Option (Dict ℕ)
top_up q_sizes draws zero new_worker_map = some new_worker_map
top_up q_sizes [] (suc difference) new_worker_map = none
top_up q_sizes (win_q ∷ draws) (suc difference) new_worker_map =
    let n = get_or win_q 0 new_worker_map in
    elim (ltb n (get_or win_q 0 q_sizes)) [
      | true ↦ top_up q_sizes draws difference (put win_q (suc n) new_worker_map)
      | false ↦ top_up q_sizes draws (suc difference) new_worker_map
    ]

module _ (share : ℕ → ℕ → ℕ → ℕ) where
  -- Each type's part of the workers, and no more than it has tasks.
  unfoldable pub proportions : ℕ → ℕ → Dict ℕ → Dict ℕ
  proportions sum_q_size max_workers [] = []
  proportions sum_q_size max_workers ((q_type, q_size) ∷ q_sizes) =
      (q_type, min (share q_size sum_q_size max_workers) q_size)
      ∷ proportions sum_q_size max_workers q_sizes

  unfoldable pub naive_scheduler : Dict ℕ → ℕ → List String → Option (Dict ℕ)
  naive_scheduler outstanding_task_count max_workers draws =
      let sum_q_size = total outstanding_task_count in
      let started = proportions sum_q_size max_workers outstanding_task_count in
      if ltb 0 sum_q_size
      then top_up outstanding_task_count draws
          (min (max_workers - total started) (sum_q_size - total started)) started
      else some []
