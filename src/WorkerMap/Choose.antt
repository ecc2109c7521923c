-- ===== src/WorkerMap/Choose.antt =====
-- The methods of worker_map.py that decide: `_spin_down`, `spin_down_workers`, `get_next_worker_q`
-- and `advertisement`. `now` is `time.time()`; `shuffle` is `random.shuffle`.
use func_x.Prelude.{
  ℕ, ◌+◌, min, String, Bool, true, false, not, none, some, List, [], ◌∷◌, ◌++◌, length, replicate,
  ltb, if◌then◌else◌,
}
use func_x.Prelude.Int.{ℤ, pos, pos_part, ltb_ℤ, ◌+ℤ◌, ◌-ℤ◌}
use func_x.Prelude.Dict.{Dict, get?, put, get_or, ◌=?◌}
use func_x.Prelude.Python.{key_error, Result, return, raise}
use func_x.WorkerMap.{WorkerMap}

-- Whether a type's idle time is still below the limit: `now - idle_since[type] < limit`.
unfoldable pub is_recent : Dict ℕ → String → ℕ → ℕ → Result Bool
is_recent worker_idle_since worker_type now worker_max_idletime =
    elim (get? worker_type worker_idle_since) [
      | none ↦ raise key_error
      | some since ↦ return (ltb now (since + worker_max_idletime))
    ]

-- `num_remove` of a type with `total` workers.
unfoldable pub num_remove : WorkerMap → Dict ℕ → Bool → String → ℤ → ℕ
num_remove m new_worker_map hard worker_type total =
    let excess = pos_part (
      total
      -ℤ get_or worker_type (pos 0) m.to_die_count
      -ℤ pos (get_or worker_type 0 new_worker_map)) in
    if hard then min excess (pos_part (total -ℤ pos 1)) else excess

module _ (m : WorkerMap) (new_worker_map : Dict ℕ) (worker_max_idletime now : ℕ)
    (hard check_idle : Bool) where
  -- One round of the loop: how many workers of the type are to stop. `continue` stops none.
  unfoldable pub removals : String → ℤ → Result ℕ
  unfolding is_recent num_remove
  removals worker_type total =
      if worker_type =? "unused"
      then return 0
      else if check_idle
      then elim (is_recent m.worker_idle_since worker_type now worker_max_idletime) [
        | raise e ↦ raise e
        | return true ↦ return 0
        | return false ↦ return (num_remove m new_worker_map hard worker_type total)
      ]
      else return (num_remove m new_worker_map hard worker_type total)

  unfoldable pub spin_down_loop : Dict ℤ → List String → ℕ → Result (List String × ℕ)
  spin_down_loop [] spin_downs container_switch_count = return (spin_downs, container_switch_count)
  spin_down_loop ((worker_type, total) ∷ rest) spin_downs container_switch_count =
      elim (removals worker_type total) [
        | raise e ↦ raise e
        | return n ↦
            spin_down_loop rest (spin_downs ++ replicate n worker_type)
              (if not check_idle then container_switch_count + n else container_switch_count)
      ]

  unfoldable pub spin_down : Result (List String × ℕ)
  unfolding spin_down_loop
  spin_down = spin_down_loop m.total_worker_type_counts [] 0

unfoldable pub spin_down_workers :
    WorkerMap → Dict ℕ → ℕ → Bool → String → ℕ → Result (List String × ℕ)
unfolding spin_down
spin_down_workers m new_worker_map worker_max_idletime need_more scheduler_mode now =
    spin_down m new_worker_map worker_max_idletime now (scheduler_mode =? "hard") (not need_more)

-- How many more workers of a type the scheduler's map asks for.
unfoldable pub missing : WorkerMap → String → ℕ → ℕ
missing m worker_type wanted =
    let cur_workers =
      get_or worker_type (pos 0) m.total_worker_type_counts
      +ℤ get_or worker_type (pos 0) m.pending_worker_type_counts in
    if ltb_ℤ cur_workers (pos wanted) then pos_part (pos wanted -ℤ cur_workers) else 0

unfoldable pub new_workers : WorkerMap → Dict ℕ → List String
new_workers m [] = []
new_workers m ((worker_type, wanted) ∷ rest) =
    replicate (missing m worker_type wanted) worker_type ++ new_workers m rest

-- The queue of the types to start, and whether it needs more than the unused slots.
unfoldable pub get_next_worker_q :
    (List String → List String) → WorkerMap → Dict ℕ → Result (List String × Bool)
unfolding new_workers
get_next_worker_q shuffle m new_worker_map =
    let new_worker_list = new_workers m new_worker_map in
    elim (get? "unused" m.total_worker_type_counts) [
      | none ↦ raise key_error
      | some unused ↦ return (
        (if ltb 0 (length new_worker_list) then shuffle new_worker_list else new_worker_list),
        ltb_ℤ unused (pos (length new_worker_list)),
      )
    ]

pub record Ads : Type 0 where
  pub total : Dict ℤ
  pub free : Dict ℤ

unfoldable pub add_pending : WorkerMap → Dict ℤ → Dict ℤ → Dict ℤ
add_pending m [] total = total
add_pending m ((worker_type, pending) ∷ rest) total = add_pending m rest (
    put worker_type
      (get_or worker_type (pos 0) total +ℤ pending -ℤ get_or worker_type (pos 0) m.to_die_count)
      total)

unfoldable pub advertisement : WorkerMap → Ads
unfolding add_pending
advertisement m = record {
  total = add_pending m m.pending_worker_type_counts m.total_worker_type_counts;
  free = m.ready_worker_type_counts;
}
