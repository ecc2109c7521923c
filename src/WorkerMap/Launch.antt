-- ===== src/WorkerMap/Launch.antt =====
-- `add_worker` and `spin_up_workers` of worker_map.py. The operating system is a parameter: whether
-- a path exists, how paths are joined, and whether a launch (numbered by the worker id counter)
-- gives a process or raises. The keyword arguments that are only passed on stand in `Options`.
use Prim.Native.String.{◌++◌}
use func_x.Prelude.{
  ℕ, suc, ◌+◌, ◌-◌, min, String, Bool, Option, none, some, List, [], ◌∷◌, length, ltb, ◌&&◌,
  if◌then◌else◌,
}
use func_x.Prelude.Int.{ℤ, pos, negsuc, pos_part, ltb_ℤ, ◌+ℤ◌, ◌-ℤ◌}
use func_x.Prelude.Dict.{Dict, get?, put, ◌=?◌}
use func_x.Prelude.Decimal.{str}
use func_x.Prelude.Python.{
  key_error, value_error, name_error, os_error, Result, return, raise, Action, get, modify, pure,
  lift, or_raise, ◌>>=◌, ◌>>◌,
}
use func_x.WorkerMap.{WorkerMap, add_to, bump_total, bump_ready}

pub record Popen : Type 0 where
  pub command : String
  pub device : Option String

pub record Os : Type 0 where
  pub exists : String → Bool
  pub join : String → String → String
  pub popen : ℕ → Popen → Option ℕ

pub record Options : Type 0 where
  pub mode : String
  pub container_cmd_options : String
  pub address : String
  pub debug : Bool
  pub uid : String
  pub logdir : String
  pub worker_port : String

-- `worker_id = f" --worker_id {worker_id}"` rebinds the name: it is this text that the rest of the
-- method uses, also as the key of `assigned_accelerators`.
unfoldable pub worker_id_option : String → String
worker_id_option worker_id = " --worker_id " ++ worker_id

-- The next device of the queue, noted under the given key. Without a queue there is no device.
unfoldable pub assign_accelerator : String → Action WorkerMap (Option String)
assign_accelerator key m = elim m.available_accelerators [
  | none ↦ (return none, m)
  | some [] ↦ (raise value_error, m)
  | some (device ∷ rest) ↦ (
    return (some device),
    record m {
      available_accelerators = some rest;
      assigned_accelerators = put key device m.assigned_accelerators;
    },
  )
]

module _ (os : Os) (options : Options) where
  pub command_line : String → String → String
  command_line worker_id worker_type =
      "globus-compute-worker "
      ++ (if options.debug then " --debug" else "")
      ++ worker_id
      ++ " -a "
      ++ options.address
      ++ " -p "
      ++ options.worker_port
      ++ " -t "
      ++ worker_type
      ++ " --logdir="
      ++ os.join options.logdir options.uid
      ++ " "

  -- The container URI is the worker type, unless that is "RAW".
  unfoldable pub modded_command : String → String → Result String
  modded_command cmd worker_type =
      if options.mode =? "no_container"
      then return cmd
      else if options.mode =? "singularity_reuse"
      then return (
          if worker_type =? "RAW"
          then cmd
          else if os.exists worker_type
          then "singularity exec " ++ options.container_cmd_options ++ " " ++ worker_type ++ " "
            ++ cmd
          else cmd)
      else raise name_error

  unfoldable pub add_worker : String → String → Action WorkerMap (Dict ℕ)
  add_worker id worker_type = do
    let worker_id = worker_id_option id
    before ← get
    modify (λ m. record m { worker_id_counter = m.worker_id_counter + 1 })
    device ← assign_accelerator worker_id
    cmd ← lift (modded_command (command_line worker_id worker_type) worker_type)
    proc ← lift (
        or_raise os_error
          (os.popen before.worker_id_counter (record { command = cmd; device = device })))
    bump_total "unused" (negsuc 0)
    bump_ready "unused" (negsuc 0)
    modify (λ m. record m {
      pending_worker_type_counts = add_to worker_type (pos 1) m.pending_worker_type_counts;
      pending_workers = m.pending_workers +ℤ pos 1;
    })
    after ← get
    pure ((str (after.worker_id_counter - 1), proc) ∷ [])

  -- `spin_ups.update(proc)` where the launch succeeded; an exception is logged and skipped.
  abbrev pub update_spin_ups : Dict ℕ → Result (Dict ℕ) → Dict ℕ
  update_spin_ups spin_ups (raise e) = spin_ups
  update_spin_ups spin_ups (return []) = spin_ups
  update_spin_ups spin_ups (return ((k, proc) ∷ _)) = put k proc spin_ups

  -- The `for` loop. `next_worker_q.pop(0)` on an empty queue raises inside the `try`.
  unfoldable pub spin_up_loop :
      ℕ → List String → Dict ℕ → WorkerMap → (Dict ℕ × List String) × WorkerMap
  spin_up_loop ℕ.zero queue spin_ups m = ((spin_ups, queue), m)
  spin_up_loop (suc n) [] spin_ups m = spin_up_loop n [] spin_ups m
  spin_up_loop (suc n) (worker_type ∷ queue) spin_ups m =
      let (result, m') = add_worker (str m.worker_id_counter) worker_type m in
      spin_up_loop n queue (update_spin_ups spin_ups result) m'

  unfoldable pub num_slots : List String → WorkerMap → ℤ → ℕ
  num_slots next_worker_q m unused =
      min (pos_part (pos m.max_worker_count -ℤ m.active_workers -ℤ m.pending_workers))
        (min (length next_worker_q) (pos_part unused))

  -- The processes started, and what is left of the queue.
  unfoldable pub spin_up_workers : List String → Action WorkerMap (Dict ℕ × List String)
  unfolding spin_up_loop num_slots
  spin_up_workers next_worker_q m =
      if ltb 0 (length next_worker_q)
        && ltb_ℤ (m.active_workers +ℤ m.pending_workers) (pos m.max_worker_count)
      then elim (get? "unused" m.total_worker_type_counts) [
        | none ↦ (raise key_error, m)
        | some unused ↦
            let (found, m') = spin_up_loop (num_slots next_worker_q m unused) next_worker_q [] m in
            (return found, m')
      ]
      else (return ([], next_worker_q), m)
