-- ===== src/Htex/Blocks.antt =====
-- `scale_out` and `scale_in`. The provider that starts and cancels blocks is a parameter; it answers
-- no text (an empty one) where it could not start a block. A task type is not the empty text.
use func_x.Prelude.{
  ℕ, zero, suc, ◌+◌, String, Bool, Option, none, some, List, [], ◌∷◌, ◌++◌, take, if◌then◌else◌,
}
use func_x.Prelude.Dict.{Dict, get?, put, remove, keys, ◌=?◌}
use func_x.Prelude.Decimal.{str}
use func_x.Prelude.Python.{key_error, runtime_error, name_error, Result, return, raise, Action}
use func_x.Dispatch.{Manager}
use func_x.Htex.Managers.{hold_block}

-- `submit n worker_type task_type` answers the `n`-th submission.
pub record Provider : Type 0 where
  pub submit : ℕ → String → Option String → String
  pub cancel_type : Option ℕ → String → List String

pub record Blocks : Type 0 where
  pub blocks : Dict String
  pub block_id_map : Dict String
  pub block_counter : ℕ
  pub ready_manager_queue : Dict Manager
  pub cancelled : List String

-- What stands for the worker type in the launch command; `None` prints as "None".
abbrev pub worker_type_name : String → Option String → String
worker_type_name scheduler_mode none = if scheduler_mode =? "hard" then "RAW" else "None"
worker_type_name scheduler_mode (some t) = t

unfoldable pub hold_blocks : List String → Dict Manager → Dict Manager
hold_blocks [] d = d
hold_blocks (id ∷ ids) d = hold_blocks ids (hold_block id d)

-- `[self.blocks.pop(bid) for bid in ids]`
unfoldable pub pop_blocks : List String → Dict String → Result (List String) × Dict String
pop_blocks [] blocks = (return [], blocks)
pop_blocks (id ∷ ids) blocks = elim (get? id blocks) [
  | none ↦ (raise key_error, blocks)
  | some internal ↦
      let (result, blocks') = pop_blocks ids (remove id blocks) in
      elim result [
        | raise e ↦ (raise e, blocks')
        | return to_kill ↦ (return (internal ∷ to_kill), blocks')
      ]
]

module _ (provider : Provider) (scheduler_mode : String) (scaling_enabled : Bool) where
  unfoldable pub scale_out : ℕ → Option String → Action Blocks (Unit {0})
  scale_out zero task_type b = (return tt, b)
  scale_out (suc n) task_type b =
      let counter = b.block_counter + 1 in
      let external_block_id = str counter in
      let internal_block =
        provider.submit counter (worker_type_name scheduler_mode task_type) task_type in
      if internal_block =? ""
      then (raise runtime_error, record b { block_counter = counter })
      else scale_out n task_type (record b {
        block_counter = counter;
        blocks = put external_block_id internal_block b.blocks;
        block_id_map = put internal_block external_block_id b.block_id_map;
      })

  -- The blocks of one type that the provider has chosen to cancel.
  unfoldable pub drop_jobs : List String → Action Blocks (Unit {0})
  drop_jobs [] b = (return tt, b)
  drop_jobs (job ∷ jobs) b = elim (get? job b.block_id_map) [
    | none ↦ (raise key_error, b)
    | some block_id ↦
        let held = hold_block block_id b.ready_manager_queue in
        elim (get? block_id b.blocks) [
          | none ↦ (raise key_error, record b { ready_manager_queue = held })
          | some internal ↦
              drop_jobs jobs
                (record b { ready_manager_queue = held; blocks = remove block_id b.blocks })
        ]
  ]

  -- Without scaling the last line reads a variable that was never set.
  unfoldable pub scale_in_blocks : List String → Action Blocks (Unit {0})
  scale_in_blocks ids b =
      let (result, blocks') = pop_blocks ids b.blocks in
      let b' = record b {
        ready_manager_queue = hold_blocks ids b.ready_manager_queue;
        blocks = blocks';
      } in
      elim result [
        | raise e ↦ (raise e, b')
        | return to_kill ↦
            if scaling_enabled
            then (return tt, record b' { cancelled = b.cancelled ++ to_kill })
            else (raise name_error, b')
      ]

  abbrev pub chosen : Option ℕ → List String → Dict String → List String
  chosen blocks (id ∷ ids) d = id ∷ ids
  chosen none [] d = keys d
  chosen (some n) [] d = take n (keys d)

  -- `cancel_type` is asked where a type is given; a type without scaling goes on like none.
  unfoldable pub scale_in : Option ℕ → List String → Option String → Action Blocks (Unit {0})
  scale_in blocks block_ids none b = scale_in_blocks (chosen blocks block_ids b.blocks) b
  scale_in blocks block_ids (some t) b =
      if scaling_enabled
      then drop_jobs (provider.cancel_type blocks t) b
      else scale_in_blocks (chosen blocks block_ids b.blocks) b
