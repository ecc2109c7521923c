-- ===== src/Batch.antt =====
-- compute_sdk/globus_compute_sdk/sdk/batch.py: a batch of function calls, by function. The strategies
-- of its serializer are parameters, as are Python's empty tuple and empty dict as objects.
pub mod Calls
mod Tests
use func_x.Prelude.{
  ℕ, ◌+◌, ◌==◌, String, Bool, true, false, not, ◌&&◌, Option, none, some, List, [], ◌∷◌, ◌++◌,
  length, is_empty, if◌then◌else◌,
}
use func_x.Prelude.Dict.{Dict, put, get_or, ◌=?◌}
use func_x.Prelude.Python.{Result, return, raise, Action}
use func_x.Prelude.Text.{Text}
use func_x.Serialize.{Python, Strategy, serialize, pack_buffers}

pub record Batch : Type 0 where
  pub task_group_id : Option String
  pub user_endpoint_config : Option (Dict String)
  pub tasks : Dict (List Text)
  pub request_queue : Bool

abbrev pub init : Option String → Option (Dict String) → Bool → Batch
init task_group_id user_endpoint_config request_queue = record {
  task_group_id = task_group_id;
  user_endpoint_config = user_endpoint_config;
  tasks = [];
  request_queue = request_queue;
}

-- `__bool__` and `__len__`
abbrev pub all_called : Dict (List Text) → Bool
all_called [] = true
all_called ((k, fns) ∷ tasks) = not (is_empty fns) && all_called tasks

abbrev pub num_calls : Dict (List Text) → ℕ
num_calls [] = 0
num_calls ((k, fns) ∷ tasks) = length fns + num_calls tasks

abbrev pub or_default : {V : Type 0} → V → Option V → V
or_default default none = default
or_default default (some v) = v

module _ {V : Type 0} (py : Python V) (strategy_code strategy_data : Strategy)
    (no_args no_kwargs : V) where
  unfoldable pub add : String → Option V → Option V → Action Batch (Unit {0})
  add function_id args kwargs b =
      elim (serialize py strategy_code strategy_data (or_default no_args args)) [
        | raise e ↦ (raise e, b)
        | return ser_args ↦
            elim (serialize py strategy_code strategy_data (or_default no_kwargs kwargs)) [
              | raise e ↦ (raise e, b)
              | return ser_kwargs ↦
                  let payload = pack_buffers (ser_args ∷ ser_kwargs ∷ []) in
                  (
                    return tt,
                    record b {
                      tasks =
                          put function_id (get_or function_id [] b.tasks ++ payload ∷ []) b.tasks;
                    },
                  )
            ]
      ]

-- What is posted; the two optional entries are there where their values are truthy.
pub record Prepared : Type 0 where
  pub create_queue : Bool
  pub tasks : Dict (List Text)
  pub task_group_id : Option String
  pub user_endpoint_config : Option (Dict String)

abbrev pub text_entry : Option String → Option String
text_entry none = none
text_entry (some s) = if s =? "" then none else some s

abbrev pub dict_entry : Option (Dict String) → Option (Dict String)
dict_entry none = none
dict_entry (some []) = none
dict_entry (some (e ∷ d)) = some (e ∷ d)

abbrev pub prepare : Batch → Prepared
prepare b = record {
  create_queue = b.request_queue;
  tasks = b.tasks;
  task_group_id = text_entry b.task_group_id;
  user_endpoint_config = dict_entry b.user_endpoint_config;
}
