-- ===== src/Scaling/Kube.antt =====
-- strategies/kube_simple.py: the same for pods, one container type after another. A round reads the
-- clock once where it starts a timer and once where it looks at it; `clock` gives both for a type.
use func_x.Prelude.{
  ℕ, ◌+◌, ◌-◌, ◌*◌, ◌==◌, String, ◌&&◌, Option, none, some, List, [], ◌∷◌, if◌then◌else◌, ltb,
}
use func_x.Prelude.Int.{pos, ◌-ℤ◌}
use func_x.Prelude.Dict.{Dict, get?, put, get_or}
use func_x.Prelude.Python.{key_error, return, raise, Action}
use func_x.Scaling.{Floats, ceil_div, min_ℤ, Order, scale_in, scale_out, tasks_per_node, or_now}

pub record KubeReport : Type 0 where
  pub min_pods : ℕ
  pub max_pods : ℕ
  pub max_workers_per_node : Option ℕ
  pub pods : Dict ℕ

-- The orders of a round and `executors_idle_since`.
pub record Kube : Type 0 where
  pub orders : List (String × Order)
  pub idle_since : Dict (Option ℕ)

module _ (floats : Floats) (max_idletime : ℕ) (clock : String → ℕ × ℕ) (r : KubeReport) where
  -- The branch without tasks. A type that was never active has no timer: KeyError.
  unfoldable pub idle_type : String → ℕ → Action Kube (Unit {0})
  idle_type task_type active_pods k = elim (get? task_type k.idle_since) [
    | none ↦ (raise key_error, k)
    | some idle ↦
        let since = or_now (clock task_type).0 idle in
        (
          return tt,
          record {
            orders =
                if ltb (since + max_idletime) (clock task_type).1
                then (task_type, scale_in (active_pods - r.min_pods)) ∷ k.orders
                else k.orders;
            idle_since = put task_type (some since) k.idle_since;
          },
        )
  ]

  unfoldable pub ordered : String → Order → Kube → Kube
  ordered task_type o k = record k { orders = (task_type, o) ∷ k.orders }

  -- The branch with tasks.
  unfoldable pub busy_type : String → ℕ → ℕ → Action Kube (Unit {0})
  busy_type task_type tasks active_pods k =
      let workers = tasks_per_node r.max_workers_per_node in
      let slots = active_pods * workers * 1 in
      if (ltb 0 tasks) && floats.below slots tasks
      then (if ltb active_pods r.max_pods
          then elim (ceil_div (floats.excess tasks slots) (workers * 1)) [
            | raise e ↦ (raise e, k)
            | return n ↦ (
              return tt,
              ordered task_type (scale_out (min_ℤ n (pos r.max_pods -ℤ pos active_pods))) k,
            )
          ]
          else (return tt, k))
      else if (slots == 0) && ltb 0 tasks
      then (return tt, ordered task_type (scale_out (pos 1)) k)
      else (return tt, k)

  -- One round of the loop over the types. The orders are in reverse.
  unfoldable pub one_type : String → ℕ → Action Kube (Unit {0})
  one_type task_type tasks k =
      let active_pods = get_or task_type 0 r.pods in
      let k' : Kube =
        (if ltb 0 tasks then record k { idle_since = put task_type none k.idle_since } else k) in
      if (tasks == 0) && ltb r.min_pods active_pods
      then idle_type task_type active_pods k'
      else busy_type task_type tasks active_pods k'

  -- `_strategize` over the outstanding tasks by type.
  unfoldable pub kube_loop : Dict ℕ → Action Kube (Unit {0})
  kube_loop [] k = (return tt, k)
  kube_loop ((task_type, tasks) ∷ rest) k =
      let (result, k') = one_type task_type tasks k in
      elim result [ raise e ↦ (raise e, k') | return _ ↦ kube_loop rest k' ]

  -- `strategize`, from the timers that the earlier rounds have left; what the loop raises is logged.
  unfoldable pub kube_strategize : Dict ℕ → Dict (Option ℕ) → Kube
  kube_strategize active_tasks idle_since =
      (kube_loop active_tasks (record { orders = []; idle_since = idle_since })).1
