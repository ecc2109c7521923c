-- ===== src/Scaling.antt =====
-- strategies/simple.py: when blocks of nodes are requested and removed. The two comparisons with
-- the provider's parallelism are float operations of the parameter `floats`; the other division is
-- of whole numbers, exact below 2^53. What is kept only to avoid repeated log lines is left out.
pub mod Kube
mod Stuck
pub mod Bounds
pub mod Idle
mod Tests
use func_x.Prelude.{
  ℕ, zero, suc, ◌+◌, ◌-◌, ◌*◌, ◌/◌, ◌==◌, String, Bool, true, false, ◌&&◌, not, Option, none, some,
  List, [], ◌∷◌, if◌then◌else◌, ltb, leb,
}
use func_x.Prelude.Int.{ℤ, pos, negsuc, ◌-ℤ◌, ltb_ℤ}
use func_x.Prelude.Python.{zero_division, Result, return, raise}
use func_x.Prelude.Results.{◌>>=◌}

-- `below slots tasks` is `float(slots) / tasks < parallelism`, and `excess tasks slots` is
-- `math.ceil(tasks * parallelism - slots)`.
pub record Floats : Type 0 where
  pub below : ℕ → ℕ → Bool
  pub excess : ℕ → ℕ → ℤ

-- `math.ceil(float(a) / b)`
abbrev pub ceil_div : ℤ → ℕ → Result ℤ
ceil_div a zero = raise zero_division
ceil_div (pos a) (suc b) = return (pos ((a + b) / suc b))
ceil_div (negsuc a) (suc b) = return (pos 0 -ℤ pos (suc a / suc b))

abbrev pub min_ℤ : ℤ → ℤ → ℤ
min_ℤ a b = if ltb_ℤ b a then b else a

-- Parsl's states of a job, as far as they are told apart.
pub data JobState : Type 0 where
  running pending other : JobState

abbrev pub active : List JobState → ℕ
active [] = 0
active (running ∷ states) = suc (active states)
active (pending ∷ states) = suc (active states)
active (other ∷ states) = active states

-- What the interchange and its provider report in one round. Without a limit on the workers of a
-- node (`float("inf")`), there is none here.
pub record Report : Type 0 where
  pub min_blocks : ℕ
  pub max_blocks : ℕ
  pub max_workers_per_node : Option ℕ
  pub nodes_per_block : ℕ
  pub active_tasks : ℕ
  pub status : List JobState
  pub now : ℕ

-- What is asked of the interchange.
pub data Order : Type 0 where
  scale_in : ℕ → Order
  scale_out : ℤ → Order

abbrev pub tasks_per_node : Option ℕ → ℕ
tasks_per_node none = 1
tasks_per_node (some n) = n

-- Whether a time is truthy: `None` and `0.0` are not.
abbrev pub is_set : Option ℕ → Bool
is_set none = false
is_set (some zero) = false
is_set (some (suc n)) = true

abbrev pub or_now : ℕ → Option ℕ → ℕ
or_now now none = now
or_now now (some zero) = now
or_now now (some (suc n)) = suc n

module _ (floats : Floats) (max_idletime : ℕ) where
  -- Case 1b: the timer is started if it was not, and resources go when it has run out.
  unfoldable pub cool_down : Report → Option ℕ → Result (List Order) × Option ℕ
  cool_down r idle =
      let since = or_now r.now idle in
      (
        return (
            if ltb (since + max_idletime) r.now
            then scale_in (active r.status - r.min_blocks) ∷ []
            else []),
        some since,
      )

  -- Case 2b.
  unfoldable pub request : Report → Result (List Order)
  request r =
      let slots = active r.status * tasks_per_node r.max_workers_per_node * r.nodes_per_block in
      do
        excess_blocks ←
            ceil_div (floats.excess r.active_tasks slots)
              (tasks_per_node r.max_workers_per_node * r.nodes_per_block)
        return (scale_out (min_ℤ excess_blocks (pos r.max_blocks -ℤ pos (active r.status))) ∷ [])

  -- `_strategize`; the state is `executors["idle_since"]`.
  unfoldable pub simple_strategize : Report → Option ℕ → Result (List Order) × Option ℕ
  simple_strategize r idle_since =
      let active_blocks = active r.status in
      let active_slots =
        active_blocks * tasks_per_node r.max_workers_per_node * r.nodes_per_block in
      let idle = if ltb 0 r.active_tasks && is_set idle_since then none else idle_since in
      if r.active_tasks == 0
      then (if leb active_blocks r.min_blocks then (return [], idle) else cool_down r idle)
      else if floats.below active_slots r.active_tasks
      then (if leb r.max_blocks active_blocks then (return [], idle) else (request r, idle))
      else if (active_slots == 0) && ltb 0 r.active_tasks
      then (if ltb active_blocks r.max_blocks
          then (return (scale_out (pos 1) ∷ []), idle)
          else (return [], idle))
      else (return [], idle)

  -- `strategize` logs an exception and goes on.
  unfoldable pub orders : Report → Option ℕ → List Order
  orders r idle = elim ((simple_strategize r idle).0) [ return os ↦ os | raise e ↦ [] ]

  -- The rounds of the timer thread, the newest first; the timer after them.
  unfoldable pub timer_after : List Report → Option ℕ
  timer_after [] = none
  timer_after (r ∷ rs) = (simple_strategize r (timer_after rs)).1
