-- ===== src/Scaling/Tests.antt =====
-- Rounds of the strategies, and the theorems at inputs that meet their hypotheses. The parallelism
-- is one.
use func_x.Prelude.{ℕ, ◌+◌, ◌<◌, ◌≡◌, refl, none, some, List, [], ◌∷◌, arith, All, ltb}
use func_x.Prelude.Int.{pos, ◌-ℤ◌}
use func_x.Prelude.Dict.{Dict, get?, put, =?_iff}
use func_x.Prelude.Python.{return}
use func_x.Scaling.{
  Floats, running, pending, other, Report, scale_in, scale_out, cool_down, request,
  simple_strategize, orders, timer_after,
}
use func_x.Scaling.Bounds.{IsFit, orders-IsFit}
use func_x.Scaling.Idle.{IdleSince, removal-IdleSince}
use func_x.Scaling.Kube.{
  KubeReport, kube_strategize, kube_loop, one_type, idle_type, busy_type, ordered,
}
use func_x.Scaling.Stuck.{Round, AreIdleIn, kube_rounds, rounds, cut_rounds, kube_stuck}

abbrev floats : Floats
floats = record {
  below = λ slots tasks. ltb slots tasks;
  excess = λ tasks slots. pos tasks -ℤ pos slots;
}

-- Two blocks, at least one; three workers to a node.
abbrev report : ℕ → ℕ → Report
report tasks now = record {
  min_blocks = 1;
  max_blocks = 4;
  max_workers_per_node = some 3;
  nodes_per_block = 1;
  active_tasks = tasks;
  status = running ∷ other ∷ pending ∷ [];
  now = now;
}

program : Unit {0}
unfolding simple_strategize cool_down request orders timer_after ◌-ℤ◌ get? put kube_strategize
    kube_loop one_type idle_type busy_type ordered
program = tt

-- Eleven tasks on six slots: two more blocks, up to the maximum.
requests : orders floats 60 (report 11 5) none ≡ scale_out (pos 2) ∷ []
unfolding program
requests = refl

-- Idle since 100: nothing at 160, one block goes at 161.
removal :
    (simple_strategize floats 60
      (report 0 161)
      (timer_after floats 60 (report 0 160 ∷ report 0 100 ∷ report 3 50 ∷ []))).0
    ≡ return (scale_in 1 ∷ [])
unfolding program
removal = refl

orders-IsFit_example : All (IsFit (report 11 5)) (orders floats 60 (report 11 5) none)
orders-IsFit_example = orders-IsFit floats 60 (report 11 5) none

removal-IdleSince_example :
    (since : ℕ) × IdleSince since (report 0 161 ∷ report 0 160 ∷ report 0 100 ∷ report 3 50 ∷ [])
    × (since + 60 < 161)
removal-IdleSince_example =
    removal-IdleSince floats 60 (report 0 161) (report 0 160 ∷ report 0 100 ∷ report 3 50 ∷ []) 1
      removal

abbrev pods : KubeReport
pods = record { min_pods = 0; max_pods = 4; max_workers_per_node = some 1; pods = ("img", 1) ∷ [] }

-- The type "RAW" has two tasks, and gets its pods where it is named first only.
served :
    (kube_strategize floats 60 (λ t. (5, 5)) pods (("RAW", 2) ∷ ("img", 0) ∷ []) []).orders
    ≡ ("RAW", scale_out (pos 2)) ∷ []
unfolding program
served = refl

-- Two such rounds, with the type "RAW" behind "img" and "big" before it, which has tasks.
abbrev round : Dict ℕ → Round
round tasks = record { report = pods; clock = λ t. (5, 5); active_tasks = tasks }

abbrev stuck_rounds : List (Dict ℕ × Round)
stuck_rounds =
    (("big", 1) ∷ [], round (("big", 1) ∷ ("img", 0) ∷ ("RAW", 2) ∷ []))
    ∷ ([], round (("img", 0) ∷ ("RAW", 2) ∷ []))
    ∷ []

stuck_rounds-idle : AreIdleIn floats 60 "img" stuck_rounds
unfolding program
stuck_rounds-idle = (
  record {
    after = ("RAW", 2) ∷ [];
    listed = refl;
    absent = ((λ e. ground (arith, =?_iff "big" "img")), tt);
    above = refl;
  },
  (record { after = ("RAW", 2) ∷ []; listed = refl; absent = tt; above = refl }, tt),
)

kube_stuck_example :
    kube_rounds floats 60 (rounds floats 60 "img" stuck_rounds) []
    ≡ kube_rounds floats 60 (cut_rounds floats 60 "img" stuck_rounds) []
kube_stuck_example =
    kube_stuck floats 60 "img" stuck_rounds [] (unfold program in refl) stuck_rounds-idle
