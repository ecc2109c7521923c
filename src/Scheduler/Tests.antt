-- ===== src/Scheduler/Tests.antt =====
-- A run of the scheduler, and the theorems at inputs that meet their hypotheses.
use func_x.Prelude.{ℕ, ◌/◌, ◌*◌, ◌≤◌, ◌≡◌, refl, min, max, String, true, some, List, [], ◌∷◌, All}
use func_x.Prelude.Dict.{Dict, get?, put, get_or, has, Distinct}
use func_x.Scheduler.{total, top_up, proportions, naive_scheduler}
use func_x.Scheduler.Shares.{naive_scheduler_lem, naive_scheduler_ends}

-- The floor of the exact quotient.
abbrev share : ℕ → ℕ → ℕ → ℕ
share q_size sum_q_size max_workers = q_size * max_workers / sum_q_size

abbrev tasks : Dict ℕ
tasks = ("RAW", 7) ∷ ("img", 1) ∷ []

program : Unit {0}
unfolding naive_scheduler proportions top_up get? put
program = tt

-- Three workers for "RAW" of four; the fourth goes to the type that is drawn.
fourth : naive_scheduler share tasks 4 ("img" ∷ []) ≡ some (("RAW", 3) ∷ ("img", 1) ∷ [])
unfolding program
fourth = refl

naive_scheduler_lem_example :
    (total (("RAW", 3) ∷ ("img", 1) ∷ []) ≡ max (total (proportions share 8 4 tasks)) (min 4 8))
    × ((k : String) → get_or k 0 (("RAW", 3) ∷ ("img", 1) ∷ []) ≤ get_or k 0 tasks)
naive_scheduler_lem_example = naive_scheduler_lem share tasks 4 ("img" ∷ []) fourth

tasks-Distinct : Distinct tasks
unfolding get?
tasks-Distinct = (refl, (refl, tt))

naive_scheduler_ends_example :
    (draws : List String) × (result : Dict ℕ) × All (λ k. has k tasks ≡ true) draws
    × (naive_scheduler share tasks 4 draws ≡ some result)
naive_scheduler_ends_example = naive_scheduler_ends share tasks 4 tasks-Distinct
