-- ===== src/WorkerMap/SpinDown.antt =====
-- `_spin_down`: how many workers of each type are stopped.
use mathlib.Core.Option
use func_x.Prelude.{
  ℕ, suc, ◌+◌, ◌≤◌, ◌≡◌, ◌≢◌, String, Bool, true, List, [], ◌∷◌, ◌++◌, replicate, if◌then◌else◌,
  ltb, ◌&&◌, ◌<◌, ◌⊎◌,
}
use func_x.Prelude.Int.{ℤ, pos, ◌-ℤ◌, ◌≤ℤ◌}
use func_x.Prelude.Dict.{Dict, get_or, ◌=?◌}
use func_x.WorkerMap.{WorkerMap}
use func_x.WorkerMap.Books.{Books}
use func_x.WorkerMap.Choose.{num_remove}

module _ (m : WorkerMap) (new_worker_map : Dict ℕ) (idle now : ℕ) (hard check : Bool) where
  -- How many workers of a type are stopped, where nothing is missing from `worker_idle_since`.
  pub stops : String → ℤ → ℕ
  stops t total =
      if t =? "unused"
      then 0
      else if check && ltb now (get_or t 0 m.worker_idle_since + idle)
      then 0
      else num_remove m new_worker_map hard t total

  -- All the types to stop, in the order of the dict.
  stopped : Dict ℤ → List String
  stopped [] = []
  stopped ((t, total) ∷ rest) = replicate (stops t total) t ++ stopped rest

  -- More of a type than are to die already and than the scheduler asks for.
  abbrev pub surplus : String → ℤ → ℤ
  surplus t total = total -ℤ get_or t (pos 0) m.to_die_count -ℤ pos (get_or t 0 new_worker_map)

  -- How many workers of a type with `total` workers are to be named: none of the free slots, nor of a
  -- type that is not idle for long enough yet if that is looked at; else the surplus, if there is any,
  -- in hard mode without the last worker.
  pub record IsAsked (t : String) (total : ℤ) (n : ℕ) : Type 0 where
    pub unused : t ≡ "unused" → n ≡ 0
    pub recent : check ≡ true → now < get_or t 0 m.worker_idle_since + idle → n ≡ 0
    pub at_most : n ≢ 0 → pos n ≤ℤ surplus t total
    pub at_least :
        t ≢ "unused"
        → (check ≡ true → get_or t 0 m.worker_idle_since + idle ≤ now)
        → (surplus t total ≤ℤ pos n) ⊎ ((hard ≡ true) × (total ≤ℤ pos (suc n)))
    pub one_left : hard ≡ true → n ≢ 0 → pos (suc n) ≤ℤ total
