-- ===== src/Htex/Status.antt =====
-- `_status_report_loop`: the transitions since the last report, in chunks, with `chunk_by` of the
-- SDK's sdk/utils/__init__.py.
use func_x.Prelude.{ℕ, zero, suc, List, [], ◌∷◌, length, take, drop, is_empty, if◌then◌else◌}
use func_x.Prelude.Dict.{Dict}
use func_x.Htex.{Htex, TaskTransition, GlobalState, get_global_state_for_status_report}

pub record EpStatusReport : Type 0 where
  pub global_state : GlobalState
  pub task_statuses : Dict (List TaskTransition)

-- Slices of `size` until one is empty. A slice shortens what is left, so its length is fuel enough.
unfoldable pub chunk_loop {ℓ} : {A : Type ℓ} → ℕ → ℕ → List A → List (List A)
chunk_loop size zero xs = []
chunk_loop size (suc fuel) xs =
    let rest = chunk_loop size fuel (drop size xs) in
    if is_empty (take size xs) then [] else take size xs ∷ rest

unfoldable pub chunk_by {ℓ} : {A : Type ℓ} → List A → ℕ → List (List A)
chunk_by xs size = chunk_loop size (length xs) xs

abbrev pub reports : GlobalState → List (Dict (List TaskTransition)) → List EpStatusReport
reports g [] = []
reports g (chunk ∷ chunks) = record { global_state = g; task_statuses = chunk } ∷ reports g chunks

-- One round: the deltas are taken out, and at least one report is made.
unfoldable pub status_report : Htex → List EpStatusReport × Htex
status_report s =
    let g = get_global_state_for_status_report s in
    let deltas = s.task_status_deltas in
    (
      reports g (if is_empty deltas then [] ∷ [] else chunk_by deltas 4096),
      record s { task_status_deltas = [] },
    )
