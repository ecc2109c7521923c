-- ===== src/Submission/Tests.antt =====
-- Batches of tasks, and the theorems at inputs that meet their hypotheses.
use func_x.Prelude.{
  ℕ, max, ◌≡◌, ◌≢◌, refl, String, true, false, none, some, List, [], ◌∷◌, ◌++◌, All, map, arith,
  if◌then◌else◌,
}
use func_x.Prelude.Dict.{Dict, get?, put, get_or, ◌=?◌}
use func_x.Prelude.Python.{Exc, value_error, serialization_error, Result, return, raise, Action}
use func_x.Watcher.{pending, failed, partial, unsubmitted, Future, set_outcome}
use func_x.Submission.{
  TaskInfo, Item, Response, Submitter, collect_loop, collect, fail_each, fail_groups, name_each,
  assign_ids, add_calls, submit_tasks,
}
use func_x.Submission.Collecting.{of_group, AreShort, collect_lem}
use func_x.Submission.Telling.{all_futures}
use func_x.Submission.Assigning.{AreTold, assign_ids_lem}
use func_x.Submission.Submitting.{submit_tasks_untold}

abbrev call : String → String → String → TaskInfo String
call group function_id args = record { group = group; function_id = function_id; call = args }

abbrev items : List (Item String)
items =
    some (0, call "g" "f" "1") ∷ some (1, call "h" "f" "2") ∷ some (2, call "g" "e" "3") ∷ none ∷ []

abbrev futures : ℕ → Future ℕ
futures f = record { task_id = none; outcome = pending }

-- A batch is its calls; the call "bad" cannot be serialized.
abbrev add_call : String → String → Action (List String) (Unit {0})
add_call function_id args b =
    if args =? "bad" then (raise serialization_error, b) else (return tt, b ++ args ∷ [])

abbrev answer : Response
answer = record { task_group_id = "tg"; tasks = ("f", "t1" ∷ "t2" ∷ []) ∷ ("e", []) ∷ [] }

abbrev batch_run : List String → Result Response
batch_run b = return answer

abbrev refuse : List String → Result Response
refuse b = raise value_error

abbrev submitter : Submitter ℕ
submitter = record {
  futures = futures;
  task_group_id = none;
  task_count_submitted = 0;
  exception_captured = false;
}

abbrev batch : List (ℕ × TaskInfo String)
batch = (0, call "g" "f" "1") ∷ (1, call "g" "f" "2") ∷ (2, call "g" "e" "3") ∷ []

program : Unit {0}
unfolding collect_loop collect fail_each fail_groups name_each assign_ids add_calls submit_tasks
    set_outcome get? put
program = tt

-- The batch size is reached by the third task, before the poison pill.
collected :
    (collect 2 items).groups
    ≡ ("g", (0, call "g" "f" "1") ∷ (2, call "g" "e" "3") ∷ [])
      ∷ ("h", (1, call "h" "f" "2") ∷ [])
      ∷ []
unfolding program
collected = refl

-- Two tasks of one function get their ids, the task of the other gets none.
submitted :
    let (result, s) = submit_tasks add_call batch_run [] batch submitter in
    (result ≡ return tt)
    × ((s.futures 0).task_id ≡ some "t1")
    × ((s.futures 1).task_id ≡ some "t2")
    × ((s.futures 2).outcome ≡ failed (partial "e"))
    × (s.task_count_submitted ≡ 2)
unfolding program
submitted = (refl, refl, refl, refl, refl)

-- A request that fails is told to all.
refused :
    let (result, s) = submit_tasks add_call refuse [] batch submitter in
    (result ≡ raise value_error)
    × ((s.futures 2).outcome ≡ failed (unsubmitted value_error))
    × (s.exception_captured ≡ true)
unfolding program
refused = (refl, refl, refl)

collect_lem_example :
    let c = collect 2 items in
    ((k : String) → get_or k [] c.groups ++ of_group k c.left ≡ of_group k items)
    × AreShort (max 1 2) c.groups
collect_lem_example = collect_lem 2 items

abbrev by_function : Dict (List ℕ)
by_function = ("f", 0 ∷ 1 ∷ []) ∷ ("e", 2 ∷ []) ∷ []

assign_ids_lem_example :
    let (result, after) = assign_ids answer.tasks by_function futures in
    (result ≡ return tt)
    × All (λ e. AreTold answer.tasks e.0 (map after e.1)) by_function
    × ((g : ℕ) → All (λ f. g ≢ f) (all_futures by_function) → after g ≡ futures g)
assign_ids_lem_example =
    let one_zero : 1 ≢ 0 = λ e. absurd (omega (arith, e)) in
    let two_zero : 2 ≢ 0 = λ e. absurd (omega (arith, e)) in
    let two_one : 2 ≢ 1 = λ e. absurd (omega (arith, e)) in
    assign_ids_lem answer.tasks by_function futures
      (refl, (one_zero, (two_zero, tt)), (refl, (two_one, tt), (refl, tt, tt)))

submit_tasks_untold_example :
    let (result, s) =
      submit_tasks add_call batch_run []
        ((0, call "g" "f" "1") ∷ (1, call "g" "f" "bad") ∷ (2, call "g" "f" "3") ∷ [])
        submitter in
    ((e : Exc) × (result ≡ raise e)) × (s ≡ submitter)
submit_tasks_untold_example =
    submit_tasks_untold add_call batch_run [] ((0, call "g" "f" "1") ∷ []) 1 (call "g" "f" "bad")
      ((2, call "g" "f" "3") ∷ []) submitter (λ b. (serialization_error, refl))
