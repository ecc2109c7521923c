-- ===== src/Submission.antt =====
-- compute_sdk/globus_compute_sdk/sdk/executor.py, class Executor: the thread that collects tasks into
-- batches and submits them. The futures are the store of Watcher.antt. A batch of the client, and the
-- service's answer to it, are parameters; Batch.antt models the SDK's batch.
pub mod Collecting
pub mod Telling
pub mod Assigning
pub mod Submitting
mod Tests
use func_x.Prelude.{
  ℕ, ◌+◌, ◌==◌, String, Bool, true, false, not, ◌||◌, Option, none, some, List, [], ◌∷◌, ◌++◌,
  length, max, leb, if◌then◌else◌,
}
use func_x.Prelude.Dict.{Dict, get?, put, get_or, ◌=?◌}
use func_x.Prelude.Python.{Exc, Result, return, raise, Action}
use func_x.Watcher.{Failure, unsubmitted, ignored, partial, Outcome, failed, Future, set_outcome}

-- _TaskSubmissionInfo. `group` stands for the three parts of a SubmitGroup, `call` for the arguments.
pub record TaskInfo (C : Type 0) : Type 0 where
  pub group : String
  pub function_id : String
  pub call : C

-- What `to_send` holds: a future with its task, or the poison pill.
abbrev pub Item : Type 0 → Type 0
Item C = Option (ℕ × TaskInfo C)

pub record Collected (C : Type 0) : Type 0 where
  pub groups : Dict (List (ℕ × TaskInfo C))
  pub left : List (Item C)
  pub poisoned : Bool

-- `d[k].append(x)` of a dict that makes a missing list.
abbrev pub append_to {ℓ} : {A : Type ℓ} → String → A → Dict (List A) → Dict (List A)
append_to k x d = put k (get_or k [] d ++ x ∷ []) d

module _ {C : Type 0} where
  -- `any(len(tl) >= bs for tl in tasks.values())`
  abbrev pub is_full : ℕ → Dict (List (ℕ × TaskInfo C)) → Bool
  is_full bs [] = false
  is_full bs ((k, xs) ∷ d) = leb bs (length xs) || is_full bs d

  -- The inner loop, over what the queue has. `futs` and `tasks` have the same keys and lengths: they
  -- are one dict of pairs.
  unfoldable pub collect_loop : ℕ → List (Item C) → Dict (List (ℕ × TaskInfo C)) → Collected C
  collect_loop bs [] groups = record { groups = groups; left = []; poisoned = false }
  collect_loop bs (none ∷ items) groups = record { groups = groups; left = items; poisoned = true }
  collect_loop bs (some (f, task) ∷ items) groups =
      let groups' = append_to task.group (f, task) groups in
      let rest = collect_loop bs items groups' in
      if is_full bs groups'
      then record { groups = groups'; left = items; poisoned = false }
      else rest

  unfoldable pub collect : ℕ → List (Item C) → Collected C
  collect batch_size items = collect_loop (max 1 batch_size) items []

-- The answer to a batch: its task group, and the tasks' ids by function.
pub record Response : Type 0 where
  pub task_group_id : String
  pub tasks : Dict (List String)

pub record Submitter (V : Type 0) : Type 0 where
  pub futures : ℕ → Future V
  pub task_group_id : Option String
  pub task_count_submitted : ℕ
  pub exception_captured : Bool

abbrev pub batch_count : Dict (List String) → ℕ
batch_count [] = 0
batch_count ((k, ids) ∷ d) = length ids + batch_count d

module _ {V : Type 0} where
  -- `fut.set_exception(e)` for each of them.
  unfoldable pub fail_each : Failure → List ℕ → Action (ℕ → Future V) (Unit {0})
  fail_each e [] futures = (return tt, futures)
  fail_each e (f ∷ fs) futures =
      let (result, futures') = set_outcome f (failed e) futures in
      elim result [ raise x ↦ (raise x, futures') | return _ ↦ fail_each e fs futures' ]

  unfoldable pub fail_groups : Failure → Dict (List ℕ) → Action (ℕ → Future V) (Unit {0})
  fail_groups e [] futures = (return tt, futures)
  fail_groups e ((k, fs) ∷ d) futures =
      let (result, futures') = fail_each e fs futures in
      elim result [ raise x ↦ (raise x, futures') | return _ ↦ fail_groups e d futures' ]

  -- `fut.task_id = task_id`, for each pair.
  unfoldable pub name_each : List ℕ → List String → (ℕ → Future V) → ℕ → Future V
  name_each [] ids futures = futures
  name_each (f ∷ fs) [] futures = futures
  name_each (f ∷ fs) (id ∷ ids) futures =
      name_each fs ids (λ g. if g == f then record (futures g) { task_id = some id } else futures g)

  -- The last loop of `_submit_tasks`.
  unfoldable pub assign_ids : Dict (List String) → Dict (List ℕ) → Action (ℕ → Future V) (Unit {0})
  assign_ids received [] futures = (return tt, futures)
  assign_ids received ((fn_id, fs) ∷ d) futures = elim (get? fn_id received) [
    | none ↦
        let (result, futures') = fail_each (ignored fn_id) fs futures in
        elim result [ raise x ↦ (raise x, futures') | return _ ↦ assign_ids received d futures' ]
    | some ids ↦
        let (result, futures') = fail_each (partial fn_id) fs futures in
        if length fs == length ids
        then assign_ids received d (name_each fs ids futures)
        else elim result [
          | raise x ↦ (raise x, futures')
          | return _ ↦ assign_ids received d futures'
        ]
  ]

-- `add` is the batch's `add`, `batch_run` the request, which also raises on an answer that lacks a
-- field.
module _ {C B : Type 0} (add : String → C → Action B (Unit {0})) where
  -- The loop that fills the batch, with the futures by function.
  unfoldable pub add_calls : List (ℕ × TaskInfo C) → Dict (List ℕ) → Action B (Dict (List ℕ))
  add_calls [] by_fn b = (return by_fn, b)
  add_calls ((f, task) ∷ rest) by_fn b =
      let (result, b') = add task.function_id task.call b in
      elim result [
        | raise e ↦ (raise e, b')
        | return _ ↦ add_calls rest (append_to task.function_id f by_fn) b'
      ]

  module _ {V : Type 0} (batch_run : B → Result Response) where
    unfoldable pub submit_tasks : B → List (ℕ × TaskInfo C) → Action (Submitter V) (Unit {0})
    submit_tasks batch tasks s =
        let (added, b) = add_calls tasks [] batch in
        elim added [
          | raise e ↦ (raise e, s)
          | return by_fn ↦ elim (batch_run b) [
            | raise e ↦
                let (told, futures) = fail_groups (unsubmitted e) by_fn s.futures in
                elim told [
                  | raise x ↦ (raise x, record s { futures = futures })
                  | return _ ↦ (raise e, record s { futures = futures; exception_captured = true })
                ]
            | return response ↦
                let (told, futures) = assign_ids response.tasks by_fn s.futures in
                (
                  told,
                  record s {
                    futures = futures;
                    task_group_id = some response.task_group_id;
                    task_count_submitted = s.task_count_submitted + batch_count response.tasks;
                  },
                )
          ]
        ]
