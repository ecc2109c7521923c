-- ===== src/Submission/Submitting.antt =====
-- What submitting a batch does to its futures.
use func_x.Prelude.{ℕ, ◌≡◌, refl, String, List, [], ◌∷◌, ◌++◌, inl, inr}
use func_x.Prelude.Dict.{Dict}
use func_x.Prelude.Python.{Exc, Result, Result-cases, raise, Action}
use func_x.Submission.{TaskInfo, append_to, Response, Submitter, add_calls, submit_tasks}

module _ {C B : Type 0} (add : String → C → Action B (Unit {0})) where
  -- A call that the batch does not take ends the loop, whatever was taken before.
  add_calls_raises :
      (before : List (ℕ × TaskInfo C)) (f : ℕ) (task : TaskInfo C) (after : List (ℕ × TaskInfo C))
      (by_fn : Dict (List ℕ)) (b : B)
      → ((b : B) → (e : Exc) × ((add task.function_id task.call b).0 ≡ raise e))
      → (e : Exc) × ((add_calls add (before ++ (f, task) ∷ after) by_fn b).0 ≡ raise e)
  unfolding add_calls
  add_calls_raises [] f task after by_fn b h = let (e, q) = h b in (e, rw (q, add_calls) refl)
  add_calls_raises ((g, t) ∷ before) f task after by_fn b h =
      elim (Result-cases (add t.function_id t.call b).0) [
        | inl (u, q) ↦
            let (e, r) =
              add_calls_raises before f task after (append_to t.function_id g by_fn)
                (add t.function_id t.call b).1 h in
            (e, rw (q, add_calls) r)
        | inr (e, q) ↦ (e, rw (q, add_calls) refl)
      ]

  -- A batch with a call that cannot be added, say because its arguments cannot be serialized: an
  -- exception is raised, and no future of the batch is told: all stay as they are, also those whose
  -- calls could be added. The exception does not count as captured.
  pub submit_tasks_untold :
      {V : Type 0} (batch_run : B → Result Response) (batch : B) (before : List (ℕ × TaskInfo C))
      (f : ℕ) (task : TaskInfo C) (after : List (ℕ × TaskInfo C)) (s : Submitter V)
      → ((b : B) → (e : Exc) × ((add task.function_id task.call b).0 ≡ raise e))
      → let (result, s') = submit_tasks add batch_run batch (before ++ (f, task) ∷ after) s in
        ((e : Exc) × (result ≡ raise e)) × (s' ≡ s)
  unfolding submit_tasks
  submit_tasks_untold batch_run batch before f task after s h =
      let (e, q) = add_calls_raises before f task after [] batch h in
      ((e, rw (q, submit_tasks) refl), rw (q, submit_tasks) refl)
