-- ===== src/Htex/Cancelled.antt =====
-- What becomes of a task that is to be cancelled, wherever it is.
use mathlib.Core.List.{append_assoc, append-nil}
use mathlib.Core.Path.{subst}
use func_x.Prelude.{
  ◌≡◌, refl, ◌∙◌, sym, ap, String, true, false, List, [], ◌∷◌, ◌++◌, Bool-cases, inl, inr, is_empty,
  arith, if◌then◌else◌,
}
use func_x.Prelude.Dict.{Dict, has, =?_refl, has-put_self, get?-remove}
use func_x.Dispatch.{Manager}
use func_x.Htex.{Htex}
use func_x.Htex.Cancel.{member, cancel_in, cancel_on, cancel_running, enqueue_task_cancel}

-- The requests that a task's managers are to be sent, one for each set that has it.
abbrev pub requests_on : String → String → Dict (List String) → List (String × String)
requests_on id name [] = []
requests_on id name ((t, tids) ∷ tasks) =
    if member id tids then (name, id) ∷ requests_on id name tasks else requests_on id name tasks

abbrev pub requests : String → Dict Manager → List (String × String)
requests id [] = []
requests id ((name, m) ∷ d) = requests_on id name m.tasks ++ requests id d

-- From `s`, these requests were added, and the task is in the trap if there were none.
Moved : String → List (String × String) → Htex → Htex → Type 0
Moved id rs s s' =
    (s'.task_cancel_running_queue ≡ s.task_cancel_running_queue ++ rs)
    × (has id s'.task_cancel_pending_trap
        ≡ (if is_empty rs then has id s.task_cancel_pending_trap else false))

Moved-trans :
    (id : String) (rs rs' : List (String × String)) (s t u : Htex)
    → Moved id rs s t
    → Moved id rs' t u
    → Moved id (rs ++ rs') s u
unfolding Moved
Moved-trans id [] rs' s t u a b = (b.0 ∙ ap (λ q. q ++ rs') (a.0 ∙ append-nil _), b.1 ∙ rw a.1 refl)
Moved-trans id (r ∷ rs) rs' s t u a b = (
  b.0 ∙ ap (λ q. q ++ rs') a.0 ∙ append_assoc s.task_cancel_running_queue (r ∷ rs) rs',
  b.1 ∙ rw a.1 (ground arith),
)

cancel_in-none :
    (id name : String) (tids : List String) (s : Htex)
    → member id tids ≡ false
    → cancel_in id name tids s ≡ s
unfolding cancel_in
cancel_in-none id name tids s e = rw (e, cancel_in) refl

cancel_in-Moved :
    (id name : String) (tids : List String) (s : Htex)
    → member id tids ≡ true
    → Moved id ((name, id) ∷ []) s (cancel_in id name tids s)
unfolding cancel_in Moved
cancel_in-Moved id name tids s e =
    rw (e, cancel_in) (refl, rw (get?-remove id id s.task_cancel_pending_trap, =?_refl id) refl)

cancel_on-Moved :
    (id name : String) (tasks : Dict (List String)) (s : Htex)
    → Moved id (requests_on id name tasks) s (cancel_on id name tasks s)
unfolding cancel_on
cancel_on-Moved id name [] s = unfold Moved in (sym (append-nil _), refl)
cancel_on-Moved id name ((t, tids) ∷ tasks) s = elim (Bool-cases (member id tids)) [
  | inl e ↦ rw e (
      Moved-trans id ((name, id) ∷ []) (requests_on id name tasks) s (cancel_in id name tids s)
        (cancel_on id name tasks (cancel_in id name tids s)) (cancel_in-Moved id name tids s e)
        (cancel_on-Moved id name tasks (cancel_in id name tids s)))
  | inr e ↦ rw e (
      subst (λ u. Moved id (requests_on id name tasks) s (cancel_on id name tasks u))
        (sym (cancel_in-none id name tids s e)) (cancel_on-Moved id name tasks s))
]

cancel_running-Moved :
    (id : String) (d : Dict Manager) (s : Htex) → Moved id (requests id d) s (cancel_running id d s)
unfolding cancel_running
cancel_running-Moved id [] s = unfold Moved in (sym (append-nil _), refl)
cancel_running-Moved id ((name, m) ∷ d) s =
    Moved-trans id (requests_on id name m.tasks) (requests id d) s (cancel_on id name m.tasks s)
      (cancel_running id d (cancel_on id name m.tasks s)) (cancel_on-Moved id name m.tasks s)
      (cancel_running-Moved id d (cancel_on id name m.tasks s))

-- A task that managers run is passed on for cancelling to each of them, and is not in the trap. Any
-- other task is in the trap, and nothing is passed on.
pub enqueue_task_cancel_lem :
    (id : String) (s : Htex)
    → let after = enqueue_task_cancel id s in
      let found = requests id s.ready_manager_queue in
      (after.task_cancel_running_queue ≡ s.task_cancel_running_queue ++ found)
      × (has id after.task_cancel_pending_trap ≡ is_empty found)
unfolding enqueue_task_cancel Moved
enqueue_task_cancel_lem id s =
    let h = cancel_running-Moved id s.ready_manager_queue _ in
    (h.0, h.1 ∙ rw (has-put_self id id s.task_cancel_pending_trap) (ground arith))
