-- ===== src/Htex/Stray.antt =====
-- What a batch of results leads to that has a result of an unknown container or task.
use func_x.Prelude.{
  Option, ℕ, ◌≡◌, refl, ◌∙◌, ap, String, false, none, some, List, [], ◌∷◌, ◌++◌, Bool-cases, inl,
  inr, ◌⊎◌, arith, Option-cases,
}
use func_x.Prelude.Dict.{Dict, get?, get_or, ◌=?◌, =?_iff, get?-put, get?-put_self, discard}
use func_x.Prelude.Python.{key_error, Exc, raise, Result-cases}
use func_x.Dispatch.{Manager}
use func_x.Htex.{Htex, TaskResult}
use func_x.Htex.Cancel.{member}
use func_x.Htex.Results.{
  ManagerStatusReport, note_report, heard, take_task, take_results, manager_results,
}

-- A result of a container that is not known, or of a task that the manager has not in that container.
abbrev pub IsStray : Dict String → Dict (List String) → TaskResult → Type 0
IsStray containers tasks r =
    (get? r.container_id containers ≡ none)
    ⊎ ((container : String) × (get? r.container_id containers ≡ some container)
        × (member r.task_id (get_or container [] tasks) ≡ false))

member-discard :
    (t x : String) (xs : List String) → member t xs ≡ false → member t (discard x xs) ≡ false
member-discard t x [] h = refl
member-discard t x (y ∷ ys) h = ground (arith, member-discard t x ys, h)

get_or-take_task :
    (t c k x : String) (tasks : Dict (List String))
    → member t (get_or c [] tasks) ≡ false
    → member t (get_or c [] (take_task k x tasks).1) ≡ false
unfolding take_task
get_or-take_task t c k x tasks h = elim (Bool-cases (k =? c)) [
  | inl e ↦
      let same = ap (λ i. member t (get_or i [] tasks)) ((=?_iff k c).0 e) ∙ h in
      elim (Bool-cases (member x (get_or k [] tasks))) [
        | inl q ↦
            rw (q, take_task)
              (rw (get?-put c k (discard x (get_or k [] tasks)) tasks, e)
                (member-discard t x (get_or k [] tasks) same))
        | inr q ↦ rw (q, take_task) (rw (get?-put c k (get_or k [] tasks) tasks, e) same)
      ]
  | inr e ↦ elim (Bool-cases (member x (get_or k [] tasks))) [
    | inl q ↦ rw (q, take_task) (rw (get?-put c k (discard x (get_or k [] tasks)) tasks, e) h)
    | inr q ↦ rw (q, take_task) (rw (get?-put c k (get_or k [] tasks) tasks, e) h)
  ]
]

take_task-IsStray :
    (containers : Dict String) (k x : String) (tasks : Dict (List String)) (r : TaskResult)
    → IsStray containers tasks r
    → IsStray containers (take_task k x tasks).1 r
take_task-IsStray containers k x tasks r (inl e) = inl e
take_task-IsStray containers k x tasks r (inr (c, e, h)) =
    inr (c, e, get_or-take_task r.task_id c k x tasks h)

take_task_raises :
    (k x : String) (tasks : Dict (List String)) (e : Exc)
    → (take_task k x tasks).0 ≡ raise e
    → e ≡ key_error
unfolding take_task
take_task_raises k x tasks e h = elim (Bool-cases (member x (get_or k [] tasks))) [
  | inl q ↦ absurd (ground (arith, q, h))
  | inr q ↦ ground (arith, q, h)
]

take_results_stray :
    (containers : Dict String) (before after : List TaskResult) (r : TaskResult)
    (tasks : Dict (List String))
    → IsStray containers tasks r
    → (take_results containers (before ++ r ∷ after) tasks).0 ≡ raise key_error
unfolding take_results
take_results_stray containers [] after r tasks (inl e) = rw (e, take_results) refl
take_results_stray containers [] after r tasks (inr (c, e, h)) =
    rw (e, take_results) (unfold take_task in rw (h, take_task) refl)
take_results_stray containers (b ∷ before) after r tasks h =
    elim (Option-cases (get? b.container_id containers)) [
      | inl e ↦ rw (e, take_results) refl
      | inr (c, e) ↦ elim (Result-cases (take_task c b.task_id tasks).0) [
        | inl (u, q) ↦
            rw (e, q, take_results)
              (take_results_stray containers before after r (take_task c b.task_id tasks).1
                (take_task-IsStray containers c b.task_id tasks r h))
        | inr (x, q) ↦ rw (e, q, take_results) (ap raise (take_task_raises c b.task_id tasks x q))
      ]
    ]

note_report-results :
    (name : String) (report : Option ManagerStatusReport) (now : ℕ) (s : Htex)
    → (note_report name report now s).results_outgoing ≡ s.results_outgoing
unfolding note_report
note_report-results name none now s = refl
note_report-results name (some report) now s = refl

heard_tasks :
    (report : Option ManagerStatusReport) (now : ℕ) (m : Manager)
    → (heard report now m).total_tasks ≡ m.total_tasks
heard_tasks none now m = refl
heard_tasks (some report) now m = refl

-- A batch whose loop ends with KeyError: neither is it sent on, nor is the count of tasks changed.
manager_results_raised :
    (name : String) (m : Manager) (report : Option ManagerStatusReport) (rs : List TaskResult)
    (now : ℕ) (s : Htex)
    → get? name s.ready_manager_queue ≡ some m
    → (take_results s.containers rs m.tasks).0 ≡ raise key_error
    → let (result, s') = manager_results name report rs now s in
      (result ≡ raise key_error)
      × (s'.results_outgoing ≡ s.results_outgoing)
      × (m' : Manager) × (get? name s'.ready_manager_queue ≡ some m')
      × (m'.total_tasks ≡ m.total_tasks)
unfolding manager_results
manager_results_raised name m report rs now s e q =
    rw (e, q, manager_results)
      (
        refl,
        note_report-results name report now s,
        _,
        get?-put_self name _ s.ready_manager_queue,
        heard_tasks report now m,
      )

-- A stray result anywhere in the batch of a known manager: KeyError ends the main loop, no result of
-- the batch is sent on to the engine, and the manager's count of tasks stays what it was.
pub manager_results_stray :
    (name : String) (m : Manager) (report : Option ManagerStatusReport)
    (before after : List TaskResult) (r : TaskResult) (now : ℕ) (s : Htex)
    → get? name s.ready_manager_queue ≡ some m
    → IsStray s.containers m.tasks r
    → let (result, s') = manager_results name report (before ++ r ∷ after) now s in
      (result ≡ raise key_error)
      × (s'.results_outgoing ≡ s.results_outgoing)
      × (m' : Manager) × (get? name s'.ready_manager_queue ≡ some m')
      × (m'.total_tasks ≡ m.total_tasks)
manager_results_stray name m report before after r now s e h =
    manager_results_raised name m report (before ++ r ∷ after) now s e
      (take_results_stray s.containers before after r m.tasks h)

member-discard_self : (x : String) (xs : List String) → member x (discard x xs) ≡ false
member-discard_self x [] = refl
member-discard_self x (y ∷ ys) = ground (arith, member-discard_self x ys)

-- The next result of a task that has been taken off is stray.
take_task_then-IsStray :
    (containers : Dict String) (c id : String) (tasks : Dict (List String)) (r : TaskResult)
    → r.task_id ≡ id
    → get? r.container_id containers ≡ some c
    → IsStray containers (take_task c id tasks).1 r
unfolding take_task
take_task_then-IsStray containers c id tasks r same e =
    elim (Bool-cases (member id (get_or c [] tasks))) [
      | inl q ↦
          rw (q, take_task)
            (inr (
              c,
              e,
              rw (get?-put_self c (discard id (get_or c [] tasks)) tasks, same)
                  (member-discard_self id _),
            ))
      | inr q ↦
          rw (q, take_task) (inr (c, e, rw (get?-put_self c (get_or c [] tasks) tasks, same) q))
    ]

take_results_twice :
    (containers : Dict String) (after : List TaskResult) (r again : TaskResult)
    (tasks : Dict (List String))
    → again.task_id ≡ r.task_id
    → again.container_id ≡ r.container_id
    → (take_results containers (r ∷ again ∷ after) tasks).0 ≡ raise key_error
unfolding take_results
take_results_twice containers after r again tasks same place =
    elim (Option-cases (get? r.container_id containers)) [
      | inl e ↦ rw (e, take_results) refl
      | inr (c, e) ↦ elim (Result-cases (take_task c r.task_id tasks).0) [
        | inl (u, q) ↦
            rw (e, q, take_results)
              (take_results_stray containers [] after again (take_task c r.task_id tasks).1 (
                take_task_then-IsStray containers c r.task_id tasks again same
                  (ap (λ k. get? k containers) place ∙ e)))
        | inr (x, q) ↦ rw (e, q, take_results) (ap raise (take_task_raises c r.task_id tasks x q))
      ]
    ]

-- Two results of a task, one after the other at the head of the batch of a known manager: KeyError
-- ends the main loop, and neither of them is sent on to the engine.
pub manager_results_twice :
    (name : String) (m : Manager) (report : Option ManagerStatusReport) (after : List TaskResult)
    (r again : TaskResult) (now : ℕ) (s : Htex)
    → again.task_id ≡ r.task_id
    → again.container_id ≡ r.container_id
    → get? name s.ready_manager_queue ≡ some m
    → let (result, s') = manager_results name report (r ∷ again ∷ after) now s in
      (result ≡ raise key_error) × (s'.results_outgoing ≡ s.results_outgoing)
manager_results_twice name m report after r again now s same place e =
    let (result, sent, _, _, _) =
      manager_results_raised name m report (r ∷ again ∷ after) now s e
        (take_results_twice s.containers after r again m.tasks same place) in
    (result, sent)
