-- ===== src/Htex/Lost.antt =====
-- What becomes of a manager that is not heard of any more.
use mathlib.Core.Path.{subst}
use func_x.Prelude.{
  ℕ, ◌+◌, ◌<◌, lt→ltb, ◌≡◌, refl, ◌∙◌, ap, String, Bool, true, false, none, some, List, [], ◌∷◌,
  ◌++◌, Bool-cases, inl, inr, is_empty, arith, if◌then◌else◌, ltb,
}
use func_x.Prelude.Dict.{Dict, count, count-append, Distinct, get?, has, ◌=?◌, =?_iff, get?-remove}
use func_x.Dispatch.{Manager}
use func_x.Htex.{Htex, manager_lost}
use func_x.Htex.Managers.{
  failures, task_failures, bad_managers, all_failures, drop_manager, drop_managers, expire,
  register, manager_message, beats,
}

-- Whether a manager has been silent for longer than the threshold.
abbrev pub is_silent : ℕ → ℕ → Manager → Bool
is_silent threshold now m = ltb (m.last + threshold) now

get?-bad_managers :
    (threshold now : ℕ) (name : String) (d : Dict Manager)
    → Distinct d
    → get? name (bad_managers threshold now d) ≡ elim (get? name d) [
      | none ↦ none
      | some m ↦ if is_silent threshold now m then some m else none
    ]
unfolding bad_managers get?
get?-bad_managers threshold now name [] u = refl
get?-bad_managers threshold now name ((other, m) ∷ d) u = elim (Bool-cases (other =? name)) [
  | inr e ↦
      let rest = get?-bad_managers threshold now name d u.1 in
      elim (Bool-cases (is_silent threshold now m)) [
        | inl q ↦ rw (e, q, bad_managers) (rw e rest)
        | inr q ↦ rw (e, q, bad_managers) rest
      ]
  | inl e ↦ elim (Bool-cases (is_silent threshold now m)) [
    | inl q ↦ rw (e, q, bad_managers) (rw e refl)
    | inr q ↦
        let gone : has name d ≡ false =
          subst (λ k. has k d ≡ false) ((=?_iff other name).0 e) u.0 in
        let nowhere : get? name d ≡ none = ground arith in
        rw (e, q, bad_managers) (get?-bad_managers threshold now name d u.1 ∙ rw nowhere refl)
  ]
]

get?-drop_managers :
    (bad : Dict Manager) (name : String) (s : Htex)
    → get? name (drop_managers bad s).ready_manager_queue
      ≡ (if has name bad then none else get? name s.ready_manager_queue)
unfolding drop_managers drop_manager get?
get?-drop_managers [] name s = refl
get?-drop_managers ((other, m) ∷ bad) name s = ground (
  arith,
  get?-drop_managers bad name (drop_manager other s),
  get?-remove name other s.ready_manager_queue,
)

-- A field that dropping managers does not touch.
drop_managers_keeps :
    {A : Type 0} (field : Htex → A) (bad : Dict Manager) (s : Htex)
    → ((name : String) (s : Htex) → field (drop_manager name s) ≡ field s)
    → field (drop_managers bad s) ≡ field s
unfolding drop_managers
drop_managers_keeps field [] s h = refl
drop_managers_keeps field ((name, m) ∷ bad) s h =
    drop_managers_keeps field bad (drop_manager name s) h ∙ h name s

expire_managers :
    (threshold now : ℕ) (s : Htex)
    → (expire threshold now s).ready_manager_queue
      ≡ (drop_managers (bad_managers threshold now s.ready_manager_queue) s).ready_manager_queue
unfolding expire
expire_managers threshold now s =
    elim (Bool-cases (is_empty (all_failures (bad_managers threshold now s.ready_manager_queue)))) [
      | inl e ↦ rw (e, expire) refl
      | inr e ↦ rw (e, expire) refl
    ]

expire_results :
    (threshold now : ℕ) (s : Htex)
    → (expire threshold now s).results_outgoing ≡ (
        let lost = all_failures (bad_managers threshold now s.ready_manager_queue) in
        if is_empty lost then s.results_outgoing else s.results_outgoing ++ manager_lost lost ∷ [])
unfolding expire
expire_results threshold now s =
    let bad = bad_managers threshold now s.ready_manager_queue in
    let same =
      drop_managers_keeps (λ s. s.results_outgoing) bad s (λ name s. unfold drop_manager in refl) in
    elim (Bool-cases (is_empty (all_failures bad))) [
      | inl e ↦ rw (e, expire) same
      | inr e ↦ rw (e, expire) (ap (λ r. r ++ manager_lost (all_failures bad) ∷ []) same)
    ]

-- The same with the failures as the code lists them.
expire_lem :
    (threshold now : ℕ) (s : Htex)
    → Distinct s.ready_manager_queue
    → let after = expire threshold now s in
      let lost = all_failures (bad_managers threshold now s.ready_manager_queue) in
      ((name : String)
        → get? name after.ready_manager_queue ≡ elim (get? name s.ready_manager_queue) [
          | none ↦ none
          | some m ↦ if is_silent threshold now m then none else some m
        ])
      × (after.results_outgoing ≡ (
          if is_empty lost
          then s.results_outgoing
          else s.results_outgoing ++ manager_lost lost ∷ []))
expire_lem threshold now s u = (
  (λ name.
      let bad = bad_managers threshold now s.ready_manager_queue in
      let dropped =
        ap (get? name) (expire_managers threshold now s) ∙ get?-drop_managers bad name s in
      let found = get?-bad_managers threshold now name s.ready_manager_queue u in
      ground (arith, dropped, found)),
  expire_results threshold now s,
)

-- How often a task is in the sets of a manager, and of managers.
abbrev pub held : String → Dict (List String) → ℕ
held tid [] = 0
held tid ((t, tids) ∷ tasks) = count tid tids + held tid tasks

abbrev pub held_by : String → Dict Manager → ℕ
held_by tid [] = 0
held_by tid ((name, m) ∷ d) = held tid m.tasks + held_by tid d

abbrev pub failed : List (String × String) → List String
failed [] = []
failed ((name, tid) ∷ fs) = tid ∷ failed fs

failed-append : (fs gs : List (String × String)) → failed (fs ++ gs) ≡ failed fs ++ failed gs
failed-append [] gs = refl
failed-append ((name, tid) ∷ fs) gs = ap (◌∷◌ tid) (failed-append fs gs)

failed-task_failures :
    (name : String) (tids : List String) → failed (task_failures name tids) ≡ tids
failed-task_failures name [] = refl
failed-task_failures name (x ∷ xs) = ap (◌∷◌ x) (failed-task_failures name xs)

count-failures :
    (tid name : String) (tasks : Dict (List String))
    → count tid (failed (failures name tasks)) ≡ held tid tasks
unfolding failures
count-failures tid name [] = refl
count-failures tid name ((t, tids) ∷ tasks) =
    rw
      (
        failed-append (task_failures name tids) (failures name tasks),
        failed-task_failures name tids,
      )
      (omega (
        arith,
        count-append tid tids (failed (failures name tasks)),
        count-failures tid name tasks,
      ))

count-all_failures :
    (tid : String) (d : Dict Manager) → count tid (failed (all_failures d)) ≡ held_by tid d
unfolding all_failures
count-all_failures tid [] = refl
count-all_failures tid ((name, m) ∷ d) =
    rw (failed-append (failures name m.tasks) (all_failures d)) (
      omega (
        arith,
        count-append tid (failed (failures name m.tasks)) (failed (all_failures d)),
        count-failures tid name m.tasks,
        count-all_failures tid d,
      ))

-- With every manager named once: after the check of the heartbeats a manager is there, with the same
-- record, exactly if it was there and has been heard of within the threshold. The engine is sent one
-- message, with as many failures of a task as silent managers hold it, and no message if there are
-- no failures.
pub expire-report :
    (threshold now : ℕ) (s : Htex)
    → Distinct s.ready_manager_queue
    → let after = expire threshold now s in
      let silent = bad_managers threshold now s.ready_manager_queue in
      ((name : String)
        → get? name after.ready_manager_queue ≡ elim (get? name s.ready_manager_queue) [
          | none ↦ none
          | some m ↦ if is_silent threshold now m then none else some m
        ])
      × (lost : List (String × String)) × ((tid : String)
          → count tid (failed lost) ≡ held_by tid silent)
      × (after.results_outgoing ≡ (
          if is_empty lost
          then s.results_outgoing
          else s.results_outgoing ++ manager_lost lost ∷ []))
expire-report threshold now s u =
    let (there, sent) = expire_lem threshold now s u in
    let silent = bad_managers threshold now s.ready_manager_queue in
    (there, all_failures silent, (λ tid. count-all_failures tid silent), sent)

-- Once a manager has been dropped for its silence, its next heartbeat is taken for a registration
-- that failed: unless failures are suppressed, it stops the whole interchange.
pub expire-heartbeat :
    (threshold now later : ℕ) (name : String) (m : Manager) (s : Htex)
    → Distinct s.ready_manager_queue
    → get? name s.ready_manager_queue ≡ some m
    → m.last + threshold < now
    → (manager_message false name beats later (expire threshold now s)).1.kill_event ≡ true
unfolding manager_message register
expire-heartbeat threshold now later name m s u e old =
    let silent : is_silent threshold now m ≡ true = lt→ltb (m.last + threshold) now old in
    let gone : get? name (expire threshold now s).ready_manager_queue ≡ none =
      (expire_lem threshold now s u).0 name ∙ rw (e, silent) refl in
    rw (gone, manager_message) refl
