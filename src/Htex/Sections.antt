-- ===== src/Htex/Sections.antt =====
-- Cancelling, sending and results keep the invariant: most of it they do not touch.
use mathlib.Core.Path.{subst}
use func_x.Prelude.{
  ℕ, ◌≡◌, refl, ◌∙◌, sym, ap, String, true, none, some, List, [], ◌∷◌, ◌++◌, All, Option,
  Option-cases, Bool-cases, inl, inr, is_empty, length,
}
use func_x.Prelude.Int.{pos, ◌-ℤ◌, int_laws}
use func_x.Prelude.Dict.{Dict, get?, put, has}
use func_x.Prelude.Python.{Result-cases}
use func_x.Dispatch.{Task, Manager}
use func_x.Dispatch.Service.{IsWithin}
use func_x.Htex.{launch, Htex, TaskResult}
use func_x.Htex.Cancel.{
  member, cancel_in, cancel_on, cancel_running, enqueue_task_cancel, send_cancels, announce,
  announce_all, send_tasks, merge_deltas,
}
use func_x.Htex.Results.{ManagerStatusReport, note_report, heard, take_results, manager_results}
use func_x.Htex.Loop.{Config, to_dispatch, send_all}
use func_x.Htex.Sound.{
  IsRight, Untouched, Untouched-IsRight, IsSound-put, IsSound-put_only, other_fields-IsWithin,
}

cancel_in-Untouched :
    (id name : String) (tids : List String) (s : Htex) → Untouched s (cancel_in id name tids s)
unfolding cancel_in
cancel_in-Untouched id name tids s = elim (Bool-cases (member id tids)) [
  | inl e ↦ rw (e, cancel_in) (refl, refl)
  | inr e ↦ rw (e, cancel_in) (refl, refl)
]

Untouched-trans : (s t u : Htex) → Untouched s t → Untouched t u → Untouched s u
Untouched-trans s t u a b = (b.0 ∙ a.0, b.1 ∙ a.1)

cancel_on-Untouched :
    (id name : String) (tasks : Dict (List String)) (s : Htex)
    → Untouched s (cancel_on id name tasks s)
unfolding cancel_on
cancel_on-Untouched id name [] s = (refl, refl)
cancel_on-Untouched id name ((t, tids) ∷ tasks) s =
    Untouched-trans s (cancel_in id name tids s)
      (cancel_on id name tasks (cancel_in id name tids s)) (cancel_in-Untouched id name tids s)
      (cancel_on-Untouched id name tasks (cancel_in id name tids s))

cancel_running-Untouched :
    (id : String) (d : Dict Manager) (s : Htex) → Untouched s (cancel_running id d s)
unfolding cancel_running
cancel_running-Untouched id [] s = (refl, refl)
cancel_running-Untouched id ((name, m) ∷ d) s =
    Untouched-trans s (cancel_on id name m.tasks s)
      (cancel_running id d (cancel_on id name m.tasks s)) (cancel_on-Untouched id name m.tasks s)
      (cancel_running-Untouched id d (cancel_on id name m.tasks s))

pub enqueue_task_cancel-Untouched :
    (id : String) (s : Htex) → Untouched s (enqueue_task_cancel id s)
unfolding enqueue_task_cancel
enqueue_task_cancel-Untouched id s = cancel_running-Untouched id s.ready_manager_queue _

announce-Untouched :
    (name : String) (now : ℕ) (x : Task) (s : Htex) → Untouched s (announce name now x s)
unfolding announce
announce-Untouched name now x s = elim (Bool-cases (has x.task_id s.task_cancel_pending_trap)) [
  | inl e ↦ rw (e, announce) (refl, refl)
  | inr e ↦ rw (e, announce) (refl, refl)
]

announce_all-Untouched :
    (name : String) (now : ℕ) (xs : List Task) (s : Htex) → Untouched s (announce_all name now xs s)
unfolding announce_all
announce_all-Untouched name now [] s = (refl, refl)
announce_all-Untouched name now (x ∷ xs) s =
    Untouched-trans s (announce name now x s) (announce_all name now xs (announce name now x s))
      (announce-Untouched name now x s) (announce_all-Untouched name now xs (announce name now x s))

send_tasks-Untouched :
    (now : ℕ) (dispatch : Dict (List Task)) (s : Htex) → Untouched s (send_tasks now dispatch s)
unfolding send_tasks
send_tasks-Untouched now [] s = (refl, refl)
send_tasks-Untouched now ((name, xs) ∷ dispatch) s = elim (Bool-cases (is_empty xs)) [
  | inl e ↦ rw (e, send_tasks) (send_tasks-Untouched now dispatch s)
  | inr e ↦
      rw (e, send_tasks)
        (let sent = record s { task_outgoing = s.task_outgoing ++ (name, launch xs) ∷ [] } in
          let announced = announce_all name now xs sent in
          Untouched-trans s announced (send_tasks now dispatch announced)
            (announce_all-Untouched name now xs sent) (send_tasks-Untouched now dispatch announced))
]

pub send_all-Untouched :
    (shuffle : List String → List String) (c : Config) (now : ℕ) (dispatch : Dict (List Task))
    (s : Htex)
    → Untouched s (send_all shuffle c now dispatch s).1
unfolding send_all send_cancels merge_deltas
send_all-Untouched shuffle c now dispatch s = send_tasks-Untouched now dispatch (send_cancels s)

note_report-Untouched :
    (name : String) (report : Option ManagerStatusReport) (now : ℕ) (s : Htex)
    → Untouched s (note_report name report now s)
unfolding note_report
note_report-Untouched name none now s = (refl, refl)
note_report-Untouched name (some report) now s = (refl, refl)

note_report-IsRight :
    (name : String) (report : Option ManagerStatusReport) (now : ℕ) (s : Htex)
    → IsRight s
    → IsRight (note_report name report now s)
note_report-IsRight name report now s b =
    Untouched-IsRight s (note_report name report now s) (note_report-Untouched name report now s) b

heard-IsWithin :
    (report : Option ManagerStatusReport) (now : ℕ) (m : Manager) (tasks : Dict (List String))
    (n : ℕ)
    → IsWithin m
    → IsWithin (record (heard report now m) { tasks = tasks; total_tasks = m.total_tasks -ℤ pos n })
heard-IsWithin none now m tasks n w = record {
  fits = omega (int_laws, w.fits);
  free_workers = w.free_workers;
  advert = λ h. record { unused = (w.advert h).unused; totals = (w.advert h).totals };
}
heard-IsWithin (some r) now m tasks n w = record {
  fits = omega (int_laws, w.fits);
  free_workers = w.free_workers;
  advert = λ h. record { unused = (w.advert h).unused; totals = (w.advert h).totals };
}

heard_only-IsWithin :
    (report : Option ManagerStatusReport) (now : ℕ) (m : Manager) (tasks : Dict (List String))
    → IsWithin m
    → IsWithin (record (heard report now m) { tasks = tasks })
heard_only-IsWithin none now m tasks w = other_fields-IsWithin m.last tasks m w
heard_only-IsWithin (some r) now m tasks w = other_fields-IsWithin now tasks m w

pub manager_results-IsRight :
    (name : String) (report : Option ManagerStatusReport) (rs : List TaskResult) (now : ℕ)
    (s : Htex)
    → IsRight s
    → IsRight (manager_results name report rs now s).1
unfolding manager_results
manager_results-IsRight name report rs now s b =
    elim (Option-cases (get? name s.ready_manager_queue)) [
      | inl e ↦ rw (e, manager_results) b
      | inr (m, e) ↦
          let noted = note_report-IsRight name report now s b in
          let w = b.sound.within name m e in
          let tasks = (take_results s.containers rs m.tasks).1 in
          let same = note_report-Untouched name report now s in
          elim (Result-cases (take_results s.containers rs m.tasks).0) [
            | inl (u, r) ↦
                rw (e, r, manager_results)
                  (record {
                    sound =
                        let p =
                          IsSound-put name _ (to_dispatch s)
                            (heard-IsWithin report now m tasks (length rs) w) b.sound in
                        record { within = p.within; known = p.known };
                    counted = noted.counted;
                  })
            | inr (x, r) ↦
                rw (e, r, manager_results)
                  (record {
                    sound =
                        let p =
                          IsSound-put_only name _ (to_dispatch s)
                            (heard_only-IsWithin report now m tasks w) b.sound in
                        record {
                          within = p.within;
                          known =
                              subst (All (λ k. has k (put name _ s.ready_manager_queue) ≡ true))
                                (sym (ap (λ i. i.interesting_managers) same.0)) p.known;
                        };
                    counted = noted.counted;
                  })
          ]
    ]
