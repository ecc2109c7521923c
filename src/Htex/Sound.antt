-- ===== src/Htex/Sound.antt =====
-- The invariant of the interchange: managers within their bounds, and a count of the pending tasks
-- that is right. Each operation keeps it.
use mathlib.Core.Path.{subst}
use func_x.Prelude.{
  ℕ, ◌+◌, ◌≡◌, refl, ◌∙◌, sym, ap, String, Bool, true, false, none, some, List, [], ◌∷◌, ◌++◌, All,
  Option-cases, Bool-cases, inl, inr, arith, length, length-append, is_empty, if◌then◌else◌, ◌==◌,
}
use func_x.Prelude.Int.{pos, ◌≤ℤ◌, int_laws, parts}
use func_x.Prelude.Dict.{
  Dict, get?, put, get_or, has, ◌=?◌, =?_iff, discard, add_new, get?-put, get?-remove,
  has-put_grows, has-put_self, add_new-All, discard-All, All-map,
}
use func_x.Prelude.Python.{return}
use func_x.WorkerMap.{sum_values}
use func_x.Dispatch.{Task, Manager}
use func_x.Dispatch.Rounds.{Interchange, naive_interchange_task_dispatch}
use func_x.Dispatch.Progress.{count_all, count_if-all}
use func_x.Dispatch.Service.{IsWithin, IsSound}
use func_x.Dispatch.Total.{naive_interchange_task_dispatch-Serves}
use func_x.Htex.{
  Htex, Incoming, failed_to_unpack, heartbeat, task, receive_task, max_queue, total_length,
}
use func_x.Htex.Managers.{
  ManagerMessage, registers, beats, advertises, register, hear, manager_message, all_failures,
  bad_managers, drop_manager, drop_managers, expire,
}
use func_x.Htex.Loop.{Config, to_dispatch, dispatch_tasks}

pub record IsRight (s : Htex) : Type 0 where
  pub sound : IsSound (to_dispatch s)
  pub counted : s.total_pending_task_count ≡ pos (total_length s.pending_task_queue)

-- What a manager may send: room for some workers, and an advertisement that offers unused slots, has
-- a total for each type that it has free slots of, and counts no less than zero free workers.
abbrev pub IsProperMessage : ManagerMessage → Type 0
IsProperMessage (registers r) = pos 0 ≤ℤ r.max_worker_count
IsProperMessage beats = Unit
IsProperMessage (advertises total free) =
    (has "unused" free ≡ true)
    × ((k : String) → has k free ≡ true → has k total ≡ true)
    × (pos 0 ≤ℤ sum_values free)

abbrev AllWithin : Dict Manager → Type 0
AllWithin d = (name : String) (m : Manager) → get? name d ≡ some m → IsWithin m

AllWithin-put :
    (name : String) (m : Manager) (d : Dict Manager)
    → IsWithin m
    → AllWithin d
    → AllWithin (put name m d)
AllWithin-put name m d w h other m' e = elim (Bool-cases (name =? other)) [
  | inl same ↦ let e' : m ≡ m' = ground (arith, get?-put other name m d) in subst IsWithin e' w
  | inr ne ↦ h other m' (ground (arith, get?-put other name m d))
]

known_put :
    (name : String) (m : Manager) (d : Dict Manager) (names : List String)
    → All (λ k. has k d ≡ true) names
    → All (λ k. has k (put name m d) ≡ true) names
known_put name m d names = All-map _ _ names (λ k h. has-put_grows k name m d h)

-- A record of a manager that is changed, and the manager becomes interesting.
pub IsSound-put :
    (name : String) (m : Manager) (s : Interchange)
    → IsWithin m
    → IsSound s
    → IsSound (record s {
      ready_manager_queue = put name m s.ready_manager_queue;
      interesting_managers = add_new name s.interesting_managers;
    })
IsSound-put name m s w b = record {
  within = AllWithin-put name m s.ready_manager_queue w b.within;
  known =
      add_new-All _ name s.interesting_managers (has-put_self name m s.ready_manager_queue)
        (known_put name m s.ready_manager_queue s.interesting_managers b.known);
}

pub IsSound-put_only :
    (name : String) (m : Manager) (s : Interchange)
    → IsWithin m
    → IsSound s
    → IsSound (record s { ready_manager_queue = put name m s.ready_manager_queue })
IsSound-put_only name m s w b = record {
  within = AllWithin-put name m s.ready_manager_queue w b.within;
  known = known_put name m s.ready_manager_queue s.interesting_managers b.known;
}

-- The bounds do not depend on when the manager was heard of, or on what it runs.
pub other_fields-IsWithin :
    (last : ℕ) (tasks : Dict (List String)) (m : Manager)
    → IsWithin m
    → IsWithin (record m { last = last; tasks = tasks })
other_fields-IsWithin last tasks m w = record {
  fits = w.fits;
  free_workers = w.free_workers;
  advert = λ h. record { unused = (w.advert h).unused; totals = (w.advert h).totals };
}

register-IsRight :
    (suppress : Bool) (name : String) (message : ManagerMessage) (now : ℕ) (s : Htex)
    → IsProperMessage message
    → IsRight s
    → IsRight (register suppress name message now s)
unfolding register
register-IsRight suppress name (registers r) now s p b = record {
  sound =
      IsSound-put name _ (to_dispatch s)
        (record {
          fits = p;
          free_workers = omega arith;
          advert = λ h. absurd (omega (int_laws, h));
        })
        b.sound;
  counted = b.counted;
}
register-IsRight true name beats now s p b = b
register-IsRight false name beats now s p b = record {
  sound = record { within = b.sound.within; known = b.sound.known };
  counted = b.counted;
}
register-IsRight true name (advertises total free) now s p b = b
register-IsRight false name (advertises total free) now s p b = record {
  sound = record { within = b.sound.within; known = b.sound.known };
  counted = b.counted;
}

hear-IsRight :
    (name : String) (m : Manager) (message : ManagerMessage) (now : ℕ) (s : Htex)
    → IsProperMessage message
    → IsWithin m
    → IsRight s
    → IsRight (hear name m message now s).1
unfolding hear
hear-IsRight name m (registers r) now s p w b = record {
  sound = IsSound-put_only name _ (to_dispatch s) (other_fields-IsWithin now m.tasks m w) b.sound;
  counted = b.counted;
}
hear-IsRight name m beats now s p w b = record {
  sound = IsSound-put_only name _ (to_dispatch s) (other_fields-IsWithin now m.tasks m w) b.sound;
  counted = b.counted;
}
hear-IsRight name m (advertises total free) now s p w b = record {
  sound =
      IsSound-put name _ (to_dispatch s)
        (record {
          fits = w.fits;
          free_workers = p.2;
          advert = λ _. record { unused = p.0; totals = p.1 };
        })
        b.sound;
  counted = b.counted;
}

pub manager_message-IsRight :
    (suppress : Bool) (name : String) (message : ManagerMessage) (now : ℕ) (s : Htex)
    → IsProperMessage message
    → IsRight s
    → IsRight (manager_message suppress name message now s).1
unfolding manager_message
manager_message-IsRight suppress name message now s p b =
    elim (Option-cases (get? name s.ready_manager_queue)) [
      | inl e ↦ rw (e, manager_message) (register-IsRight suppress name message now s p b)
      | inr (m, e) ↦
          rw (e, manager_message) (hear-IsRight name m message now s p (b.sound.within name m e) b)
    ]

total_length-put :
    (k : String) (xs : List Task) (d : Dict (List Task))
    → total_length (put k xs d) + length (get_or k [] d) ≡ total_length d + length xs
unfolding put get?
total_length-put k xs [] = omega arith
total_length-put k xs ((j, ys) ∷ d) = ground (arith, total_length-put k xs d)

else_some : {A : Type 0} (b : Bool) (a a' : A) → (if b then none else some a) ≡ some a' → a ≡ a'
else_some true a a' e = absurd (cc)
else_some false a a' e = ground arith

pub receive_task-IsRight :
    (message : Incoming) (now : ℕ) (s s' : Htex)
    → receive_task message now s ≡ some s'
    → IsRight s
    → IsRight s'
unfolding receive_task
receive_task-IsRight failed_to_unpack now s s' e b = subst IsRight (ground arith) b
receive_task-IsRight heartbeat now s s' e b = subst IsRight (ground arith) b
receive_task-IsRight (task id container raw) now s s' e b =
    let pending = get_or container [] s.pending_task_queue in
    let x : Task = record { task_id = id; raw_buffer = raw } in
    subst IsRight (else_some (length pending == max_queue) _ s' e) (record {
      sound = record { within = b.sound.within; known = b.sound.known };
      counted = omega (
        int_laws,
        parts b.counted,
        total_length-put container (pending ++ x ∷ []) s.pending_task_queue,
        length-append pending (x ∷ []),
      );
    })

drop_manager-IsRight : (name : String) (s : Htex) → IsRight s → IsRight (drop_manager name s)
unfolding drop_manager
drop_manager-IsRight name s b = record {
  sound = record {
    within = λ other m e.
        b.sound.within other m (ground (arith, e, get?-remove other name s.ready_manager_queue));
    known =
        All-map _ _ (discard name s.interesting_managers)
          (λ other h. ground (
            arith,
            h,
            get?-remove other name s.ready_manager_queue,
            =?_iff other name,
            =?_iff name other,
          ))
          (discard-All _ name s.interesting_managers b.sound.known);
  };
  counted = b.counted;
}

drop_managers-IsRight : (bad : Dict Manager) (s : Htex) → IsRight s → IsRight (drop_managers bad s)
unfolding drop_managers
drop_managers-IsRight [] s b = b
drop_managers-IsRight ((name, m) ∷ bad) s b =
    drop_managers-IsRight bad (drop_manager name s) (drop_manager-IsRight name s b)

-- An operation that touches neither managers nor queues.
abbrev pub Untouched : Htex → Htex → Type 0
Untouched s s' =
    (to_dispatch s' ≡ to_dispatch s) × (s'.total_pending_task_count ≡ s.total_pending_task_count)

pub Untouched-IsRight : (s s' : Htex) → Untouched s s' → IsRight s → IsRight s'
Untouched-IsRight s s' (same, total) b = record {
  sound = subst IsSound (sym same) b.sound;
  counted = total ∙ b.counted ∙ ap (λ i. pos (total_length i.pending_task_queue)) (sym same);
}

pub expire-IsRight : (threshold now : ℕ) (s : Htex) → IsRight s → IsRight (expire threshold now s)
unfolding expire
expire-IsRight threshold now s b =
    let bad = bad_managers threshold now s.ready_manager_queue in
    let after = drop_managers-IsRight bad s b in
    elim (Bool-cases (is_empty (all_failures bad))) [
      | inl e ↦ rw (e, expire) after
      | inr e ↦ rw (e, expire) (Untouched-IsRight (drop_managers bad s) _ (refl, refl) after)
    ]

total_length-count_all : (d : Dict (List Task)) → count_all (λ x. true) d ≡ total_length d
total_length-count_all [] = refl
total_length-count_all ((k, xs) ∷ d) = omega (arith, count_if-all xs, total_length-count_all d)

-- With queues and managers that are right, passing tasks on never raises.
module _ (shuffle : List String → List String) (c : Config)
    (keeps : (P : String → Type 0) (xs : List String) → All P xs → All P (shuffle xs)) where
  pub dispatch_tasks-IsRight :
      (cold : Bool) (s : Htex)
      → IsRight s
      → (tasks : Dict (List Task)) × ((dispatch_tasks shuffle c cold s).0 ≡ return tasks)
        × IsRight (dispatch_tasks shuffle c cold s).1
  unfolding dispatch_tasks
  dispatch_tasks-IsRight cold s b =
      let v =
        naive_interchange_task_dispatch-Serves shuffle keeps c.scheduler_mode cold (to_dispatch s)
          b.sound in
      let i = (naive_interchange_task_dispatch shuffle c.scheduler_mode cold (to_dispatch s)).1 in
      (
        i.task_dispatch,
        rw (v.returns, dispatch_tasks) refl,
        rw (v.returns, dispatch_tasks)
            (record {
              sound = record { within = v.sound.within; known = v.sound.known };
              counted = omega (
                int_laws,
                parts b.counted,
                total_length-count_all i.pending_task_queue,
                total_length-count_all s.pending_task_queue,
                v.balance (λ x. true),
                v.counted,
              );
            }),
      )
