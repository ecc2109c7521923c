-- ===== src/Dispatch/Service.antt =====
-- `dispatch` over the managers: whom it serves, how far, and that it returns.
use mathlib.Core.Path.{subst}
use func_x.Prelude.{
  ℕ, ◌+◌, ◌≡◌, refl, ◌∙◌, String, Bool, true, some, List, [], ◌∷◌, ◌++◌, All, Bool-cases, inl, inr,
  arith, length, is_empty,
}
use func_x.Prelude.Int.{ℤ, pos, pos_part, ◌+ℤ◌, ◌-ℤ◌, ◌≤ℤ◌, int_laws, parts, one_sign}
use func_x.Prelude.Dict.{Dict, get?, put, get_or, has, ◌=?◌, discard, get?-put, has-put_old}
use func_x.Prelude.Python.{Result, return}
use func_x.Dispatch.{Task, Manager, Fetch}
use func_x.Dispatch.Rounds.{Interchange, real_capacity, min_ℤ, assign, forget}
use func_x.Dispatch.Fetching.{IsAdvert}
use func_x.Dispatch.Progress.{
  count_if-all, count_if, count_all, count_if-append, count_all-put, Progress,
}

-- A manager is within its bounds: it has no more tasks than it may have, and its record is an
-- advertisement where it counts free workers.
pub record IsWithin (m : Manager) : Type 0 where
  pub fits : m.total_tasks ≤ℤ m.max_worker_count
  pub free_workers : pos 0 ≤ℤ m.total_workers
  pub advert : pos 1 ≤ℤ m.total_workers → IsAdvert m

-- Every manager that is known is within its bounds, and every interesting one is known.
pub record IsSound (s : Interchange) : Type 0 where
  pub within : (name : String) (m : Manager) → get? name s.ready_manager_queue ≡ some m → IsWithin m
  pub known : All (λ name. has name s.ready_manager_queue ≡ true) s.interesting_managers

-- The tasks of a kind that are pending or dispatched, and all that are dispatched.
abbrev pub load : (Task → Bool) → Interchange → ℕ
load p s = count_all p s.pending_task_queue + count_all p s.task_dispatch

abbrev pub placed : Interchange → ℕ
placed s = count_all (λ x. true) s.task_dispatch

count_if-empty : (p : Task → Bool) (xs : List Task) → is_empty xs ≡ true → count_if p xs ≡ 0
count_if-empty p [] h = refl
count_if-empty p (x ∷ xs) h = cc

-- What a step of the dispatch does from `s`: it returns how many tasks it has placed.
pub record Serves (s : Interchange) (r : Result ℕ × Interchange) : Type 0 where
  pub count : ℕ
  pub returns : r.0 ≡ return count
  pub sound : IsSound r.1
  pub balance : (p : Task → Bool) → load p r.1 ≡ load p s
  pub counted : placed r.1 ≡ placed s + count
  pub stays : (name : String) → has name r.1.ready_manager_queue ≡ has name s.ready_manager_queue

pub min_ℤ_le : (a b : ℤ) → (min_ℤ a b ≤ℤ a) × (min_ℤ a b ≤ℤ b)
min_ℤ_le a b = ground arith

-- The real capacity fits in what the manager may still have.
pub capacity_fits :
    (m : Manager)
    → IsWithin m
    → (m.total_tasks +ℤ pos (pos_part (real_capacity m)) ≤ℤ m.max_worker_count)
      × (pos (pos_part (real_capacity m)) ≤ℤ m.total_workers)
capacity_fits m w =
    let r : ℤ = real_capacity m in
    let (left, right) = min_ℤ_le m.total_workers (m.max_worker_count -ℤ m.total_tasks) in
    (
      omega (int_laws, left, right, one_sign r, w.fits, w.free_workers),
      omega (int_laws, left, right, one_sign r, w.fits, w.free_workers),
    )

-- The record after the fetched tasks are entered.
assign_manager-IsWithin :
    (pending : Dict (List Task)) (m : Manager) (n : ℕ) (f : Fetch) (tasks : Dict (List String))
    → IsWithin m
    → IsAdvert f.manager
    → Progress pending m (pos_part (real_capacity m)) n f
    → IsWithin (record (f.manager) {
      tasks = tasks;
      total_tasks = f.manager.total_tasks +ℤ pos (length f.tasks);
    })
assign_manager-IsWithin pending m n f tasks w a h =
    let (fits, free) = capacity_fits m w in
    record {
      fits = omega (int_laws, fits, parts h.total_tasks, parts h.max_worker_count, h.used);
      free_workers = omega (int_laws, free, parts h.workers, h.used);
      advert = λ _. record { unused = a.unused; totals = a.totals };
    }

idle_manager-IsWithin :
    (pending : Dict (List Task)) (m : Manager) (n : ℕ) (f : Fetch)
    → IsWithin m
    → IsAdvert f.manager
    → Progress pending m (pos_part (real_capacity m)) n f
    → IsWithin f.manager
idle_manager-IsWithin pending m n f w a h =
    let (fits, free) = capacity_fits m w in
    record {
      fits = omega (int_laws, w.fits, parts h.total_tasks, parts h.max_worker_count);
      free_workers = omega (int_laws, free, parts h.workers, h.used);
      advert = λ _. a;
    }

-- A state with another record for a known manager, and other queues and dispatches.
abbrev updated : Dict (List Task) → Dict (List Task) → String → Manager → Interchange → Interchange
updated pending sent name m s = record s {
  pending_task_queue = pending;
  ready_manager_queue = put name m s.ready_manager_queue;
  task_dispatch = sent;
}

pub All-has :
    {V : Type 0} (names : List String) (d e : Dict V)
    → ((k : String) → has k e ≡ has k d)
    → All (λ k. has k d ≡ true) names
    → All (λ k. has k e ≡ true) names
All-has [] d e same h = tt
All-has (x ∷ xs) d e same h = (same x ∙ h.0, All-has xs d e same h.1)

updated-IsSound :
    (pending sent : Dict (List Task)) (name : String) (m : Manager) (s : Interchange)
    → has name s.ready_manager_queue ≡ true
    → IsWithin m
    → IsSound s
    → IsSound (updated pending sent name m s)
updated-IsSound pending sent name m s there w b = record {
  within = λ other m' e. elim (Bool-cases (name =? other)) [
    | inl same ↦
        let e' : m ≡ m' = ground (arith, get?-put other name m s.ready_manager_queue) in
        subst IsWithin e' w
    | inr ne ↦ b.within other m' (ground (arith, get?-put other name m s.ready_manager_queue))
  ];
  known =
      All-has s.interesting_managers s.ready_manager_queue (put name m s.ready_manager_queue)
        (λ k. has-put_old k name m s.ready_manager_queue there) b.known;
}

discard-All :
    (P : String → Type 0) (name : String) (xs : List String) → All P xs → All P (discard name xs)
discard-All P name [] h = tt
discard-All P name (x ∷ xs) h = ground (arith, h, discard-All P name xs h.1)

pub forget-IsSound : (name : String) (s : Interchange) → IsSound s → IsSound (forget name s)
unfolding forget
forget-IsSound name s b = record {
  within = b.within;
  known = discard-All _ name s.interesting_managers b.known;
}

-- Forgetting a manager that is saturated changes neither tasks nor records.
pub forget-Serves :
    (name : String) (n : ℕ) (s s' : Interchange)
    → Serves s (return n, s')
    → Serves s (return n, forget name s')
unfolding forget
forget-Serves name n s s' v = record {
  count = v.count;
  returns = v.returns;
  sound = unfold forget in forget-IsSound name s' v.sound;
  balance = v.balance;
  counted = v.counted;
  stays = v.stays;
}

pub assign-Serves :
    (name : String) (m : Manager) (n : ℕ) (f : Fetch) (s : Interchange)
    → get? name s.ready_manager_queue ≡ some m
    → IsSound s
    → IsAdvert f.manager
    → Progress s.pending_task_queue m (pos_part (real_capacity m)) n f
    → Serves s (return (length f.tasks), assign name f s)
unfolding assign
assign-Serves name m n f s e b a h =
    let w = b.within name m e in
    let there : has name s.ready_manager_queue ≡ true = rw e refl in
    elim (Bool-cases (is_empty f.tasks)) [
      | inl none_fetched ↦
          rw (none_fetched, assign)
            (record {
              count = length f.tasks;
              returns = refl;
              sound =
                  updated-IsSound f.pending s.task_dispatch name f.manager s there
                    (idle_manager-IsWithin s.pending_task_queue m n f w a h) b;
              balance = λ p. omega (arith, h.balance p, count_if-empty p f.tasks none_fetched);
              counted =
                  omega
                    (arith, count_if-all f.tasks, count_if-empty (λ x. true) f.tasks none_fetched);
              stays = λ k. has-put_old k name _ s.ready_manager_queue there;
            })
      | inr some_fetched ↦
          rw (some_fetched, assign)
            (record {
              count = length f.tasks;
              returns = refl;
              sound =
                  updated-IsSound f.pending _ name _ s there
                    (assign_manager-IsWithin s.pending_task_queue m n f _ w a h) b;
              balance = λ p. omega (
                arith,
                h.balance p,
                count_all-put p name (get_or name [] s.task_dispatch ++ f.tasks) s.task_dispatch,
                count_if-append p (get_or name [] s.task_dispatch) f.tasks,
              );
              counted = omega (
                arith,
                count_if-all f.tasks,
                count_all-put (λ x. true) name (get_or name [] s.task_dispatch ++ f.tasks)
                    s.task_dispatch,
                count_if-append (λ x. true) (get_or name [] s.task_dispatch) f.tasks,
              );
              stays = λ k. has-put_old k name _ s.ready_manager_queue there;
            })
    ]
