-- ===== src/Dispatch/Progress.antt =====
-- One call of `get_tasks_hard` or `get_tasks_soft`: it returns, it loses and makes up no task, and
-- it fetches at most as many tasks as it is allowed to.
use func_x.Prelude.{
  ℕ, suc, ◌+◌, ◌≡◌, refl, String, Bool, true, ap, List, [], ◌∷◌, ◌++◌, arith, length, length-append,
  if◌then◌else◌,
}
use func_x.Prelude.Int.{pos, int_laws, parts, ◌+ℤ◌}
use func_x.Prelude.Dict.{Dict, get?, put, get_or}
use func_x.Dispatch.{Task, Manager, Fetch, fetched, get_tasks_hard, get_tasks_soft}
use func_x.Dispatch.Fetching.{Keeps, Fine, Ends, IsAdvert}
use func_x.Dispatch.Loops.{get_tasks_hard-Ends, get_tasks_soft-Ends}

-- A kind of task is a test; how many tasks of a list, and of a dict of lists, meet it.
module _ (p : Task → Bool) where
  abbrev pub count_if : List Task → ℕ
  count_if [] = 0
  count_if (x ∷ xs) = if p x then suc (count_if xs) else count_if xs

  abbrev pub count_all : Dict (List Task) → ℕ
  count_all [] = 0
  count_all ((k, xs) ∷ d) = count_if xs + count_all d

  pub count_if-append : (xs ys : List Task) → count_if (xs ++ ys) ≡ count_if xs + count_if ys
  count_if-append [] ys = omega arith
  count_if-append (x ∷ xs) ys = ground (arith, count_if-append xs ys)

  pub count_all-put :
      (k : String) (xs : List Task) (d : Dict (List Task))
      → count_all (put k xs d) + count_if (get_or k [] d) ≡ count_all d + count_if xs
  unfolding put get?
  count_all-put k xs [] = omega arith
  count_all-put k xs ((j, ys) ∷ d) = ground (arith, count_all-put k xs d)

pub count_if-all : (xs : List Task) → count_if (λ x. true) xs ≡ length xs
count_if-all [] = refl
count_if-all (x ∷ xs) = ap suc (count_if-all xs)

-- What holds of a call that started with these queues and this record, with `n` of the capacity
-- left.
pub record Progress (pending : Dict (List Task)) (m : Manager) (capacity n : ℕ) (f : Fetch)
    : Type 0 where
  pub used : length f.tasks + n ≡ capacity
  pub workers : f.manager.total_workers +ℤ pos (length f.tasks) ≡ m.total_workers
  pub total_tasks : f.manager.total_tasks ≡ m.total_tasks
  pub max_worker_count : f.manager.max_worker_count ≡ m.max_worker_count
  pub tasks : f.manager.tasks ≡ m.tasks
  pub balance : (p : Task → Bool) → count_all p f.pending + count_if p f.tasks ≡ count_all p pending

Progress-Keeps :
    (pending : Dict (List Task)) (m : Manager) (capacity : ℕ) → Keeps (Progress pending m capacity)
unfolding fetched
Progress-Keeps pending m capacity n source t x rest charge f ch e h = record {
  used = omega (arith, h.used, length-append f.tasks (x ∷ []));
  workers = omega (int_laws, parts h.workers, parts ch.workers, length-append f.tasks (x ∷ []));
  total_tasks = cc (ch.total_tasks, h.total_tasks);
  max_worker_count = cc (ch.max_worker_count, h.max_worker_count);
  tasks = cc (ch.tasks, h.tasks);
  balance = λ p. ground (
    arith,
    h.balance p,
    count_all-put p source rest f.pending,
    count_if-append p f.tasks (x ∷ []),
  );
}

abbrev pub begin : Dict (List Task) → Manager → Fetch
begin pending m = record { pending = pending; manager = m; tasks = []; tids = [] }

begin-Progress :
    (pending : Dict (List Task)) (m : Manager) (capacity : ℕ)
    → Progress pending m capacity capacity (begin pending m)
begin-Progress pending m capacity = record {
  used = omega arith;
  workers = omega int_laws;
  total_tasks = refl;
  max_worker_count = refl;
  tasks = refl;
  balance = λ p. omega arith;
}

pub get_tasks_hard-Progress :
    (pending : Dict (List Task)) (m : Manager) (capacity : ℕ)
    → IsAdvert m
    → Ends (Fine (Progress pending m capacity)) (get_tasks_hard capacity (begin pending m))
get_tasks_hard-Progress pending m capacity a =
    get_tasks_hard-Ends (Progress pending m capacity) (Progress-Keeps pending m capacity) capacity
      (begin pending m) (a, begin-Progress pending m capacity)

pub get_tasks_soft-Progress :
    (shuffle : List String → List String) (warm : Bool) (pending : Dict (List Task)) (m : Manager)
    (capacity : ℕ)
    → IsAdvert m
    → Ends
        (Fine (Progress pending m capacity))
        (get_tasks_soft shuffle warm capacity (begin pending m))
get_tasks_soft-Progress shuffle warm pending m capacity a =
    get_tasks_soft-Ends (Progress pending m capacity) (Progress-Keeps pending m capacity) shuffle
      warm capacity (begin pending m) (a, begin-Progress pending m capacity)
