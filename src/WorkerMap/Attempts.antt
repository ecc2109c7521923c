-- ===== src/WorkerMap/Attempts.antt =====
-- `add_worker`: what one attempt to start a worker changes, and that it keeps the books.
use func_x.Prelude.{
  ℕ, ◌+◌, ◌-◌, ◌≡◌, refl, String, none, some, List, [], ◌∷◌, Option, Option-cases, ◌⊎◌, inl, inr,
}
use func_x.Prelude.Int.{pos, negsuc, ◌+ℤ◌, int_laws, parts}
use func_x.Prelude.Dict.{Dict, put, get_or, put-Distinct, has-put_old}
use func_x.Prelude.Decimal.{str}
use func_x.Prelude.Python.{Exc, value_error, os_error, Result, return, raise, Result-cases}
use func_x.WorkerMap.{WorkerMap, add_to}
use func_x.WorkerMap.Counts.{
  sum_values-add_to, get_or-add_to_self, has-put, has-put_self, bump-eq-return,
}
use func_x.WorkerMap.Books.{Books}
use func_x.WorkerMap.Removal.{devices_set, devices_set-Books}
use func_x.WorkerMap.Launch.{
  Os, Options, worker_id_option, assign_accelerator, command_line, modded_command, add_worker,
}

-- The counts after a worker of type `t` was started: one slot less, one pending worker more.
abbrev pub started : String → WorkerMap → WorkerMap
started t m = record m {
  total_worker_type_counts = add_to "unused" (negsuc 0) m.total_worker_type_counts;
  ready_worker_type_counts = add_to "unused" (negsuc 0) m.ready_worker_type_counts;
  pending_worker_type_counts = add_to t (pos 1) m.pending_worker_type_counts;
  pending_workers = m.pending_workers +ℤ pos 1;
}

started-Books : (t : String) (m : WorkerMap) → Books m → Books (started t m)
started-Books t m b = record {
  total_unused = has-put_self "unused" _ m.total_worker_type_counts;
  distinct = put-Distinct "unused" _ m.total_worker_type_counts b.distinct;
  ready_unused = has-put_self "unused" _ m.ready_worker_type_counts;
  slots = omega (
    int_laws,
    parts b.slots,
    parts (get_or-add_to_self "unused" (negsuc 0) m.total_worker_type_counts),
  );
  counted = omega (
    int_laws,
    parts b.counted,
    parts (sum_values-add_to "unused" (negsuc 0) m.total_worker_type_counts),
  );
  pended =
      omega (
        int_laws,
        parts b.pended,
        parts (sum_values-add_to t (pos 1) m.pending_worker_type_counts),
      );
  typed = λ w u e.
      let k = b.typed w u e in
      record {
        named = k.named;
        in_total = has-put u "unused" _ m.total_worker_type_counts k.in_total;
        in_ready = has-put u "unused" _ m.ready_worker_type_counts k.in_ready;
        in_to_die = k.in_to_die;
      };
  timed = λ u h ne.
      b.timed u
        (cc (
          has-put_old u "unused" (get_or "unused" (pos 0) m.total_worker_type_counts +ℤ negsuc 0)
            m.total_worker_type_counts b.total_unused))
        ne;
  devices = b.devices;
}

-- What an attempt to start a worker of type `t` leaves behind: an exception costs a worker id, and
-- a device if there was one; a process takes a slot as well.
pub record Attempt (t : String) (m : WorkerMap) (counter : ℕ) (available : Option (List String))
    (assigned : Dict String) (r : Result (Dict ℕ) × WorkerMap) : Type 0 where
  pub outcome :
      ((e : Exc) × (r ≡ (raise e, devices_set counter available assigned m)))
      ⊎ ((k : String) × (p : ℕ) × (r
            ≡ (return ((k, p) ∷ []), started t (devices_set counter available assigned m))))

-- An attempt, whatever became of the devices; without a queue none is assigned.
pub record SomeAttempt (t : String) (m : WorkerMap) (r : Result (Dict ℕ) × WorkerMap) : Type 0 where
  pub counter : ℕ
  pub available : Option (List String)
  pub assigned : Dict String
  pub no_queue : available ≡ none → assigned ≡ []
  pub attempt : Attempt t m counter available assigned r

module _ (os : Os) (options : Options) where
  abbrev before : WorkerMap → WorkerMap
  before m = record m { worker_id_counter = m.worker_id_counter + 1 }

  -- From the assignment of the device on.
  launched :
      (id t : String) (device : Option String) (counter : ℕ) (available : Option (List String))
      (assigned : Dict String) (m : WorkerMap)
      → Books m
      → assign_accelerator (worker_id_option id) (before m)
        ≡ (return device, devices_set counter available assigned m)
      → Attempt t m counter available assigned (add_worker os options id t m)
  unfolding add_worker
  launched id t device counter available assigned m b e =
      elim (Result-cases
        (modded_command os options (command_line os options (worker_id_option id) t) t)) [
          | inr (x, bad) ↦ record { outcome = inl (x, rw (e, bad)) }
          | inl (cmd, good) ↦
              elim (Option-cases
                (os.popen m.worker_id_counter (record { command = cmd; device = device }))) [
                  | inl failed ↦ record { outcome = inl (os_error, rw (e, good, failed)) }
                  | inr (p, runs) ↦ record {
                    outcome = inr (
                      str (counter - 1),
                      p,
                      rw (
                        e,
                        good,
                        runs,
                        bump-eq-return "unused" (negsuc 0) m.total_worker_type_counts
                            b.total_unused,
                        bump-eq-return "unused" (negsuc 0) m.ready_worker_type_counts
                            b.ready_unused,
                      ),
                    );
                  }
                ]
        ]

  -- Without a device left the attempt fails before anything is started.
  starved :
      (id t : String) (m : WorkerMap)
      → m.available_accelerators ≡ some []
      → add_worker os options id t m ≡ (raise value_error, before m)
  unfolding add_worker assign_accelerator
  starved id t m e =
      rw (e, assign_accelerator)
        (λ i. (raise value_error, record (before m) { available_accelerators = e i }))

  -- With a device in the queue it is taken, whether or not the launch succeeds.
  pub add_worker-device :
      (id t device : String) (rest : List String) (m : WorkerMap)
      → m.available_accelerators ≡ some (device ∷ rest)
      → Books m
      → Attempt t m
          (m.worker_id_counter + 1)
          (some rest)
          (put (worker_id_option id) device m.assigned_accelerators)
          (add_worker os options id t m)
  unfolding assign_accelerator
  add_worker-device id t device rest m e b =
      launched id t (some device) (m.worker_id_counter + 1) (some rest)
        (put (worker_id_option id) device m.assigned_accelerators) m b (rw (e, assign_accelerator))

  attempt_on :
      (id t : String) (devices : Option (List String)) (m : WorkerMap)
      → m.available_accelerators ≡ devices
      → Books m
      → SomeAttempt t m (add_worker os options id t m)
  unfolding assign_accelerator
  attempt_on id t none m e b = record {
    counter = m.worker_id_counter + 1;
    available = m.available_accelerators;
    assigned = m.assigned_accelerators;
    no_queue = b.devices;
    attempt =
        launched id t none (m.worker_id_counter + 1) m.available_accelerators
          m.assigned_accelerators m b
          (rw (e, assign_accelerator)
            (λ i. (return none, record (before m) { available_accelerators = e i })));
  }
  attempt_on id t (some []) m e b = record {
    counter = m.worker_id_counter + 1;
    available = m.available_accelerators;
    assigned = m.assigned_accelerators;
    no_queue = b.devices;
    attempt = record { outcome = inl (value_error, starved id t m e) };
  }
  attempt_on id t (some (device ∷ rest)) m e b = record {
    counter = m.worker_id_counter + 1;
    available = some rest;
    assigned = put (worker_id_option id) device m.assigned_accelerators;
    no_queue = λ x. cc;
    attempt = add_worker-device id t device rest m e b;
  }

  pub add_worker-SomeAttempt :
      (id t : String) (m : WorkerMap) → Books m → SomeAttempt t m (add_worker os options id t m)
  add_worker-SomeAttempt id t m b = attempt_on id t m.available_accelerators m refl b

-- What follows from an attempt, whichever way it went.
pub Attempt_elim {ℓ} :
    (P : WorkerMap → Type ℓ) {t : String} {m : WorkerMap} {n : ℕ} {a : Option (List String)}
    {d : Dict String} {r : Result (Dict ℕ) × WorkerMap}
    → Attempt t m n a d r
    → P (devices_set n a d m)
    → P (started t (devices_set n a d m))
    → P r.1
Attempt_elim P a failed ran = elim a.outcome [
  | inl (e, eq) ↦ rw eq failed
  | inr (k, p, eq) ↦ rw eq ran
]

-- However the attempt goes, the books stay right.
pub add_worker-Books :
    (os : Os) (options : Options) (id t : String) (m : WorkerMap)
    → Books m
    → Books (add_worker os options id t m).1
add_worker-Books os options id t m b =
    let a = add_worker-SomeAttempt os options id t m b in
    let same = devices_set-Books a.counter a.available a.assigned m a.no_queue b in
    Attempt_elim Books a.attempt same (started-Books t _ same)
