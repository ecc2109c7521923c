-- ===== src/WorkerMap/Removal.antt =====
-- `start_remove_worker` and `remove_worker`: what they do on a worker that the map knows.
use func_x.Prelude.{
  ℕ, ◌≡◌, refl, String, none, some, List, [], Option, Option-cases, Bool-cases, inl, inr, arith,
}
use func_x.Prelude.Int.{pos, negsuc, ◌+ℤ◌, ◌-ℤ◌, int_laws, parts}
use func_x.Prelude.Dict.{Dict, get?, remove, get_or, has, put-Distinct, has-put_old}
use func_x.Prelude.Python.{return, raise, key_error}
use func_x.WorkerMap.{WorkerMap, add_to, remove_worker, start_remove_worker, release_accelerator}
use func_x.WorkerMap.Counts.{
  sum_values-add_to, get_or-add_to_self, get_or-add_to_ne, has-put, has-put_self, bump-eq-return,
  bump-eq-raise,
}
use func_x.WorkerMap.Books.{Books, IsKnown}

-- The counts after a worker of type `t` is gone.
abbrev pub removed : String → WorkerMap → WorkerMap
removed t m = record m {
  active_workers = m.active_workers -ℤ pos 1;
  total_worker_type_counts =
      add_to "unused" (pos 1) (add_to t (negsuc 0) m.total_worker_type_counts);
  to_die_count = add_to t (negsuc 0) m.to_die_count;
  ready_worker_type_counts = add_to "unused" (pos 1) m.ready_worker_type_counts;
}

pub remove_worker_lem :
    (w t : String) (m : WorkerMap)
    → get? w m.worker_types ≡ some t
    → Books m
    → remove_worker w m ≡ release_accelerator w (removed t m)
unfolding remove_worker
remove_worker_lem w t m e b =
    let k = b.typed w t e in
    rw (
      e,
      bump-eq-return t (negsuc 0) m.total_worker_type_counts k.in_total,
      bump-eq-return t (negsuc 0) m.to_die_count k.in_to_die,
      bump-eq-return "unused" (pos 1) (add_to t (negsuc 0) m.total_worker_type_counts)
          (has-put "unused" t _ m.total_worker_type_counts b.total_unused),
      bump-eq-return "unused" (pos 1) m.ready_worker_type_counts b.ready_unused,
    )

removed-Books : (t : String) (m : WorkerMap) → IsKnown m t → Books m → Books (removed t m)
removed-Books t m k b = record {
  total_unused = has-put_self "unused" _ (add_to t (negsuc 0) m.total_worker_type_counts);
  distinct =
      put-Distinct "unused" _ (add_to t (negsuc 0) m.total_worker_type_counts)
        (put-Distinct t _ m.total_worker_type_counts b.distinct);
  ready_unused = has-put_self "unused" _ m.ready_worker_type_counts;
  slots = omega (
    int_laws,
    parts b.slots,
    parts (get_or-add_to_self "unused" (pos 1) (add_to t (negsuc 0) m.total_worker_type_counts)),
    parts (get_or-add_to_ne "unused" t (negsuc 0) m.total_worker_type_counts k.named),
  );
  counted = omega (
    int_laws,
    parts b.counted,
    parts (sum_values-add_to "unused" (pos 1) (add_to t (negsuc 0) m.total_worker_type_counts)),
    parts (sum_values-add_to t (negsuc 0) m.total_worker_type_counts),
  );
  pended = b.pended;
  typed = λ w u e.
      let ku = b.typed w u e in
      record {
        named = ku.named;
        in_total = has-put u "unused" _ _ (has-put u t _ m.total_worker_type_counts ku.in_total);
        in_ready = has-put u "unused" _ m.ready_worker_type_counts ku.in_ready;
        in_to_die = has-put u t _ m.to_die_count ku.in_to_die;
      };
  timed = λ u h ne.
      b.timed u
        (cc (
          has-put_old u "unused"
              (get_or "unused" (pos 0) (add_to t (negsuc 0) m.total_worker_type_counts) +ℤ pos 1)
              (add_to t (negsuc 0) m.total_worker_type_counts)
              (has-put "unused" t _ m.total_worker_type_counts b.total_unused),
          has-put_old u t (get_or t (pos 0) m.total_worker_type_counts +ℤ negsuc 0)
              m.total_worker_type_counts k.in_total,
        ))
        ne;
  devices = b.devices;
}

-- Devices move between the queue and the assignments, a worker id is used up, the rest stays.
abbrev pub devices_set : ℕ → Option (List String) → Dict String → WorkerMap → WorkerMap
devices_set counter available assigned m = record m {
  worker_id_counter = counter;
  available_accelerators = available;
  assigned_accelerators = assigned;
}

pub devices_set-Books :
    (counter : ℕ) (available : Option (List String)) (assigned : Dict String) (m : WorkerMap)
    → (available ≡ none → assigned ≡ [])
    → Books m
    → Books (devices_set counter available assigned m)
devices_set-Books counter available assigned m h b = record {
  total_unused = b.total_unused;
  distinct = b.distinct;
  ready_unused = b.ready_unused;
  slots = b.slots;
  counted = b.counted;
  pended = b.pended;
  typed = λ w t e.
      let k = b.typed w t e in
      record {
        named = k.named;
        in_total = k.in_total;
        in_ready = k.in_ready;
        in_to_die = k.in_to_die;
      };
  timed = b.timed;
  devices = h;
}

pub release_accelerator-Books :
    (w : String) (m : WorkerMap)
    → Books m
    → ((release_accelerator w m).0 ≡ return tt) × Books (release_accelerator w m).1
unfolding release_accelerator get?
release_accelerator-Books w m b = elim (Option-cases (get? w m.assigned_accelerators)) [
  | inl e ↦ rw (e, release_accelerator) (refl, b)
  | inr (device, e) ↦ elim (Option-cases m.available_accelerators) [
    | inl e' ↦ absurd (ground (arith, b.devices e'))
    | inr (devices, e') ↦
        rw (e, e', release_accelerator)
          (
            refl,
            devices_set-Books m.worker_id_counter _ (remove w m.assigned_accelerators) m (λ x. cc)
                b,
          )
  ]
]

-- Removing a worker that is known raises nothing, and right books stay right.
pub remove_worker-Books :
    (w t : String) (m : WorkerMap)
    → get? w m.worker_types ≡ some t
    → Books m
    → ((remove_worker w m).0 ≡ return tt) × Books (remove_worker w m).1
remove_worker-Books w t m e b =
    rw (remove_worker_lem w t m e b)
      (release_accelerator-Books w (removed t m) (removed-Books t m (b.typed w t e) b))

-- A worker that is not known: KeyError, and nothing has changed.
pub remove_worker_unknown :
    (w : String) (m : WorkerMap)
    → get? w m.worker_types ≡ none
    → remove_worker w m ≡ (raise key_error, m)
unfolding remove_worker
remove_worker_unknown w m e = rw (e, remove_worker)

pub start_remove_worker-Books :
    (t : String) (m : WorkerMap) → Books m → Books (start_remove_worker t m).1
unfolding start_remove_worker
start_remove_worker-Books t m b = elim (Bool-cases (has t m.to_die_count)) [
  | inr e ↦ rw (bump-eq-raise t (pos 1) m.to_die_count e) b
  | inl e ↦ rw (bump-eq-return t (pos 1) m.to_die_count e) (record {
    total_unused = b.total_unused;
    distinct = b.distinct;
    ready_unused = b.ready_unused;
    slots = b.slots;
    counted = b.counted;
    pended = b.pended;
    typed = λ w u h.
        let k = b.typed w u h in
        record {
          named = k.named;
          in_total = k.in_total;
          in_ready = k.in_ready;
          in_to_die = has-put u t _ m.to_die_count k.in_to_die;
        };
    timed = b.timed;
    devices = b.devices;
  })
]
