-- ===== src/WorkerMap/Books.antt =====
-- The invariant of a `WorkerMap`: its counts agree with one another, and every worker's type is
-- one that the methods can look up.
use func_x.Prelude.{
  ℕ, ◌≡◌, refl, ◌≢◌, String, true, none, some, [], arith, Bool-cases, inl, inr, List,
}
use mathlib.Core.Path.{subst}
use func_x.Prelude.Int.{ℤ, pos, negsuc, ◌+ℤ◌, int_laws, parts}
use func_x.Prelude.Dict.{Distinct, put-Distinct, Dict, get?, get_or, has, ◌=?◌, =?_iff, get?-put}
use func_x.WorkerMap.{WorkerMap, init, add_zero_unless_there, sum_values, register_worker}
use func_x.WorkerMap.Counts.{sum_values-add_to, get_or-add_to_ne, has-put, has-put_self}

-- A type that workers have: it is counted, and it is not the name of the free slots.
pub record IsKnown (m : WorkerMap) (t : String) : Type 0 where
  pub named : t ≢ "unused"
  pub in_total : has t m.total_worker_type_counts ≡ true
  pub in_ready : has t m.ready_worker_type_counts ≡ true
  pub in_to_die : has t m.to_die_count ≡ true

pub record Books (m : WorkerMap) : Type 0 where
  pub total_unused : has "unused" m.total_worker_type_counts ≡ true
  pub distinct : Distinct m.total_worker_type_counts
  pub ready_unused : has "unused" m.ready_worker_type_counts ≡ true
  pub slots :
      get_or "unused" (pos 0) m.total_worker_type_counts +ℤ m.active_workers +ℤ m.pending_workers
      ≡ pos m.max_worker_count
  pub counted : sum_values m.total_worker_type_counts +ℤ m.pending_workers ≡ pos m.max_worker_count
  pub pended : sum_values m.pending_worker_type_counts ≡ m.pending_workers
  pub typed : (w t : String) → get? w m.worker_types ≡ some t → IsKnown m t
  pub timed :
      (t : String)
      → has t m.total_worker_type_counts ≡ true
      → t ≢ "unused"
      → has t m.worker_idle_since ≡ true
  pub devices : m.available_accelerators ≡ none → m.assigned_accelerators ≡ []

pub init-Books : (n : ℕ) (devices : List String) → Books (init n devices)
unfolding init get?
init-Books n devices = record {
  total_unused = refl;
  distinct = (refl, tt);
  ready_unused = refl;
  slots = omega int_laws;
  counted = omega int_laws;
  pended = refl;
  typed = λ w t e. cc;
  timed = λ t e h. absurd (h (ground (arith, =?_iff "unused" t)));
  devices = λ e. refl;
}

has-add_zero_self : (k : String) (d : Dict ℤ) → has k (add_zero_unless_there k d) ≡ true
has-add_zero_self k d = ground (arith, get?-put k k (pos 0) d, =?_iff k k)

has-add_zero :
    (j k : String) (d : Dict ℤ) → has j d ≡ true → has j (add_zero_unless_there k d) ≡ true
has-add_zero j k d h = ground (arith, get?-put j k (pos 0) d)

register_worker-IsKnown_self :
    (id t : String) (now : ℕ) (m : WorkerMap)
    → t ≢ "unused"
    → IsKnown (register_worker id t now m) t
unfolding register_worker
register_worker-IsKnown_self id t now m h = record {
  named = h;
  in_total = has-put_self _ _ m.total_worker_type_counts;
  in_ready = has-put_self _ _ m.ready_worker_type_counts;
  in_to_die = has-add_zero_self t m.to_die_count;
}

register_worker-IsKnown :
    (id t : String) (now : ℕ) (m : WorkerMap) (u : String)
    → IsKnown m u
    → IsKnown (register_worker id t now m) u
unfolding register_worker
register_worker-IsKnown id t now m u k = record {
  named = k.named;
  in_total = has-put _ _ _ m.total_worker_type_counts k.in_total;
  in_ready = has-put _ _ _ m.ready_worker_type_counts k.in_ready;
  in_to_die = has-add_zero u t m.to_die_count k.in_to_die;
}

pub register_worker-Books :
    (id t : String) (now : ℕ) (m : WorkerMap)
    → t ≢ "unused"
    → Books m
    → Books (register_worker id t now m)
unfolding register_worker
register_worker-Books id t now m h b = record {
  total_unused = has-put _ _ _ m.total_worker_type_counts b.total_unused;
  distinct = put-Distinct t _ m.total_worker_type_counts b.distinct;
  ready_unused = has-put _ _ _ m.ready_worker_type_counts b.ready_unused;
  slots = omega (
    int_laws,
    parts b.slots,
    parts (get_or-add_to_ne "unused" t (pos 1) m.total_worker_type_counts h),
  );
  counted =
      omega
        (int_laws, parts b.counted, parts (sum_values-add_to t (pos 1) m.total_worker_type_counts));
  pended = omega (
    int_laws,
    parts b.pended,
    parts (sum_values-add_to t (negsuc 0) m.pending_worker_type_counts),
  );
  typed = λ w u e. elim (Bool-cases (id =? w)) [
    | inl same ↦
        let t' : t ≡ u = ground (arith, get?-put w id t m.worker_types) in
        subst (IsKnown (register_worker id t now m)) t' (register_worker-IsKnown_self id t now m h)
    | inr other ↦
        register_worker-IsKnown id t now m u
          (b.typed w u (ground (arith, get?-put w id t m.worker_types)))
  ];
  timed = λ u e ne. elim (Bool-cases (t =? u)) [
    | inl same ↦ ground (arith, get?-put u t now m.worker_idle_since)
    | inr other ↦ has-put u t now m.worker_idle_since (
        b.timed u
          (ground (
            arith,
            get?-put u t (get_or t (pos 0) m.total_worker_type_counts +ℤ pos 1)
                m.total_worker_type_counts,
          ))
          ne)
  ];
  devices = b.devices;
}
