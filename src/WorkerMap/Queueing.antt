-- ===== src/WorkerMap/Queueing.antt =====
-- `put_worker`, `get_worker` and `update_worker_idle`: each type's workers wait in order.
use func_x.Prelude.{
  ◌≡◌, refl, String, true, some, List, [], ◌∷◌, ◌++◌, ℕ, Option-cases, Bool-cases, inl, inr, arith,
  if◌then◌else◌,
}
use func_x.Prelude.Int.{ℤ, pos, negsuc, int_laws, parts}
use func_x.Prelude.Dict.{Dict, get?, put, get_or, has, get?-put_self}
use func_x.Prelude.Python.{return, raise, queue_empty}
use func_x.WorkerMap.{WorkerMap, add_to, enqueue, put_worker, get_worker, update_worker_idle}
use func_x.WorkerMap.Counts.{
  has-put, has-put_self, bump-eq-return, bump-eq-raise, get_or-add_to_self,
}
use func_x.WorkerMap.Books.{Books}

-- The counts of ready workers and the queues may change, as long as no count goes away.
abbrev pub ready_set : Dict ℤ → Dict (List String) → WorkerMap → WorkerMap
ready_set ready queues m = record m { ready_worker_type_counts = ready; worker_queues = queues }

pub ready_set-Books :
    (ready : Dict ℤ) (queues : Dict (List String)) (m : WorkerMap)
    → ((j : String) → has j m.ready_worker_type_counts ≡ true → has j ready ≡ true)
    → Books m
    → Books (ready_set ready queues m)
ready_set-Books ready queues m keep b = record {
  total_unused = b.total_unused;
  distinct = b.distinct;
  ready_unused = keep "unused" b.ready_unused;
  slots = b.slots;
  counted = b.counted;
  pended = b.pended;
  typed = λ w t e.
      let k = b.typed w t e in
      record {
        named = k.named;
        in_total = k.in_total;
        in_ready = keep t k.in_ready;
        in_to_die = k.in_to_die;
      };
  timed = b.timed;
  devices = b.devices;
}

-- The queues once the type of a worker that is put back has one.
abbrev pub with_queue : String → Dict (List String) → Dict (List String)
with_queue t queues = if has t queues then queues else put t [] queues

pub put_worker_lem :
    (w t : String) (m : WorkerMap)
    → get? w m.worker_types ≡ some t
    → has t m.ready_worker_type_counts ≡ true
    → put_worker w m ≡ (
      return tt,
      ready_set
          (add_to t (pos 1) m.ready_worker_type_counts)
          (enqueue t w (with_queue t m.worker_queues))
          m,
    )
unfolding put_worker
put_worker_lem w t m e h = rw (e, bump-eq-return t (pos 1) m.ready_worker_type_counts h)

pub put_worker-Books : (w : String) (m : WorkerMap) → Books m → Books (put_worker w m).1
put_worker-Books w m b = elim (Option-cases (get? w m.worker_types)) [
  | inl e ↦ unfold put_worker in rw e b
  | inr (t, e) ↦
      rw (put_worker_lem w t m e (b.typed w t e).in_ready)
        (ready_set-Books _ _ m (λ j h. has-put j t _ m.ready_worker_type_counts h) b)
]

pub get_worker_lem :
    (t w : String) (ws : List String) (m : WorkerMap)
    → get? t m.worker_queues ≡ some (w ∷ ws)
    → has t m.ready_worker_type_counts ≡ true
    → get_worker t m ≡ (
      return w,
      ready_set (add_to t (negsuc 0) m.ready_worker_type_counts) (put t ws m.worker_queues) m,
    )
unfolding get_worker
get_worker_lem t w ws m e h = rw (e, bump-eq-return t (negsuc 0) m.ready_worker_type_counts h)

-- A type whose queue is empty: `queue.Empty`, and nothing has changed.
pub get_worker_empty :
    (t : String) (m : WorkerMap)
    → get? t m.worker_queues ≡ some []
    → get_worker t m ≡ (raise queue_empty, m)
unfolding get_worker
get_worker_empty t m e = rw e

get_worker-Books_there :
    (t : String) (queue : List String) (m : WorkerMap)
    → get? t m.worker_queues ≡ some queue
    → Books m
    → Books (get_worker t m).1
get_worker-Books_there t [] m e b = rw (get_worker_empty t m e) b
get_worker-Books_there t (w ∷ ws) m e b = elim (Bool-cases (has t m.ready_worker_type_counts)) [
  | inl h ↦
      rw (get_worker_lem t w ws m e h)
        (ready_set-Books _ _ m (λ j h. has-put j t _ m.ready_worker_type_counts h) b)
  | inr h ↦
      unfold get_worker in
      rw (e, bump-eq-raise t (negsuc 0) m.ready_worker_type_counts h)
        (ready_set-Books m.ready_worker_type_counts _ m (λ j h. h) b)
]

pub get_worker-Books : (t : String) (m : WorkerMap) → Books m → Books (get_worker t m).1
get_worker-Books t m b = elim (Option-cases (get? t m.worker_queues)) [
  | inl e ↦ unfold get_worker in rw e b
  | inr (queue, e) ↦ get_worker-Books_there t queue m e b
]

pub update_worker_idle-Books :
    (t : String) (now : ℕ) (m : WorkerMap) → Books m → Books (update_worker_idle t now m)
unfolding update_worker_idle
update_worker_idle-Books t now m b = record {
  total_unused = b.total_unused;
  distinct = b.distinct;
  ready_unused = b.ready_unused;
  slots = b.slots;
  counted = b.counted;
  pended = b.pended;
  typed = λ w u e.
      let k = b.typed w u e in
      record {
        named = k.named;
        in_total = k.in_total;
        in_ready = k.in_ready;
        in_to_die = k.in_to_die;
      };
  timed = λ u h ne. has-put u t now m.worker_idle_since (b.timed u h ne);
  devices = b.devices;
}

-- With right books, workers of a type are handed out in the order they came back: with one waiting, a
-- worker that is put back goes behind it, and the number of ready workers is unchanged by the two.
pub get_worker-put_worker :
    (w t first : String) (ws : List String) (m : WorkerMap)
    → Books m
    → get? w m.worker_types ≡ some t
    → get? t m.worker_queues ≡ some (first ∷ ws)
    → let after = get_worker t (put_worker w m).1 in
      ((put_worker w m).0 ≡ return tt)
      × (after.0 ≡ return first)
      × (get? t after.1.worker_queues ≡ some (ws ++ w ∷ []))
      × (get_or t (pos 0) after.1.ready_worker_type_counts
          ≡ get_or t (pos 0) m.ready_worker_type_counts)
get_worker-put_worker w t first ws m b e q =
    let k = b.typed w t e in
    let r = m.ready_worker_type_counts in
    let queued = enqueue t w (with_queue t m.worker_queues) in
    let now : get? t queued ≡ some (first ∷ (ws ++ w ∷ [])) =
      ground (arith, get?-put_self t (first ∷ (ws ++ w ∷ [])) m.worker_queues) in
    rw
      (
        put_worker_lem w t m e k.in_ready,
        get_worker_lem t first (ws ++ w ∷ []) (ready_set (add_to t (pos 1) r) queued m) now
            (has-put_self t _ r),
      )
      (
        refl,
        refl,
        get?-put_self t (ws ++ w ∷ []) queued,
        omega (
          int_laws,
          parts (get_or-add_to_self t (negsuc 0) (add_to t (pos 1) r)),
          parts (get_or-add_to_self t (pos 1) r),
        ),
      )
