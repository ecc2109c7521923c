-- ===== src/Dispatch/Total.antt =====
-- `naive_interchange_task_dispatch` as a whole: it returns, it keeps every manager within its
-- bounds, and it neither loses nor makes up a task.
use func_x.Prelude.{
  ℕ, ◌+◌, ◌≡◌, refl, ◌∙◌, String, Bool, true, false, some, List, [], ◌∷◌, All, Option-cases,
  Bool-cases, inl, inr, arith, length, ◌&&◌,
}
use func_x.Prelude.Int.{pos, pos_part, ◌-ℤ◌, ◌≤ℤ◌, ltb_ℤ}
use func_x.Prelude.Dict.{Dict, get?, has, ◌=?◌}
use func_x.Prelude.Python.{Result, return, pure, ◌>>=◌}
use func_x.Dispatch.{Task, Manager}
use func_x.Dispatch.Rounds.{
  Interchange, Mode, hard, soft, real_capacity, assign, get_tasks, serve, visit, visit_all,
  dispatch, naive_interchange_task_dispatch,
}
use func_x.Dispatch.Service.{IsSound, Serves, assign-Serves, forget-Serves, min_ℤ_le, All-has}
use func_x.Dispatch.Fetching.{Fine, Ends, IsAdvert}
use func_x.Dispatch.Progress.{Progress, begin, get_tasks_hard-Progress, get_tasks_soft-Progress}

module _ (shuffle : List String → List String) where
  get_tasks-Progress :
      (mode : Mode) (pending : Dict (List Task)) (m : Manager) (capacity : ℕ)
      → IsAdvert m
      → Ends
          (Fine (Progress pending m capacity))
          (get_tasks shuffle mode capacity (begin pending m))
  unfolding get_tasks
  get_tasks-Progress hard pending m capacity a = get_tasks_hard-Progress pending m capacity a
  get_tasks-Progress (soft warm) pending m capacity a =
      get_tasks_soft-Progress shuffle warm pending m capacity a

  serve-Serves :
      (mode : Mode) (name : String) (m : Manager) (s : Interchange)
      → get? name s.ready_manager_queue ≡ some m
      → IsSound s
      → IsAdvert m
      → Serves s (serve shuffle mode name m s)
  unfolding serve
  serve-Serves mode name m s e b a =
      let c = pos_part (real_capacity m) in
      let f = (get_tasks shuffle mode c (begin s.pending_task_queue m)).1 in
      let (returned, (n, (a', h))) = get_tasks-Progress mode s.pending_task_queue m c a in
      let v = assign-Serves name m n f s e b a' h in
      rw (returned, serve)
        (elim (Bool-cases (ltb_ℤ (pos 0) f.manager.total_workers)) [
          | inl t ↦ rw t v
          | inr t ↦ rw t (forget-Serves name (length f.tasks) s (assign name f s) v)
        ])

  same-Serves : (s : Interchange) → IsSound s → Serves s (return 0, s)
  same-Serves s b = record {
    count = 0;
    returns = refl;
    sound = b;
    balance = λ p. refl;
    counted = omega arith;
    stays = λ k. refl;
  }

  real_capacity-advert :
      (m : Manager)
      → (ltb_ℤ (pos 0) (real_capacity m) && m.active) ≡ true
      → pos 1 ≤ℤ m.total_workers
  real_capacity-advert m h =
      ground (arith, min_ℤ_le m.total_workers (m.max_worker_count -ℤ m.total_tasks))

  visit-Serves :
      (mode : Mode) (name : String) (s : Interchange)
      → has name s.ready_manager_queue ≡ true
      → IsSound s
      → Serves s (visit shuffle mode name s)
  unfolding visit
  visit-Serves mode name s there b = elim (Option-cases (get? name s.ready_manager_queue)) [
    | inl e ↦ absurd (ground arith)
    | inr (m, e) ↦ elim (Bool-cases (ltb_ℤ (pos 0) (real_capacity m) && m.active)) [
      | inl c ↦
          rw (e, c, visit)
            (serve-Serves mode name m s e b ((b.within name m e).advert (real_capacity-advert m c)))
      | inr c ↦ rw (e, c, visit) (forget-Serves name 0 s s (same-Serves s b))
    ]
  ]

  -- One step behind another.
  Serves-trans :
      (s : Interchange) (n m : ℕ) (s' s'' : Interchange)
      → Serves s (return n, s')
      → Serves s' (return m, s'')
      → Serves s (return (n + m), s'')
  Serves-trans s n m s' s'' v w = record {
    count = n + m;
    returns = refl;
    sound = w.sound;
    balance = λ p. w.balance p ∙ v.balance p;
    counted = ground (arith, v.counted, w.counted, v.returns, w.returns);
    stays = λ k. w.stays k ∙ v.stays k;
  }

  Serves-returned :
      {s : Interchange} {r : Result ℕ × Interchange}
      → (v : Serves s r) → Serves s (return v.count, r.1)
  Serves-returned v = record {
    count = v.count;
    returns = refl;
    sound = v.sound;
    balance = v.balance;
    counted = v.counted;
    stays = v.stays;
  }

  -- A call that adds to a count of its own returns the sum.
  Adds : Interchange → ℕ → Result ℕ × Interchange → Type 0
  Adds s start r = (n : ℕ) × (r.0 ≡ return (start + n)) × Serves s (return n, r.1)

  visit_all-Adds :
      (mode : Mode) (names : List String) (start : ℕ) (s : Interchange)
      → All (λ name. has name s.ready_manager_queue ≡ true) names
      → IsSound s
      → Adds s start (visit_all shuffle mode names start s)
  unfolding visit_all Adds
  visit_all-Adds mode [] start s h b = (0, ground arith, same-Serves s b)
  visit_all-Adds mode (name ∷ names) start s h b =
      let v = visit-Serves mode name s h.0 b in
      let s' = (visit shuffle mode name s).1 in
      let (n, e, w) =
        visit_all-Adds mode names (start + v.count) s'
          (All-has names s.ready_manager_queue s'.ready_manager_queue v.stays h.1) v.sound in
      (
        v.count + n,
        rw (v.returns, visit_all) (ground (arith, e)),
        rw (v.returns, visit_all) (Serves-trans s v.count n s' _ (Serves-returned v) w),
      )

  module _ (keeps : (P : String → Type 0) (xs : List String) → All P xs → All P (shuffle xs)) where
    dispatch-Serves :
        (mode : Mode) (s : Interchange) → IsSound s → Serves s (dispatch shuffle mode s)
    unfolding dispatch Adds
    dispatch-Serves mode s b =
        let (n, e, v) =
          visit_all-Adds mode (shuffle s.interesting_managers) 0 s
            (keeps _ s.interesting_managers b.known) b in
        record {
          count = n;
          returns = ground (arith, e);
          sound = v.sound;
          balance = v.balance;
          counted = ground (arith, v.counted, v.returns);
          stays = v.stays;
        }

    both-Serves :
        (s : Interchange)
        → IsSound s
        → Serves s (
            (do
              warm ← dispatch shuffle (soft true)
              cold ← dispatch shuffle (soft false)
              pure (warm + cold))
              s)
    both-Serves s b =
        let v = dispatch-Serves (soft true) s b in
        let s' = (dispatch shuffle (soft true) s).1 in
        let w = dispatch-Serves (soft false) s' v.sound in
        rw (v.returns, w.returns)
          (Serves-trans s v.count w.count s' _ (Serves-returned v) (Serves-returned w))

    -- From a sound state and with a shuffle that keeps what holds of all elements: in every mode the
    -- call returns the number of tasks that it has placed in the dispatch. The state stays sound: each
    -- manager keeps within its bounds: no more tasks than its maximum, no negative number of free
    -- workers. Of every kind of task there are as many pending and dispatched as before.
    pub naive_interchange_task_dispatch-Serves :
        (scheduler_mode : String) (cold_routing : Bool) (s : Interchange)
        → IsSound s
        → Serves s (naive_interchange_task_dispatch shuffle scheduler_mode cold_routing s)
    unfolding naive_interchange_task_dispatch
    naive_interchange_task_dispatch-Serves scheduler_mode cold_routing s b =
        elim (Bool-cases (scheduler_mode =? "hard")) [
          | inl e ↦ rw (e, naive_interchange_task_dispatch) (dispatch-Serves hard s b)
          | inr e ↦ elim (Bool-cases (scheduler_mode =? "soft")) [
            | inr e' ↦ rw (e, e', naive_interchange_task_dispatch) (same-Serves s b)
            | inl e' ↦ elim (Bool-cases cold_routing) [
              | inl c ↦ rw (e, e', c, naive_interchange_task_dispatch) (both-Serves s b)
              | inr c ↦
                  rw (e, e', c, naive_interchange_task_dispatch) (dispatch-Serves (soft true) s b)
            ]
          ]
        ]
