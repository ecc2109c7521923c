-- ===== src/Dispatch/Order.antt =====
-- interchange_task_dispatch.py: the order in which get_tasks_hard fetches tasks.
use func_x.Prelude.{
  ℕ, zero, suc, ◌≡◌, refl, ◌∙◌, String, Bool, true, false, List, [], ◌∷◌, ◌++◌, ◌≢◌, Bool-cases,
  inl, inr,
}
use mathlib.Core.List.{append_assoc}
use func_x.Prelude.Dict.{Dict, get_or, has, ◌=?◌, get?-put_self, get?-put_ne}
use func_x.Prelude.Python.{Result, return, raise, Action, and_then}
use func_x.Dispatch.{
  Task, Manager, Fetch, fetched, use_slot, has_slot, fetch_loop, fetch_own, get_tasks_hard,
}
use func_x.Dispatch.Progress.{begin}

-- From `f` to `g`, tasks went from the front of the queue `source` to the end of the fetched ones,
-- and the other queues stayed.
record InOrder (source : String) (f g : Fetch) : Type 0 where
  moved : g.tasks ++ get_or source [] g.pending ≡ f.tasks ++ get_or source [] f.pending
  others : (k : String) → source ≢ k → get_or k [] g.pending ≡ get_or k [] f.pending

InOrder-refl : (source : String) (f : Fetch) → InOrder source f f
InOrder-refl source f = record { moved = refl; others = λ k ne. refl }

InOrder-trans :
    (source : String) (f g h : Fetch) → InOrder source f g → InOrder source g h → InOrder source f h
InOrder-trans source f g h a b = record {
  moved = b.moved ∙ a.moved;
  others = λ k ne. b.others k ne ∙ a.others k ne;
}

fetched-InOrder :
    (source t : String) (x : Task) (rest : List Task) (m : Manager) (f : Fetch)
    → get_or source [] f.pending ≡ x ∷ rest
    → InOrder source f (fetched source t x rest m f)
unfolding fetched
fetched-InOrder source t x rest m f e = record {
  moved = rw (get?-put_self source rest f.pending, e, append_assoc f.tasks (x ∷ []) rest) refl;
  others = λ k ne. rw (get?-put_ne k source rest f.pending ne) refl;
}

fetch_loop-InOrder :
    (source t : String) (test : Manager → Result Bool) (charge : Manager → Manager) (n : ℕ)
    (f : Fetch)
    → InOrder source f (fetch_loop source t test charge n f).1
unfolding fetch_loop
fetch_loop-InOrder source t test charge zero f = InOrder-refl source f
fetch_loop-InOrder source t test charge (suc n) f =
    go (test f.manager) (get_or source [] f.pending) refl refl (λ x rest.
      fetch_loop-InOrder source t test charge n (fetched source t x rest (charge f.manager) f))
  where
    go :
        (r : Result Bool) (q : List Task)
        → test f.manager ≡ r
        → get_or source [] f.pending ≡ q
        → ((x : Task) (rest : List Task)
            → InOrder source
                (fetched source t x rest (charge f.manager) f)
                (fetch_loop source t test charge n
                  (fetched source t x rest (charge f.manager) f)).1)
        → InOrder source f (fetch_loop source t test charge (suc n) f).1
    go (raise e) q er eq more = rw (er, fetch_loop) (InOrder-refl source f)
    go (return false) q er eq more = rw (er, fetch_loop) (InOrder-refl source f)
    go (return true) [] er eq more = rw (er, eq, fetch_loop) (InOrder-refl source f)
    go (return true) (x ∷ rest) er eq more =
        rw (er, eq, fetch_loop)
          (InOrder-trans source f _ _ (fetched-InOrder source t x rest (charge f.manager) f eq)
            (more x rest))

fetch_own-InOrder : (t : String) (n : ℕ) (f : Fetch) → InOrder t f (fetch_own t n f).1
unfolding fetch_own
fetch_own-InOrder t n f = elim (Bool-cases (has t f.manager.free)) [
  | inl e ↦ rw (e, fetch_own) (fetch_loop-InOrder t t (has_slot t) (use_slot t) n f)
  | inr e ↦ rw (e, fetch_own) (InOrder-refl t f)
]

-- One action behind another keeps the order, whether or not the first one raises.
bind-InOrder :
    (t : String) (f : Fetch) (r : Result ℕ × Fetch) (k : ℕ → Action Fetch (Unit {0}))
    → InOrder t f r.1
    → ((n : ℕ) (g : Fetch) → InOrder t g (k n g).1)
    → InOrder t f (and_then r.0 k r.1).1
bind-InOrder t f (return n, g) k h go = InOrder-trans t f g _ h (go n g)
bind-InOrder t f (raise e, g) k h go = h

get_tasks_hard-InOrder :
    (n : ℕ) (f : Fetch) → InOrder f.manager.worker_type f (get_tasks_hard n f).1
unfolding get_tasks_hard
get_tasks_hard-InOrder n f =
    let t = f.manager.worker_type in
    elim (Bool-cases (t =? "")) [
      | inl e ↦ rw (e, get_tasks_hard) (InOrder-refl t f)
      | inr e ↦ elim (Bool-cases (has t f.pending)) [
        | inr e' ↦ rw (e, e', get_tasks_hard) (InOrder-refl t f)
        | inl e' ↦
            rw (e, e', get_tasks_hard)
              (bind-InOrder t f (fetch_own t n f) _ (fetch_own-InOrder t n f) (λ left g.
                bind-InOrder t g (fetch_loop t t (has_slot "unused") (use_slot "unused") left g) _
                  (fetch_loop-InOrder t t (has_slot "unused") (use_slot "unused") left g)
                  (λ m g'. InOrder-refl t g')))
      ]
    ]

-- Hard routing fetches from the front of the queue of the manager's own type, in its order: the
-- fetched tasks and what is left of that queue are the queue as it was. No other queue changes. It
-- holds whether the call returns or raises.
pub get_tasks_hard-fifo :
    (pending : Dict (List Task)) (m : Manager) (capacity : ℕ)
    → let g = (get_tasks_hard capacity (begin pending m)).1 in
      (g.tasks ++ get_or m.worker_type [] g.pending ≡ get_or m.worker_type [] pending)
      × ((k : String) → m.worker_type ≢ k → get_or k [] g.pending ≡ get_or k [] pending)
get_tasks_hard-fifo pending m capacity =
    let h = get_tasks_hard-InOrder capacity (begin pending m) in (h.moved, h.others)
