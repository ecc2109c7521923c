-- ===== src/Node/Counted.antt =====
-- The manager's books: its counts of tasks agree with one another, and the worker map's are right.
-- A rule for chains of steps, and the steps that change no count.
use mathlib.Core.Path.{subst}
use func_x.Prelude.{
  ℕ, suc, ◌+◌, ◌≤◌, ◌≡◌, sym, String, true, false, some, [], ◌∷◌, arith, Bool-cases, Option-cases,
  inl, inr, if◌then◌else◌,
}
use func_x.Prelude.Int.{ℤ, pos, negsuc, ◌+ℤ◌, ◌≤ℤ◌, int_laws, parts}
use func_x.Prelude.Dict.{
  Dict, get?, put, remove, get_or, has, ◌=?◌, =?_iff, =?_refl, get?-put, get?-remove,
}
use func_x.Prelude.Python.{Result, return, raise, Action, and_then, ◌>>=◌}
use func_x.WorkerMap.{WorkerMap, add_to, sum_values}
use func_x.WorkerMap.Counts.{
  sum_values-add_to, get_or-add_to_self, get_or-add_to_ne, has-put, has-put_self, bump-eq-return,
}
use func_x.WorkerMap.Books.{Books}
use func_x.Node.{Node, on_workers, remove_task}

-- How many tasks are noted with a type.
abbrev pub mapped : String → Dict String → ℕ
mapped t [] = 0
mapped t ((id, u) ∷ d) = if u =? t then suc (mapped t d) else mapped t d

-- Every noted task's type has a count, no count is below the number of tasks noted with the type, and
-- the counts add up to the tasks that came and are not done.
pub record IsCounted (outstanding : Dict ℤ) (mapping : Dict String) (done received : ℕ)
    : Type 0 where
  pub known : (id t : String) → get? id mapping ≡ some t → has t outstanding ≡ true
  pub covers : (t : String) → pos (mapped t mapping) ≤ℤ get_or t (pos 0) outstanding
  pub adds_up : sum_values outstanding +ℤ pos done ≡ pos received

abbrev pub IsRight : Node → Type 0
IsRight s =
    Books s.worker_map
    × IsCounted s.outstanding_task_count s.task_type_mapping s.task_done_counter s.task_recv_counter

abbrev pub Keeps : {A : Type 0} → Action Node A → Type 0
Keeps act = (s : Node) → IsRight s → IsRight (act s).1

pub then-IsRight :
    {A B : Type 0} (r : Result A) (f : A → Action Node B) (s : Node)
    → ((a : A) → Keeps (f a))
    → IsRight s
    → IsRight (and_then r f s).1
then-IsRight (return a) f s k h = k a s h
then-IsRight (raise e) f s k h = h

pub bind-Keeps :
    {A B : Type 0} (m : Action Node A) (f : A → Action Node B)
    → Keeps m
    → ((a : A) → Keeps (f a))
    → Keeps (m >>= f)
bind-Keeps m f km kf s h = then-IsRight (m s).0 f (m s).1 kf (km s h)

pub on_workers-Keeps :
    {A : Type 0} (act : Action WorkerMap A)
    → ((m : WorkerMap) → Books m → Books (act m).1)
    → Keeps (on_workers act)
on_workers-Keeps act k s h = (k s.worker_map h.0, h.1)

mapped-put :
    (t id u : String) (d : Dict String)
    → mapped t (put id u d) ≤ mapped t d + (if u =? t then 1 else 0)
unfolding put
mapped-put t id u [] = ground arith
mapped-put t id u ((j, w) ∷ d) = ground (arith, mapped-put t id u d)

mapped-remove_le : (t id : String) (d : Dict String) → mapped t (remove id d) ≤ mapped t d
unfolding remove
mapped-remove_le t id [] = omega arith
mapped-remove_le t id ((j, w) ∷ d) = ground (arith, mapped-remove_le t id d)

mapped-remove :
    (t id u : String) (d : Dict String)
    → get? id d ≡ some u
    → mapped t (remove id d) + (if u =? t then 1 else 0) ≤ mapped t d
unfolding remove get?
mapped-remove t id u [] h = absurd (cc)
mapped-remove t id u ((j, w) ∷ d) h =
    ground (arith, mapped-remove t id u d, mapped-remove_le t id d)

mapped-put_self : (t id : String) (d : Dict String) → mapped t (put id t d) ≤ mapped t d + 1
mapped-put_self t id d = ground (arith, mapped-put t id t d, =?_refl t)

mapped-put_ne :
    (t id u : String) (d : Dict String) → (u =? t) ≡ false → mapped t (put id u d) ≤ mapped t d
mapped-put_ne t id u d e = ground (arith, mapped-put t id u d)

known_before :
    (t id i u : String) (outstanding : Dict ℤ) (mapping : Dict String)
    → (t =? u) ≡ false
    → get? i (put id t mapping) ≡ some u
    → ((id v : String) → get? id mapping ≡ some v → has v outstanding ≡ true)
    → has u outstanding ≡ true
known_before t id i u outstanding mapping e h known =
    known i u (ground (arith, get?-put i id t mapping, =?_iff t u))

-- Taking in a task.
pub add-IsCounted :
    (t id : String) (outstanding : Dict ℤ) (mapping : Dict String) (done received : ℕ)
    → IsCounted outstanding mapping done received
    → IsCounted (add_to t (pos 1) outstanding) (put id t mapping) done (received + 1)
add-IsCounted t id outstanding mapping done received c = record {
  known = λ i u h. elim (Bool-cases (t =? u)) [
    | inl e ↦ rw (sym ((=?_iff t u).0 e)) (has-put_self t _ outstanding)
    | inr e ↦ has-put u t _ outstanding (known_before t id i u outstanding mapping e h c.known)
  ];
  covers = λ u. elim (Bool-cases (t =? u)) [
    | inl e ↦
        let same = (=?_iff t u).0 e in
        subst
          (λ v.
            pos (mapped v (put id t mapping)) ≤ℤ get_or v (pos 0) (add_to t (pos 1) outstanding))
          same
          (omega (
            int_laws,
            mapped-put_self t id mapping,
            c.covers t,
            parts (get_or-add_to_self t (pos 1) outstanding),
          ))
    | inr e ↦ omega (
      int_laws,
      mapped-put_ne u id t mapping e,
      c.covers u,
      parts (get_or-add_to_ne u t (pos 1) outstanding (λ q. absurd (cc (e, (=?_iff t u).1 q)))),
    )
  ];
  adds_up = omega (int_laws, parts c.adds_up, parts (sum_values-add_to t (pos 1) outstanding));
}

mapped-remove_self :
    (t id : String) (d : Dict String) → get? id d ≡ some t → mapped t (remove id d) + 1 ≤ mapped t d
mapped-remove_self t id d e = ground (arith, mapped-remove t id t d e, =?_refl t)

-- Taking a task out.
pub remove-IsCounted :
    (t id : String) (outstanding : Dict ℤ) (mapping : Dict String) (done received : ℕ)
    → get? id mapping ≡ some t
    → IsCounted outstanding mapping done received
    → IsCounted (add_to t (negsuc 0) outstanding) (remove id mapping) (suc done) received
remove-IsCounted t id outstanding mapping done received e c = record {
  known = λ i u h.
      has-put u t _ outstanding (c.known i u (ground (arith, get?-remove i id mapping, h)));
  covers = λ u. elim (Bool-cases (t =? u)) [
    | inl q ↦
        subst
          (λ v.
            pos (mapped v (remove id mapping))
            ≤ℤ get_or v (pos 0) (add_to t (negsuc 0) outstanding))
          ((=?_iff t u).0 q)
          (omega (
            int_laws,
            mapped-remove_self t id mapping e,
            c.covers t,
            parts (get_or-add_to_self t (negsuc 0) outstanding),
          ))
    | inr q ↦ omega (
      int_laws,
      mapped-remove_le u id mapping,
      c.covers u,
      parts (get_or-add_to_ne u t (negsuc 0) outstanding (λ x. absurd (cc (q, (=?_iff t u).1 x)))),
    )
  ];
  adds_up = omega (int_laws, parts c.adds_up, parts (sum_values-add_to t (negsuc 0) outstanding));
}

pub remove_task-Keeps : (id : String) → Keeps (remove_task id)
unfolding remove_task
remove_task-Keeps id s h = elim (Option-cases (get? id s.task_type_mapping)) [
  | inl e ↦ rw (e, remove_task) h
  | inr (t, e) ↦
      rw (e, bump-eq-return t (negsuc 0) s.outstanding_task_count (h.1.known id t e), remove_task)
        (h.0, remove-IsCounted t id s.outstanding_task_count s.task_type_mapping _ _ e h.1)
]
