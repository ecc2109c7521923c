-- ===== src/Htex/Trap.antt =====
-- Tasks that were to be cancelled before they were sent: `task_cancel_pending_trap`.
use func_x.Prelude.{
  ℕ, suc, ◌+◌, ◌≡◌, refl, ◌∙◌, ap, String, Bool, false, ◌&&◌, List, [], ◌∷◌, ◌++◌, Bool-cases, inl,
  inr, arith, if◌then◌else◌, ltb, length, length-append,
}
use func_x.Prelude.Dict.{Dict, get_or, has, ◌=?◌, =?_iff, get?-put, get?-remove}
use func_x.Dispatch.{Task}
use func_x.Htex.{Htex, ToManager, heartbeat, cancel, launch, extend}
use func_x.Htex.Cancel.{announce, announce_all}

-- How many messages tell any manager to cancel a task.
abbrev is_cancel : String → ToManager → ℕ
is_cancel id heartbeat = 0
is_cancel id (launch tasks) = 0
is_cancel id (cancel tid) = if tid =? id then 1 else 0

abbrev pub cancels_sent : String → List (String × ToManager) → ℕ
cancels_sent id [] = 0
cancels_sent id ((name, m) ∷ out) = is_cancel id m + cancels_sent id out

cancels_sent-append :
    (id : String) (out more : List (String × ToManager))
    → cancels_sent id (out ++ more) ≡ cancels_sent id out + cancels_sent id more
cancels_sent-append id [] more = omega arith
cancels_sent-append id ((name, m) ∷ out) more = omega (arith, cancels_sent-append id out more)

abbrev pub count_tasks : String → List Task → ℕ
count_tasks id [] = 0
count_tasks id (x ∷ xs) = if x.task_id =? id then suc (count_tasks id xs) else count_tasks id xs

-- How many transitions of a task wait to be merged.
abbrev pub waiting : String → Htex → ℕ
waiting id s = length (get_or id [] s.task_deltas_to_merge)

length-extend :
    {A : Type 0} (j k : String) (x : A) (d : Dict (List A))
    → length (get_or j [] (extend k (x ∷ []) d))
      ≡ (if k =? j then suc (length (get_or j [] d)) else length (get_or j [] d))
length-extend j k x d = elim (Bool-cases (k =? j)) [
  | inl e ↦
      let same = (=?_iff k j).0 e in
      rw (get?-put j k (get_or k [] d ++ x ∷ []) d, e)
        (length-append (get_or k [] d) (x ∷ [])
          ∙ ap (λ i. length (get_or i [] d) + 1) same
          ∙ omega arith)
  | inr e ↦ rw (get?-put j k (get_or k [] d ++ x ∷ []) d, e) refl
]

abbrev pub Told : String → ℕ → Bool → Htex → Htex → Type 0
Told id n hit s s' =
    (has id s'.task_cancel_pending_trap
      ≡ (if hit then false else has id s.task_cancel_pending_trap))
    × (cancels_sent id s'.task_outgoing ≡ cancels_sent id s.task_outgoing + (if hit then 1 else 0))
    × (waiting id s' + (if hit then 1 else 0) ≡ waiting id s + n)

announce-Told :
    (id name : String) (now : ℕ) (x : Task) (s : Htex)
    → Told id
        (count_tasks id (x ∷ []))
        (has id s.task_cancel_pending_trap && (x.task_id =? id))
        s
        (announce name now x s)
unfolding announce
announce-Told id name now x s = elim (Bool-cases (has x.task_id s.task_cancel_pending_trap)) [
  | inl e ↦
      rw (e, announce)
        (
          ground (arith, get?-remove id x.task_id s.task_cancel_pending_trap, =?_iff x.task_id id),
          rw (cancels_sent-append id s.task_outgoing ((name, cancel x.task_id) ∷ []))
              (ground (arith, =?_iff x.task_id id)),
          ground (arith, =?_iff x.task_id id),
        )
  | inr e ↦
      rw (e, announce)
        (
          ground (arith, =?_iff x.task_id id),
          ground (arith, =?_iff x.task_id id),
          rw (length-extend id x.task_id _ s.task_deltas_to_merge)
              (ground (arith, =?_iff x.task_id id)),
        )
]

-- When tasks were sent to a manager, then for each task: it is no longer in the trap if it was sent,
-- one message to cancel it was sent if it was in the trap and was sent, and all its other sendings
-- were noted as transitions.
pub announce_all-Told :
    (id name : String) (now : ℕ) (xs : List Task) (s : Htex)
    → Told id
        (count_tasks id xs)
        (has id s.task_cancel_pending_trap && ltb 0 (count_tasks id xs))
        s
        (announce_all name now xs s)
unfolding announce_all
announce_all-Told id name now [] s = (ground arith, ground arith, ground arith)
announce_all-Told id name now (x ∷ xs) s =
    let first = announce-Told id name now x s in
    let rest = announce_all-Told id name now xs (announce name now x s) in
    (
      ground (arith, first.0, rest.0),
      ground (arith, first.0, first.1, rest.1),
      ground (arith, first.0, first.2, rest.2),
    )
