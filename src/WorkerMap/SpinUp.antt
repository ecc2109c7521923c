-- ===== src/WorkerMap/SpinUp.antt =====
-- `spin_up_workers`: no more workers are started than there are slots.
use func_x.Prelude.{
  ℕ, zero, suc, String, List, [], ◌∷◌, Option-cases, Bool-cases, inl, inr, length, ltb, ◌&&◌,
}
use func_x.Prelude.Int.{ℤ, pos, ◌+ℤ◌, ◌-ℤ◌, ◌≤ℤ◌, ltb_ℤ, int_laws, +ℤ_parts, one_sign}
use func_x.Prelude.Dict.{Dict, get?}
use func_x.Prelude.Decimal.{str}
use func_x.WorkerMap.{WorkerMap}
use func_x.WorkerMap.Books.{Books}
use func_x.WorkerMap.Launch.{Os, Options, add_worker, spin_up_loop, num_slots, spin_up_workers}
use func_x.WorkerMap.Attempts.{Attempt_elim, add_worker-Books, add_worker-SomeAttempt}

-- At most one slot is used by an attempt.
abbrev pub Free : ℤ → WorkerMap → Type 0
Free n m = (m.active_workers +ℤ m.pending_workers +ℤ n ≤ℤ pos m.max_worker_count)

add_worker-Free :
    (os : Os) (options : Options) (id t : String) (n : ℕ) (m : WorkerMap)
    → Books m
    → Free (pos (suc n)) m
    → Free (pos n) (add_worker os options id t m).1
add_worker-Free os options id t n m b f =
    let a = add_worker-SomeAttempt os options id t m b in
    Attempt_elim (Free (pos n)) a.attempt (omega int_laws) (omega int_laws)

loop-Books :
    (os : Os) (options : Options) (n : ℕ) (queue : List String) (ups : Dict ℕ) (m : WorkerMap)
    → Books m
    → Books (spin_up_loop os options n queue ups m).1
unfolding spin_up_loop
loop-Books os options zero queue ups m b = b
loop-Books os options (suc n) [] ups m b = loop-Books os options n [] ups m b
loop-Books os options (suc n) (t ∷ queue) ups m b =
    loop-Books os options n queue _ _ (add_worker-Books os options (str m.worker_id_counter) t m b)

loop-Free :
    (os : Os) (options : Options) (n : ℕ) (queue : List String) (ups : Dict ℕ) (m : WorkerMap)
    → Books m
    → Free (pos n) m
    → Free (pos 0) (spin_up_loop os options n queue ups m).1
unfolding spin_up_loop
loop-Free os options zero queue ups m b f = f
loop-Free os options (suc n) [] ups m b f = loop-Free os options n [] ups m b (omega int_laws)
loop-Free os options (suc n) (t ∷ queue) ups m b f =
    let id = str m.worker_id_counter in
    loop-Free os options n queue _ _ (add_worker-Books os options id t m b)
      (add_worker-Free os options id t n m b f)

-- `spin_up_workers` leaves the map alone, or runs the loop over some number of the open slots.
spin_up_elim {ℓ} :
    (P : WorkerMap → Type ℓ) (os : Os) (options : Options) (queue : List String) (m : WorkerMap)
    → P m
    → ((unused : ℤ)
        → P (spin_up_loop os options (num_slots os options queue m unused) queue [] m).1)
    → P (spin_up_workers os options queue m).1
unfolding spin_up_workers
spin_up_elim P os options queue m keep go =
    elim (Bool-cases (
      ltb 0 (length queue)
      && ltb_ℤ (m.active_workers +ℤ m.pending_workers) (pos m.max_worker_count))) [
        | inr e ↦ rw (e, spin_up_workers) keep
        | inl e ↦ elim (Option-cases (get? "unused" m.total_worker_type_counts)) [
          | inl e' ↦ rw (e, e', spin_up_workers) keep
          | inr (unused, e') ↦ rw (e, e', spin_up_workers) (go unused)
        ]
      ]

pub spin_up_workers-Books :
    (os : Os) (options : Options) (queue : List String) (m : WorkerMap)
    → Books m
    → Books (spin_up_workers os options queue m).1
spin_up_workers-Books os options queue m b =
    spin_up_elim Books os options queue m b (λ unused. loop-Books os options _ queue [] m b)

num_slots-Free :
    (os : Os) (options : Options) (queue : List String) (m : WorkerMap) (unused : ℤ)
    → Free (pos 0) m
    → Free (pos (num_slots os options queue m unused)) m
unfolding num_slots
num_slots-Free os options queue m unused f = omega (
  int_laws,
  one_sign (pos m.max_worker_count -ℤ m.active_workers -ℤ m.pending_workers),
  +ℤ_parts (m.active_workers +ℤ m.pending_workers) (pos (num_slots os options queue m unused)),
)

-- From right books whose active and pending workers are within the maximum, starting workers keeps
-- them within it, whatever the queue asks for and whichever of the launches fail.
pub spin_up_workers-le-max :
    (os : Os) (options : Options) (queue : List String) (m : WorkerMap)
    → Books m
    → m.active_workers +ℤ m.pending_workers ≤ℤ pos m.max_worker_count
    → let after = (spin_up_workers os options queue m).1 in
      after.active_workers +ℤ after.pending_workers ≤ℤ pos after.max_worker_count
spin_up_workers-le-max os options queue m b f =
    let f' : Free (pos 0) m = omega int_laws in
    let g : Free (pos 0) (spin_up_workers os options queue m).1 =
      spin_up_elim (Free (pos 0)) os options queue m f' (λ unused.
        loop-Free os options _ queue [] m b (num_slots-Free os options queue m unused f')) in
    omega int_laws
