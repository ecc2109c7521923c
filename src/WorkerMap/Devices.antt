-- ===== src/WorkerMap/Devices.antt =====
-- What becomes of the accelerator that a worker was given: `add_worker` notes it under the command
-- line option made of the worker's id, and `remove_worker` looks for the id itself.
use Prim.Native.String.{count}
use text.Mathlib.TextLemmas.{length-append}
use func_x.Prelude.{ℕ, ◌≡◌, refl, ap, ◌∙◌, ◌≢◌, String, none, some, List, ◌∷◌, arith}
use func_x.Prelude.Dict.{get?, put, get?-put_self, get?-put_ne}
use func_x.WorkerMap.{WorkerMap, register_worker, remove_worker, release_accelerator}
use func_x.WorkerMap.Books.{Books, register_worker-Books}
use func_x.WorkerMap.Removal.{remove_worker_lem}
use func_x.WorkerMap.Attempts.{Attempt_elim, add_worker-device, add_worker-Books}
use func_x.WorkerMap.Launch.{Os, Options, worker_id_option, add_worker}

worker_id_option-ne : (id : String) → worker_id_option id ≢ id
unfolding worker_id_option
worker_id_option-ne id e = omega (arith, ap count e, length-append " --worker_id " id)

-- Where no device is noted under the worker's own id, removing it gives none back.
remove_worker-keeps :
    (id t : String) (m : WorkerMap)
    → get? id m.worker_types ≡ some t
    → Books m
    → get? id m.assigned_accelerators ≡ none
    → ((remove_worker id m).1.available_accelerators ≡ m.available_accelerators)
      × ((remove_worker id m).1.assigned_accelerators ≡ m.assigned_accelerators)
unfolding release_accelerator
remove_worker-keeps id t m e b none_there =
    rw (remove_worker_lem id t m e b, none_there, release_accelerator) (refl, refl)

-- With right books, a worker of a type other than "unused", under whose id no device is noted, is
-- given the first device of the queue, registers and is removed again: the device is not put back,
-- and stays noted for a worker that is gone.
pub lost_accelerator :
    (os : Os) (options : Options) (id t device : String) (rest : List String) (now : ℕ)
    (m : WorkerMap)
    → Books m
    → t ≢ "unused"
    → m.available_accelerators ≡ some (device ∷ rest)
    → get? id m.assigned_accelerators ≡ none
    → let gone = (remove_worker id (register_worker id t now (add_worker os options id t m).1)).1 in
      (gone.available_accelerators ≡ some rest)
      × (get? (worker_id_option id) gone.assigned_accelerators ≡ some device)
unfolding register_worker
lost_accelerator os options id t device rest now m b ne devices free =
    let begun = (add_worker os options id t m).1 in
    let taken : (begun.available_accelerators ≡ some rest)
        × (begun.assigned_accelerators ≡ put (worker_id_option id) device m.assigned_accelerators) =
      Attempt_elim
        (λ q.
          (q.available_accelerators ≡ some rest)
          × (q.assigned_accelerators ≡ put (worker_id_option id) device m.assigned_accelerators))
        (add_worker-device os options id t device rest m devices b) (refl, refl) (refl, refl) in
    let kept =
      remove_worker-keeps id t (register_worker id t now begun)
        (get?-put_self id t begun.worker_types)
        (register_worker-Books id t now begun ne (add_worker-Books os options id t m b))
        (rw taken.1 (
          get?-put_ne id (worker_id_option id) device m.assigned_accelerators
            (worker_id_option-ne id)
          ∙ free)) in
    (
      kept.0 ∙ taken.0,
      ap (get? (worker_id_option id)) (kept.1 ∙ taken.1)
          ∙ get?-put_self (worker_id_option id) device m.assigned_accelerators,
    )
