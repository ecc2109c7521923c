-- ===== src/WorkerMap/Tests.antt =====
-- Runs of a small `WorkerMap`, and the theorems at inputs that meet their hypotheses.
use func_x.Prelude.{ℕ, ◌≡◌, ◌≢◌, refl, String, false, none, some, List, [], ◌∷◌, arith}
use func_x.Prelude.Int.{pos, ◌+ℤ◌, ◌-ℤ◌, ◌≤ℤ◌}
use func_x.Prelude.Dict.{get?, put, remove, =?_iff}
use func_x.Prelude.Decimal.{str}
use func_x.WorkerMap.{
  WorkerMap, init, register_worker, start_remove_worker, remove_worker, put_worker, get_worker,
  release_accelerator,
}
use func_x.WorkerMap.Launch.{
  Os, Options, worker_id_option, assign_accelerator, modded_command, add_worker, spin_up_workers,
}
use func_x.WorkerMap.Choose.{
  removals, is_recent, num_remove, missing, spin_down_workers, get_next_worker_q, advertisement,
}
use func_x.WorkerMap.Books.{Books, init-Books}
use func_x.WorkerMap.SpinUp.{spin_up_workers-le-max}
use func_x.WorkerMap.Devices.{lost_accelerator}
use func_x.WorkerMap.Run.{Call, registers, spins_up, run, run-init-Books}

-- The second launch fails.
abbrev os : Os
os = record {
  exists = λ path. false;
  join = λ a b. b;
  popen = λ n command. elim n [
    | ℕ.zero ↦ some 700
    | ℕ.suc k ↦ elim k [ ℕ.zero ↦ none | ℕ.suc _ ↦ some 702 ]
  ];
}

abbrev options : Options
options = record {
  mode = "no_container";
  container_cmd_options = "";
  address = "127.0.0.1";
  debug = false;
  uid = "u";
  logdir = "/tmp";
  worker_port = "50001";
}

abbrev launches : List Call
launches =
    spins_up ("RAW" ∷ "RAW" ∷ "RAW" ∷ []) ∷ registers "0" "RAW" 5 ∷ registers "2" "RAW" 6 ∷ []

program : Unit {0}
unfolding run init spin_up_workers add_worker assign_accelerator modded_command worker_id_option str
    get? put remove ◌+ℤ◌ ◌-ℤ◌ register_worker remove_worker release_accelerator start_remove_worker
    put_worker get_worker spin_down_workers removals is_recent num_remove missing get_next_worker_q
    advertisement
program = tt

abbrev small : WorkerMap
small = run os options launches (init 3 [])

counts_after_launches :
    (small.active_workers ≡ pos 2)
    × (small.pending_workers ≡ pos 0)
    × (get? "unused" small.total_worker_type_counts ≡ some (pos 1))
    × (get? "RAW" small.worker_queues ≡ some ("0" ∷ "2" ∷ []))
unfolding program
counts_after_launches = (refl, refl, refl, refl)

raw_ne : ◌≢◌ {A = String} "RAW" "unused"
raw_ne = ground (arith, =?_iff "RAW" "unused")

small-Books : Books small
small-Books = run-init-Books os options launches 3 [] (tt, (raw_ne, (raw_ne, tt)))

run-init-Books_example : Books small
run-init-Books_example = run-init-Books os options launches 3 [] (tt, (raw_ne, (raw_ne, tt)))

spin_up_workers-le-max_example :
    let after = (spin_up_workers os options ("RAW" ∷ "RAW" ∷ []) small).1 in
    after.active_workers +ℤ after.pending_workers ≤ℤ pos after.max_worker_count
unfolding program
spin_up_workers-le-max_example =
    spin_up_workers-le-max os options ("RAW" ∷ "RAW" ∷ []) small small-Books (omega arith)

abbrev one_device : WorkerMap
one_device = init 2 ("gpu0" ∷ [])

one_device-Books : Books one_device
one_device-Books = init-Books 2 ("gpu0" ∷ [])

lost_accelerator_example :
    let gone =
      (remove_worker "0"
        (register_worker "0" "RAW" 9 (add_worker os options "0" "RAW" one_device).1)).1 in
    (gone.available_accelerators ≡ some [])
    × (get? (worker_id_option "0") gone.assigned_accelerators ≡ some "gpu0")
lost_accelerator_example =
    lost_accelerator os options "0" "RAW" "gpu0" [] 9 one_device one_device-Books raw_ne
      (unfold program in refl) (unfold program in refl)
