-- ===== src/WorkerMap/Demand.antt =====
-- `get_next_worker_q`: the types to start, each as often as it is missing.
use func_x.Prelude.{
  ℕ, ◌≡◌, refl, String, Bool, List, [], ◌∷◌, Option-cases, inl, inr, arith, length, ltb, replicate,
  if◌then◌else◌,
}
use mathlib.Core.Option
use func_x.Prelude.Int.{pos, ltb_ℤ}
use func_x.Prelude.Dict.{
  Dict, get?, get_or, default, Distinct, =?_iff, count, count-append, count-replicate,
}
use func_x.Prelude.Python.{return}
use func_x.WorkerMap.{WorkerMap}
use func_x.WorkerMap.Books.{Books}
use func_x.WorkerMap.Choose.{missing, new_workers, get_next_worker_q}

count-new_workers :
    (m : WorkerMap) (wanted : Dict ℕ) (t : String)
    → Distinct wanted
    → count t (new_workers m wanted) ≡ default 0 (Option.map (missing m t) (get? t wanted))
unfolding new_workers get?
count-new_workers m [] t d = refl
count-new_workers m ((j, n) ∷ rest) t d = ground (
  arith,
  count-append t (replicate (missing m j n) j) (new_workers m rest),
  count-replicate (missing m j n) j t,
  count-new_workers m rest t d.1,
  =?_iff j t,
  d.0,
)

-- A shuffle changes the order only.
abbrev pub KeepsCounts : (List String → List String) → Type 0
KeepsCounts shuffle = (t : String) (xs : List String) → count t (shuffle xs) ≡ count t xs

-- With right books, `get_next_worker_q` raises nothing. Each type that the scheduler's map names is
-- in the queue as often as it has fewer workers, started or pending, than the map wants; no other
-- type is in the queue.
pub get_next_worker_q_lem :
    (shuffle : List String → List String) (m : WorkerMap) (wanted : Dict ℕ)
    → KeepsCounts shuffle
    → Books m
    → Distinct wanted
    → (queue : List String) × (need_more : Bool) × (get_next_worker_q shuffle m wanted
        ≡ return (queue, need_more))
      × ((t : String) → count t queue ≡ default 0 (Option.map (missing m t) (get? t wanted)))
      × (need_more
          ≡ ltb_ℤ
              (get_or "unused" (pos 0) m.total_worker_type_counts)
              (pos (length (new_workers m wanted))))
unfolding get_next_worker_q
get_next_worker_q_lem shuffle m wanted keeps b d =
    let list = new_workers m wanted in
    elim (Option-cases (get? "unused" m.total_worker_type_counts)) [
      | inl e ↦ absurd (ground (arith, b.total_unused))
      | inr (unused, e) ↦ (
        (if ltb 0 (length list) then shuffle list else list),
        ltb_ℤ unused (pos (length list)),
        rw (e, get_next_worker_q),
        λ t. ground (arith, keeps t list, count-new_workers m wanted t d),
        rw e,
      )
    ]
