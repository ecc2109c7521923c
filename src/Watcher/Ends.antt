-- ===== src/Watcher/Ends.antt =====
-- What the futures are told at the end of `run`.
use mathlib.Core.Path.{subst}
use func_x.Prelude.{
  ℕ, ◌≤◌, ◌≡◌, ◌≢◌, refl, ◌∙◌, sym, ap, String, Bool, true, false, not, ◌&&◌, ◌||◌, some, List, [],
  ◌∷◌, ◌++◌, All, All-reverse, reverse-All, is_empty, if◌then◌else◌, Bool-cases, inl, inr, arith,
  reverse,
}
use func_x.Prelude.Dict.{
  Dict, Distinct, get?, remove, keys, count, count-append, =?_iff, =?_refl, is_some, All-map,
}
use func_x.Prelude.Python.{Result, Result-cases, return}
use func_x.Watcher.{failed, Failure, quit, Future, Watcher, is_done, set_outcome}
use func_x.Watcher.Matching.{set_outcome-other, set_outcome_pending}
use func_x.Watcher.Popping.{AllNamed, count-keys}
use func_x.Watcher.Settled.{IsSettled}
use func_x.Watcher.Watching.{is_empty_nil}
use func_x.Watcher.Connection.{fail_all, reason, give_up}

-- Futures that are named by tasks, each task once, and are not done.
record IsWaiting {V : Type 0} (fs : List (String × ℕ)) (futures : ℕ → Future V) : Type 0 where
  carried : All (λ e. (futures e.1).task_id ≡ some e.0) fs
  once : (k : String) → count k (keys fs) ≤ 1
  waits : All (λ e. is_done (futures e.1).outcome ≡ false) fs

module _ {V : Type 0} (e : Failure) where
  -- The futures behind one that was told are others.
  others :
      (k : String) (f : ℕ) (fs : List (String × ℕ)) (futures : ℕ → Future V)
      → (futures f).task_id ≡ some k
      → count k (keys fs) ≡ 0
      → All (λ e. (futures e.1).task_id ≡ some e.0) fs
      → All (λ e. e.1 ≢ f) fs
  others k f [] futures own none_of h = tt
  others k f ((j, g) ∷ fs) futures own none_of h = (
    (λ same.
        let tasks : some j ≡ some k = sym h.0 ∙ ap (λ i. (futures i).task_id) same ∙ own in
        ground (arith, tasks, none_of, =?_iff j k)),
    others k f fs futures own (ground (arith, none_of)) h.1,
  )

  -- Telling one future leaves what is said of the others.
  told-All :
      (P : String × ℕ → Future V → Type 0) (f : ℕ) (fs : List (String × ℕ)) (futures : ℕ → Future V)
      → All (λ e. e.1 ≢ f) fs
      → All (λ e. P e (futures e.1)) fs
      → All (λ p. P p ((set_outcome f (failed e) futures).1 p.1)) fs
  told-All P f [] futures ne h = tt
  told-All P f ((j, g) ∷ fs) futures ne h = (
    subst (P (j, g)) (sym (set_outcome-other f g (failed e) futures ne.0)) h.0,
    told-All P f fs futures ne.1 h.1,
  )

  fail_all-other :
      (fs : List (String × ℕ)) (w : Watcher V) (g : ℕ)
      → All (λ e. g ≢ e.1) fs
      → (fail_all e fs w).1.futures g ≡ w.futures g
  unfolding fail_all
  fail_all-other [] w g h = refl
  fail_all-other ((k, f) ∷ fs) w g h =
      let told = set_outcome-other f g (failed e) w.futures h.0 in
      elim (Result-cases (set_outcome f (failed e) w.futures).0) [
        | inl (u, r) ↦ rw (r, fail_all) (fail_all-other fs _ g h.1 ∙ told)
        | inr (x, r) ↦ rw (r, fail_all) told
      ]

  fail_all_step :
      (k : String) (f : ℕ) (fs : List (String × ℕ)) (w : Watcher V)
      → (set_outcome f (failed e) w.futures).0 ≡ return tt
      → fail_all e ((k, f) ∷ fs) w
        ≡ fail_all e fs (record w {
          open_futures = remove k w.open_futures;
          futures = (set_outcome f (failed e) w.futures).1;
        })
  unfolding fail_all
  fail_all_step k f fs w r = rw (r, fail_all) refl

  fail_all_lem :
      (fs : List (String × ℕ)) (w : Watcher V)
      → IsWaiting fs w.futures
      → ((fail_all e fs w).0 ≡ return tt)
        × All (λ p. ((fail_all e fs w).1.futures p.1).outcome ≡ failed e) fs
        × ((fail_all e fs w).1.open_futures ≡ [])
  unfolding fail_all
  fail_all_lem [] w h = (refl, tt, refl)
  fail_all_lem ((k, f) ∷ fs) w h =
      let free = set_outcome_pending f (failed e) w.futures h.waits.0 in
      let alone : count k (keys fs) ≡ 0 = ground (arith, h.once k, =?_refl k) in
      let differ = others k f fs w.futures h.carried.0 alone h.carried.1 in
      let w' : Watcher V = record w {
        open_futures = remove k w.open_futures;
        futures = (set_outcome f (failed e) w.futures).1;
      } in
      let rest = fail_all_lem fs w' (record {
        carried = told-All (λ p x. x.task_id ≡ some p.0) f fs w.futures differ h.carried.1;
        once = λ j. ground (arith, h.once j);
        waits = told-All (λ p x. is_done x.outcome ≡ false) f fs w.futures differ h.waits.1;
      }) in
      let step = fail_all_step k f fs w free.0 in
      subst
        (λ r.
          (r.0 ≡ return tt)
          × All (λ p. (r.1.futures p.1).outcome ≡ failed e) ((k, f) ∷ fs)
          × (r.1.open_futures ≡ []))
        (sym step)
        (
          rest.0,
          (
            ap (λ x. x.outcome)
                  (fail_all-other fs w' f (All-map _ _ fs (λ p d q. d (sym q)) differ))
                ∙ free.1,
            rest.1,
          ),
          rest.2,
        )

keys-append : (d e : Dict ℕ) → keys (d ++ e) ≡ keys d ++ keys e
keys-append [] e = refl
keys-append (x ∷ d) e = ap (◌∷◌ x.0) (keys-append d e)

count-reverse : (k : String) (d : Dict ℕ) → count k (keys (reverse d)) ≡ count k (keys d)
count-reverse k [] = refl
count-reverse k ((j, f) ∷ d) =
    rw (keys-append (reverse d) ((j, f) ∷ []))
      (count-append k (keys (reverse d)) (j ∷ []) ∙ ground (arith, count-reverse k d))

AllNamed-All :
    {V : Type 0} (futures : ℕ → Future V) (d : Dict ℕ)
    → Distinct d
    → AllNamed d futures
    → All (λ e. (futures e.1).task_id ≡ some e.0) d
unfolding get?
AllNamed-All futures [] u h = tt
AllNamed-All futures ((j, f) ∷ d) u h = (
  h j f (rw (=?_refl j) refl),
  AllNamed-All futures d u.1
      (λ k g e. h k g (ground (arith, e, u.0, =?_iff j k, ap (λ i. get? i d)))),
)

abbrev AllTold : {V : Type 0} → Watcher V → Result (Unit {0}) × Watcher V → Type 0
AllTold w r =
    (r.0 ≡ return tt)
    × All (λ e. (r.1.futures e.1).outcome ≡ failed (quit (reason w.cancellation_reason)))
        w.open_futures
    × (r.1.open_futures ≡ [])

give_up_branch :
    {V : Type 0} (w : Watcher V) (b : Bool)
    → (not (is_empty w.open_futures) && (not w.time_to_stop || is_some w.cancellation_reason)) ≡ b
    → give_up w ≡ (
        if b
        then fail_all (quit (reason w.cancellation_reason)) (reverse w.open_futures) (record w {
          time_to_stop = true;
          cancellation_reason = some (reason w.cancellation_reason);
        })
        else (return tt, w))
unfolding give_up
give_up_branch w b e =
    ap
      (λ c.
        if c
        then fail_all (quit (reason w.cancellation_reason)) (reverse w.open_futures) (record w {
          time_to_stop = true;
          cancellation_reason = some (reason w.cancellation_reason);
        })
        else (return tt, w))
      e

-- In a settled watcher that is not to stop, and whose open futures are not done: at the end of `run`
-- each of them is told the reason, and none is open.
pub give_up_lem :
    {V : Type 0} (w : Watcher V)
    → IsSettled w
    → w.time_to_stop ≡ false
    → All (λ e. is_done (w.futures e.1).outcome ≡ false) w.open_futures
    → let (result, after) = give_up w in
      (result ≡ return tt)
      × All
          (λ e. (after.futures e.1).outcome ≡ failed (quit (reason w.cancellation_reason)))
          w.open_futures
      × (after.open_futures ≡ [])
give_up_lem w s goes waits = elim (Bool-cases (is_empty w.open_futures)) [
  | inl e ↦
      let nil = is_empty_nil w.open_futures e in
      subst (AllTold w) (sym (give_up_branch w false (ground (arith, e))))
        (refl, subst (All _) (sym nil) tt, nil)
  | inr e ↦
      let told =
        fail_all_lem (quit (reason w.cancellation_reason)) (reverse w.open_futures)
          (record w {
            time_to_stop = true;
            cancellation_reason = some (reason w.cancellation_reason);
          })
          (record {
            carried =
                All-reverse (λ e. (w.futures e.1).task_id ≡ some e.0) w.open_futures
                  (AllNamed-All w.futures w.open_futures s.distinct s.named);
            once = λ k.
                ground
                  (arith, count-reverse k w.open_futures, count-keys w.open_futures k s.distinct);
            waits = All-reverse (λ e. is_done (w.futures e.1).outcome ≡ false) w.open_futures waits;
          }) in
      subst (AllTold w) (sym (give_up_branch w true (ground (arith, e, goes))))
        (told.0, reverse-All _ w.open_futures told.1, told.2)
]
