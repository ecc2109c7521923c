-- ===== src/Watcher/Matched.antt =====
-- What matching results to futures comes to.
use mathlib.Core.Path.{subst}
use func_x.Prelude.{
  ℕ, ◌≡◌, ◌≢◌, refl, ◌∙◌, sym, ap, String, ◌&&◌, some, List, [], ◌∷◌, Bool-cases, Option-cases, inl,
  inr, if◌then◌else◌, arith,
}
use func_x.Prelude.Dict.{Dict, Distinct, count, get?, has, keys, ◌=?◌, =?_iff, =?_refl, get?-remove}
use func_x.Prelude.Python.{Result, return}
use func_x.Watcher.Popping.{Belong, count-common, count-keys}
use func_x.Watcher.Matching.{
  expected, after_one, complete_one_returns, complete_one_pending, complete_one-other,
  after_one-task_id, complete_step, complete-other, Completes, Completed,
}
use func_x.Watcher.{Received, Watcher, common, complete}

module _ {V : Type 0} (deserialize : String → Result V) where
  Completes-tail :
      (j : String) (ks : List String) (f : ℕ) (fs : List ℕ) (d : Dict ℕ) (w : Watcher V)
      (res : Received)
      → get? j d ≡ some f
      → Completes deserialize (j ∷ ks) d w
      → Completes deserialize ks d (after_one deserialize f j res w)
  Completes-tail j ks f fs d w res e c =
      let alone : count j ks ≡ 0 = ground (arith, c.once j, =?_refl j) in
      record {
        named = λ i x q. after_one-task_id deserialize f j res w x ∙ c.named i x q;
        once = λ k. ground (arith, c.once k);
        ready = λ k h.
            ground (arith, c.ready k, h, alone, get?-remove k j w.received_results, =?_iff j k);
        waits = λ k g h q.
            (let other : g ≢ f = λ same.
                (let tasks : some k ≡ some j =
                    sym (c.named k g q) ∙ ap (λ i. (w.futures i).task_id) same ∙ c.named j f e in
                  ground (arith, alone, h, tasks)) in
              rw (complete_one-other deserialize f g res w.futures other)
                (c.waits k g (ground (arith, h)) q));
      }

  pub complete_lem :
      (ks : List String) (fs : List ℕ) (d : Dict ℕ) (w : Watcher V)
      → Belong d ks fs
      → Completes deserialize ks d w
      → ((complete deserialize fs w).0 ≡ return tt)
        × Completed deserialize ks d w (complete deserialize fs w).1
  complete_lem [] [] d w b c =
      unfold complete in
      (refl, record { done = λ k f res h q r. absurd (omega (arith, h)); taken = λ k. refl })
  complete_lem (j ∷ ks) [] d w b c = absurd b
  complete_lem [] (f ∷ fs) d w b c = absurd b
  complete_lem (j ∷ ks) (f ∷ fs) d w b c = elim (Option-cases (get? j w.received_results)) [
    | inl e ↦ absurd (ground (arith, e, c.ready j, =?_refl j))
    | inr (res, e) ↦
        let carries = c.named j f b.0 in
        let first = after_one deserialize f j res w in
        let tail = Completes-tail j ks f fs d w res b.0 c in
        let (returns, rest) = complete_lem ks fs d first b.1 tail in
        let free = c.waits j f (ground (arith, =?_refl j)) b.0 in
        let step : complete deserialize (f ∷ fs) w ≡ complete deserialize fs first =
          complete_step deserialize f fs j res w carries e
          ∙ rw (complete_one_returns deserialize f res w.futures free) refl in
        (
          ap (λ r. r.0) step ∙ returns,
          subst (λ r. Completed deserialize (j ∷ ks) d w r.1) (sym step)
              (record {
                done = λ k g r h q s. (elim (Bool-cases (j =? k)) [
                  | inl same ↦
                      let key = (=?_iff j k).0 same in
                      let alone : count j ks ≡ 0 = ground (arith, c.once j, =?_refl j) in
                      let left =
                        complete-other deserialize ks fs d first f j b.1 tail.named
                          (after_one-task_id deserialize f j res w f ∙ carries) alone in
                      let told =
                        ap (λ x. x.outcome) left
                        ∙ complete_one_pending deserialize f res w.futures free in
                      let number : f ≡ g = ground (arith, b.0, q, ap (λ i. get? i d) key) in
                      let result : res ≡ r =
                        ground (arith, e, s, ap (λ i. get? i w.received_results) key) in
                      subst
                        (λ i.
                          ((complete deserialize fs first).1.futures i).outcome
                          ≡ expected deserialize r)
                        number
                        (subst
                          (λ i.
                            ((complete deserialize fs first).1.futures f).outcome
                            ≡ expected deserialize i)
                          result told)
                  | inr differ ↦
                      rest.done k g r (ground (arith, h, differ)) q
                        (get?-remove k j w.received_results ∙ rw differ s)
                ]);
                taken = λ k.
                    ground (arith, rest.taken k, get?-remove k j w.received_results, =?_iff j k);
              }),
        )
  ]

  -- Reading a set is to give each of its elements once.
  abbrev pub IsReading : (List String → List String) → Type 0
  IsReading shuffle = (xs : List String) (k : String) → count k (shuffle xs) ≡ count k xs

  module _ (shuffle : List String → List String) (reads : IsReading shuffle) where
    pub count-shuffle :
        (w : Watcher V) (k : String)
        → Distinct w.open_futures
        → count k (shuffle (common (keys w.open_futures) w.received_results))
          ≡ (if has k w.open_futures && has k w.received_results then 1 else 0)
    count-shuffle w k u = ground (
      arith,
      reads (common (keys w.open_futures) w.received_results) k,
      count-common (keys w.open_futures) w.received_results k,
      count-keys w.open_futures k u,
    )
