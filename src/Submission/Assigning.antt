-- ===== src/Submission/Assigning.antt =====
-- What the service's answer does to the futures of a batch.
use mathlib.Core.Path.{subst}
use func_x.Prelude.{
  ℕ, suc, ◌==◌, ==_iff, ◌≡◌, ◌≢◌, refl, ◌∙◌, sym, ap, String, Bool, true, false, Option, none, some,
  List, [], ◌∷◌, ◌++◌, map, All, All-split, length, Bool-cases, Option-cases, inl, inr,
}
use func_x.Prelude.Dict.{Dict, All-map, get?}
use func_x.Prelude.Python.{return}
use func_x.Watcher.{ignored, partial, failed, Future}
use func_x.Submission.Telling.{
  all_futures, apart_back, AreFree, AreFree-same, map-same, fail_each_lem, name_each-other,
  name_each_lem,
}
use func_x.Submission.{fail_each, name_each, assign_ids}

module _ {V : Type 0} where
  -- With as many ids as futures, each future has its id; else each has failed.
  abbrev pub AreNamed : String → List (Future V) → List String → Bool → Type 0
  AreNamed k xs ids true = map (λ x. x.task_id) xs ≡ map some ids
  AreNamed k xs ids false = All (λ x. x.outcome ≡ failed (partial k)) xs

  abbrev pub AreAnswered : String → List (Future V) → Option (List String) → Type 0
  AreAnswered k xs none = All (λ x. x.outcome ≡ failed (ignored k)) xs
  AreAnswered k xs (some ids) = AreNamed k xs ids (length xs == length ids)

  -- What the futures of one function are told: a failure if the answer does not name the function, or
  -- has another number of tasks; else the ids of their tasks.
  abbrev pub AreTold : Dict (List String) → String → List (Future V) → Type 0
  AreTold received k xs = AreAnswered k xs (get? k received)

  AreFree-split :
      (h : ℕ → Future V) (fs gs : List ℕ)
      → AreFree h (fs ++ gs)
      → AreFree h fs × AreFree h gs × All (λ f. All (λ g. g ≢ f) gs) fs
  AreFree-split h [] gs free = (tt, free, tt)
  AreFree-split h (f ∷ fs) gs free =
      let (front, back, apart) = AreFree-split h fs gs free.2 in
      let (ours, theirs) = All-split _ fs gs free.1 in
      ((free.0, ours, front), back, (theirs, apart))

  length-map : (h : ℕ → Future V) (fs : List ℕ) → length (map h fs) ≡ length fs
  length-map h [] = refl
  length-map h (f ∷ fs) = ap suc (length-map h fs)

  told_ignored :
      (received : Dict (List String)) (k : String) (xs : List (Future V))
      → get? k received ≡ none
      → All (λ x. x.outcome ≡ failed (ignored k)) xs
      → AreTold received k xs
  told_ignored received k xs e told = subst (AreAnswered k xs) (sym e) told

  told_ids :
      (received : Dict (List String)) (k : String) (ids : List String) (xs : List (Future V))
      → get? k received ≡ some ids
      → (length xs == length ids) ≡ true
      → map (λ x. x.task_id) xs ≡ map some ids
      → AreTold received k xs
  told_ids received k ids xs e q told =
      subst (AreAnswered k xs) (sym e) (subst (AreNamed k xs ids) (sym q) told)

  told_partial :
      (received : Dict (List String)) (k : String) (ids : List String) (xs : List (Future V))
      → get? k received ≡ some ids
      → (length xs == length ids) ≡ false
      → All (λ x. x.outcome ≡ failed (partial k)) xs
      → AreTold received k xs
  told_partial received k ids xs e q told =
      subst (AreAnswered k xs) (sym e) (subst (AreNamed k xs ids) (sym q) told)

  -- The state between one function and the next.
  record Between (received : Dict (List String)) (k : String) (fs : List ℕ) (d : Dict (List ℕ))
      (h : ℕ → Future V) : Type 0 where
    next : ℕ → Future V
    goes : assign_ids received ((k, fs) ∷ d) h ≡ assign_ids received d next
    told : AreTold received k (map next fs)
    other : (g : ℕ) → All (λ f. g ≢ f) fs → next g ≡ h g

  assign_ids-Between :
      (received : Dict (List String)) (k : String) (fs : List ℕ) (d : Dict (List ℕ))
      (h : ℕ → Future V)
      → AreFree h fs
      → Between received k fs d h
  unfolding assign_ids
  assign_ids-Between received k fs d h free = elim (Option-cases (get? k received)) [
    | inl e ↦
        let (returns, told, other) = fail_each_lem (ignored k) fs h free in
        record {
          next = (fail_each (ignored k) fs h).1;
          goes = rw (e, assign_ids) (rw returns refl);
          told = told_ignored received k _ e told;
          other = other;
        }
    | inr (ids, e) ↦ elim (Bool-cases (length fs == length ids)) [
      | inl q ↦ record {
        next = name_each fs ids h;
        goes = rw (e, assign_ids) (rw q refl);
        told =
            told_ids received k ids _ e
              (ap (λ n. n == length ids) (length-map (name_each fs ids h) fs) ∙ q)
              (name_each_lem fs ids h free ((==_iff (length fs) (length ids)).0 q));
        other = λ g ne. name_each-other fs ids h g ne;
      }
      | inr q ↦
          let (returns, told, other) = fail_each_lem (partial k) fs h free in
          record {
            next = (fail_each (partial k) fs h).1;
            goes = rw (e, assign_ids) (rw q (rw returns refl));
            told =
                told_partial received k ids _ e
                  (ap (λ n. n == length ids) (length-map (fail_each (partial k) fs h).1 fs) ∙ q)
                  told;
            other = other;
          }
    ]
  ]

  -- Futures that are different and not done: each is told once what the answer says of its function,
  -- and no other future is touched.
  pub assign_ids_lem :
      (received : Dict (List String)) (d : Dict (List ℕ)) (h : ℕ → Future V)
      → AreFree h (all_futures d)
      → let (result, after) = assign_ids received d h in
        (result ≡ return tt)
        × All (λ e. AreTold received e.0 (map after e.1)) d
        × ((g : ℕ) → All (λ f. g ≢ f) (all_futures d) → after g ≡ h g)
  unfolding assign_ids
  assign_ids_lem received [] h free = (refl, tt, λ g other. refl)
  assign_ids_lem received ((k, fs) ∷ d) h free =
      let (ours, theirs, apart) = AreFree-split h fs (all_futures d) free in
      let b = assign_ids-Between received k fs d h ours in
      let kept : All (λ g. b.next g ≡ h g) (all_futures d) =
        All-map _ _ (all_futures d) (λ g ne. b.other g ne) (apart_back fs (all_futures d) apart) in
      let (returns, told, other) =
        assign_ids_lem received d b.next (AreFree-same h b.next (all_futures d) kept theirs) in
      let left =
        All-map _ _ fs (λ f ne. other f (All-map _ _ (all_futures d) (λ g n q. n (sym q)) ne))
          apart in
      subst
        (λ r.
          (r.0 ≡ return tt)
          × All (λ e. AreTold received e.0 (map r.1 e.1)) ((k, fs) ∷ d)
          × ((g : ℕ) → All (λ f. g ≢ f) (all_futures ((k, fs) ∷ d)) → r.1 g ≡ h g))
        (sym b.goes)
        (
          returns,
          (
            subst (AreTold received k)
                (sym (map-same b.next (assign_ids received d b.next).1 fs left)) b.told,
            told,
          ),
          λ g ne.
              let (mine, rest) = All-split _ fs (all_futures d) ne in other g rest ∙ b.other g mine,
        )
