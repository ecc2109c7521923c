-- ===== src/Watcher/Popping.antt =====
-- Taking the futures of common tasks out of a dict.
use func_x.Prelude.{
  ℕ, ◌≤◌, ◌≡◌, refl, ◌∙◌, sym, ap, String, true, none, some, List, [], ◌∷◌, All, Bool-cases,
  Option-cases, inl, inr, ltb, if◌then◌else◌, arith,
}
use func_x.Prelude.Dict.{
  Dict, Distinct, count, get?, has, remove, keys, ◌=?◌, =?_iff, =?_refl, get?-remove,
}
use func_x.Watcher.{Future, Received, common, pop_futures}

-- The futures that belong to these tasks.
abbrev pub Belong : Dict ℕ → List String → List ℕ → Type 0
Belong d [] [] = Unit
Belong d [] (f ∷ fs) = ⊥
Belong d (k ∷ ks) [] = ⊥
Belong d (k ∷ ks) (f ∷ fs) = (get? k d ≡ some f) × Belong d ks fs

-- Every future that is watched carries its task.
abbrev pub AllNamed : {V : Type 0} → Dict ℕ → (ℕ → Future V) → Type 0
AllNamed d futures = (k : String) (f : ℕ) → get? k d ≡ some f → (futures f).task_id ≡ some k

pub All-AllNamed :
    {V : Type 0} (futures : ℕ → Future V) (d : Dict ℕ)
    → All (λ e. (futures e.1).task_id ≡ some e.0) d
    → AllNamed d futures
unfolding get?
All-AllNamed futures [] h k f e = absurd (cc e)
All-AllNamed futures ((j, g) ∷ d) h k f e = elim (Bool-cases (j =? k)) [
  | inl q ↦
      let number : g ≡ f = ground (arith, e, q) in
      ap (λ i. (futures i).task_id) (sym number) ∙ h.0 ∙ ap some ((=?_iff j k).0 q)
  | inr q ↦ All-AllNamed futures d h.1 k f (ground (arith, e, q))
]

pub Belong-remove :
    (k : String) (d : Dict ℕ) (ks : List String) (fs : List ℕ)
    → count k ks ≡ 0
    → Belong (remove k d) ks fs
    → Belong d ks fs
Belong-remove k d [] [] u b = tt
Belong-remove k d [] (f ∷ fs) u b = b
Belong-remove k d (j ∷ ks) [] u b = b
Belong-remove k d (j ∷ ks) (f ∷ fs) u b = (
  ground (arith, u, b.0, get?-remove j k d, =?_iff k j, =?_iff j k),
  Belong-remove k d ks fs (ground (arith, u)) b.1,
)

pub pop_futures-Belong :
    (ks : List String) (d : Dict ℕ)
    → ((k : String) → count k ks ≤ 1)
    → ((k : String) → 1 ≤ count k ks → has k d ≡ true)
    → Belong d ks (pop_futures ks d).0
unfolding pop_futures
pop_futures-Belong [] d once there = tt
pop_futures-Belong (k ∷ ks) d once there =
    let alone : count k ks ≡ 0 = ground (arith, once k, =?_refl k) in
    let here : has k d ≡ true = there k (ground (arith, =?_refl k)) in
    let rest =
      pop_futures-Belong ks (remove k d) (λ j. ground (arith, once j))
        (λ j h. ground (arith, h, there j, get?-remove j k d, =?_iff k j, alone)) in
    elim (Option-cases (get? k d)) [
      | inl e ↦ absurd (ground (arith, e, here))
      | inr (f, e) ↦ rw (e, pop_futures) (e, Belong-remove k d ks _ alone rest)
    ]

pub get?-pop_futures :
    (ks : List String) (d : Dict ℕ) (j : String)
    → get? j (pop_futures ks d).1 ≡ (if ltb 0 (count j ks) then none else get? j d)
unfolding pop_futures
get?-pop_futures [] d j = refl
get?-pop_futures (k ∷ ks) d j = elim (Option-cases (get? k d)) [
  | inl e ↦
      rw (e, pop_futures)
        (ground (arith, get?-pop_futures ks (remove k d) j, get?-remove j k d, =?_iff k j))
  | inr (f, e) ↦
      rw (e, pop_futures)
        (ground (arith, get?-pop_futures ks (remove k d) j, get?-remove j k d, =?_iff k j))
]

pub count-common :
    (ks : List String) (received : Dict Received) (k : String)
    → count k (common ks received) ≡ (if has k received then count k ks else 0)
unfolding common
count-common [] received k = ground arith
count-common (j ∷ ks) received k = ground (arith, count-common ks received k, =?_iff j k)

pub count-keys :
    {A : Type 0} (d : Dict A) (k : String)
    → Distinct d
    → count k (keys d) ≡ (if has k d then 1 else 0)
unfolding get?
count-keys [] k u = refl
count-keys ((j, v) ∷ d) k u = ground (arith, count-keys d k u.1, u.0, =?_iff j k)
