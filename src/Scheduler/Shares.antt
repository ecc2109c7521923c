-- ===== src/Scheduler/Shares.antt =====
-- What `naive_scheduler` hands out.
use mathlib.Core.Path.{subst}
use func_x.Prelude.{
  ltb→lt, lt→ltb, ap, sym, ◌∙◌, All, ℕ, zero, suc, ◌+◌, ◌-◌, ◌≤◌, ◌<◌, ◌≡◌, refl, min, max, String,
  true, false, some, List, [], ◌∷◌, ltb, arith, Bool-cases, inl, inr,
}
use func_x.Prelude.Dict.{Dict, has, Distinct, =?_refl, =?_iff, get?, put, get_or, ◌=?◌}
use func_x.Scheduler.{total, top_up, proportions, naive_scheduler}

total-put : (k : String) (n : ℕ) (d : Dict ℕ) → total (put k n d) + get_or k 0 d ≡ total d + n
unfolding put get?
total-put k n [] = omega arith
total-put k n ((j, m) ∷ d) = ground (arith, total-put k n d)

-- The same types in the same order, none of them with more workers than tasks.
Below : Dict ℕ → Dict ℕ → Type 0
Below [] [] = Unit
Below [] (_ ∷ d) = ⊥
Below (_ ∷ q) [] = ⊥
Below ((j, a) ∷ q) ((k, b) ∷ d) = (j ≡ k) × (b ≤ a) × Below q d

get_or-Below : (k : String) (q d : Dict ℕ) → Below q d → get_or k 0 d ≤ get_or k 0 q
unfolding Below get?
get_or-Below k [] [] h = omega arith
get_or-Below k [] (_ ∷ d) h = absurd h
get_or-Below k (_ ∷ q) [] h = absurd h
get_or-Below k ((j, a) ∷ q) ((j', b) ∷ d) (same, le, rest) =
    rw same (ground (arith, le, get_or-Below k q d rest))

put-Below :
    (k : String) (n : ℕ) (q d : Dict ℕ) → 0 < n → n ≤ get_or k 0 q → Below q d → Below q (put k n d)
unfolding Below get? put
put-Below k n [] [] p le h = absurd (omega (arith, p, le))
put-Below k n [] (_ ∷ d) p le h = absurd h
put-Below k n (_ ∷ q) [] p le h = absurd h
put-Below k n ((j, a) ∷ q) ((j', b) ∷ d) p le (same, fits, rest) = elim (Bool-cases (j' =? k)) [
  | inl e ↦
      let e' : (j =? k) ≡ true = ap (λ x. x =? k) same ∙ e in
      rw (e, put) (same, ground (arith, le, e'), rest)
  | inr e ↦
      let e' : (j =? k) ≡ false = ap (λ x. x =? k) same ∙ e in
      rw (e, put) (same, fits, put-Below k n q d p (ground (arith, le, e')) rest)
]

-- Where there are more tasks than workers, some type has more of them.
room :
    (q d : Dict ℕ)
    → Distinct q
    → Below q d
    → total d < total q
    → (k : String) × (has k q ≡ true) × (get_or k 0 d < get_or k 0 q)
unfolding Below get?
room [] [] u h lt = absurd (omega (arith, lt))
room [] (_ ∷ d) u h lt = absurd h
room (_ ∷ q) [] u h lt = absurd h
room ((j, a) ∷ q) ((j', b) ∷ d) u (same, fits, rest) lt = elim (Bool-cases (ltb b a)) [
  | inl more ↦
      let e : (j' =? j) ≡ true = ap (λ x. x =? j) (sym same) ∙ =?_refl j in
      (j, rw (=?_refl j) refl, rw (e, =?_refl j) (ltb→lt b a more))
  | inr enough ↦
      let (k, there, lt') = room q d u.1 rest (ground (arith, lt, fits)) in
      elim (Bool-cases (j =? k)) [
        | inl e ↦
            let again : has j q ≡ true =
              subst (λ x. has x q ≡ true) (sym ((=?_iff j k).0 e)) there in
            absurd (ground (arith, u.0, again))
        | inr e ↦
            let e' : (j' =? k) ≡ false = ap (λ x. x =? k) (sym same) ∙ e in
            (k, rw e there, rw (e, e') lt')
      ]
]

proportions-Below :
    (share : ℕ → ℕ → ℕ → ℕ) (s m : ℕ) (q : Dict ℕ) → Below q (proportions share s m q)
unfolding proportions Below
proportions-Below share s m [] = tt
proportions-Below share s m ((k, a) ∷ q) = (refl, omega arith, proportions-Below share s m q)

total-Below : (q d : Dict ℕ) → Below q d → total d ≤ total q
unfolding Below
total-Below [] [] h = omega arith
total-Below [] (_ ∷ d) h = absurd h
total-Below (_ ∷ q) [] h = absurd h
total-Below ((j, a) ∷ q) ((k, b) ∷ d) (same, fits, rest) = omega (arith, fits, total-Below q d rest)

module _ (q : Dict ℕ) where
  -- The result of the loop, whatever is drawn.
  top_up_lem :
      (draws : List String) (difference : ℕ) (d result : Dict ℕ)
      → Below q d
      → top_up q draws difference d ≡ some result
      → Below q result × (total result ≡ total d + difference)
  unfolding top_up
  top_up_lem draws zero d result h e =
      let same : d ≡ result = ground arith in
      let unchanged : total d ≡ total d + 0 = omega arith in
      (subst (Below q) same h, ap total (sym same) ∙ unchanged)
  top_up_lem [] (suc n) d result h e = absurd (cc)
  top_up_lem (k ∷ draws) (suc n) d result h e =
      elim (Bool-cases (ltb (get_or k 0 d) (get_or k 0 q))) [
        | inl more ↦
            let next : top_up q draws n (put k (suc (get_or k 0 d)) d) ≡ some result =
              sym (rw (more, top_up) refl) ∙ e in
            let (below, sum) =
              top_up_lem draws n (put k (suc (get_or k 0 d)) d) result
                (put-Below k (suc (get_or k 0 d)) q d (omega arith)
                  (ltb→lt (get_or k 0 d) (get_or k 0 q) more) h)
                next in
            (below, omega (arith, sum, total-put k (suc (get_or k 0 d)) d))
        | inr enough ↦
            let next : top_up q draws (suc n) d ≡ some result =
              sym (rw (enough, top_up) refl) ∙ e in
            top_up_lem draws (suc n) d result h next
      ]

  -- While workers are left to hand out, some draw hands one out.
  top_up_ends :
      (difference : ℕ) (d : Dict ℕ)
      → Distinct q
      → Below q d
      → total d + difference ≤ total q
      → (draws : List String) × (result : Dict ℕ) × All (λ k. has k q ≡ true) draws
        × (top_up q draws difference d ≡ some result)
  unfolding top_up
  top_up_ends zero d u h fits = ([], d, tt, refl)
  top_up_ends (suc n) d u h fits =
      let (k, there, more) = room q d u h (omega (arith, fits)) in
      let d' = put k (suc (get_or k 0 d)) d in
      let (draws, result, all, e) =
        top_up_ends n d' u (put-Below k (suc (get_or k 0 d)) q d (omega arith) more h)
          (omega (arith, fits, total-put k (suc (get_or k 0 d)) d)) in
      (k ∷ draws, result, (there, all), rw (lt→ltb (get_or k 0 d) (get_or k 0 q) more, top_up) e)

-- With the workers started in proportion to the queues, the rest is handed out so that there are as
-- many workers as allowed, or as there are tasks if these are fewer; a proportion that is above that
-- already stays. No type gets more workers than it has tasks, whatever is drawn.
pub naive_scheduler_lem :
    (share : ℕ → ℕ → ℕ → ℕ) (tasks : Dict ℕ) (max_workers : ℕ) (draws : List String)
    {result : Dict ℕ}
    → naive_scheduler share tasks max_workers draws ≡ some result
    → (total result
        ≡ max
            (total (proportions share (total tasks) max_workers tasks))
            (min max_workers (total tasks)))
      × ((k : String) → get_or k 0 result ≤ get_or k 0 tasks)
unfolding naive_scheduler get?
naive_scheduler_lem share tasks max_workers draws {result} e =
    let started = proportions share (total tasks) max_workers tasks in
    let h = proportions-Below share (total tasks) max_workers tasks in
    let le = total-Below tasks started h in
    elim (Bool-cases (ltb 0 (total tasks))) [
      | inl some_tasks ↦
          let next : top_up tasks draws
                (min (max_workers - total started) (total tasks - total started)) started
              ≡ some result =
            sym (rw (some_tasks, naive_scheduler) refl) ∙ e in
          let (below, sum) = top_up_lem tasks draws _ started result h next in
          (omega (arith, le, sum), λ k. get_or-Below k tasks result below)
      | inr no_tasks ↦
          let next : [] ≡ result = ground arith in
          let nothing : total tasks ≡ 0 = ground arith in
          (rw (sym next) (omega (arith, le, nothing)), λ k. rw (sym next) (omega arith))
    ]

-- With every queue named once, the loop can always end: draws of the queues' own types lead to a
-- result.
pub naive_scheduler_ends :
    (share : ℕ → ℕ → ℕ → ℕ) (tasks : Dict ℕ) (max_workers : ℕ)
    → Distinct tasks
    → (draws : List String) × (result : Dict ℕ) × All (λ k. has k tasks ≡ true) draws
      × (naive_scheduler share tasks max_workers draws ≡ some result)
unfolding naive_scheduler
naive_scheduler_ends share tasks max_workers u =
    let started = proportions share (total tasks) max_workers tasks in
    let h = proportions-Below share (total tasks) max_workers tasks in
    let le = total-Below tasks started h in
    elim (Bool-cases (ltb 0 (total tasks))) [
      | inl some_tasks ↦
          let (draws, result, all, e) =
            top_up_ends tasks (min (max_workers - total started) (total tasks - total started))
              started u h (omega (arith, le)) in
          (draws, result, all, rw (some_tasks, naive_scheduler) e)
      | inr no_tasks ↦ ([], [], tt, rw (no_tasks, naive_scheduler) refl)
    ]
