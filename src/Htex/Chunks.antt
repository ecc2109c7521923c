-- ===== src/Htex/Chunks.antt =====
-- What the status reports say, taken together.
use func_x.Prelude.{
  ℕ, zero, suc, ◌≤◌, ◌≡◌, refl, ◌∙◌, sym, ap, List, [], ◌∷◌, ◌++◌, All, length, take, drop,
  is_empty, if◌then◌else◌, arith, take-append-drop, length-take, length-drop,
}
use func_x.Prelude.Dict.{Dict, All-map}
use func_x.Htex.{Htex, TaskTransition, GlobalState, get_global_state_for_status_report}
use func_x.Htex.Status.{EpStatusReport, chunk_loop, chunk_by, reports, status_report}

abbrev pub joined {ℓ} : {A : Type ℓ} → List (List A) → List A
joined [] = []
joined (xs ∷ xss) = xs ++ joined xss

is_empty-length {ℓ} : {A : Type ℓ} (xs : List A) → length xs ≤ 0 → xs ≡ []
is_empty-length [] h = refl
is_empty-length (x ∷ xs) h = absurd (omega (arith, h))

joined-chunk_loop {ℓ} :
    {A : Type ℓ} (n fuel : ℕ) (xs : List A)
    → length xs ≤ fuel
    → joined (chunk_loop (suc n) fuel xs) ≡ xs
unfolding chunk_loop
joined-chunk_loop n zero xs h = sym (is_empty-length xs h)
joined-chunk_loop n (suc fuel) [] h = refl
joined-chunk_loop n (suc fuel) (x ∷ xs) h =
    ap (λ r. (x ∷ take n xs) ++ r)
      (joined-chunk_loop n fuel (drop n xs) (omega (arith, length-drop n xs)))
    ∙ ap (◌∷◌ x) (take-append-drop n xs)

chunk_loop-All {ℓ} :
    {A : Type ℓ} (n fuel : ℕ) (xs : List A)
    → All (λ c. (length c ≤ suc n) × (1 ≤ length c)) (chunk_loop (suc n) fuel xs)
unfolding chunk_loop
chunk_loop-All n zero xs = tt
chunk_loop-All n (suc fuel) [] = tt
chunk_loop-All n (suc fuel) (x ∷ xs) =
    ((omega (arith, length-take n xs), omega arith), chunk_loop-All n fuel (drop n xs))

-- With a positive size, the chunks one after the other are the list; none is empty and none is longer
-- than the size.
pub chunk_by_lem {ℓ} :
    {A : Type ℓ} (xs : List A) (n : ℕ)
    → (joined (chunk_by xs (suc n)) ≡ xs)
      × All (λ c. (length c ≤ suc n) × (1 ≤ length c)) (chunk_by xs (suc n))
unfolding chunk_by
chunk_by_lem xs n =
    (joined-chunk_loop n (length xs) xs (omega arith), chunk_loop-All n (length xs) xs)

abbrev pub statuses : List EpStatusReport → List (Dict (List TaskTransition))
statuses [] = []
statuses (r ∷ rs) = r.task_statuses ∷ statuses rs

statuses-reports :
    (g : GlobalState) (cs : List (Dict (List TaskTransition))) → statuses (reports g cs) ≡ cs
statuses-reports g [] = refl
statuses-reports g (c ∷ cs) = ap (◌∷◌ c) (statuses-reports g cs)

abbrev round_chunks : Dict (List TaskTransition) → List (Dict (List TaskTransition))
round_chunks d = if is_empty d then [] ∷ [] else chunk_by d 4096

round_chunks_lem :
    (g : GlobalState) (d : Dict (List TaskTransition))
    → (joined (round_chunks d) ≡ d)
      × All (λ c. length c ≤ 4096) (round_chunks d)
      × (1 ≤ length (reports g (round_chunks d)))
unfolding chunk_by
round_chunks_lem g [] = (refl, (omega arith, tt), omega arith)
round_chunks_lem g (x ∷ xs) = (
  (chunk_by_lem (x ∷ xs) 4095).0,
  All-map _ _ (chunk_by (x ∷ xs) 4096) (λ c h. h.0) (chunk_by_lem (x ∷ xs) 4095).1,
  unfold chunk_loop in omega arith,
)

-- Every transition is reported once: the reports of a round, one after the other, are the
-- transitions since the last round, at most 4,096 tasks in each, and nothing is left for the next round.
-- There is a report even if there was no transition.
pub status_report_lem :
    (s : Htex)
    → let (rs, after) = status_report s in
      (joined (statuses rs) ≡ s.task_status_deltas)
      × All (λ d. length d ≤ 4096) (statuses rs)
      × (1 ≤ length rs)
      × (after.task_status_deltas ≡ [])
unfolding status_report
status_report_lem s =
    let g = get_global_state_for_status_report s in
    let (all, short, some_report) = round_chunks_lem g s.task_status_deltas in
    rw (statuses-reports g (round_chunks s.task_status_deltas)) (all, short, some_report, refl)
