-- ===== src/Scaling/Stuck.antt =====
-- strategies/kube_simple.py: what a type that was never active does to the types that are named
-- behind it.
use func_x.Prelude.{
  ℕ, ◌*◌, ◌==◌, ◌≡◌, ◌≢◌, refl, ◌∙◌, ap, String, true, ◌&&◌, none, List, [], ◌∷◌, ◌++◌, map,
  if◌then◌else◌, ltb, if_both, inl, inr, Option, Option-cases,
}
use func_x.Prelude.Int.{ℤ, pos, ◌-ℤ◌}
use func_x.Prelude.Dict.{Dict, get?, put, get_or, get?-put_ne}
use func_x.Prelude.Python.{key_error, Result, return, raise, Result-cases}
use func_x.Scaling.{Floats, ceil_div, min_ℤ, Order, scale_out, tasks_per_node}
use func_x.Scaling.Kube.{
  KubeReport, Kube, idle_type, ordered, busy_type, one_type, kube_loop, kube_strategize,
}

-- None of the types is this one.
abbrev pub IsAbsent : String → Dict ℕ → Type 0
IsAbsent t [] = Unit
IsAbsent t ((k, tasks) ∷ d) = (k ≢ t) × IsAbsent t d

module _ (floats : Floats) (max_idletime : ℕ) (clock : String → ℕ × ℕ) (r : KubeReport) where
  stuck_type :
      (task_type : String) (k : Kube)
      → get? task_type k.idle_since ≡ none
      → ltb r.min_pods (get_or task_type 0 r.pods) ≡ true
      → one_type floats max_idletime clock r task_type 0 k ≡ (raise key_error, k)
  unfolding one_type idle_type
  stuck_type task_type k none_there above = rw (above, none_there, one_type, idle_type) refl

  -- A timer that is not there, for a type, before and after.
  abbrev HasNoTimer : String → Result (Unit {0}) × Kube → Type 0
  HasNoTimer t out = get? t out.1.idle_since ≡ none

  asked-HasNoTimer :
      (t task_type : String) (active_pods : ℕ) (k : Kube) (c : Result ℤ)
      → get? t k.idle_since ≡ none
      → HasNoTimer t (elim c as (λ _. Result (Unit {0}) × Kube) [
        | raise e ↦ (raise e, k)
        | return n ↦ (
          return tt,
          ordered floats max_idletime clock r task_type
              (scale_out (min_ℤ n (pos r.max_pods -ℤ pos active_pods)))
              k,
        )
      ])
  unfolding ordered
  asked-HasNoTimer t task_type active_pods k (return n) h = h
  asked-HasNoTimer t task_type active_pods k (raise e) h = h

  busy_type-HasNoTimer :
      (t task_type : String) (tasks active_pods : ℕ) (k : Kube)
      → get? t k.idle_since ≡ none
      → HasNoTimer t (busy_type floats max_idletime clock r task_type tasks active_pods k)
  unfolding busy_type ordered
  busy_type-HasNoTimer t task_type tasks active_pods k h =
      let workers = tasks_per_node r.max_workers_per_node in
      let slots = active_pods * workers * 1 in
      if_both (HasNoTimer t) ((ltb 0 tasks) && floats.below slots tasks) _ _
        (if_both (HasNoTimer t) (ltb active_pods r.max_pods) _ (return tt, k)
          (asked-HasNoTimer t task_type active_pods k
            (ceil_div (floats.excess tasks slots) (workers * 1)) h)
          h)
        (if_both (HasNoTimer t) ((slots == 0) && ltb 0 tasks)
          (return tt, ordered floats max_idletime clock r task_type (scale_out (pos 1)) k)
          (return tt, k) h h)

  idle_type-HasNoTimer :
      (t task_type : String) (active_pods : ℕ) (k : Kube)
      → task_type ≢ t
      → get? t k.idle_since ≡ none
      → HasNoTimer t (idle_type floats max_idletime clock r task_type active_pods k)
  unfolding idle_type
  idle_type-HasNoTimer t task_type active_pods k ne h =
      elim (Option-cases (get? task_type k.idle_since)) [
        | inl e ↦ rw (e, idle_type) h
        | inr (idle, e) ↦ rw (e, idle_type) (get?-put_ne t task_type _ k.idle_since ne ∙ h)
      ]

  one_type-HasNoTimer :
      (t task_type : String) (tasks : ℕ) (k : Kube)
      → task_type ≢ t
      → get? t k.idle_since ≡ none
      → HasNoTimer t (one_type floats max_idletime clock r task_type tasks k)
  unfolding one_type
  one_type-HasNoTimer t task_type tasks k ne h =
      let active_pods = get_or task_type 0 r.pods in
      let k' : Kube =
        (if ltb 0 tasks then record k { idle_since = put task_type none k.idle_since } else k) in
      let h' : get? t k'.idle_since ≡ none =
        if_both (λ (x : Kube). get? t x.idle_since ≡ none) (ltb 0 tasks) _ k
          (get?-put_ne t task_type none k.idle_since ne ∙ h) h in
      if_both (HasNoTimer t) ((tasks == 0) && ltb r.min_pods active_pods)
        (idle_type floats max_idletime clock r task_type active_pods k')
        (busy_type floats max_idletime clock r task_type tasks active_pods k')
        (idle_type-HasNoTimer t task_type active_pods k' ne h')
        (busy_type-HasNoTimer t task_type tasks active_pods k' h')

  next : Dict ℕ → Result (Unit {0}) × Kube → Result (Unit {0}) × Kube
  next rest out = elim out.0 [
    | raise e ↦ (raise e, out.1)
    | return _ ↦ kube_loop floats max_idletime clock r rest out.1
  ]

  kube_loop_stuck :
      (t : String) (before after : Dict ℕ) (k : Kube)
      → IsAbsent t before
      → ltb r.min_pods (get_or t 0 r.pods) ≡ true
      → get? t k.idle_since ≡ none
      → ((kube_loop floats max_idletime clock r (before ++ (t, 0) ∷ after) k).1
          ≡ (kube_loop floats max_idletime clock r before k).1)
        × HasNoTimer t (kube_loop floats max_idletime clock r before k)
  unfolding kube_loop next
  kube_loop_stuck t [] after k absent above h =
      (ap (λ o. (next after o).1) (stuck_type t k h above), h)
  kube_loop_stuck t ((j, tasks) ∷ before) after k absent above h =
      let h' = one_type-HasNoTimer t j tasks k absent.0 h in
      elim (Result-cases (one_type floats max_idletime clock r j tasks k).0) [
        | inl (u, e) ↦
            rw (e, kube_loop)
              (kube_loop_stuck t before after (one_type floats max_idletime clock r j tasks k).1
                absent.1 above h')
        | inr (x, e) ↦ rw (e, kube_loop) (refl, h')
      ]

-- What a round finds: the pods, the clock, and the outstanding tasks by type.
pub record Round : Type 0 where
  pub report : KubeReport
  pub clock : String → ℕ × ℕ
  pub active_tasks : Dict ℕ

-- The orders of round after round, and the timers that they leave.
abbrev pub kube_rounds :
    Floats → ℕ → List Round → Dict (Option ℕ) → List (List (String × Order)) × Dict (Option ℕ)
kube_rounds floats max_idletime [] idle_since = ([], idle_since)
kube_rounds floats max_idletime (x ∷ xs) idle_since =
    let k = kube_strategize floats max_idletime x.clock x.report x.active_tasks idle_since in
    let rest = kube_rounds floats max_idletime xs k.idle_since in (k.orders ∷ rest.0, rest.1)

module _ (floats : Floats) (max_idletime : ℕ) (t : String) where
  -- A type is in a round, behind some others, without tasks and with more pods than the minimum.
  pub record IsIdleIn (before : Dict ℕ) (x : Round) : Type 0 where
    pub after : Dict ℕ
    pub listed : x.active_tasks ≡ before ++ (t, 0) ∷ after
    pub absent : IsAbsent t before
    pub above : ltb x.report.min_pods (get_or t 0 x.report.pods) ≡ true

  -- For each round, what stands before the type.
  abbrev pub AreIdleIn : List (Dict ℕ × Round) → Type 0
  AreIdleIn [] = Unit
  AreIdleIn ((before, x) ∷ xs) = IsIdleIn before x × AreIdleIn xs

  abbrev pub rounds : List (Dict ℕ × Round) → List Round
  rounds = map (λ p. p.1)

  abbrev pub cut_rounds : List (Dict ℕ × Round) → List Round
  cut_rounds = map (λ p. record p.1 { active_tasks = p.0 })

  -- A type that has no timer, and in each of the rounds no tasks and more pods than the minimum, is
  -- named in each behind some other types, and in front of more: every round gives the orders, and
  -- leaves the timers, that it would if neither the type nor any of those behind it were there,
  -- whatever tasks these have.
  pub kube_stuck :
      (xs : List (Dict ℕ × Round)) (idle_since : Dict (Option ℕ))
      → get? t idle_since ≡ none
      → AreIdleIn xs
      → kube_rounds floats max_idletime (rounds xs) idle_since
        ≡ kube_rounds floats max_idletime (cut_rounds xs) idle_since
  unfolding kube_strategize
  kube_stuck [] idle_since h idle = refl
  kube_stuck ((before, x) ∷ xs) idle_since h idle =
      let k : Kube = record { orders = []; idle_since = idle_since } in
      let (same, kept) =
        kube_loop_stuck floats max_idletime x.clock x.report t before idle.0.after k idle.0.absent
          idle.0.above h in
      let cut = (kube_loop floats max_idletime x.clock x.report before k).1 in
      let whole : (kube_loop floats max_idletime x.clock x.report x.active_tasks k).1 ≡ cut =
        ap (λ d. (kube_loop floats max_idletime x.clock x.report d k).1) idle.0.listed ∙ same in
      let rest = kube_stuck xs cut.idle_since kept idle.1 in
      ap
        (λ (c : Kube). (
          c.orders ∷ (kube_rounds floats max_idletime (rounds xs) c.idle_since).0,
          (kube_rounds floats max_idletime (rounds xs) c.idle_since).1,
        ))
        whole
      ∙ ap (λ p. (cut.orders ∷ p.0, p.1)) rest
