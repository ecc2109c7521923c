-- ===== src/Master/Safe.antt =====
-- Which users get endpoints: what holds of the children, the cache and the log of what was forked.
use mathlib.Core.Path.{subst}
use func_x.Prelude.Table.{Table, get_at?, put_at, remove_at}
use func_x.Prelude.{
  ℕ, ◌+◌, ◌≤◌, ◌≡◌, refl, sym, ap, ◌∙◌, String, false, none, some, List, [], ◌∷◌, ◌++◌, All,
  All-append, arith, Bool-cases, Option-cases, inl, inr, ◌==◌, if_both,
}
use func_x.Prelude.Dict.{◌=?◌, =?_iff, count, count-append}
use func_x.Prelude.Python.{Result, return, Result-cases}
use func_x.Master.{
  Passwd, UserEndpointRecord, Kwargs, StartArgs, Forked, starts_endpoint, sends_notice, World,
  Master, Arguments, dict, falsy, truthy, find_running, fork_child, notice_record, start_endpoint,
  endpoint_record, send_failure_notice, is_forbidden, start_new, cmd_start_endpoint,
}

-- The endpoint names of the children that run for a user.
abbrev pub name_of : UserEndpointRecord → List String
name_of r = elim r.local_user_info [ none ↦ [] | some u ↦ r.ep_name ∷ [] ]

abbrev pub running_names : Table UserEndpointRecord → List String
running_names [] = []
running_names ((p, r) ∷ d) = name_of r ++ running_names d

module _ {ℓ κ} {V : Type ℓ} (Q : V → Type κ) where
  abbrev pub AllOf : Table V → Type κ
  AllOf [] = Unit
  AllOf ((p, v) ∷ d) = Q v × AllOf d

  pub put_at-AllOf : (p : ℕ) (v : V) (d : Table V) → Q v → AllOf d → AllOf (put_at p v d)
  unfolding put_at
  put_at-AllOf p v [] q h = (q, tt)
  put_at-AllOf p v ((k, x) ∷ d) q h =
      if_both AllOf (k == p) _ _ (q, h.1) (h.0, put_at-AllOf p v d q h.1)

  pub remove_at-AllOf : (p : ℕ) (d : Table V) → AllOf d → AllOf (remove_at p d)
  unfolding remove_at
  remove_at-AllOf p [] h = tt
  remove_at-AllOf p ((k, x) ∷ d) h =
      let rest = remove_at-AllOf p d h.1 in if_both AllOf (k == p) _ _ rest (h.0, rest)

  pub get_at?-AllOf : (p : ℕ) (v : V) (d : Table V) → get_at? p d ≡ some v → AllOf d → Q v
  unfolding get_at?
  get_at?-AllOf p v [] e h = absurd (cc)
  get_at?-AllOf p v ((k, x) ∷ d) e h = elim (Bool-cases (k == p)) [
    | inl t ↦
        let same : some x ≡ some v = rw t at e in let equal : x ≡ v = cc (same) in subst Q equal h.0
    | inr t ↦ get_at?-AllOf p v d (rw t at e) h.1
  ]

count-put_at :
    (n : String) (p : ℕ) (r : UserEndpointRecord) (d : Table UserEndpointRecord)
    → count n (running_names (put_at p r d)) ≤ count n (running_names d) + count n (name_of r)
unfolding put_at
count-put_at n p r [] = omega (arith, count-append n (name_of r) [])
count-put_at n p r ((k, x) ∷ d) =
    if_both
      (λ e.
        count n (running_names e) ≤ count n (name_of x ++ running_names d) + count n (name_of r))
      (k == p) ((p, r) ∷ d) ((k, x) ∷ put_at p r d)
      (omega (
        arith,
        count-append n (name_of r) (running_names d),
        count-append n (name_of x) (running_names d),
      ))
      (omega (
        arith,
        count-append n (name_of x) (running_names (put_at p r d)),
        count-append n (name_of x) (running_names d),
        count-put_at n p r d,
      ))

pub count-remove_at :
    (n : String) (p : ℕ) (d : Table UserEndpointRecord)
    → count n (running_names (remove_at p d)) ≤ count n (running_names d)
unfolding remove_at
count-remove_at n p [] = omega arith
count-remove_at n p ((k, x) ∷ d) =
    let less = count-remove_at n p d in
    if_both (λ e. count n (running_names e) ≤ count n (name_of x ++ running_names d)) (k == p)
      (remove_at p d) ((k, x) ∷ remove_at p d)
      (omega (arith, less, count-append n (name_of x) (running_names d)))
      (omega (
        arith,
        less,
        count-append n (name_of x) (running_names (remove_at p d)),
        count-append n (name_of x) (running_names d),
      ))

count-name_of :
    (n : String) (r : UserEndpointRecord) → (r.ep_name =? n) ≡ false → count n (name_of r) ≡ 0
count-name_of n r e = elim (Option-cases r.local_user_info) [
  | inl q ↦ rw q refl
  | inr (u, q) ↦ rw (q, e) refl
]

find_running-count :
    (n : String) (d : Table UserEndpointRecord)
    → find_running n d ≡ none
    → count n (running_names d) ≡ 0
unfolding find_running
find_running-count n [] e = refl
find_running-count n ((k, x) ∷ d) e = elim (Bool-cases (x.ep_name =? n)) [
  | inl t ↦ absurd (ground (arith, t, e))
  | inr t ↦ omega (
    arith,
    count-append n (name_of x) (running_names d),
    count-name_of n x t,
    find_running-count n d (rw t at e),
  )
]

module _ (w : World) (IsAllowed : Passwd → Type 0) where
  -- A user is allowed, and is not the one that must have no endpoints.
  abbrev pub IsServed : Passwd → Type 0
  IsServed u = IsAllowed u × (is_forbidden w u ≡ false)

  abbrev pub IsProperFork : Forked → Type 0
  IsProperFork (starts_endpoint u args kwargs) = IsServed u
  IsProperFork (sends_notice kwargs) = Unit

  abbrev pub IsProperCache : ℕ × StartArgs → Type 0
  IsProperCache e = IsAllowed e.1.user_record

  -- Endpoints were started for served users only, the cache has allowed users only, and no two
  -- children run an endpoint of one name.
  abbrev pub IsSafe : Master → Type 0
  IsSafe s =
      All IsProperFork s.forked
      × AllOf IsProperCache s.cached_cmd_start_args
      × ((n : String) → count n (running_names s.children) ≤ 1)

  fits :
      (name n : String) (names : List String)
      → count name names ≡ 0
      → count n names ≤ 1
      → count n names + count n (name ∷ []) ≤ 1
  fits name n names e h = elim (Bool-cases (name =? n)) [
    | inl t ↦
        let zero_here = ap (λ m. count m names) (sym ((=?_iff name n).0 t)) ∙ e in
        rw t (omega (arith, zero_here))
    | inr t ↦ rw t (omega (arith, h))
  ]

  fork_child-IsSafe :
      (record_of : ℕ → Result UserEndpointRecord) (purpose : Forked) (s : Master)
      → IsProperFork purpose
      → ((n : String) (p : ℕ) (r : UserEndpointRecord)
          → record_of p ≡ return r
          → count n (running_names s.children) + count n (name_of r) ≤ 1)
      → IsSafe s
      → IsSafe (fork_child w record_of purpose s).1
  unfolding fork_child
  fork_child-IsSafe record_of purpose s proper fits h = elim (Option-cases (w.fork s.attempts)) [
    | inl e ↦ rw e h
    | inr (p, e) ↦
        let logged = All-append IsProperFork s.forked (purpose ∷ []) h.0 (proper, tt) in
        elim (Result-cases (record_of p)) [
          | inl (r, q) ↦
              rw (e, q)
                (logged, h.1, λ n. omega (arith, count-put_at n p r s.children, fits n p r q))
          | inr (x, q) ↦ rw (e, q) (logged, h.1, h.2)
        ]
  ]

  returned : {r r' : UserEndpointRecord} → Result.return r ≡ Result.return r' → r ≡ r'
  returned e = cc (e)

  notice-unnamed :
      (kwargs : Arguments) (p : ℕ) (r : UserEndpointRecord)
      → notice_record w kwargs p ≡ return r
      → name_of r ≡ []
  unfolding notice_record
  notice-unnamed (dict kwargs) p r e = ap name_of (sym (returned e))
  notice-unnamed falsy p r e = absurd (cc (e))
  notice-unnamed truthy p r e = absurd (cc (e))

  pub send_failure_notice-IsSafe :
      (kwargs : Arguments) (s : Master) → IsSafe s → IsSafe (send_failure_notice w kwargs s).1
  unfolding send_failure_notice
  send_failure_notice-IsSafe kwargs s h =
      fork_child-IsSafe _ (sends_notice kwargs) s tt
        (λ n p r e. rw (notice-unnamed kwargs p r e) (omega (arith, h.2 n))) h

  start_new-IsSafe :
      (user : Passwd) (args : List String) (kwargs : Kwargs) (s : Master)
      → IsAllowed user
      → find_running kwargs.name s.children ≡ none
      → IsSafe s
      → IsSafe (start_new w user args kwargs s).1
  unfolding start_new
  start_new-IsSafe user args kwargs s allowed e h = elim (Bool-cases (is_forbidden w user)) [
    | inl q ↦ rw (q, start_new) h
    | inr q ↦
        rw (q, start_new)
          (fork_child-IsSafe (λ pid. return (endpoint_record w user args kwargs))
            (starts_endpoint user args kwargs) s (allowed, q)
            (λ n p r (q : Result.return (endpoint_record w user args kwargs) ≡ return r).
              subst (λ ns. count n (running_names s.children) + count n ns ≤ 1)
                (ap name_of (returned q))
                (fits kwargs.name n (running_names s.children)
                  (find_running-count kwargs.name s.children e) (h.2 n)))
            h)
  ]

  start_endpoint-IsSafe :
      (user : Passwd) (args : List String) (kwargs : Kwargs) (now : ℕ) (s : Master)
      → IsAllowed user
      → IsSafe s
      → IsSafe (start_endpoint w user args kwargs now s).1
  unfolding start_endpoint
  start_endpoint-IsSafe user args kwargs now s allowed h = elim (Bool-cases (kwargs.name =? "")) [
    | inl e ↦ rw (e, start_endpoint) h
    | inr e ↦ elim (Option-cases (find_running kwargs.name s.children)) [
      | inl q ↦ rw (e, q, start_endpoint) (start_new-IsSafe user args kwargs s allowed q h)
      | inr (p, q) ↦
          rw (e, q, start_endpoint)
            (h.0, put_at-AllOf IsProperCache p _ s.cached_cmd_start_args allowed h.1, h.2)
    ]
  ]

  pub cmd_start_endpoint-IsSafe :
      (user : Passwd) (args : List String) (kwargs : Arguments) (now : ℕ) (s : Master)
      → IsAllowed user
      → IsSafe s
      → IsSafe (cmd_start_endpoint w user args kwargs now s).1
  unfolding cmd_start_endpoint
  cmd_start_endpoint-IsSafe user args (dict kwargs) now s allowed h =
      start_endpoint-IsSafe user args kwargs now s allowed h
  cmd_start_endpoint-IsSafe user args falsy now s allowed h = h
  cmd_start_endpoint-IsSafe user args truthy now s allowed h = h
