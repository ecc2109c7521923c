-- ===== src/Master/Reaping.antt =====
-- What waiting for children does to the children, the cache and the log.
use mathlib.Core.Path.{subst}
use func_x.Prelude.Table.{Table, get_at?, remove_at}
use func_x.Prelude.{
  ℕ, ◌+◌, ◌≡◌, Bool, true, false, Option, none, some, List, [], ◌∷◌, arith, Option-cases, inl, inr,
  if_both, if◌then◌else◌, ltb, not,
}
use func_x.Master.{Passwd, StartArgs, World, Master, dict}
use func_x.Master.Children.{
  Exit, stopped_normally, return_code, by_signal, unknown_code, cached_args, revive_child, uncache,
  stopped_child, reap_child, reap_all, wait_for_children,
}
use func_x.Master.Safe.{
  IsSafe, IsProperCache, AllOf, remove_at-AllOf, get_at?-AllOf, count-remove_at,
  cmd_start_endpoint-IsSafe,
}

if_some :
    {A : Type 0} (b : Bool) (x y : A)
    → ◌≡◌ {A = Option A} (if b then some x else none) (some y)
    → x ≡ y
if_some true x y e = cc (e)
if_some false x y e = absurd (cc (e))

module _ (w : World) (IsAllowed : Passwd → Type 0) where
  -- A user that is looked up again is still allowed.
  abbrev pub IsRefreshed : Type 0
  IsRefreshed =
      (u v : Passwd) (now : ℕ) → IsAllowed u → w.getpwuid now u.pw_uid ≡ some v → IsAllowed v

  abbrev Safe : Master → Type 0
  Safe s = IsSafe w IsAllowed s

  uncache-IsSafe : (pid : ℕ) (s : Master) → Safe s → Safe (uncache w pid s)
  uncache-IsSafe pid s h =
      (h.0, remove_at-AllOf (IsProperCache w IsAllowed) pid s.cached_cmd_start_args h.1, h.2)

  cached_args-IsAllowed :
      (pid now : ℕ) (d : Table (ℕ × StartArgs)) (a : StartArgs)
      → cached_args w pid d now ≡ some a
      → AllOf (IsProperCache w IsAllowed) d
      → IsAllowed a.user_record
  unfolding cached_args
  cached_args-IsAllowed pid now d a e h = elim (Option-cases (get_at? pid d)) [
    | inl q ↦ absurd (ground (arith, q, e))
    | inr (c, q) ↦
        let same : c.1 ≡ a =
          if_some (ltb now (c.0 + w.grace_period)) c.1 a (rw (q, cached_args) at e) in
        subst (λ x. IsAllowed x.user_record) same
          (get_at?-AllOf (IsProperCache w IsAllowed) pid c d q h)
  ]

  revive_child-IsSafe :
      (a : StartArgs) (now : ℕ) (s : Master)
      → IsRefreshed
      → IsAllowed a.user_record
      → Safe s
      → Safe (revive_child w a now s)
  unfolding revive_child
  revive_child-IsSafe a now s again allowed h =
      elim (Option-cases (w.getpwuid now a.user_record.pw_uid)) [
        | inl e ↦ rw (e, revive_child) h
        | inr (u, e) ↦
            rw (e, revive_child)
              (cmd_start_endpoint-IsSafe w IsAllowed u a.args (dict a.kwargs) now s
                (again a.user_record u now allowed e) h)
      ]

  stopped_child-IsSafe :
      (pid now : ℕ) (s : Master) → IsRefreshed → Safe s → Safe (stopped_child w pid now s)
  unfolding stopped_child
  stopped_child-IsSafe pid now s again h =
      elim (Option-cases (cached_args w pid s.cached_cmd_start_args now)) [
        | inl e ↦ rw (e, stopped_child) (uncache-IsSafe pid s h)
        | inr (a, e) ↦
            rw (e, stopped_child)
              (if_both Safe (not s.time_to_stop) _ _
                (revive_child-IsSafe a now (uncache w pid s) again
                  (cached_args-IsAllowed pid now s.cached_cmd_start_args a e h.1)
                  (uncache-IsSafe pid s h))
                (uncache-IsSafe pid s h))
      ]

  without_child :
      (pid : ℕ) (s : Master) → Safe s → Safe (record s { children = remove_at pid s.children })
  without_child pid s h = (h.0, h.1, λ n. omega (arith, count-remove_at n pid s.children, h.2 n))

  reap_child-IsSafe :
      (pid : ℕ) (exit : Exit) (now : ℕ) (s : Master)
      → IsRefreshed
      → Safe s
      → Safe (reap_child w pid exit now s)
  unfolding reap_child
  reap_child-IsSafe pid stopped_normally now s again h =
      stopped_child-IsSafe pid now _ again (without_child pid s h)
  reap_child-IsSafe pid (return_code n) now s again h = without_child pid s h
  reap_child-IsSafe pid (by_signal n) now s again h = without_child pid s h
  reap_child-IsSafe pid unknown_code now s again h = without_child pid s h

  reap_all-IsSafe :
      (dead : List (ℕ × Exit)) (now : ℕ) (s : Master)
      → IsRefreshed
      → Safe s
      → Safe (reap_all w dead now s)
  unfolding reap_all
  reap_all-IsSafe [] now s again h = h
  reap_all-IsSafe ((pid, exit) ∷ dead) now s again h =
      reap_all-IsSafe dead now (reap_child w pid exit now s) again
        (reap_child-IsSafe pid exit now s again h)

  pub wait_for_children-IsSafe :
      (dead : List (ℕ × Exit)) (now : ℕ) (s : Master)
      → IsRefreshed
      → Safe s
      → Safe (wait_for_children w dead now s)
  unfolding wait_for_children
  wait_for_children-IsSafe dead now s again h = reap_all-IsSafe dead now _ again h
