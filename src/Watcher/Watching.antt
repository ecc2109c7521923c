-- ===== src/Watcher/Watching.antt =====
-- The futures that are taken in and out of the watched ones keep their tasks.
use func_x.Prelude.{
  ℕ, ◌≡◌, refl, ◌∙◌, sym, ap, String, Bool, true, not, ◌||◌, some, List, [], ◌∷◌, is_empty, All,
  Bool-cases, Option-cases, inl, inr, arith,
}
use func_x.Prelude.Dict.{
  Dict, Distinct, get?, put, has, remove, ◌=?◌, =?_iff, get?-put, put-Distinct, remove-Distinct,
}
use func_x.Watcher.{Future, Received, is_done, to_watch, update, pop_futures}
use func_x.Watcher.Popping.{AllNamed}

-- There are results if one of them is there.
pub some_received :
    (received : Dict Received) (time : Bool) (k : String)
    → has k received ≡ true
    → (time || not (is_empty received)) ≡ true
unfolding get?
some_received [] time k h = absurd (cc h)
some_received (r ∷ received) time k h = ground arith

pub pop_futures-Distinct :
    (ks : List String) (d : Dict ℕ) → Distinct d → Distinct (pop_futures ks d).1
unfolding pop_futures
pop_futures-Distinct [] d u = u
pop_futures-Distinct (k ∷ ks) d u = elim (Option-cases (get? k d)) [
  | inl e ↦ rw (e, pop_futures) (pop_futures-Distinct ks (remove k d) (remove-Distinct k d u))
  | inr (f, e) ↦ rw (e, pop_futures) (pop_futures-Distinct ks (remove k d) (remove-Distinct k d u))
]

pub pop_futures_nil : (ks : List String) → (pop_futures ks []).1 ≡ []
unfolding pop_futures get? remove
pop_futures_nil [] = refl
pop_futures_nil (k ∷ ks) = pop_futures_nil ks

pub is_empty_nil : (d : Dict ℕ) → is_empty d ≡ true → d ≡ []
is_empty_nil [] h = refl
is_empty_nil (x ∷ d) h = absurd (cc h)

module _ {V : Type 0} where
  pub put_named :
      (futures : ℕ → Future V) (tid : String) (f : ℕ) (d : Dict ℕ)
      → (futures f).task_id ≡ some tid
      → AllNamed d futures
      → AllNamed (put tid f d) futures
  put_named futures tid f d e h k g q = elim (Bool-cases (tid =? k)) [
    | inl same ↦
        let number : f ≡ g = ground (arith, get?-put k tid f d, q, same) in
        ap (λ i. (futures i).task_id) (sym number) ∙ e ∙ ap some ((=?_iff tid k).0 same)
    | inr differ ↦ h k g (ground (arith, get?-put k tid f d, q, differ))
  ]

  abbrev pub Pairs : (ℕ → Future V) → Dict ℕ → Type 0
  Pairs futures d = All (λ e. (futures e.1).task_id ≡ some e.0) d

  pub put-Pairs :
      (futures : ℕ → Future V) (tid : String) (f : ℕ) (d : Dict ℕ)
      → (futures f).task_id ≡ some tid
      → Pairs futures d
      → Pairs futures (put tid f d)
  unfolding put
  put-Pairs futures tid f [] e h = (e, tt)
  put-Pairs futures tid f ((j, g) ∷ d) e h = elim (Bool-cases (j =? tid)) [
    | inl q ↦ rw (q, put) (e ∙ ap some (sym ((=?_iff j tid).0 q)), h.1)
    | inr q ↦ rw (q, put) (h.0, put-Pairs futures tid f d e h.1)
  ]

  pub to_watch-Pairs :
      (futures : ℕ → Future V) (fs : List ℕ) (known found : Dict ℕ)
      → Pairs futures found
      → Pairs futures (to_watch futures fs known found)
  unfolding to_watch
  to_watch-Pairs futures [] known found h = h
  to_watch-Pairs futures (f ∷ fs) known found h = elim (Option-cases (futures f).task_id) [
    | inl e ↦ rw (e, to_watch) (to_watch-Pairs futures fs known found h)
    | inr (tid, e) ↦
        elim (Bool-cases ((tid =? "") || is_done (futures f).outcome || has tid known)) [
          | inl q ↦ rw (e, q, to_watch) (to_watch-Pairs futures fs known found h)
          | inr q ↦
              rw (e, q, to_watch)
                (to_watch-Pairs futures fs known (put tid f found)
                  (put-Pairs futures tid f found e h))
        ]
  ]

  pub update_named :
      (futures : ℕ → Future V) (d found : Dict ℕ)
      → Distinct d
      → AllNamed d futures
      → Pairs futures found
      → Distinct (update d found) × AllNamed (update d found) futures
  unfolding update
  update_named futures d [] u h p = (u, h)
  update_named futures d ((k, f) ∷ found) u h p =
      update_named futures (put k f d) found (put-Distinct k f d u) (put_named futures k f d p.0 h)
        p.1
