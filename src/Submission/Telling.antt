-- ===== src/Submission/Telling.antt =====
-- Telling the futures of one function: a failure, or the ids of their tasks.
use mathlib.Core.Path.{subst}
use func_x.Prelude.{
  ℕ, ◌==◌, ==_iff, ◌≡◌, ◌≢◌, refl, ◌∙◌, sym, ap, String, true, false, some, List, [], ◌∷◌, ◌++◌,
  map, All, length, arith, if◌then◌else◌,
}
use func_x.Prelude.Dict.{Dict, All-map}
use func_x.Prelude.Python.{return}
use func_x.Watcher.{Failure, failed, Future, is_done, set_outcome}
use func_x.Watcher.Matching.{set_outcome-other, set_outcome_pending}
use func_x.Submission.{fail_each, name_each}

-- The futures of all functions.
abbrev pub all_futures : Dict (List ℕ) → List ℕ
all_futures [] = []
all_futures ((k, fs) ∷ d) = fs ++ all_futures d

pub each_unit : (gs : List ℕ) → All (λ g. Unit {0}) gs
each_unit [] = tt
each_unit (g ∷ gs) = (tt, each_unit gs)

pub both : (P Q : ℕ → Type 0) (gs : List ℕ) → All P gs → All Q gs → All (λ g. P g × Q g) gs
both P Q [] p q = tt
both P Q (g ∷ gs) p q = ((p.0, q.0), both P Q gs p.1 q.1)

-- Apart one way, apart the other way.
pub apart_back :
    (fs gs : List ℕ) → All (λ f. All (λ g. g ≢ f) gs) fs → All (λ g. All (λ f. g ≢ f) fs) gs
apart_back [] gs h = each_unit gs
apart_back (f ∷ fs) gs h = both _ _ gs h.0 (apart_back fs gs h.1)

module _ {V : Type 0} where
  -- Different futures that are not done.
  abbrev pub AreFree : (ℕ → Future V) → List ℕ → Type 0
  AreFree h [] = Unit
  AreFree h (f ∷ fs) = (is_done (h f).outcome ≡ false) × All (λ g. g ≢ f) fs × AreFree h fs

  pub AreFree-same :
      (h h' : ℕ → Future V) (fs : List ℕ) → All (λ f. h' f ≡ h f) fs → AreFree h fs → AreFree h' fs
  AreFree-same h h' [] same free = tt
  AreFree-same h h' (f ∷ fs) same free =
      (ap (λ x. is_done x.outcome) same.0 ∙ free.0, free.1, AreFree-same h h' fs same.1 free.2)

  pub map-same :
      (h h' : ℕ → Future V) (fs : List ℕ) → All (λ f. h' f ≡ h f) fs → map h' fs ≡ map h fs
  map-same h h' [] same = refl
  map-same h h' (f ∷ fs) same = rw (same.0, map-same h h' fs same.1) refl

  fail_each_step :
      (e : Failure) (f : ℕ) (fs : List ℕ) (h : ℕ → Future V)
      → (set_outcome f (failed e) h).0 ≡ return tt
      → fail_each e (f ∷ fs) h ≡ fail_each e fs (set_outcome f (failed e) h).1
  unfolding fail_each
  fail_each_step e f fs h r = rw (r, fail_each) refl

  pub fail_each_lem :
      (e : Failure) (fs : List ℕ) (h : ℕ → Future V)
      → AreFree h fs
      → ((fail_each e fs h).0 ≡ return tt)
        × All (λ x. x.outcome ≡ failed e) (map (fail_each e fs h).1 fs)
        × ((g : ℕ) → All (λ f. g ≢ f) fs → (fail_each e fs h).1 g ≡ h g)
  unfolding fail_each
  fail_each_lem e [] h free = (refl, tt, λ g other. refl)
  fail_each_lem e (f ∷ fs) h free =
      let h' = (set_outcome f (failed e) h).1 in
      let told = set_outcome_pending f (failed e) h free.0 in
      let same = All-map _ _ fs (λ g ne. set_outcome-other f g (failed e) h ne) free.1 in
      let rest = fail_each_lem e fs h' (AreFree-same h h' fs same free.2) in
      let first = rest.2 f (All-map _ _ fs (λ g ne q. ne (sym q)) free.1) in
      subst
        (λ r.
          (r.0 ≡ return tt)
          × All (λ x. x.outcome ≡ failed e) (map r.1 (f ∷ fs))
          × ((g : ℕ) → All (λ f. g ≢ f) (f ∷ fs) → r.1 g ≡ h g))
        (sym (fail_each_step e f fs h told.0))
        (
          rest.0,
          (ap (λ x. x.outcome) first ∙ told.1, rest.1),
          λ g other. rest.2 g other.1 ∙ set_outcome-other f g (failed e) h other.0,
        )

  abbrev named : ℕ → String → (ℕ → Future V) → ℕ → Future V
  named f id h g = if g == f then record (h g) { task_id = some id } else h g

  named-other : (f : ℕ) (id : String) (h : ℕ → Future V) (g : ℕ) → g ≢ f → named f id h g ≡ h g
  named-other f id h g ne = ground (arith, ==_iff g f)

  pub name_each-other :
      (fs : List ℕ) (ids : List String) (h : ℕ → Future V) (g : ℕ)
      → All (λ f. g ≢ f) fs
      → name_each fs ids h g ≡ h g
  unfolding name_each
  name_each-other [] ids h g other = refl
  name_each-other (f ∷ fs) [] h g other = refl
  name_each-other (f ∷ fs) (id ∷ ids) h g other =
      name_each-other fs ids (named f id h) g other.1 ∙ named-other f id h g other.0

  pub name_each_lem :
      (fs : List ℕ) (ids : List String) (h : ℕ → Future V)
      → AreFree h fs
      → length fs ≡ length ids
      → map (λ x. x.task_id) (map (name_each fs ids h) fs) ≡ map some ids
  unfolding name_each
  name_each_lem [] [] h free e = refl
  name_each_lem [] (id ∷ ids) h free e = absurd (omega (arith, e))
  name_each_lem (f ∷ fs) [] h free e = absurd (omega (arith, e))
  name_each_lem (f ∷ fs) (id ∷ ids) h free e =
      let same = All-map _ _ fs (λ g ne. named-other f id h g ne) free.1 in
      let rest =
        name_each_lem fs ids (named f id h) (AreFree-same h (named f id h) fs same free.2)
          (omega (arith, e)) in
      let first =
        name_each-other fs ids (named f id h) f (All-map _ _ fs (λ g ne q. ne (sym q)) free.1) in
      let itself : (f == f) ≡ true = ground (arith, ==_iff f f) in
      let own : (named f id h f).task_id ≡ some id = rw itself refl in
      rw rest (ap (λ x. x.task_id ∷ map some ids) first ∙ ap (λ i. i ∷ map some ids) own)
