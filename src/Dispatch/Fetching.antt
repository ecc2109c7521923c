-- ===== src/Dispatch/Fetching.antt =====
-- A proof rule for `get_tasks_hard` and `get_tasks_soft`: what one fetched task keeps, for every
-- capacity that is left, all of their loops keep. A manager's record has to be an advertisement, so
-- that no lookup raises KeyError.
use func_x.Prelude.{
  ℕ, zero, suc, ◌+◌, ◌≡◌, refl, String, Bool, true, false, List, [], ◌∷◌, All, arith,
}
use mathlib.Core.Path.{subst}
use func_x.Prelude.{sym, ap, ◌∙◌}
use func_x.Prelude.Int.{pos, ◌-ℤ◌}
use func_x.Prelude.Dict.{get_or, has, has-put_old}
use func_x.Prelude.Python.{Result, Exc, return, raise, Action, and_then}
use func_x.Dispatch.{
  Task, Manager, Fetch, fetched, use_slot, use_worker, has_slot, has_unused, fetch_loop,
}

-- What using up a slot does to the rest of a manager's record.
pub record Charges (charge : Manager → Manager) (m : Manager) : Type 0 where
  pub workers : (charge m).total_workers ≡ m.total_workers -ℤ pos 1
  pub total_tasks : (charge m).total_tasks ≡ m.total_tasks
  pub max_worker_count : (charge m).max_worker_count ≡ m.max_worker_count
  pub tasks : (charge m).tasks ≡ m.tasks
  pub total : (charge m).total ≡ m.total
  pub free : (k : String) → has k (charge m).free ≡ has k m.free

-- The manager offers unused slots, and every type that it has free slots of has a total.
pub record IsAdvert (m : Manager) : Type 0 where
  pub unused : has "unused" m.free ≡ true
  pub totals : (k : String) → has k m.free ≡ true → has k m.total ≡ true

use_slot-Charges : (k : String) (m : Manager) → has k m.free ≡ true → Charges (use_slot k) m
unfolding use_slot
use_slot-Charges k m h = record {
  workers = refl;
  total_tasks = refl;
  max_worker_count = refl;
  tasks = refl;
  total = refl;
  free = λ j. has-put_old j k (get_or k (pos 0) m.free -ℤ pos 1) m.free h;
}

pub use_worker-Charges : (m : Manager) → Charges use_worker m
unfolding use_worker
use_worker-Charges m = record {
  workers = refl;
  total_tasks = refl;
  max_worker_count = refl;
  tasks = refl;
  total = refl;
  free = λ j. refl;
}

-- What the tests say when they pass, and that they raise only where the kind of slot is missing.
has_slot-true : (k : String) (m : Manager) → has_slot k m ≡ return true → has k m.free ≡ true
has_slot-true k m h = ground arith

has_slot-safe :
    (k : String) (m : Manager) (e : Exc) → has k m.free ≡ true → has_slot k m ≡ raise e → ⊥
has_slot-safe k m e h r = ground arith

has_unused-true : (m : Manager) → has_unused m ≡ return true → has "unused" m.free ≡ true
unfolding has_unused
has_unused-true m h = ground arith

has_unused-safe : (m : Manager) (e : Exc) → has "unused" m.free ≡ true → has_unused m ≡ raise e → ⊥
unfolding has_unused
has_unused-safe m e h r = ground arith

abbrev pub Keeps : (ℕ → Fetch → Type 0) → Type 0
Keeps P =
    (n : ℕ) (source t : String) (x : Task) (rest : List Task) (charge : Manager → Manager)
    (f : Fetch)
    → Charges charge f.manager
    → get_or source [] f.pending ≡ x ∷ rest
    → P (suc n) f
    → P n (fetched source t x rest (charge f.manager) f)

-- A step's outcome: it returns a capacity.
abbrev pub Leaves : (ℕ → Fetch → Type 0) → Result ℕ × Fetch → Type 0
Leaves P (return n, f) = P n f
Leaves P (raise e, f) = ⊥

-- The whole call's outcome.
abbrev pub Ends : (ℕ → Fetch → Type 0) → Result (Unit {0}) × Fetch → Type 0
Ends P (r, f) = (r ≡ return tt) × ((n : ℕ) × P n f)

module _ (P : ℕ → Fetch → Type 0) (keeps : Keeps P) where
  pub fetch_loop-Leaves :
      (source t : String) (test : Manager → Result Bool) (charge : Manager → Manager)
      → ((m : Manager) → test m ≡ return true → Charges charge m)
      → ((n : ℕ) (f : Fetch) (e : Exc) → P n f → test f.manager ≡ raise e → ⊥)
      → (n : ℕ) (f : Fetch) → P n f
      → Leaves P (fetch_loop source t test charge n f)
  unfolding fetch_loop
  fetch_loop-Leaves source t test charge c safe zero f h = h
  fetch_loop-Leaves source t test charge c safe (suc n) f h =
      go (test f.manager) (get_or source [] f.pending) refl refl (λ pass x rest e.
        fetch_loop-Leaves source t test charge c safe n
          (fetched source t x rest (charge f.manager) f)
          (keeps n source t x rest charge f (c f.manager pass) e h))
    where
      go :
          (r : Result Bool) (q : List Task)
          → test f.manager ≡ r
          → get_or source [] f.pending ≡ q
          → (test f.manager ≡ return true
              → (x : Task) (rest : List Task) → get_or source [] f.pending ≡ x ∷ rest
              → Leaves P (
                  fetch_loop source t test charge n (fetched source t x rest (charge f.manager) f)))
          → Leaves P (fetch_loop source t test charge (suc n) f)
      go (raise e) q er eq more = absurd (safe (suc n) f e h er)
      go (return false) q er eq more = rw (er, fetch_loop) h
      go (return true) [] er eq more = rw (er, eq, fetch_loop) h
      go (return true) (x ∷ rest) er eq more = rw (er, eq, fetch_loop) (more er x rest eq)

pub Leaves-bind :
    (P Q : ℕ → Fetch → Type 0) (r : Result ℕ × Fetch) (k : ℕ → Action Fetch (Unit {0}))
    → Leaves Q r
    → ((n : ℕ) (f : Fetch) → Q n f → Ends P (k n f))
    → Ends P (and_then r.0 k r.1)
Leaves-bind P Q (return n, f) k h g = g n f h
Leaves-bind P Q (raise e, f) k h g = absurd h

-- A step that fetches behind another one.
pub Leaves-then :
    (P Q : ℕ → Fetch → Type 0) (r : Result ℕ × Fetch) (k : ℕ → Action Fetch ℕ)
    → Leaves Q r
    → ((n : ℕ) (f : Fetch) → Q n f → Leaves P (k n f))
    → Leaves P (and_then r.0 k r.1)
Leaves-then P Q (return n, f) k h go = go n f h
Leaves-then P Q (raise e, f) k h go = absurd h

pub Leaves-weaken :
    (P Q : ℕ → Fetch → Type 0) (r : Result ℕ × Fetch)
    → ((n : ℕ) (f : Fetch) → Q n f → P n f)
    → Leaves Q r
    → Leaves P r
Leaves-weaken P Q (return n, f) w h = w n f h
Leaves-weaken P Q (raise e, f) w h = absurd h

-- The rule may leave some of the capacity aside.
pub Keeps-shift : (P : ℕ → Fetch → Type 0) (c : ℕ) → Keeps P → Keeps (λ n f. P (c + n) f)
Keeps-shift P c keeps n source t x rest charge f ch e h =
    let s : c + suc n ≡ suc (c + n) = omega arith in
    keeps (c + n) source t x rest charge f ch e (subst (λ k. P k f) s h)

-- The rule with a record that is an advertisement, and with types that it has free slots of.
abbrev pub Fine : (ℕ → Fetch → Type 0) → ℕ → Fetch → Type 0
Fine P n f = IsAdvert f.manager × P n f

abbrev pub Offers : List String → (ℕ → Fetch → Type 0) → ℕ → Fetch → Type 0
Offers types P n f = All (λ t. has t f.manager.free ≡ true) types × P n f

pub Keeps-Fine : (P : ℕ → Fetch → Type 0) → Keeps P → Keeps (Fine P)
unfolding fetched
Keeps-Fine P keeps n source t x rest charge f ch e h =
    let ad = h.0 in
    (
      record {
        unused = ch.free "unused" ∙ ad.unused;
        totals = λ k there. ap (has k) ch.total ∙ ad.totals k (sym (ch.free k) ∙ there);
      },
      keeps n source t x rest charge f ch e h.1,
    )

free-All :
    (types : List String) (charge : Manager → Manager) (m : Manager)
    → Charges charge m
    → All (λ t. has t m.free ≡ true) types
    → All (λ t. has t (charge m).free ≡ true) types
free-All [] charge m ch h = tt
free-All (t ∷ types) charge m ch h = (ch.free t ∙ h.0, free-All types charge m ch h.1)

pub Keeps-Offers : (types : List String) (P : ℕ → Fetch → Type 0) → Keeps P → Keeps (Offers types P)
unfolding fetched
Keeps-Offers types P keeps n source t x rest charge f ch e h =
    (free-All types charge f.manager ch h.0, keeps n source t x rest charge f ch e h.1)

-- The two kinds of rounds, each with what its test needs.
module _ (P : ℕ → Fetch → Type 0) (keeps : Keeps P) where
  pub own_slots :
      (source t k : String)
      → ((n : ℕ) (f : Fetch) → P n f → has k f.manager.free ≡ true)
      → (n : ℕ) (f : Fetch) → P n f
      → Leaves P (fetch_loop source t (has_slot k) (use_slot k) n f)
  own_slots source t k there =
      fetch_loop-Leaves P keeps source t (has_slot k) (use_slot k)
        (λ m pass. use_slot-Charges k m (has_slot-true k m pass))
        (λ n f e h r. has_slot-safe k f.manager e (there n f h) r)

  pub unused_slots :
      (t : String)
      → ((n : ℕ) (f : Fetch) → P n f → has "unused" f.manager.free ≡ true)
      → (n : ℕ) (f : Fetch) → P n f
      → Leaves P (fetch_loop "unused" t has_unused (use_slot "unused") n f)
  unused_slots t there =
      fetch_loop-Leaves P keeps "unused" t has_unused (use_slot "unused")
        (λ m pass. use_slot-Charges "unused" m (has_unused-true m pass))
        (λ n f e h r. has_unused-safe f.manager e (there n f h) r)
