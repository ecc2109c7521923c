-- ===== src/Htex/Faults.antt =====
-- What `scale_in` without a task type does, and what a batch of results with an unknown task leads to.
use func_x.Prelude.{
  ℕ, zero, suc, ◌≡◌, refl, ◌∙◌, ap, String, Bool, true, false, ◌&&◌, none, some, List, [], ◌∷◌,
  ◌++◌, All, Bool-cases, inl, inr, arith, if◌then◌else◌, take, drop,
}
use func_x.Prelude.Dict.{
  Dict, All-map, Distinct, count, get?, has, remove, keys, ◌=?◌, =?_iff, =?_refl,
}
use func_x.Prelude.Python.{name_error, return, raise}
use func_x.Dispatch.{Manager}
use func_x.Htex.Managers.{hold_block}
use func_x.Htex.Blocks.{Provider, Blocks, hold_blocks, pop_blocks, scale_in_blocks, scale_in}

-- A manager that is on hold if its block is among these.
abbrev pub IsHeld : List String → Manager → Type 0
IsHeld ids m = m.active ≡ true → count m.block_id ids ≡ 0

hold_block-All :
    (P Q : Manager → Type 0) (id : String) (d : Dict Manager)
    → ((m : Manager) → P m → (m.active && (m.block_id =? id)) ≡ false → Q m)
    → ((m : Manager) → P m → Q (record m { active = false }))
    → All (λ e. P e.1) d
    → All (λ e. Q e.1) (hold_block id d)
unfolding hold_block
hold_block-All P Q id [] keeps held h = tt
hold_block-All P Q id ((name, m) ∷ d) keeps held h =
    elim (Bool-cases (m.active && (m.block_id =? id))) [
      | inl e ↦ rw e (held m h.0, hold_block-All P Q id d keeps held h.1)
      | inr e ↦ rw e (keeps m h.0 e, hold_block-All P Q id d keeps held h.1)
    ]

abbrev pub values : Dict String → List String
values [] = []
values ((k, v) ∷ d) = v ∷ values d

All-any : (d : Dict Manager) → All (λ e. IsHeld [] e.1) d
All-any [] = tt
All-any (e ∷ d) = (λ a. refl, All-any d)

-- Once held, always held.
hold_blocks-All :
    (done ids : List String) (d : Dict Manager)
    → All (λ e. IsHeld done e.1) d
    → All (λ e. IsHeld done e.1 × IsHeld ids e.1) (hold_blocks ids d)
unfolding hold_blocks
hold_blocks-All done [] d h = All-map _ _ d (λ e p. (p, λ _. refl)) h
hold_blocks-All done (id ∷ ids) d h =
    let first =
      hold_block-All (IsHeld done) (IsHeld (id ∷ done)) id d
        (λ m p q a. ground (arith, p a, =?_iff id m.block_id, =?_refl id)) (λ m p a. absurd (cc a))
        h in
    All-map _ _ (hold_blocks ids (hold_block id d))
      (λ e p. (λ a. ground (arith, p.0 a), λ a. ground (arith, p.0 a, p.1 a)))
      (hold_blocks-All (id ∷ done) ids (hold_block id d) first)

remove_absent : (k : String) (d : Dict String) → has k d ≡ false → remove k d ≡ d
unfolding remove get?
remove_absent k [] h = refl
remove_absent k ((j, v) ∷ d) h = elim (Bool-cases (j =? k)) [
  | inl e ↦ absurd (ground (arith, h, e))
  | inr e ↦ rw e (ap (◌∷◌ (j, v)) (remove_absent k d (ground (arith, h, e))))
]

remove_head : (k v : String) (d : Dict String) → has k d ≡ false → remove k ((k, v) ∷ d) ≡ d
unfolding remove
remove_head k v d h = rw (=?_refl k, remove) (remove_absent k d h)

-- Blocks that are popped by their names, in the dict's order.
pop_blocks_lem :
    (n : ℕ) (d : Dict String)
    → Distinct d
    → pop_blocks (take n (keys d)) d ≡ (return (take n (values d)), drop n d)
unfolding pop_blocks get?
pop_blocks_lem zero d u = refl
pop_blocks_lem (suc n) [] u = refl
pop_blocks_lem (suc n) ((k, v) ∷ d) u =
    rw (=?_refl k, pop_blocks)
      (let later =
          ap (pop_blocks (take n (keys d))) (remove_head k v d u.0) ∙ pop_blocks_lem n d u.1 in
        rw later (ap (λ r. (return (v ∷ take n (values d)), r.1)) later))

-- Without a task type and without names, `scale_in` takes the first `n` blocks: it holds the managers
-- of these blocks and forgets the blocks. With scaling it also cancels them; without, it cancels none
-- and raises NameError.
pub scale_in_first :
    (provider : Provider) (mode : String) (scaling : Bool) (n : ℕ) (b : Blocks)
    → Distinct b.blocks
    → let (result, after) = scale_in provider mode scaling (some n) [] none b in
      (result ≡ (if scaling then return tt else raise name_error))
      × (after.blocks ≡ drop n b.blocks)
      × (after.cancelled
          ≡ (if scaling then b.cancelled ++ take n (values b.blocks) else b.cancelled))
      × All (λ e. IsHeld (take n (keys b.blocks)) e.1) after.ready_manager_queue
unfolding scale_in scale_in_blocks
scale_in_first provider mode scaling n b u =
    let held =
      All-map _ _ (hold_blocks (take n (keys b.blocks)) b.ready_manager_queue) (λ e p. p.1)
        (hold_blocks-All [] (take n (keys b.blocks)) b.ready_manager_queue
          (All-any b.ready_manager_queue)) in
    let blocks = ap (λ r. r.1) (pop_blocks_lem n b.blocks u) in
    rw (pop_blocks_lem n b.blocks u, scale_in, scale_in_blocks)
      (elim (Bool-cases scaling) [
        | inl e ↦ rw e (refl, blocks, refl, held)
        | inr e ↦ rw e (refl, blocks, refl, held)
      ])
