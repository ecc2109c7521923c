-- ===== src/Scaling/Bounds.antt =====
-- How far `_strategize` goes: never above the maximum of blocks, and down to the minimum only.
use func_x.Prelude.{
  ℕ, ◌+◌, ◌*◌, ◌≤◌, ◌≡◌, ◌==◌, true, false, ◌&&◌, Option, List, [], ◌∷◌, All, arith, tests, ltb→lt,
  ltb, leb, Bool-cases, inl, inr,
}
use func_x.Prelude.Int.{ℤ, pos, ◌+ℤ◌, ◌-ℤ◌, ◌≤ℤ◌, ltb_ℤ, int_laws, one_sign}
use func_x.Prelude.Python.{Result, return, raise, Result-cases}
use func_x.Scaling.{
  Floats, ceil_div, min_ℤ, active, Report, Order, scale_in, scale_out, tasks_per_node, cool_down,
  request, simple_strategize, orders, or_now,
}

-- Removing leaves the minimum, of more, and only without tasks; requesting keeps to the maximum.
pub IsFit : Report → Order → Type 0
IsFit r (scale_in n) = (r.active_tasks ≡ 0) × (r.min_blocks + n ≡ active r.status) × (1 ≤ n)
IsFit r (scale_out n) = pos (active r.status) +ℤ n ≤ℤ pos r.max_blocks

not_less : (a b : ℤ) → ltb_ℤ a b ≡ false → b ≤ℤ a
not_less a b h = ground arith

min_ℤ_fits : (a : ℤ) (m n : ℕ) → pos n +ℤ min_ℤ a (pos m -ℤ pos n) ≤ℤ pos m
min_ℤ_fits a m n = elim (Bool-cases (ltb_ℤ (pos m -ℤ pos n) a)) [
  | inl e ↦ rw e (omega int_laws)
  | inr e ↦ rw e (omega (int_laws, tests, one_sign a, not_less (pos m -ℤ pos n) a e))
]

module _ (floats : Floats) (max_idletime : ℕ) where
  Fits : Report → Result (List Order) → Type 0
  Fits r (return os) = All (IsFit r) os
  Fits r (raise e) = Unit

  request-Fits : (r : Report) → Fits r (request floats max_idletime r)
  unfolding Fits request IsFit
  request-Fits r =
      let slots = active r.status * tasks_per_node r.max_workers_per_node * r.nodes_per_block in
      elim (Result-cases (
        ceil_div (floats.excess r.active_tasks slots)
          (tasks_per_node r.max_workers_per_node * r.nodes_per_block))) [
            | inr (e, h) ↦ rw (h, request) tt
            | inl (n, h) ↦ rw (h, request) (min_ℤ_fits n r.max_blocks (active r.status), tt)
          ]

  cool_down-Fits :
      (r : Report) (idle : Option ℕ)
      → (r.active_tasks == 0) ≡ true
      → leb (active r.status) r.min_blocks ≡ false
      → Fits r (cool_down floats max_idletime r idle).0
  unfolding Fits cool_down IsFit
  cool_down-Fits r idle z l = elim (Bool-cases (ltb (or_now r.now idle + max_idletime) r.now)) [
    | inl e ↦ rw (e, cool_down) ((ground arith, ground arith, ground arith), tt)
    | inr e ↦ rw (e, cool_down) tt
  ]

  single-Fits :
      (r : Report)
      → ltb (active r.status) r.max_blocks ≡ true
      → Fits r (return (scale_out (pos 1) ∷ []))
  unfolding Fits IsFit
  single-Fits r l = (omega (int_laws, ltb→lt (active r.status) r.max_blocks l), tt)

  strategize-Fits :
      (r : Report) (idle : Option ℕ) → Fits r (simple_strategize floats max_idletime r idle).0
  unfolding simple_strategize Fits
  strategize-Fits r idle =
      let slots = active r.status * tasks_per_node r.max_workers_per_node * r.nodes_per_block in
      elim (Bool-cases (r.active_tasks == 0)) [
        | inl z ↦ elim (Bool-cases (leb (active r.status) r.min_blocks)) [
          | inl l ↦ rw (z, l, simple_strategize) tt
          | inr l ↦ rw (z, l, simple_strategize) (cool_down-Fits r _ z l)
        ]
        | inr z ↦ elim (Bool-cases (floats.below slots r.active_tasks)) [
          | inl b ↦ elim (Bool-cases (leb r.max_blocks (active r.status))) [
            | inl l ↦ rw (z, b, l, simple_strategize) tt
            | inr l ↦ rw (z, b, l, simple_strategize) (request-Fits r)
          ]
          | inr b ↦ elim (Bool-cases ((slots == 0) && ltb 0 r.active_tasks)) [
            | inr s ↦ rw (z, b, s, simple_strategize) tt
            | inl s ↦ elim (Bool-cases (ltb (active r.status) r.max_blocks)) [
              | inl l ↦ rw (z, b, s, l, simple_strategize) (single-Fits r l)
              | inr l ↦ rw (z, b, s, l, simple_strategize) tt
            ]
          ]
        ]
      ]

  -- In every round, from any timer: blocks are removed only where there are no tasks, and exactly
  -- down to the minimum; those requested never bring the active ones above the maximum.
  pub orders-IsFit :
      (r : Report) (idle : Option ℕ) → All (IsFit r) (orders floats max_idletime r idle)
  unfolding orders Fits
  orders-IsFit r idle = go (simple_strategize floats max_idletime r idle).0 (strategize-Fits r idle)
    where
      go :
          (o : Result (List Order))
          → Fits r o
          → All (IsFit r) (elim o [ return os ↦ os | raise e ↦ [] ])
      go (return os) h = h
      go (raise e) h = tt
