-- ===== src/Submission/Collecting.antt =====
-- What a batch of collected tasks has.
use func_x.Prelude.{
  ℕ, ◌≤◌, ◌<◌, max, ◌≡◌, refl, ◌∙◌, ap, String, false, none, some, List, [], ◌∷◌, ◌++◌, All, length,
  length-append, Bool-cases, inl, inr, arith, if◌then◌else◌,
}
use func_x.Prelude.Dict.{Dict, get?, put, get_or, ◌=?◌, =?_iff, get?-put}
use func_x.Submission.{TaskInfo, Item, append_to, is_full, collect_loop, collect}
use mathlib.Core.List.{append_assoc}

-- The tasks of a group, in the order of the queue.
abbrev pub of_group : {C : Type 0} → String → List (Item C) → List (ℕ × TaskInfo C)
of_group k [] = []
of_group k (none ∷ items) = of_group k items
of_group k (some (f, task) ∷ items) =
    let rest = of_group k items in if task.group =? k then (f, task) ∷ rest else rest

module _ {C : Type 0} where
  get_or-append_to :
      (j k : String) (x : ℕ × TaskInfo C) (d : Dict (List (ℕ × TaskInfo C)))
      → get_or j [] (append_to k x d) ≡ (if k =? j then get_or j [] d ++ x ∷ [] else get_or j [] d)
  get_or-append_to j k x d = elim (Bool-cases (k =? j)) [
    | inl e ↦
        rw (get?-put j k (get_or k [] d ++ x ∷ []) d, e)
          (ap (λ i. get_or i [] d ++ x ∷ []) ((=?_iff k j).0 e))
    | inr e ↦ rw (get?-put j k (get_or k [] d ++ x ∷ []) d, e) refl
  ]

  -- No group is longer than the limit.
  abbrev pub AreShort : ℕ → Dict (List (ℕ × TaskInfo C)) → Type 0
  AreShort bs d = All (λ e. length e.1 ≤ bs) d

  collect_loop_order :
      (bs : ℕ) (items : List (Item C)) (d : Dict (List (ℕ × TaskInfo C))) (k : String)
      → let c = collect_loop bs items d in
        get_or k [] c.groups ++ of_group k c.left ≡ get_or k [] d ++ of_group k items
  unfolding collect_loop
  collect_loop_order bs [] d k = refl
  collect_loop_order bs (none ∷ items) d k = refl
  collect_loop_order bs (some (f, task) ∷ items) d k =
      let d' = append_to task.group (f, task) d in
      let moved : get_or k [] d' ++ of_group k items
          ≡ get_or k [] d ++ of_group k (some (f, task) ∷ items) =
        elim (Bool-cases (task.group =? k)) [
          | inl e ↦
              rw (get_or-append_to k task.group (f, task) d, e)
                (append_assoc (get_or k [] d) ((f, task) ∷ []) (of_group k items))
          | inr e ↦ rw (get_or-append_to k task.group (f, task) d, e) refl
        ] in
      elim (Bool-cases (is_full bs d')) [
        | inl e ↦ rw (e, collect_loop) moved
        | inr e ↦ rw (e, collect_loop) (collect_loop_order bs items d' k ∙ moved)
      ]

  put-AreShort :
      (bs : ℕ) (k : String) (v : List (ℕ × TaskInfo C)) (d : Dict (List (ℕ × TaskInfo C)))
      → length v ≤ bs
      → AreShort bs d
      → AreShort bs (put k v d)
  unfolding put
  put-AreShort bs k v [] l h = (l, tt)
  put-AreShort bs k v ((j, w) ∷ d) l h = elim (Bool-cases (j =? k)) [
    | inl e ↦ rw (e, put) (l, h.1)
    | inr e ↦ rw (e, put) (h.0, put-AreShort bs k v d l h.1)
  ]

  short_entry :
      (bs : ℕ) (k : String) (d : Dict (List (ℕ × TaskInfo C)))
      → 1 ≤ bs
      → is_full bs d ≡ false
      → length (get_or k [] d) < bs
  unfolding get?
  short_entry bs k [] p e = omega (arith, p)
  short_entry bs k ((j, w) ∷ d) p e =
      let rest = short_entry bs k d p (ground (arith, e)) in
      let head : length w < bs = ground (arith, e) in
      elim (Bool-cases (j =? k)) [ inl q ↦ rw q head | inr q ↦ rw q rest ]

  append_to-AreShort :
      (bs : ℕ) (k : String) (x : ℕ × TaskInfo C) (d : Dict (List (ℕ × TaskInfo C)))
      → 1 ≤ bs
      → AreShort bs d
      → is_full bs d ≡ false
      → AreShort bs (append_to k x d)
  append_to-AreShort bs k x d p h e =
      let room = short_entry bs k d p e in
      put-AreShort bs k (get_or k [] d ++ x ∷ []) d
        (omega (arith, room, length-append (get_or k [] d) (x ∷ []))) h

  collect_loop-AreShort :
      (bs : ℕ) (items : List (Item C)) (d : Dict (List (ℕ × TaskInfo C)))
      → 1 ≤ bs
      → AreShort bs d
      → is_full bs d ≡ false
      → AreShort bs (collect_loop bs items d).groups
  unfolding collect_loop
  collect_loop-AreShort bs [] d p h e = h
  collect_loop-AreShort bs (none ∷ items) d p h e = h
  collect_loop-AreShort bs (some (f, task) ∷ items) d p h e =
      let d' = append_to task.group (f, task) d in
      let short = append_to-AreShort bs task.group (f, task) d p h e in
      elim (Bool-cases (is_full bs d')) [
        | inl q ↦ rw (q, collect_loop) short
        | inr q ↦ rw (q, collect_loop) (collect_loop-AreShort bs items d' p short q)
      ]

  -- One round takes tasks from the queue's front: with what is left in the queue, each group has its
  -- tasks in the queue's order, none lost and none twice. No group is longer than the batch size,
  -- which counts as one if it is zero.
  pub collect_lem :
      (batch_size : ℕ) (items : List (Item C))
      → let c = collect batch_size items in
        ((k : String) → get_or k [] c.groups ++ of_group k c.left ≡ of_group k items)
        × AreShort (max 1 batch_size) c.groups
  unfolding collect get?
  collect_lem batch_size items = (
    (λ k. collect_loop_order (max 1 batch_size) items [] k),
    collect_loop-AreShort (max 1 batch_size) items [] (omega arith) tt refl,
  )
