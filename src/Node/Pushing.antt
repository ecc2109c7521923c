-- ===== src/Node/Pushing.antt =====
-- What becomes of results and reports between the main loop and the interchange.
use mathlib.Core.List.{append_assoc, append-nil}
use func_x.Prelude.{
  ◌≡◌, ◌≢◌, refl, ◌∙◌, sym, ap, Bool, true, false, List, [], ◌∷◌, ◌++◌, All, All-append, if_both,
  if◌then◌else◌, is_empty, not, ◌&&◌,
}
use func_x.Prelude.Dict.{Dict}
use func_x.Htex.{TaskTransition, TaskResult}
use func_x.Node.{Setup, Node, Pending, packed, report, live_report}
use func_x.Node.Reports.{
  put_report, clear_deltas, feed, serialize_first, gather_item, send_items, push_round,
}
use func_x.Node.Run.{Event, turns, puts_report, clears_deltas, feeds, pushes, step_node, run_node}

-- The results among the entries, in order.
abbrev pub results_of : List Pending → List TaskResult
results_of [] = []
results_of (packed r ∷ xs) = r ∷ results_of xs
results_of (live_report n ∷ xs) = results_of xs
results_of (report deltas n ∷ xs) = results_of xs

abbrev pub results_sent : List (List Pending) → List TaskResult
results_sent [] = []
results_sent (batch ∷ batches) = results_of batch ++ results_sent batches

-- The results on their way: sent, in the batch, and waiting.
abbrev pub on_the_way : Node → List TaskResult
on_the_way s =
    results_sent s.result_outgoing ++ (results_of s.items ++ results_of s.pending_result_queue)

-- A batch as the interchange reads it: reports stand before the results.
abbrev pub HasNoReport : List Pending → Type 0
HasNoReport [] = Unit
HasNoReport (packed r ∷ xs) = HasNoReport xs
HasNoReport (live_report n ∷ xs) = ⊥
HasNoReport (report deltas n ∷ xs) = ⊥

abbrev pub IsSorted : List Pending → Type 0
IsSorted [] = Unit
IsSorted (packed r ∷ xs) = HasNoReport xs
IsSorted (live_report n ∷ xs) = ⊥
IsSorted (report deltas n ∷ xs) = IsSorted xs

abbrev pub IsBatch : List Pending → Type 0
IsBatch batch = IsSorted batch × (batch ≢ [])

abbrev pub AreBatches : Node → Type 0
AreBatches s = All IsBatch s.result_outgoing × IsSorted s.items

results_of-append : (xs ys : List Pending) → results_of (xs ++ ys) ≡ results_of xs ++ results_of ys
results_of-append [] ys = refl
results_of-append (packed r ∷ xs) ys = ap (λ l. r ∷ l) (results_of-append xs ys)
results_of-append (live_report n ∷ xs) ys = results_of-append xs ys
results_of-append (report deltas n ∷ xs) ys = results_of-append xs ys

results_sent-append :
    (bs : List (List Pending)) (b : List Pending)
    → results_sent (bs ++ b ∷ []) ≡ results_sent bs ++ results_of b
results_sent-append [] b = append-nil (results_of b)
results_sent-append (a ∷ bs) b =
    ap (λ l. results_of a ++ l) (results_sent-append bs b)
    ∙ sym (append_assoc (results_of a) (results_sent bs) (results_of b))

results_of-serialize_first :
    (d : Dict (List TaskTransition)) (xs : List Pending)
    → results_of (serialize_first d xs) ≡ results_of xs
results_of-serialize_first d [] = refl
results_of-serialize_first d (packed r ∷ xs) = ap (λ l. r ∷ l) (results_of-serialize_first d xs)
results_of-serialize_first d (live_report n ∷ xs) = refl
results_of-serialize_first d (report e n ∷ xs) = results_of-serialize_first d xs

HasNoReport-add :
    (r : TaskResult) (xs : List Pending) → HasNoReport xs → HasNoReport (xs ++ packed r ∷ [])
HasNoReport-add r [] h = h
HasNoReport-add r (packed q ∷ xs) h = HasNoReport-add r xs h
HasNoReport-add r (live_report n ∷ xs) h = h
HasNoReport-add r (report d n ∷ xs) h = h

IsSorted-add : (r : TaskResult) (xs : List Pending) → IsSorted xs → IsSorted (xs ++ packed r ∷ [])
IsSorted-add r [] h = tt
IsSorted-add r (packed q ∷ xs) h = HasNoReport-add r xs h
IsSorted-add r (live_report n ∷ xs) h = h
IsSorted-add r (report d n ∷ xs) h = IsSorted-add r xs h

abbrev pub IsKept : Node → Node → Type 0
IsKept s s' = (on_the_way s' ≡ on_the_way s) × AreBatches s'

guarded {ℓ κ} :
    {A : Type ℓ} (P : A → Type κ) (b e : Bool) (x y : A)
    → (e ≡ false → P x)
    → P y
    → P (if b && not e then x else y)
guarded P true true x y p q = q
guarded P true false x y p q = p refl
guarded P false e x y p q = q

gather-IsKept :
    (queue : List Pending) (s : Node)
    → AreBatches s
    → IsKept
        (record s { pending_result_queue = queue })
        (gather_item (record s { pending_result_queue = queue }))
unfolding gather_item
gather-IsKept [] s b = (refl, b)
gather-IsKept (live_report n ∷ queue) s b = (refl, b)
gather-IsKept (report d n ∷ queue) s b = (refl, b)
gather-IsKept (packed r ∷ queue) s b = (
  ap (λ l. results_sent s.result_outgoing ++ l)
      (ap (λ l. l ++ results_of queue) (results_of-append s.items (packed r ∷ []))
        ∙ append_assoc (results_of s.items) (r ∷ []) (results_of queue)),
  (b.0, IsSorted-add r s.items b.1),
)

send_now-IsKept :
    (s : Node)
    → (is_empty s.items ≡ false)
    → AreBatches s
    → IsKept s (record s { result_outgoing = s.result_outgoing ++ s.items ∷ []; items = [] })
send_now-IsKept s e b = (
  ap (λ l. l ++ results_of s.pending_result_queue) (results_sent-append s.result_outgoing s.items)
      ∙ append_assoc (results_sent s.result_outgoing) (results_of s.items)
          (results_of s.pending_result_queue),
  (
    All-append IsBatch s.result_outgoing (s.items ∷ []) b.0
        ((b.1, λ q. absurd (cc (e, ap is_empty q))), tt),
    tt,
  ),
)

send_items-IsKept :
    (c : Setup) (late : Bool) (s : Node) → AreBatches s → IsKept s (send_items c late s)
unfolding send_items
send_items-IsKept c late s b =
    guarded (IsKept s) _ (is_empty s.items) _ s (λ e. send_now-IsKept s e b) (refl, b)

-- An event that is no turn of the main loop.
abbrev pub IsQuiet : Event → Type 0
IsQuiet (turns p) = ⊥
IsQuiet _ = Unit

module _ (c : Setup) where
  push_round-IsKept : (late : Bool) (s : Node) → AreBatches s → IsKept s (push_round c late s)
  unfolding push_round
  push_round-IsKept late s b =
      let (same, batches) = gather-IsKept s.pending_result_queue s b in
      let (same', batches') = send_items-IsKept c late (gather_item s) batches in
      (same' ∙ same, batches')

  step_node-IsKept : (e : Event) (s : Node) → IsQuiet e → AreBatches s → IsKept s (step_node c e s)
  unfolding step_node put_report clear_deltas feed
  step_node-IsKept (turns p) s q b = absurd q
  step_node-IsKept puts_report s q b = (
    ap (λ l. results_sent s.result_outgoing ++ (results_of s.items ++ l))
        (results_of-append s.pending_result_queue (live_report s.switch_count ∷ []) ∙ append-nil _),
    b,
  )
  step_node-IsKept clears_deltas s q b =
      if_both (IsKept s) (is_empty s.task_status_deltas) s _ (refl, b) (refl, b)
  step_node-IsKept feeds s q b = (
    ap (λ l. results_sent s.result_outgoing ++ (results_of s.items ++ l))
        (results_of-serialize_first s.task_status_deltas s.pending_result_queue),
    b,
  )
  step_node-IsKept (pushes late) s q b = push_round-IsKept late s b

  -- Whatever the threads of the reports, the queue and the result pusher do between two turns of the
  -- main loop, in any order: the results that are sent, in the batch and in the queue are the same, in
  -- the same order, and from batches that are sorted and not empty, as in a new manager, every batch
  -- that is sent has its reports before its results and is not empty.
  pub run_node-IsKept :
      (es : List Event) (s : Node) → All IsQuiet es → AreBatches s → IsKept s (run_node c es s)
  unfolding run_node
  run_node-IsKept [] s q b = (refl, b)
  run_node-IsKept (e ∷ es) s q b =
      let (same, batches) = step_node-IsKept e s q.0 b in
      let (same', batches') = run_node-IsKept es (step_node c e s) q.1 batches in
      (same' ∙ same, batches')
