-- ===== src/Node/Run.antt =====
-- Histories of a manager: turns of the main loop, the halves of the status reports, the queue's thread
-- and the rounds of the result pusher, in any order. What a turn raises ends the main loop; here more
-- turns may follow, as nothing that is proved needs that there are none.
use func_x.Prelude.{
  ℕ, ◌≡◌, refl, Bool, List, [], ◌∷◌, All, arith, inl, inr, if◌then◌else◌, is_empty, Option-cases,
  if_both,
}
use mathlib.Core.Path.{subst}
use func_x.Prelude.Int.{int_laws}
use func_x.Prelude.Dict.{get?}
use func_x.Prelude.Python.{Result, return, raise, Action, Result-cases, and_then, pure}
use func_x.WorkerMap.Books.{init-Books}
use func_x.WorkerMap.Attempts.{add_worker-Books}
use func_x.WorkerMap.Launch.{add_worker}
use func_x.Prelude.Decimal.{str}
use func_x.Node.{own_type, Setup, Node, init_node, max_worker_count}
use func_x.Node.Cancel.{plain_options}
use func_x.Node.Turn.{
  Flow, goes_on, continues, breaks, Polled, after_turn, turn_node, pull_loop, pull_tasks,
  start_node, start_first, is_hard,
}
use func_x.Node.Reports.{
  put_report, clear_deltas, feed, get_ready, gather_item, send_items, push_round,
}
use func_x.Node.Counted.{IsRight}
use func_x.Node.Turns.{IsCountedWith, IsProperPoll, turn_node-IsRight}

after_turn-IsRight :
    (r : Result Flow) (s : Node) (rest : Result (Unit {0}) × Node)
    → IsRight s
    → IsRight rest.1
    → IsRight (after_turn r s rest).1
after_turn-IsRight (raise e) s rest h k = h
after_turn-IsRight (return breaks) s rest h k = h
after_turn-IsRight (return continues) s rest h k = k
after_turn-IsRight (return goes_on) s rest h k = k

pull_loop-IsRight :
    (c : Setup) (ps : List Polled) (s : Node)
    → All IsProperPoll ps
    → IsRight s
    → IsRight (pull_loop c ps s).1
unfolding pull_loop
pull_loop-IsRight c [] s proper h = h
pull_loop-IsRight c (p ∷ ps) s proper h =
    let next = turn_node-IsRight c p s proper.0 h in
    let rest = pull_loop-IsRight c ps (turn_node c p s).1 proper.1 next in
    if_both (λ (r : Result (Unit {0}) × Node). IsRight r.1) s.kill_event _ _ h
      (after_turn-IsRight (turn_node c p s).0 _ (pull_loop c ps (turn_node c p s).1) next rest)

abbrev IsFresh : Node → Type 0
IsFresh s = IsRight s × (s.task_recv_counter ≡ 0)

pull_tasks-IsRight :
    (c : Setup) (now : ℕ) (ps : List Polled) (s : Node)
    → All IsProperPoll ps
    → IsFresh s
    → IsRight (pull_tasks c now ps s).1
unfolding pull_tasks
pull_tasks-IsRight c now ps s proper h =
    pull_loop-IsRight c ps _ proper (h.0.0, subst (λ n. IsCountedWith n s) h.1 h.0.1)

start_first-IsFresh : (c : Setup) (s : Node) → IsFresh s → IsFresh (start_first c s).1
unfolding start_first
start_first-IsFresh c s h =
    let result =
      add_worker c.os (plain_options c.options) (str s.worker_map.worker_id_counter) (own_type c)
        s.worker_map in
    let books = add_worker-Books c.os _ _ _ s.worker_map h.0.0 in
    elim (Result-cases result.0) [
      | inl (procs, e) ↦ rw e ((books, h.0.1), h.1)
      | inr (x, e) ↦ rw e ((books, h.0.1), h.1)
    ]

pub data Event : Type 0 where
  turns : Polled → Event
  puts_report clears_deltas feeds : Event
  pushes : (late : Bool) → Event

abbrev pub IsProperEvent : Event → Type 0
IsProperEvent (turns p) = IsProperPoll p
IsProperEvent _ = Unit

module _ (c : Setup) where
  unfoldable pub step_node : Event → Node → Node
  unfolding turn_node
  step_node (turns p) s = (turn_node c p s).1
  step_node puts_report s = put_report s
  step_node clears_deltas s = clear_deltas s
  step_node feeds s = feed s
  step_node (pushes late) s = push_round c late s

  unfoldable pub run_node : List Event → Node → Node
  unfolding step_node
  run_node [] s = s
  run_node (e ∷ es) s = run_node es (step_node e s)

  gather_item-IsRight : (s : Node) → IsRight s → IsRight (gather_item s)
  unfolding gather_item
  gather_item-IsRight s h = elim (Option-cases (get_ready s.pending_result_queue)) [
    | inl e ↦ rw (e, gather_item) h
    | inr (x, e) ↦ rw (e, gather_item) h
  ]

  step_node-IsRight : (e : Event) (s : Node) → IsProperEvent e → IsRight s → IsRight (step_node e s)
  unfolding step_node put_report clear_deltas feed push_round send_items
  step_node-IsRight (turns p) s proper h = turn_node-IsRight c p s proper h
  step_node-IsRight puts_report s proper h = h
  step_node-IsRight clears_deltas s proper h =
      if_both IsRight (is_empty s.task_status_deltas) s _ h h
  step_node-IsRight feeds s proper h = h
  step_node-IsRight (pushes late) s proper h =
      let same = gather_item-IsRight s h in if_both IsRight _ _ (gather_item s) same same

  run_node-IsRight :
      (es : List Event) (s : Node) → All IsProperEvent es → IsRight s → IsRight (run_node es s)
  unfolding run_node
  run_node-IsRight [] s proper h = h
  run_node-IsRight (e ∷ es) s proper h =
      run_node-IsRight es (step_node e s) proper.1 (step_node-IsRight e s proper.0 h)

  init_node-IsRight : IsRight (init_node c)
  unfolding init_node get?
  init_node-IsRight = (
    init-Books (max_worker_count c) c.available_accelerators,
    record { known = λ id t e. absurd (cc); covers = λ t. omega arith; adds_up = omega int_laws },
  )

  -- After any history of a new manager in which no worker registers under the name of the free slots,
  -- the worker map's books are right, every task's type has a count, no count is below the number of
  -- tasks that are noted with the type, and the counts add up to the tasks that came and are not done.
  pub run_node-init-IsRight :
      (es : List Event) → All IsProperEvent es → IsRight (run_node es (init_node c))
  run_node-init-IsRight es proper = run_node-IsRight es (init_node c) proper init_node-IsRight

  pull_after :
      (now : ℕ) (ps : List Polled) (r : Result (Unit {0})) (s : Node)
      → All IsProperPoll ps
      → IsFresh s
      → IsRight (and_then r (λ _. pull_tasks c now ps) s).1
  pull_after now ps (return _) s proper h = pull_tasks-IsRight c now ps s proper h
  pull_after now ps (raise e) s proper h = h.0

  -- The manager's program: whatever the turns of its loop find, as long as no worker registers under
  -- the name of the free slots, what it leaves, by an exception too, has right books.
  pub start_node-IsRight :
      (now : ℕ) (ps : List Polled)
      → All IsProperPoll ps
      → IsRight (start_node c now ps (init_node c)).1
  unfolding start_node
  start_node-IsRight now ps proper =
      let fresh : IsFresh (init_node c) = unfold init_node in (init_node-IsRight, refl) in
      let first : Action Node (Unit {0}) = if is_hard c then start_first c else pure tt in
      let started : IsFresh (first (init_node c)).1 =
        if_both (λ (act : Action Node (Unit {0})). IsFresh (act (init_node c)).1) (is_hard c) _ _
          (start_first-IsFresh c (init_node c) fresh) fresh in
      pull_after now ps (first (init_node c)).0 (first (init_node c)).1 proper started
