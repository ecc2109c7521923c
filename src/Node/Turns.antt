-- ===== src/Node/Turns.antt =====
-- What a turn of the main loop does to the manager's books.
use func_x.Prelude.{
  ℕ, ◌+◌, ◌≡◌, refl, sym, String, Option, none, some, List, [], ◌∷◌, arith, Bool-cases, length, inl,
  inr, ltb, if_both,
}
use mathlib.Core.Path.{subst}
use func_x.WorkerMap.Books.{Books}
use func_x.Node.{Setup, NodeTask, Node}
use func_x.Node.Workers.{WorkerMessage}
use func_x.Node.Cancel.{task_cancel}
use func_x.Node.Scheduling.{schedule}
use func_x.Node.Turn.{
  FromInterchange, stop, cancel_task, heartbeat_code, task_batch, Flow, goes_on, continues, breaks,
  Polled, advertise, take_in, take_in_all, take_batch, handle_incoming, no_incoming, receive,
  poll_worker, after_receiving, turn_node,
}
use func_x.Node.Counted.{IsRight, IsCounted, Keeps, then-IsRight, add-IsCounted}
use func_x.Node.Kept.{task_cancel-Keeps, IsProper, poll_funcx_task_socket-IsRight, schedule-Keeps}

abbrev pub IsCountedWith : ℕ → Node → Type 0
IsCountedWith received s =
    IsCounted s.outstanding_task_count s.task_type_mapping s.task_done_counter received

take_in_all-IsRight :
    (tasks : List (String × NodeTask)) (received : ℕ) (s : Node)
    → Books s.worker_map
    → IsCountedWith received s
    → Books (take_in_all tasks s).worker_map
      × IsCountedWith (received + length tasks) (take_in_all tasks s)
unfolding take_in_all take_in
take_in_all-IsRight [] received s b h = (b, subst (λ n. IsCountedWith n s) (omega arith) h)
take_in_all-IsRight ((t, task) ∷ tasks) received s b h =
    let (b', h') =
      take_in_all-IsRight tasks (received + 1) (take_in t task s) b
        (add-IsCounted t task.task_id s.outstanding_task_count s.task_type_mapping _ received h) in
    (b', subst (λ n. IsCountedWith n (take_in_all tasks (take_in t task s))) (omega arith) h')

take_in_all-received :
    (tasks : List (String × NodeTask)) (s : Node)
    → (take_in_all tasks s).task_recv_counter ≡ s.task_recv_counter
unfolding take_in_all take_in
take_in_all-received [] s = refl
take_in_all-received ((t, task) ∷ tasks) s = take_in_all-received tasks (take_in t task s)

take_batch-IsRight :
    (tasks : List (String × NodeTask)) (s : Node) → IsRight s → IsRight (take_batch tasks s)
unfolding take_batch
take_batch-IsRight tasks s h =
    let begun = record s { task_recv_counter = s.task_recv_counter + length tasks } in
    let (b, counted) = take_in_all-IsRight tasks s.task_recv_counter begun h.0 h.1 in
    (
      b,
      subst (λ n. IsCountedWith n (take_in_all tasks begun))
          (sym (take_in_all-received tasks begun)) counted,
    )

handle_incoming-Keeps : (c : Setup) (m : FromInterchange) → Keeps (handle_incoming c m)
unfolding handle_incoming
handle_incoming-Keeps c stop s h = h
handle_incoming-Keeps c (cancel_task id) s h =
    then-IsRight (task_cancel c id s).0 _ _ (λ finished s h. h) (task_cancel-Keeps c id s h)
handle_incoming-Keeps c heartbeat_code s h = h
handle_incoming-Keeps c (task_batch tasks) s h = take_batch-IsRight tasks s h

no_incoming-Keeps : (c : Setup) (now : ℕ) → Keeps (no_incoming c now)
unfolding no_incoming
no_incoming-Keeps c now s h =
    elim (Bool-cases (ltb (s.last_interchange_contact + c.heartbeat_threshold) now)) [
      | inl e ↦ rw (e, no_incoming) h
      | inr e ↦ rw (e, no_incoming) h
    ]

receive-Keeps : (c : Setup) (m : Option FromInterchange) (now : ℕ) → Keeps (receive c m now)
unfolding receive
receive-Keeps c none now s h = no_incoming-Keeps c now s h
receive-Keeps c (some m) now s h = handle_incoming-Keeps c m _ h

after_receiving-Keeps : (c : Setup) (p : Polled) (flow : Flow) → Keeps (after_receiving c p flow)
after_receiving-Keeps c p goes_on s h =
    then-IsRight (schedule c p.draws p.now s).0 _ _ (λ _ s h. h)
      (schedule-Keeps c p.draws p.now s h)
after_receiving-Keeps c p continues s h = h
after_receiving-Keeps c p breaks s h = h

-- No worker registers under the name of the free slots.
abbrev IsProperFor : Option (String × WorkerMessage) → Type 0
IsProperFor none = Unit
IsProperFor (some (w, m)) = IsProper m

abbrev pub IsProperPoll : Polled → Type 0
IsProperPoll p = IsProperFor p.worker

advertise-IsRight : (c : Setup) (s : Node) → IsRight s → IsRight (advertise c s)
unfolding advertise
advertise-IsRight c s h = if_both IsRight _ _ s h h

poll_worker-IsRight :
    (worker : Option (String × WorkerMessage)) (now : ℕ) (s : Node)
    → IsProperFor worker
    → IsRight s
    → IsRight (poll_worker worker now s)
unfolding poll_worker
poll_worker-IsRight none now s p h = h
poll_worker-IsRight (some (w, m)) now s p h = poll_funcx_task_socket-IsRight w m now s p h

pub turn_node-IsRight :
    (c : Setup) (p : Polled) (s : Node) → IsProperPoll p → IsRight s → IsRight (turn_node c p s).1
unfolding turn_node
turn_node-IsRight c p s proper h =
    let begun = poll_worker p.worker p.now (advertise c s) in
    then-IsRight (receive c p.incoming p.now begun).0 _ _ (λ flow. after_receiving-Keeps c p flow)
      (receive-Keeps c p.incoming p.now begun
        (poll_worker-IsRight p.worker p.now (advertise c s) proper (advertise-IsRight c s h)))
