-- ===== src/Node/Reports.antt =====
-- The two other threads of a manager: `_status_report_loop`, and `push_results` with the queue
-- between them and the main loop.
use func_x.Prelude.{
  ◌+◌, Bool, ◌&&◌, ◌||◌, not, Option, none, some, List, [], ◌∷◌, ◌++◌, length, is_empty, leb,
  if◌then◌else◌,
}
use func_x.Prelude.Dict.{Dict}
use func_x.Htex.{TaskTransition}
use func_x.Node.{Setup, Node, Pending, report, live_report, max_worker_count}

-- The two halves of a round of `_status_report_loop`, between which the other threads may run.
unfoldable pub put_report : Node → Node
put_report s = record s {
  pending_result_queue = s.pending_result_queue ++ live_report s.switch_count ∷ [];
}

unfoldable pub clear_deltas : Node → Node
clear_deltas s = if is_empty s.task_status_deltas then s else record s { task_status_deltas = [] }

-- The queue's own thread serializes the objects on it, in their order.
abbrev pub serialize_first : Dict (List TaskTransition) → List Pending → List Pending
serialize_first deltas [] = []
serialize_first deltas (live_report n ∷ queue) = report deltas n ∷ queue
serialize_first deltas (x ∷ queue) = x ∷ serialize_first deltas queue

unfoldable pub feed : Node → Node
feed s = record s {
  pending_result_queue = serialize_first s.task_status_deltas s.pending_result_queue;
}

-- `pending_result_queue.get` in time; an object that is not serialized yet cannot be had.
abbrev pub get_ready : List Pending → Option (Pending × List Pending)
get_ready [] = none
get_ready (live_report n ∷ queue) = none
get_ready (x ∷ queue) = some (x, queue)

-- Reports go to the front of the batch.
abbrev pub place_item : Pending → List Pending → List Pending
place_item (report deltas n) items = report deltas n ∷ items
place_item x items = items ++ x ∷ []

unfoldable pub gather_item : Node → Node
gather_item s = elim (get_ready s.pending_result_queue) [
  | none ↦ s
  | some (x, queue) ↦ record s { pending_result_queue = queue; items = place_item x s.items }
]

-- The batch is sent if it is long enough, or after the period (`late`); an empty one is not.
unfoldable pub send_items : Setup → Bool → Node → Node
unfolding max_worker_count
send_items c late s =
    if (leb (c.queue_size + max_worker_count c) (length s.items) || late) && not (is_empty s.items)
    then record s { result_outgoing = s.result_outgoing ++ s.items ∷ []; items = [] }
    else s

-- A round of `push_results`.
unfoldable pub push_round : Setup → Bool → Node → Node
unfolding gather_item send_items
push_round c late s = send_items c late (gather_item s)
