-- ===== src/Node/Race.antt =====
-- When the queue's thread serializes a status report: before or after `_status_report_loop` clears the
-- transitions that the report is made of.
use func_x.Prelude.{ℕ, ◌≡◌, refl, ap, List, [], ◌∷◌, ◌++◌}
use func_x.Prelude.Dict.{Dict}
use func_x.Htex.{TaskTransition}
use func_x.Node.{Setup, Node, Pending, packed, report, live_report}
use func_x.Node.Reports.{put_report, clear_deltas, feed, serialize_first}
use func_x.Node.Run.{puts_report, clears_deltas, feeds, step_node, run_node}

-- Every entry of the queue is serialized.
abbrev pub AreReady : List Pending → Type 0
AreReady [] = Unit
AreReady (packed r ∷ xs) = AreReady xs
AreReady (live_report n ∷ xs) = ⊥
AreReady (report d n ∷ xs) = AreReady xs

serialize_first-last :
    (d : Dict (List TaskTransition)) (n : ℕ) (xs : List Pending)
    → AreReady xs
    → serialize_first d (xs ++ live_report n ∷ []) ≡ xs ++ report d n ∷ []
serialize_first-last d n [] h = refl
serialize_first-last d n (packed r ∷ xs) h = ap (λ l. packed r ∷ l) (serialize_first-last d n xs h)
serialize_first-last d n (live_report m ∷ xs) h = absurd h
serialize_first-last d n (report e m ∷ xs) h =
    ap (λ l. report e m ∷ l) (serialize_first-last d n xs h)

clear_deltas-eq_of :
    (d : Dict (List TaskTransition)) (s : Node)
    → clear_deltas (record s { task_status_deltas = d }) ≡ record s { task_status_deltas = [] }
unfolding clear_deltas
clear_deltas-eq_of [] s = refl
clear_deltas-eq_of (x ∷ d) s = refl

clear_deltas-eq : (s : Node) → clear_deltas s ≡ record s { task_status_deltas = [] }
clear_deltas-eq s = clear_deltas-eq_of s.task_status_deltas s

-- A round of the status reports on a queue that is serialized: if the queue's thread comes before the
-- transitions are cleared, the report has them; if it comes after, the report has none. No
-- transition is left in either case.
pub report_race :
    (c : Setup) (s : Node)
    → AreReady s.pending_result_queue
    → let early = run_node c (puts_report ∷ feeds ∷ clears_deltas ∷ []) s in
      let late = run_node c (puts_report ∷ clears_deltas ∷ feeds ∷ []) s in
      (early.pending_result_queue
        ≡ s.pending_result_queue ++ report s.task_status_deltas s.switch_count ∷ [])
      × (late.pending_result_queue ≡ s.pending_result_queue ++ report [] s.switch_count ∷ [])
      × (early.task_status_deltas ≡ [])
      × (late.task_status_deltas ≡ [])
unfolding run_node step_node put_report feed
report_race c s h =
    let early = record (put_report s) {
      pending_result_queue =
          serialize_first s.task_status_deltas
            (s.pending_result_queue ++ live_report s.switch_count ∷ []);
    } in
    rw (clear_deltas-eq (put_report s), clear_deltas-eq early)
      (
        serialize_first-last s.task_status_deltas s.switch_count s.pending_result_queue h,
        serialize_first-last [] s.switch_count s.pending_result_queue h,
        refl,
        refl,
      )
