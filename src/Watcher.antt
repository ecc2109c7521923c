-- ===== src/Watcher.antt =====
-- compute_sdk/globus_compute_sdk/sdk/executor.py, class _ResultWatcher: the futures of an executor that
-- wait for results, the results that have come, and their matching. Futures are shared with the
-- caller: they stand in a store, by number. A result's data is read by the serializer, a parameter.
pub mod Connection
pub mod Popping
pub mod Matching
pub mod Matched
pub mod Matches
pub mod Watching
pub mod Settled
pub mod Attempts
pub mod Ends
pub mod Run
mod Tests
use func_x.Prelude.{
  ℕ, ◌+◌, ◌==◌, max, String, Bool, true, false, not, ◌&&◌, ◌||◌, Option, none, some, List, [], ◌∷◌,
  ◌++◌, length, is_empty, if◌then◌else◌,
}
use func_x.Prelude.Dict.{Dict, get?, put, has, remove, keys, ◌=?◌}
use func_x.Prelude.Python.{
  key_error, invalid_state_error, shutting_down_error, Exc, Result, return, raise, Action,
}

pub data Failure : Type 0 where
  task_execution_failed : String → Failure
  malformed : String → Failure
  quit : String → Failure
  unsubmitted : Exc → Failure
  ignored partial : String → Failure

pub data Outcome (V : Type 0) : Type 0 where
  pending cancelled : Outcome V
  finished : V → Outcome V
  failed : Failure → Outcome V

-- ComputeFuture
pub record Future (V : Type 0) : Type 0 where
  pub task_id : Option String
  pub outcome : Outcome V

-- What is read of a Result message.
pub record Received : Type 0 where
  pub is_error : Bool
  pub body : String

-- `acknowledged` and `rejected` are the delivery tags of the acks and nacks that were sent.
pub record Watcher (V : Type 0) : Type 0 where
  pub futures : ℕ → Future V
  pub open_futures : Dict ℕ
  pub received_results : Dict Received
  pub to_ack : List ℕ
  pub time_to_check_results : Bool
  pub open_futures_empty : Bool
  pub time_to_stop : Bool
  pub closed : Bool
  pub connection_tries : ℕ
  pub cancellation_reason : Option String
  pub channel_closes : List ℕ
  pub acknowledged : List ℕ
  pub rejected : List ℕ

-- `d.update(e)`
unfoldable pub update : Dict ℕ → Dict ℕ → Dict ℕ
update d [] = d
update d ((k, v) ∷ e) = update (put k v d) e

-- `self._open_futures.keys() & self._received_results.keys()`, before the set is read.
unfoldable pub common : List String → Dict Received → List String
common [] received = []
common (k ∷ ks) received =
    let rest = common ks received in if has k received then k ∷ rest else rest

-- Every task is a key of the dict, as the tasks are common.
unfoldable pub pop_futures : List String → Dict ℕ → List ℕ × Dict ℕ
pop_futures [] known = ([], known)
pop_futures (k ∷ ks) known =
    let (fs, known') = pop_futures ks (remove k known) in
    elim (get? k known) [ none ↦ (fs, known') | some f ↦ (f ∷ fs, known') ]

abbrev pub latest : ℕ → List ℕ → ℕ
latest n [] = n
latest n (m ∷ ms) = max m (latest n ms)

module _ {V : Type 0} where
  -- `_ResultWatcher.__init__`
  abbrev pub init : (ℕ → Future V) → Watcher V
  init futures = record {
    futures = futures;
    open_futures = [];
    received_results = [];
    to_ack = [];
    time_to_check_results = false;
    open_futures_empty = true;
    time_to_stop = false;
    closed = false;
    connection_tries = 0;
    cancellation_reason = none;
    channel_closes = [];
    acknowledged = [];
    rejected = [];
  }

  abbrev pub is_done : Outcome V → Bool
  is_done pending = false
  is_done cancelled = true
  is_done (finished v) = true
  is_done (failed e) = true

  abbrev pub store : ℕ → Outcome V → (ℕ → Future V) → ℕ → Future V
  store f o futures g = if g == f then record (futures g) { outcome = o } else futures g

  -- `fut.set_result` and `fut.set_exception` of a future that is done raise.
  unfoldable pub set_outcome : ℕ → Outcome V → Action (ℕ → Future V) (Unit {0})
  set_outcome f o futures =
      if is_done (futures f).outcome
      then (raise invalid_state_error, futures)
      else (return tt, store f o futures)

  -- The futures that are to be watched: with a task, not done, not watched yet.
  unfoldable pub to_watch : (ℕ → Future V) → List ℕ → Dict ℕ → Dict ℕ → Dict ℕ
  to_watch futures [] known found = found
  to_watch futures (f ∷ fs) known found = elim (futures f).task_id [
    | none ↦ to_watch futures fs known found
    | some tid ↦
        if (tid =? "") || is_done (futures f).outcome || has tid known
        then to_watch futures fs known found
        else to_watch futures fs known (put tid f found)
  ]

  unfoldable pub watch_for_task_results : List ℕ → Action (Watcher V) ℕ
  watch_for_task_results fs w =
      let found = to_watch w.futures fs w.open_futures [] in
      let known = update w.open_futures found in
      if w.closed then (raise shutting_down_error, w) else (
        return (length found),
        (if is_empty known then w else record w {
          open_futures = known;
          open_futures_empty = false;
          time_to_check_results = w.time_to_check_results || not (is_empty w.received_results);
        }),
      )

  -- A message, if it could be unpacked to a result, with its task.
  unfoldable pub on_message : ℕ → Option (String × Received) → Watcher V → Watcher V
  on_message msg_id none w = record w { rejected = w.rejected ++ msg_id ∷ [] }
  on_message msg_id (some (tid, res)) w = record w {
    received_results = put tid res w.received_results;
    to_ack = w.to_ack ++ msg_id ∷ [];
    time_to_check_results = true;
  }

  -- Acks are sent up to the latest tag.
  unfoldable pub acknowledge : Watcher V → Watcher V
  acknowledge w = elim w.to_ack [
    | [] ↦ w
    | m ∷ ms ↦ record w { acknowledged = w.acknowledged ++ latest m ms ∷ []; to_ack = [] }
  ]

module _ {V : Type 0} (deserialize : String → Result V) where
  -- A result for a future that is done is only logged; a failure for it raises.
  unfoldable pub complete_one : ℕ → Received → Action (ℕ → Future V) (Unit {0})
  complete_one f res futures =
      if res.is_error
      then set_outcome f (failed (task_execution_failed res.body)) futures
      else elim (deserialize res.body) [
        | return v ↦ (return tt, (set_outcome f (finished v) futures).1)
        | raise e ↦ set_outcome f (failed (malformed res.body)) futures
      ]

  unfoldable pub complete : List ℕ → Action (Watcher V) (Unit {0})
  complete [] w = (return tt, w)
  complete (f ∷ fs) w = elim (w.futures f).task_id [
    | none ↦ (raise key_error, w)
    | some tid ↦ elim (get? tid w.received_results) [
      | none ↦ (raise key_error, w)
      | some res ↦
          let (result, futures) = complete_one f res w.futures in
          let w' = record w {
            received_results = remove tid w.received_results;
            futures = futures;
          } in
          elim result [ raise e ↦ (raise e, w') | return _ ↦ complete fs w' ]
    ]
  ]

  -- `shuffle` is the order in which a set is read.
  module _ (shuffle : List String → List String) where
    unfoldable pub match_results_to_futures : Action (Watcher V) (Unit {0})
    match_results_to_futures w =
        let tids = shuffle (common (keys w.open_futures) w.received_results) in
        let (fs, known) = pop_futures tids w.open_futures in
        complete fs (record w {
          open_futures = known;
          open_futures_empty = is_empty known || w.open_futures_empty;
        })

    -- On the thread of the watcher, `shutdown` takes no more futures.
    unfoldable pub event_watcher : Action (Watcher V) (Unit {0})
    event_watcher w =
        let acked = acknowledge w in
        if w.time_to_stop
        then (return tt, record w { closed = true })
        else (if acked.time_to_check_results
            then match_results_to_futures (record acked { time_to_check_results = false })
            else (return tt, acked))
