-- ===== src/Lib.antt =====
-- Models of the Globus Compute (funcX) endpoint and SDK.
--
-- An endpoint takes tasks off a queue, gives them to an engine, and puts their results on another
-- queue. In the engine for containers (engines/high_throughput) an interchange hands tasks to
-- managers, one per node, and a manager hands them to the worker processes that it starts and
-- stops. All paths below stand under compute_endpoint/globus_compute_endpoint/, or under
-- compute_sdk/globus_compute_sdk/ where the SDK is named.
--
-- The files:
-- - Prelude.antt and its children: what the others share. Python's dicts are association lists
--   with their order (Prelude/Dict), exceptions and methods that change an object are results
--   that come with the state they leave (Prelude/Python), integers that can be negative are
--   Prelude/Int, `str` of a natural number is Prelude/Decimal.
-- - WorkerMap.antt: class WorkerMap of engines/high_throughput/worker_map.py, a record with a
--   function per method; Launch has add_worker and spin_up_workers, Choose has spin_down_workers,
--   get_next_worker_q and advertisement. Books is what has to hold of the counts, Run the
--   histories of calls. The file's operating system calls (exists, join, Popen) are the parameter
--   `os`, and random.shuffle is the parameter `shuffle`.
-- - Dispatch.antt: engines/high_throughput/interchange_task_dispatch.py, get_tasks_hard and
--   get_tasks_soft; Rounds has dispatch and naive_interchange_task_dispatch. Fetching and Loops
--   are a proof rule for the fetch loops, Progress and Service what one call and one manager's
--   turn do. The loops run on the capacity, which goes down by one in a round, so no fuel is
--   needed. A dict of sets of task ids keeps the ids as lists without repetition.
-- - Serialize.antt: the SDK's serialize/base.py, concretes.py and facade.py: chomp, the
--   strategies with their identifiers, CombinedCode, and ComputeSerializer's methods. A text is a
--   list of code points. Buffers has the packing, Strategies and Combined what is read back. The
--   unpacking loops run on fuel, for which the length of the text is enough, as every round
--   shortens it.
-- - Scaling.antt: SimpleStrategy of strategies/simple.py, a function from a report and the kill
--   timer to orders and the timer; Kube is KubeSimpleStrategy of strategies/kube_simple.py, Stuck
--   a type that ends its rounds early. Bounds and Idle have what the orders keep to.
-- - Scheduler.antt: naive_scheduler of engines/high_throughput/container_sched.py. The loop that
--   draws types at random runs on the list of draws; Shares has what it hands out and that it can
--   end.
-- - Batch.antt: class Batch of the SDK's sdk/batch.py, over Serialize.antt; Calls has what an
--   added call holds.
-- - Htex.antt: class Interchange of engines/high_throughput/interchange.py: its state, the task
--   puller and the counts; Managers, Cancel, Results and Loop are the sections of the main loop,
--   with the dispatch of Dispatch.antt between them, Blocks is scale_out and scale_in, Status the
--   reports with the SDK's chunk_by. Run has histories, Sound and Sections what holds in all of
--   them, and Lost, Cancelled, Trap, Chunks, Faults and Stray what becomes of managers, tasks,
--   reports, blocks and results.
-- - Watcher.antt: class _ResultWatcher of the SDK's sdk/executor.py: the futures that wait, the
--   results that came, and their matching; futures are a store that is shared with the caller.
--   Connection has the thread's attempts and its end, Run histories with the invariant of
--   Settled, Watching the watched futures, Popping, Matching, Matched and Matches what matching
--   comes to, Attempts and Ends how the thread ends. Attempts has a loop on fuel, for which the
--   attempts that are left are enough.
-- - Submission.antt: class Executor of the same executor.py: how its thread collects tasks into
--   batches, and what submitting a batch does to the futures. Collecting has the batches, Telling
--   and Assigning the answer, Submitting a batch that cannot be filled. The client's batch and
--   its request are parameters.
-- - Node.antt: class Manager of engines/high_throughput/manager.py, which runs on a node over a
--   WorkerMap: its state and bookkeeping. Workers is what it hears of the workers, Cancel the
--   killing of a worker whose task is cancelled, Scheduling the half of a turn that uses
--   Scheduler.antt, Turn the main loop on what its turns find, Reports the threads of the status
--   reports and of the results, with the moment at which the queue between them serializes.
--   Counted, Kept and Turns are its books, Run its histories, Finished a task that is cancelled
--   after its result, with the interchange of Htex.antt, Pushing the results on their way, Race
--   the reports.
-- - Master.antt: class EndpointManager of endpoint/endpoint_manager.py, the multi-user endpoint:
--   its children and the forks. Children is what it does with those that have stopped, Commands
--   what it does with a message, the loop and its end. The identity mapper, the user database,
--   the outcome of each fork and which timestamps have a date are the parameter `World`. Safe,
--   Handling, Reaping and Run are who gets endpoints, Survival what ends the loop.
-- - Publisher.antt: class ResultPublisher of endpoint/rabbit_mq/result_publisher.py: the messages
--   that are published and the futures that await the broker's confirmations. Places and Tracked
--   follow the futures while a channel lasts, Reopened has what becomes of them with the next
--   channel.
--
-- Not modelled: network and broker connections, processes and threads as such, files, logs and the
-- command line; the databases and services that the code calls are parameters where a model needs
-- them. Times are natural numbers on one scale.
pub mod Prelude
pub mod WorkerMap
pub mod Dispatch
pub mod Serialize
pub mod Scaling
pub mod Scheduler
pub mod Batch
pub mod Htex
pub mod Node
pub mod Master
pub mod Publisher
pub mod Watcher
pub mod Submission
