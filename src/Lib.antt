-- ===== src/Lib.antt =====
-- Alfred is an assistant that runs turns of a language model with tools. This library models its
-- scheduler (src/scheduler), the part that runs tasks on its own, later and again: reminders, turns
-- of the agent, watches and event subscriptions; and smaller parts that keep state or decide: the
-- approvals of tools, the operations of a session, the work queue, the provider router, the
-- dispatcher of agent events, the store of blobs, and the store of runs with the channel through
-- which their events are written.
--
-- The parts, and how they interact. The engine asks the task store for the tasks that are due,
-- claims one, and hands it to an executor; the executor ends the cycle by a call of the task store.
-- The task store keeps all tasks in one JSON file, which several processes may open: each mutation
-- takes a lock file, reads the file, checks it against the schema, changes it, redacts and checks the
-- result, and writes it. A delivery store remembers which notification has been sent for which cycle.
--
--   Base                 shared helpers: Boolean tests, results, lists, text.
--   Scheduler/Model      constants.ts and the shapes of schemas.ts and types.ts.
--   Scheduler/Schema     the checks and trims of schemas.ts; `parse_snapshot` is the schema's parse.
--   Scheduler/TaskStore  taskStore.ts, its mutations and listings, each a function of the clock and
--                        of the snapshot: claim, nudge, markRunning, renewLease, completeCycle,
--                        failCycle, cancel, reconcile, listAll, listForOwner, listDue.
--   Scheduler/Create     taskStore.ts, create, with its own schema.
--   Scheduler/Disk       taskStore.ts, readSnapshot, mutate, quarantine and redactSnapshot; `run` is a
--                        sequence of calls of the store, made by any processes, one at a time.
--   Scheduler/Lock       taskStore.ts, tryAcquireLock, readLock and releaseLock: a step is one file
--                        operation of one process, a history is a list of steps.
--   Scheduler/Deliveries deliveryStore.ts, its mutations, and (File) its file and its lock.
--   Scheduler/Reminder   reminder.ts.
--   Scheduler/Watch      watch.ts, probes/herdrAgentProbe.ts and execution.ts.
--   Scheduler/Engine     engine.ts: schedule, handleAgentEvent, recover, the loop of tick,
--                        (Cycle) runClaim, and (Timers) start, stop and armTimer, where a step
--                        is what runs between two awaits.
--   Scheduler/Samples, Scheduler/Tests  data and the theorems at concrete inputs.
--   Runtime/Approvals    src/runtime/toolApprovalStore.ts.
--   Runtime/Threads      src/runtime/threadRuntime.ts: a step is what runs between two awaits.
--   Workers              src/workers/inMemoryQueue.ts.
--   Providers/Router     src/provider/router.ts.
--   Runs/Channel         src/runs/eventChannel.ts: a step is what runs between two awaits.
--   Runs/Journal         src/runs/storage/jsonFileRunStorage.ts: the journal of changes of a session.
--   Runs/Store           src/runs/runStore.ts: the records of runs and their mutations.
--   Runs/History         src/runs/runStore.ts: listHistory and createRun.
--   Channels/Blobs       src/channels/blobStore.ts: put, get, getMetadata, and the eviction of the
--                        least recently used blobs.
--   Events               src/agentEvents/dispatcher.ts and schema.ts.
--
-- How the model stands to the code. Instants are milliseconds since the epoch, and natural numbers.
-- A stamp as the caller gives it is canonical, readable in another form, or unreadable. Text is the
-- native string, counted in UTF-16 units as JavaScript counts it. The Zod library, String.trim and the
-- uuid test are the record `Zod`; `redact` is a function on text; the notifier is a function from the
-- number of sends before to an answer. The clock's value is an argument of each operation, read once
-- where the code reads it twice within one synchronous step. An operation that throws returns `err`.
--
-- Loops are recursion on lists, or on the number of attempts that the code itself bounds
-- (at most ten for a reminder, 200 for the lock of the deliveries). The loop of tick takes the
-- list of what the world does in each round: the clock, what fails, what others change; one round more
-- than there are pending tasks is enough where nothing fails. The eviction of blobs takes fuel, one
-- unit more than there are entries in the index.
--
-- What fails is an argument: where the engine calls the store, which may fail for its lock or its file,
-- or the run log, or the lookup of a run, the record or function of faults says which calls do
-- (TickRound, RunLookup and `unavailable`, ClaimFaults); what such a failure leaves in the file is in
-- Scheduler/Disk.
--
-- Not modelled: the terminal summaries and the task run log, which are written beside the task file
-- and never read by it; file modes and fsync; errors of the file system other than a missing or an
-- existing file; the engine's renewal of leases; the schema's parse of a
-- new delivery, beside that of the whole file; the map of the sessions' thread runtimes; the probes of
-- files and runs; the files of run events and what is
-- read from them; and every part of the repository that is not named above.
mod Base
pub mod Scheduler
pub mod Runtime
pub mod Providers
pub mod Workers
pub mod Events
pub mod Channels
pub mod Runs
