-- ===== src/Lib.antt =====
-- The task system and the tag decisions of edub-kushim, as functions on values.
--
-- The program consumes documents through tasks. Tasks stand in batches; a batch is claimed under a
-- lease by one execution, its tasks are claimed, completed or failed under that lease, and the batch
-- is settled when no task of it is left to run. A completed task may activate successors, a settled
-- batch may create the batch that it declared, and task types exclude each other by named locks. The
-- tags that documents get pass through pinned decisions about admission, promotion and composition.
--
-- Parts and files:
--   * Types: internal/types/registry.go, the vocabulary: origins, statuses, task types (here with the
--     names of the constants) and the locks that each type holds and waits for.
--   * Task.Db: the tables batch, batch_owner, system_signal and task as one record, and the queries of
--     internal/database/batch.sql.go, task.sql.go and lock.sql.go on it, one function per query.
--     Task.Db.Cascade has the recursive queries over successor links.
--   * Task.Locks: internal/task/locks.go.
--   * Task.Batch: internal/task/batch.go. Settling has ClaimBatch, SettleBatch with
--     createFollowUpBatch, and PauseBatch; Moving has resetProcessingTx, ResumeBatch, CancelBatch and
--     FailUnstartedBatch.
--   * Task.Store: internal/task/store.go: ClaimNextPending, CompleteTask, FailTask, and the activation
--     of waiting successors.
--   * Task.Successors: internal/task/successors.go, the plans for waiting successors, on the decoded
--     view of JSON in Task.Json; Task.Catalog: internal/task/type_definition.go.
--   * Task.Enqueue: internal/task/enqueue.go, the checks and the transaction of EnqueueBatch.
--   * Task.Runner: internal/task/execute.go, Runner.Next from the claim of a task to the settle of its
--     batch. Task.Run: RunBatch of the same file; Monitor has the drain of internal/database/migrate.go and
--     the monitor loop, Workers the worker counts. Their other children are proofs.
--   * Task.Lifecycle: every operation above as one step on the tables, and the diagram of batch
--     statuses that the steps follow.
--   * Tags.Admission and Tags.Composition: internal/tags/decision.go and the composition holds and
--     actions of internal/tags/identity.go.
--   * Tags.Names: names as bytes, with what strings.Fields, strings.Join and strings.CutSuffix do.
--   * Tags.Identity: internal/tags/identity.go. Roman has parseRoman and renderRoman; Forms HouseForm,
--     VariantClass, ProposedFold and PreferCanonical; Distance boundedEditDistance; Anchors the folds
--     onto store names; Plan PlanDeterministic and DropTagNames. Numerals, Parsing, Levenshtein, Reach,
--     Folding, Canonical and Evidence are proofs.
--   * Tags.Atomicity: internal/tags/atomicity.go, the parts of a compound, its greedy cover and the time
--     designations. Tags.Completeness: internal/tags/completeness.go, what the segments of a compound
--     cover; it resolves words by Tags.Identity.Anchors.
--   * Ops.Launch, Ops.Backoff and Ops.Dispatcher: internal/ops/dispatch/launcher.go and dispatcher.go,
--     the executor of a batch, the memory of failed launches, and the sweep. Ops.Reaper:
--     internal/ops/queue/reaper.go, the recovery of stale leases. A recovery has a world beside it,
--     as a run has.
--   * Ops.Schedule: Slots has internal/backup/scheduler.go, Times and Windows the polling windows of
--     internal/config/config.go, and Entries internal/ops/queue/scheduler.go.
--   * Tags.Worklist: internal/tags/worklist.go, the review worklists of a measurement sweep, over the records of
--     internal/tags/evidence.go; the order of the ratios and the cuts are parameters.
--   * Tags.Algebra: internal/tags/algebra.go, document sets and the readings on them; division of
--     floats is a parameter.
--   * Base: helpers shared by all of these. Examples: small tables and runs.
--
-- How the code is read. Ids, uuids and tokens are compared only by equality and are numbers; the
-- ids that uuid.New draws are a stream given as an argument. A function of the Go code that runs
-- in a transaction maps tables to tables, and its error paths, which return without a commit,
-- give the tables unchanged. A function is one step: no other connection writes between its reads
-- and its commit. Errors of the connection itself are not modelled. The database clock `now`
-- counts seconds and is constant in a transaction. What the operating system answers (is the
-- process alive, did SIGTERM arrive) is an argument, and so are the texts that fmt and SQL
-- format. A stored JSON value is the value that encoding/json reads, with each key once. The task
-- table is a list in insertion order, which is the order of created_at, id. pg_notify, log lines
-- and row locks have no effect on the tables. Of a task type's definition the model keeps the
-- fields that these files read.
--
-- A run has others beside it: what they write between two of its own transactions, and while a handler
-- works, is an argument that maps tables to tables, and which writes of a run or of a recovery the database
-- refuses are arguments too, those of the teardown included. A monitor is the list of what its ticks saw;
-- where the list ends before a turn that decides, the run has no result yet. Instants are nanoseconds of local time without zone transitions.
--
-- Bounds: the recursive queries run as many rounds as the task table has rows, which is enough since a
-- row leaves the searched status in the round that reaches it. A row of renderRoman is written at most as
-- often as the number is large, and a number has at most as many decimal digits as its value plus one.
-- The search for the next time of a schedule has a step for each nanosecond up to the instant and one more.
--
-- Of tag identity, the dictionary, the stemmer, the tag-name grammar of internal/textnorm (Unicode tables)
-- and the generated table of attested folds are arguments; a Go map is a list of its entries, visited in the
-- order of the list. Of dispatch, the uuids and whether a command starts are arguments.
--
-- Not modelled: handlers, services, the settings beside the polling windows, the daemon's timers, the sweeps over tags, the enrichment by
-- language models, and the clients: they are transport and orchestration around these parts, and need
-- the network, files or native libraries.
pub mod Ops
pub mod Examples
pub mod Base
pub mod Types
pub mod Task
pub mod Tags
