-- ===== src/Lib.antt =====
-- The core of the specialists runtime: the epics that a coordinator drives, the activations that
-- write to a workspace, the messages between them, and the in-process jobs.
--
-- Parts and how they interact. A job (src/specialist/supervisor.ts) has a status row. Jobs form
-- chains, and chains an epic: the readiness of an epic is computed from the rows of its jobs and the
-- texts of its reviewers, and decides whether its stored state moves. An activation takes the writer
-- lease of a workspace before it may mutate it; a lease whose holder cannot be verified is resolved
-- by a recorded reconciliation alone. Participants exchange messages over a transport in memory, and
-- over durable records that a poll reads. A node runs a coordinator and its members as jobs: its
-- supervisor polls their rows and hands them actions. The first prompt of a job is its template. Jobs
-- whose process is gone are found by an audit and by a report of stale jobs.
--
-- Files and code.
--   Common: tests, lists, maps, sorting and texts. A `Map` is an association list in the order of
--     insertion (Common/Dict), `sort` by a number is a stable insertion sort (Common/Sorting), a text
--     is matched by its code points (Common/Text).
--   Job: `SupervisorStatus`, `isPidAlive` and `isJobDead` of src/specialist/supervisor.ts.
--   Epic/Lifecycle: src/specialist/epic-lifecycle.ts. Epic/Readiness: the evaluation of
--     src/specialist/epic-readiness.ts, with the verdict of a reviewer (Verdict), a chain (Chains) and
--     an epic (Derive). Epic/Database: the tables of src/specialist/observability-sqlite.ts that the
--     epics use. Epic/Stored: `loadEpicReadinessSummary` and `syncEpicStateFromReadiness`.
--     Epic/Reconciler: src/specialist/epic-reconciler.ts, `syncEpicState` and (Abandon) `abandonEpic`.
--   Activation/Lease: src/activation/workspace-lease.ts; Admission has its tool calls.
--     Activation/Reconcile: src/activation/workspace-reconcile.ts.
--   Activation/Interaction: src/activation/interaction.ts. Activation/PendingStore:
--     src/activation/transport/pending-store.ts, and in Views src/activation/transport/polling.ts.
--   JobRegistry: src/specialist/jobRegistry.ts; Sessions has its asynchronous methods.
--   CircuitBreaker: src/utils/circuitBreaker.ts. SourceQueue: src/specialist/source-queue.ts. JobControl:
--     `waitForTerminal` of src/specialist/job-control.ts. SnapshotDiff:
--     src/specialist/snapshot-diff.ts. BeadGate: src/activation/bead-gate.ts, the gate that a task
--     passes before an activation starts. Its Headings has the forms in which a heading is written.
--   Node: src/specialist/node-contract.ts (States) and `NodeSupervisor` of
--     src/specialist/node-supervisor.ts. Node/Actions has the dispatch of actions to the members of a
--     node (Drain, Dispatch, Acknowledge), its interleavings (Runs) and what `bootstrap` makes of the
--     events of an earlier process (Recovery, and Boot for the start of a run). Node/Round has the
--     loop of `run`: the poll of the members (Poll), the coordinator (Coordinator) and the loop with
--     its `catch` (Loop). One `World` is what the store, the clock and the controllers answer in one
--     round. Both parts share the members and the status, and the poll acknowledges the actions that
--     the dispatch wrote.
--   JobAudit: src/specialist/dead-job-audit.ts, on the rows that `listStaleSpecialistJobs` of
--     src/specialist/observability-sqlite.ts selects. StaleJobs: `collectStaleSpecialistJobs` of
--     src/specialist/process-health.ts, with what it reads of a process as an argument.
--   TaskPrompt: src/specialist/templateEngine.ts (Template) and src/specialist/task-prompt.ts, the
--     template of a task with its variables, and the skills before it (Skills).
--
-- State and time. A component's state is a record, an operation a function from it to the next one,
-- and an error is a value of the result. A file or a row that other processes write is part of the
-- state: `acquire` takes the files that it inspected and those that it then writes to. An asynchronous
-- method is split where it awaits, and a step relation (Interaction/Served, PendingStore/Delivery,
-- JobRegistry/Runs, Node/Actions/Runs) lets any other call run in between. A run of the dispatch of a
-- node ends at the clean-up of its jobs. The clock, fresh ids, the probe of
-- processes, the path of a lease and the outcome of a delivery are arguments.
--
-- Numbers and fuel. Times, pids and counts are natural numbers; none of the modelled code wraps them.
-- Two loops have no structural bound, the wait for a reply (Views/Waiting) and the wait for a terminal
-- status (JobControl): their fuel is any number above the milliseconds to the deadline, since each
-- round lasts at least one. Without a deadline the second loop may never end. The loop of a node takes
-- one round for each element of a list of what the rounds see, so every prefix of a run is a list.
--
-- Not modelled: processes, sockets, terminals, git, the SQL of other tables, the coding agent and its
-- protocol, the schemas and the command line. The texts of refusals and summaries are kept only as
-- far as other code reads them. A letter beyond ASCII is not folded; no pattern has one. Left out of
-- modelled operations: a reconciliation reads and removes a lease file in one step, so that no other
-- process comes in between; an audit writes the time of the audit, where the code reads the clock
-- again; the stable text of a row of a snapshot and the test of it are arguments, and no row is empty.
mod Common
pub mod Job
pub mod Epic
pub mod Activation
pub mod JobRegistry
pub mod CircuitBreaker
pub mod SourceQueue
pub mod JobControl
pub mod SnapshotDiff
pub mod BeadGate
pub mod Node
pub mod JobAudit
pub mod StaleJobs
pub mod TaskPrompt
