-- ===== src/Lib.antt =====
-- Verification of GapForge (src/gapforge), a research service that finds business opportunities.
--
-- The program keeps missions, runs and tasks in PostgreSQL. A run has a graph of tasks; workers admit
-- one run at a time, claim its tasks under leases, call a handler, and report. Handlers collect public
-- posts through bounded HTTP clients, fetch approved pages, and ask providers under admission leases.
-- What they find becomes opportunities with a lifecycle, scores and a gated validation decision.
--
-- Files and the code that they model:
-- - Common, Json, Rows: what Python's built-ins, its exceptions, JSON columns and keyed tables mean here.
-- - Queue/Model: the rows ResearchRun, ResearchTask, ProviderCallLease of src/gapforge/storage/models.py.
-- - Queue/Retry: src/gapforge/queue/retry.py.
-- - Queue/Repository: DurableQueue of src/gapforge/queue/repository.py. Claim has enqueue, claim and
--   _expire_overdue_runs; Writes has checkpoint, renew_lease, succeed, fail and _renew_owned_task.
-- - Queue/Control: RunController of src/gapforge/queue/control.py. Admit has start, admit_next and
--   consume_budget; Finalize has finalize_if_idle.
-- - Queue/ProviderCalls: ProviderCallJournal and DurableAgentCallAdmission of the same file.
-- - Worker: src/gapforge/worker/runtime.py. Payload has the limits of a result, Runtime the registry
--   and Worker.run_once.
-- - Analysis: Lifecycle models src/gapforge/analysis/lifecycle.py and the merge decisions of
--   analysis/clustering.py; Gates models the decision of src/gapforge/scoring/engine.py.
-- - Collect: Body and Request model bounded_request_json of src/gapforge/collectors/base.py, Fetch
--   models src/gapforge/security/static_fetch.py.
-- - Semantic: AuditedSemanticReasoner of src/gapforge/integration/semantic.py. Model has the results
--   and the audit row AgentCall, Admission _admit, _reconcile_stale_attempts and the heartbeat, Audit
--   _audit_and_release and _replay, Boundary _normalize_provider_result, Calls run, _execute_attempt
--   and _repair.
-- - Reports: src/gapforge/reports/artifacts.py. Store has the files and the pointer, Publish
--   persist_run as the sequence of its replacements, with every point where it can be interrupted.
-- - Stages: the reservations of src/gapforge/integration/evidence_store.py (Reserve, Charging,
--   Reserved), what commit_stage writes to the rows of the queue (Commit), and what is read of a
--   stage (Loading).
-- - Planning: Windows and Allocation model the windows and the signal budget of
--   src/gapforge/research/query_planning.py, and the checks of src/gapforge/analysis/critic.py and
--   src/gapforge/analysis/hypotheses.py that need no text search.
--
-- An operation on the database is a function from the tables to the tables or an exception; an
-- exception commits nothing. `Queue.Steps.Step` is one committed transaction on the rows of the queue:
-- of DurableQueue, RunController and the call limiter; of a pipeline stage, which under its lease may
-- write any checkpoint and counters; and of the reasoner on the leases of provider calls, which may
-- leave any. A reservation (Stages/Histories) and an admission (Semantic/Transactions) are histories
-- of such steps. `Reach` is a history of steps, so a statement over `Reach` covers every interleaving
-- of these. Not among the steps is the cancellation that ends a credentialed smoke test
-- (src/gapforge/smoke.py). The clock, fresh ids and the rows that other transactions have locked are
-- arguments. A worker's turn is a sequence of transactions between which the others' transactions run.
--
-- Numbers: moments and durations are microseconds in the native numbers; database integers that may
-- be negative are integers. A retry delay is counted in ticks of 1/262140 second, in which the
-- source's float is whole up to its rounding. Scores are counted in units of 2 ** -1074, of which
-- every finite float is a multiple. Loops are structural: attempts, redirects, chunks and heartbeats
-- are lists or counted down from the source's own bounds, so no fuel is needed.
--
-- Parameters: SHA-256, json and pydantic conversions (Codec), what a JSONB column gives back, float
-- and text parsing, DNS, URL splitting, address classes, the HTTP client, the text of a page, the
-- handlers of tasks, and the provider of semantic calls with the hashes and UUIDs of a call, the
-- text of a report and the JSON of the pointer to it.
--
-- Not modelled: SQL storage of evidence and its conversions (the rest of integration, storage), the
-- evidence pipeline (runtime), provider processes, source-specific collectors, the text of reports,
-- backup, health, the command line and configuration, which are mostly I/O and glue; the trend
-- classification, the independence metrics and the scoring arithmetic.
pub mod Common
pub mod Json
pub mod Rows
pub mod Queue
pub mod Worker
pub mod Semantic
pub mod Analysis
pub mod Collect
pub mod Planning
pub mod Reports
pub mod Stages
