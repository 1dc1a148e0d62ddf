-- ===== src/Lib.antt =====
-- ComputeWeaver plans and runs compute jobs under energy, quota and safety limits. This library
-- models the parts that keep its state and guard its actions, and states what makes them correct.
--
-- The parts, and how they meet. An API keeps versioned resources. A job is admitted against a
-- snapshot of the compute and the quota of its tenant, is given slots by a strategy, the optimizer
-- or the cycles of a controller, moves through the states of its life, waits
-- for the jobs it depends on, and is run by workers that claim rows of a durable queue. A plan
-- moves through a governed life; its risk decides how many people approve it. An action of an
-- approved plan passes the guard, is run at most once under its idempotency key, reaches a gateway
-- through an adapter that checks it again, and is undone by compensation when a later one raises.
-- Every step is written to an audit log that is a chain of hashes.
--
-- Files and code:
--   Base: names, Booleans, lists, signed numbers, dictionaries, results of methods; the transaction of
--     packages/persistence/postgres.py (`tenant_connection`) is `tenant_transaction`.
--   Quota: packages/workloads/quota.py, `QuotaLedger` in memory (configure, reserve, release, usage);
--     Quota/Database: the same over the tables quota_ledgers and quota_reservations; Quota/Service: what
--     the callers of reserve rely on, which both fill.
--   Resources: apps/api/store.py, `ResourceStore` (put, get, list, get_version, history).
--   Audit: packages/observability/audit.py, `AuditLog` in memory; Audit/Database: its append over a
--     database.
--   Risk: packages/risk/classifier.py (classify).
--   Approval: packages/approval/workflow.py, `ApprovalWorkflow` in memory (create, approve, reject,
--     modify, get, list); Approval/Database: the same over approvals and approval_votes.
--   Plans: packages/plans/lifecycle.py, `PlanLifecycle`.
--   JobStates, Dependencies: packages/workloads/state_machine.py (transition; validate_dependency_graph).
--   JobQueue: packages/jobs/queue.py, `PostgresJobQueue` on the rows of durable_jobs.
--   Idempotency: packages/execution/idempotency.py, `IdempotencyStore` in memory; execute_once is the
--     locked blocks begin and finish, with the operation between them. Idempotency/Database: the same
--     over action_executions and action_cancellations.
--   Compensation: packages/execution/compensation.py. ActionGuard: packages/execution/action_guard.py.
--   Adapters: packages/execution/energy.py and packages/execution/compute.py.
--   Admission: packages/admission/service.py. Compute: packages/compute/snapshot.py (build,
--     schedulable_gpu_count) on packages/compute/inventory.py.
--   Scheduling: packages/scheduling/contracts.py (validate_plan); Scheduling/Strategies:
--     packages/scheduling/strategies.py.
--   Optimization: packages/optimization/engine.py (optimize); Steps, Placements, Windows, Returns and
--     Optimality are about its search.
--   Topology: packages/topology/validation.py (validate_graph; in Topology/Descendants also descendants);
--     Topology/Registry: packages/topology/registry.py in memory, and the snapshots of
--     packages/topology/models.py.
--   Mpc: packages/mpc/controller.py (cycle) and state_estimator.py; Mpc/States: its export_state and
--     from_state; Mpc/Horizon: horizon.py, fallback.py, warm_start.py.
--   Policy: packages/policy/engine.py (publish, evaluate) in memory.
--   Forecasting: packages/forecasting/registry.py, `ModelRegistry` in memory; Forecasting/Database: over
--     the table model_versions.
--   Iam: packages/iam/service.py (authorize). Sla: packages/workloads/sla.py.
-- In each folder, Tests runs the definitions on small inputs and applies the results; the other files
-- are named for what they are about.
--
-- How the code is modelled. A method takes the state and returns its result or exception beside the
-- new state, so what was written before a raise stays written. A `with` block of a connection is a
-- transaction: what the pool does to the database when the block raises is a parameter, `Pool`,
-- with the documented rollback as its law. A text is a number, of which only equality, order and
-- emptiness (0) are read; texts that the code spells out are fixed numbers. A Decimal is counted in
-- the unit of its last place (NaN and infinity are left out), a moment and a duration in the
-- clock's unit; where the code compares moments of both kinds a moment also says whether it knows
-- its time zone. A frozenset is a sorted list. A dict is a function where the code only reads and
-- writes keys, and a list in insertion order where it walks it. SHA-256 over canonical JSON is a
-- parameter; where a result needs that two texts do not collide, that is a hypothesis. Locks make
-- each locked block one step.
--
-- Fuel: the depth-first search of Dependencies takes the number of nested calls that the
-- interpreter still allows, and raises where the code would raise RecursionError; as many calls
-- as there are ids and one more are enough, because each nested call of visit marks a key that
-- was not marked, and stops at a marked or unknown one. The queue of Topology has the number of
-- assets as fuel: a node is queued at most once; the walk of Topology/Descendants has twice the
-- number of relationships, as each is queued once for its parent and those of the root once
-- more. All other loops are structural; a reading of the clock in Optimization is an answer of a
-- parameter.
--
-- Not modelled: the HiGHS solver, the documents of policies, the statistics of forecasting,
-- certification, data quality, disaster recovery, simulation, connectors, energy and carbon
-- accounts, reports, the HTTP routes and the web client; the database store of resources;
-- listing over the database; the pool, migrations and row-level security of
-- packages/persistence/postgres.py.
pub mod Base
pub mod Quota
pub mod Resources
pub mod Audit
pub mod Risk
pub mod Approval
pub mod Plans
pub mod JobStates
pub mod Dependencies
pub mod JobQueue
pub mod Idempotency
pub mod Compensation
pub mod ActionGuard
pub mod Adapters
pub mod Admission
pub mod Iam
pub mod Sla
pub mod Compute
pub mod Forecasting
pub mod Mpc
pub mod Optimization
pub mod Policy
pub mod Scheduling
pub mod Topology
