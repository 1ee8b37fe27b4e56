-- ===== src/Lib.antt =====
-- The persistence core of nexusflow, a workflow engine whose state is the rows of a PostgreSQL
-- database. Definitions, workflow executions, task executions, attempts, history and idempotency keys
-- are tables (src/nexusflow/persistence/orm.py); the scheduler, the recovery engine and the HTTP
-- routes change them through the transactions of src/nexusflow/persistence/transactions.py, but
-- for a write of the scheduler, the deadline of a cancellation, and one of the recovery engine that
-- starts a workflow.
--
-- Domain/WorkflowState, Domain/TaskState, Domain/AttemptState: src/nexusflow/domain/enums.py and the
--   tests of states that the code makes.
-- Domain/Json: src/nexusflow/domain/json_compat.py, freeze_json and thaw_json.
-- Domain/Failure, Domain/Spec: src/nexusflow/domain/failure.py and spec.py, the latter as far as used.
--   Failure/Text has the methods of str that failure.py calls, on code points.
-- Domain/Identifiers: the checks of src/nexusflow/domain/identifiers.py.
-- Domain/Graph: src/nexusflow/domain/graph.py, the graph of a definition and Kahn's algorithm.
-- Definition/Codec: src/nexusflow/definition/codec.py, what the database stores of a definition; its
--   child Read is deserialize_validated_spec.
-- Definition/Normalizer, Definition/Validator: normalizer.py and validator.py of src/nexusflow/definition;
--   the children of Validator and of Domain/Graph hold the proofs.
-- Domain/Readiness: src/nexusflow/domain/readiness.py, evaluate_task_readiness and
--   resolve_workflow_outputs.
-- Domain/Execution: src/nexusflow/domain/execution.py, the entities and their transitions, without the
--   reasons of rejections and WorkerSession.
-- Store/Records: a record for each table of orm.py; Db is the database.
-- Store/Table: the SQL statements on a table, which is a list of rows.
-- Transactions/*: one function for each transaction, of the name that it has in the source. Its
--   statements are functions on Db in the order of the code; every return is a branch. A result is
--   the outcome and the database that is committed. A transaction that can raise has a Result: an
--   error is rolled back. A name that ends in _where is the WHERE clause of an UPDATE, one that ends
--   in _set its SET clause.
-- Lifecycle/*: the rows of tasks and attempts under all transactions, as a step relation (Step),
--   reachability (Reach), a consistency invariant, and the moves of one task row.
-- Guarantees/*: what single transactions guarantee. Entities and its children: which entity a row
--   stores, and what UPDATE statements make of it.
-- Orchestration/Registry: src/nexusflow/orchestration/registry.py, the sessions of a WorkerRegistry
--   as a list of records; its methods, which a lock makes atomic, are functions on it.
-- Orchestration/Pass: the monad of the passes. A pass takes a World, which is the database, the
--   number of accesses so far and the items put on delivery queues, to a result and a World; when it
--   raises, what was committed before stays. Its Setting says what the other transactions do between
--   two accesses, what the registry holds, and what the clocks and uuid4 return at each access.
-- Orchestration/Scheduler/*: src/nexusflow/orchestration/scheduler.py, the methods of
--   ExecutionScheduler under their names, as passes; Transacts/Drain and Orchestration/Follows: a
--   drain changes the database by transactions only.
-- Guarantees/Passes, Guarantees/Drained: what whole passes of the scheduler do.
-- Interfaces/Callback: report_callback of src/nexusflow/interfaces/http/routes/worker.py; its children
--   hold the proofs.
-- Samples: one workflow run through the transactions, and the theorems on it
--   and on other concrete inputs.
--
-- A transaction stands here as on a session that is in no transaction of its own, as the scheduler
-- calls it: transactional_scope then begins one, and what the function returns as its database is
-- committed, also where the outcome is not COMMITTED. On a session that is in a transaction, as in
-- the worker's callback route (src/nexusflow/interfaces/http/routes/worker.py), transactional_scope
-- is a SAVEPOINT, and the exception that the route raises for an outcome that is not COMMITTED
-- discards that database; a write that is discarded is no step.
--
-- A transaction is one step: PostgreSQL runs the statements of two transactions interleaved, which
-- is not modelled. Revisions, ordinals and timestamps are natural numbers without bound; the
-- overflow of an INTEGER column is not modelled. A UUID is a number; the ids that uuid4 draws, and
-- Python's equality of JSON values, are arguments. Of the constraints of the tables, those stand
-- in the model that a transaction can violate: primary keys, the unique keys of attempts and of
-- tasks, the check of max_attempts, the checks of outputs, NOT NULL of the workflow input, and the
-- foreign key of a workflow to its definition; foreign keys of other rows and lengths of texts do
-- not. Messages of outcomes and payloads of events are left out. commit_internal_attempt_failure
-- is a step under the three codes that the engine gives it. Kahn's algorithm runs on fuel, one
-- unit for each task, since each turn takes a task from the queue that no later turn takes; every
-- other loop runs over a list. A sweep of the scheduler looks at 50 attempts at a time. Reach covers
-- sequences of all 20 transactions and of the scheduler's write. Not modelled: the recovery passes
-- (src/nexusflow/orchestration/recovery.py), which write on one session while the scheduler reads on
-- others, so that they need two views of the database at once; the parser and the fingerprint of
-- src/nexusflow/definition, the other HTTP routes, the worker runtime, observability and
-- configuration.
pub mod Base
pub mod Domain
pub mod Definition
pub mod Store
pub mod Transactions
pub mod Lifecycle
pub mod Guarantees
pub mod Orchestration
pub mod Interfaces
mod Samples
