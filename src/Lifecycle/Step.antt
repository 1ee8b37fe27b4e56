-- ===== src/Lifecycle/Step.antt =====
-- src/nexusflow/persistence/transactions.py: the transactions as steps of the database, each of which
-- is atomic, and the databases that steps reach. A transaction that raises is rolled back: no step.
pub mod Effects
use nexusflow.Base.{ℕ, String, Bool, true, Option, List, ok, ◌≡◌}
use nexusflow.Domain.Json.{PyValue, JsonValue, JsonObject}
use nexusflow.Domain.Failure.{FailureCause}
use nexusflow.Domain.Spec.{TaskDefinition, ValidatedWorkflowSpec}
use nexusflow.Store.Records.{Db}
use nexusflow.Transactions.Outcome.{CommitStatus}
use nexusflow.Transactions.Registration.{commit_registered_definition}
use nexusflow.Transactions.Creation.{commit_workflow_creation, commit_task_population}
use nexusflow.Transactions.Readiness.{commit_task_readiness, commit_retry_ready}
use nexusflow.Transactions.Ownership.{commit_attempt_ownership, commit_worker_execution_start}
use nexusflow.Transactions.Success.{commit_worker_task_success}
use nexusflow.Transactions.Failure.{
  commit_worker_failure_with_retry, commit_worker_definitive_failure,
  commit_internal_attempt_failure,
}
use nexusflow.Transactions.Direction.{
  commit_workflow_failure_direction, commit_workflow_cancellation_direction,
}
use nexusflow.Transactions.Drain.{
  commit_drain_task_cancellation, commit_worker_cancellation_ack,
  commit_internal_cancellation_deadline, commit_cancellation_deadline,
}
use nexusflow.Transactions.Settlement.{
  commit_initialization_complete, commit_workflow_success, commit_workflow_failure,
  commit_workflow_cancellation,
}
use nexusflow.Lifecycle.Steps.Internal.{is_engine_code}

pub data Step (db : Db) : Db → Type 0 where
  register_definition :
      (definition_id : ℕ) (workflow_name : String) (spec : ValidatedWorkflowSpec)
      (raw_yaml : Option String) (now : ℕ) (key fingerprint : Option String)
      (status : (CommitStatus × ℕ)) (db' : Db)
      → commit_registered_definition definition_id workflow_name spec raw_yaml now key fingerprint
          db
        ≡ ok (status, db')
      → Step db db'
  create_workflow :
      (execution_id definition_id : ℕ) (workflow_input : JsonValue) (now : ℕ)
      (key fingerprint : Option String) (status : (CommitStatus × ℕ)) (db' : Db)
      → commit_workflow_creation execution_id definition_id workflow_input now key fingerprint db
        ≡ ok (status, db')
      → Step db db'
  populate_tasks :
      (uuid4 : ℕ → ℕ) (workflow_id now : ℕ) (task_defs : List TaskDefinition)
      (status : CommitStatus) (db' : Db)
      → commit_task_population uuid4 workflow_id now task_defs db ≡ ok (status, db')
      → Step db db'
  complete_initialization :
      (workflow_id revision now : ℕ) (status : CommitStatus) (db' : Db)
      → commit_initialization_complete workflow_id revision now db ≡ ok (status, db')
      → Step db db'
  make_ready :
      (task_id revision workflow_id : ℕ) (input : JsonObject) (now : ℕ)
      → Step db (commit_task_readiness task_id revision workflow_id input now db).1
  own_attempt :
      (task_id revision workflow_id session attempt_id deadline now : ℕ)
      (status : (CommitStatus × Option ℕ)) (db' : Db)
      → commit_attempt_ownership task_id revision workflow_id session attempt_id deadline now db
        ≡ ok (status, db')
      → Step db db'
  start_execution :
      (attempt_id session revision uuid4 now : ℕ)
      → Step db (commit_worker_execution_start attempt_id session revision uuid4 now db).1
  report_success :
      (json_eq : PyValue → PyValue → Bool)
      (attempt_id task_id session attempt_revision task_revision : ℕ) (output : JsonValue) (now : ℕ)
      (status : CommitStatus) (db' : Db)
      → commit_worker_task_success json_eq attempt_id task_id session attempt_revision task_revision
          output now db
        ≡ ok (status, db')
      → Step db db'
  succeed_workflow :
      (workflow_id revision : ℕ) (output : JsonValue) (now : ℕ) (status : CommitStatus) (db' : Db)
      → commit_workflow_success workflow_id revision output now db ≡ ok (status, db')
      → Step db db'
  report_failure :
      (attempt_id session attempt_revision task_id task_revision workflow_id ready_at : ℕ)
      (cause : FailureCause) (now : ℕ)
      → Step db
          (commit_worker_failure_with_retry attempt_id session attempt_revision task_id
            task_revision workflow_id ready_at cause now db).1
  report_definitive_failure :
      (attempt_id session attempt_revision task_id task_revision : ℕ) (cause : FailureCause)
      (now : ℕ)
      → Step db
          (commit_worker_definitive_failure attempt_id session attempt_revision task_id
            task_revision cause now db).1
  direct_to_failure :
      (workflow_id : ℕ) (cause : FailureCause) (now : ℕ)
      → Step db (commit_workflow_failure_direction workflow_id cause now db).1
  direct_to_cancellation :
      (workflow_id now : ℕ) → Step db (commit_workflow_cancellation_direction workflow_id now db).1
  drain_task :
      (task_id revision now : ℕ)
      → Step db (commit_drain_task_cancellation task_id revision now db).1
  acknowledge_cancellation :
      (attempt_id attempt_revision task_id task_revision session now : ℕ)
      → Step db
          (commit_worker_cancellation_ack attempt_id attempt_revision task_id task_revision session
            now db).1
  expire_cancellation :
      (attempt_id attempt_revision task_id task_revision now : ℕ)
      → Step db
          (commit_internal_cancellation_deadline attempt_id attempt_revision task_id task_revision
            now db).1
  fail_attempt :
      (attempt_id attempt_revision task_id task_revision : ℕ) (cause : FailureCause) (now : ℕ)
      (is_retryable : Bool) (ready_at lost : Option ℕ)
      → is_engine_code cause.code ≡ true
      → Step db
          (commit_internal_attempt_failure attempt_id attempt_revision task_id task_revision cause
            now is_retryable ready_at lost db).1
  make_retry_ready :
      (task_id revision workflow_id now : ℕ)
      → Step db (commit_retry_ready task_id revision workflow_id now db).1
  fail_workflow :
      (workflow_id revision now : ℕ) (status : CommitStatus) (db' : Db)
      → commit_workflow_failure workflow_id revision now db ≡ ok (status, db')
      → Step db db'
  cancel_workflow :
      (workflow_id revision now : ℕ) (status : CommitStatus) (db' : Db)
      → commit_workflow_cancellation workflow_id revision now db ≡ ok (status, db')
      → Step db db'
  -- ExecutionScheduler.drain_workflow, of orchestration/scheduler.py
  materialize_deadline :
      (attempt_id deadline : ℕ) → Step db (commit_cancellation_deadline attempt_id deadline db)

-- The databases that any sequence of transactions reaches, in any order and with any arguments, but
-- for the causes of internal failures, whose code is one that the engine gives.
pub data Reach (start : Db) : Db → Type 0 where
  here : Reach start start
  then_step : {db db' : Db} → Reach start db → Step db db' → Reach start db'
