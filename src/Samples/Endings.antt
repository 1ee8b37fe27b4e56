-- ===== src/Samples/Endings.antt =====
-- Workflows of src/nexusflow/persistence/transactions.py that end, after the run in Samples.
use nexusflow.Base.{◌≡◌, refl, none, ok}
use nexusflow.Domain.Json.{string, thaw_json}
use nexusflow.Domain.Failure.{FailureCause, domain_execution}
use nexusflow.Store.Table.{select_first, select_all, update_where}
use nexusflow.Store.Records.{Db}
use nexusflow.Transactions.Outcome.{committed, key_names, subscript, task_keys}
use nexusflow.Transactions.Creation.{commit_workflow_creation, commit_task_population, populate}
use nexusflow.Transactions.Readiness.{commit_task_readiness}
use nexusflow.Transactions.Ownership.{commit_attempt_ownership, commit_worker_execution_start}
use nexusflow.Transactions.Success.{commit_worker_task_success}
use nexusflow.Transactions.Direction.{
  commit_workflow_failure_direction, commit_workflow_cancellation_direction,
}
use nexusflow.Transactions.Drain.{commit_drain_task_cancellation}
use nexusflow.Transactions.Settlement.{
  commit_initialization_complete, commit_workflow_success, commit_workflow_failure,
  commit_workflow_cancellation,
}
use nexusflow.Samples.{initialized, succeeded, after}

abbrev pub finished : Db
finished = after (commit_workflow_success 10 2 (string "result") 8 succeeded)

pub finished_lem :
    commit_workflow_success 10 2 (string "result") 8 succeeded ≡ ok (committed, finished)
unfolding commit_workflow_creation commit_task_population commit_initialization_complete populate
    thaw_json select_first select_all task_keys key_names subscript update_where
    commit_task_readiness commit_attempt_ownership commit_worker_execution_start
    commit_worker_task_success commit_workflow_success
finished_lem = refl

abbrev pub cause : FailureCause
cause = record { category = domain_execution; code = "BROKEN"; message = "broken"; details = none }

-- The workflow FAILING, its task CANCELLED.
abbrev pub failing : Db
failing =
    (commit_drain_task_cancellation 100 1 5
      (commit_workflow_failure_direction 10 cause 4 initialized).1).1

abbrev pub failed : Db
failed = after (commit_workflow_failure 10 3 6 failing)

pub failed_lem : commit_workflow_failure 10 3 6 failing ≡ ok (committed, failed)
unfolding commit_workflow_creation commit_task_population commit_initialization_complete populate
    thaw_json select_first select_all task_keys key_names subscript update_where
    commit_task_readiness commit_attempt_ownership commit_worker_execution_start
    commit_worker_task_success commit_workflow_failure commit_workflow_failure_direction
    commit_drain_task_cancellation
failed_lem = refl

-- The workflow CANCELLING, its task CANCELLED.
abbrev pub cancelling : Db
cancelling =
    (commit_drain_task_cancellation 100 1 5
      (commit_workflow_cancellation_direction 10 4 initialized).1).1

abbrev pub cancelled : Db
cancelled = after (commit_workflow_cancellation 10 3 6 cancelling)

pub cancelled_lem : commit_workflow_cancellation 10 3 6 cancelling ≡ ok (committed, cancelled)
unfolding commit_workflow_creation commit_task_population commit_initialization_complete populate
    thaw_json select_first select_all task_keys key_names subscript update_where
    commit_task_readiness commit_attempt_ownership commit_worker_execution_start
    commit_worker_task_success commit_workflow_cancellation commit_workflow_cancellation_direction
    commit_drain_task_cancellation
cancelled_lem = refl
