-- ===== src/Guarantees/Endings.antt =====
-- src/nexusflow/persistence/transactions.py: the ends of a workflow, SUCCEEDED, FAILED or CANCELLED.
use nexusflow.Base.{ℕ, String, ◌≡◌, Bool, true, ok, any, contains}
use nexusflow.Domain.Json.{JsonValue}
use nexusflow.Domain.WorkflowState
use nexusflow.Domain.WorkflowState.{WorkflowState}
use nexusflow.Domain.TaskState
use nexusflow.Domain.TaskState.{TaskState}
use nexusflow.Store.Records.{Db}
use nexusflow.Transactions.Outcome.{committed}
use nexusflow.Transactions.Settlement.{
  write_state, write_success, commit_workflow_success, commit_workflow_failure,
  commit_workflow_cancellation,
}
use nexusflow.Guarantees.Settled.{IsSettled, settle-IsSettled, IsSettled-counted, is_counted}

module _ (workflow_id revision : ℕ) (db : Db) where
  -- The conditions of a settlement, and a row in a counted state for each task id of the definition.
  abbrev pub AllCounted : (WorkflowState → Bool) → (TaskState → Bool) → Type 0
  AllCounted in_state counted =
      (s : IsSettled in_state counted workflow_id revision db) × ((task_id : String)
        → contains s.task_ids task_id ≡ true
        → any (is_counted workflow_id counted task_id) db.tasks ≡ true)

  with_rows :
      (in_state : WorkflowState → Bool) (counted : TaskState → Bool)
      → IsSettled in_state counted workflow_id revision db
      → AllCounted in_state counted
  with_rows in_state counted s = (s, IsSettled-counted in_state counted workflow_id revision db s)

module _ (workflow_id revision now : ℕ) (db db' : Db) where
  -- A workflow success that is COMMITTED found the workflow RUNNING at the expected revision and, for
  -- each task id of its definition, a SUCCEEDED task row of the workflow.
  pub commit_workflow_success-committed :
      (output : JsonValue)
      → commit_workflow_success workflow_id revision output now db ≡ ok (committed, db')
      → AllCounted workflow_id revision db WorkflowState.is_running TaskState.is_succeeded
  unfolding commit_workflow_success
  commit_workflow_success-committed output e =
      with_rows workflow_id revision db WorkflowState.is_running TaskState.is_succeeded (
        settle-IsSettled WorkflowState.is_running TaskState.is_succeeded
          (write_success output revision now) workflow_id revision db db' e)

  -- A workflow failure that is COMMITTED found the workflow FAILING at the expected revision and, for
  -- each task id of its definition, a task row of the workflow in a terminal state.
  pub commit_workflow_failure-committed :
      commit_workflow_failure workflow_id revision now db ≡ ok (committed, db')
      → AllCounted workflow_id revision db WorkflowState.is_failing TaskState.is_terminal
  unfolding commit_workflow_failure
  commit_workflow_failure-committed e =
      with_rows workflow_id revision db WorkflowState.is_failing TaskState.is_terminal (
        settle-IsSettled WorkflowState.is_failing TaskState.is_terminal
          (write_state WorkflowState.is_failing WorkflowState.failed "WorkflowExecutionFailed"
            revision now)
          workflow_id revision db db' e)

  -- A workflow cancellation that is COMMITTED found the workflow CANCELLING at the expected revision
  -- and, for each task id of its definition, a task row of the workflow in a terminal state.
  pub commit_workflow_cancellation-committed :
      commit_workflow_cancellation workflow_id revision now db ≡ ok (committed, db')
      → AllCounted workflow_id revision db WorkflowState.is_cancelling TaskState.is_terminal
  unfolding commit_workflow_cancellation
  commit_workflow_cancellation-committed e =
      with_rows workflow_id revision db WorkflowState.is_cancelling TaskState.is_terminal (
        settle-IsSettled WorkflowState.is_cancelling TaskState.is_terminal
          (write_state WorkflowState.is_cancelling WorkflowState.cancelled
            "WorkflowExecutionCancelled" revision now)
          workflow_id revision db db' e)
