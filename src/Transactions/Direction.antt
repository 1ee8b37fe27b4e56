-- ===== src/Transactions/Direction.antt =====
-- src/nexusflow/persistence/transactions.py: a workflow is directed to failure or cancellation.
use nexusflow.Base.{ℕ, ◌+◌, Bool, ◌&&◌, Option, none, some, if◌then◌else◌}
use nexusflow.Domain.WorkflowState
use nexusflow.Domain.Failure.{FailureCause}
use nexusflow.Store.Table.{select_first}
use nexusflow.Store.Records.{Db, WorkflowExecutionRecord, is_workflow, failure_columns}
use nexusflow.Transactions.Outcome.{
  CommitStatus, precondition_failed, occ_conflict, update_workflows, history_entry, finish,
}

abbrev pub failing_set : FailureCause → ℕ → WorkflowExecutionRecord → WorkflowExecutionRecord
failing_set cause now w = record w {
  state = WorkflowState.failing;
  failure = some (failure_columns cause);
  revision = w.revision + 1;
  updated_at_utc = now;
}

abbrev pub cancelling_set : ℕ → WorkflowExecutionRecord → WorkflowExecutionRecord
cancelling_set now w = record w {
  state = WorkflowState.cancelling;
  revision = w.revision + 1;
  updated_at_utc = now;
}

module _ (workflow_id : ℕ) where
  abbrev pub failing_where : WorkflowExecutionRecord → Bool
  failing_where w = is_workflow workflow_id w && WorkflowState.is_running w.state

  abbrev pub begin_failing :
      Option WorkflowExecutionRecord → FailureCause → ℕ → Db → CommitStatus × Db
  begin_failing none cause now db = (precondition_failed, db)
  begin_failing (some w) cause now db =
      if WorkflowState.is_running w.state
      then finish (update_workflows failing_where (failing_set cause now) db) occ_conflict
          (λ _. history_entry workflow_id none none "WorkflowExecutionFailing" now)
      else (precondition_failed, db)

  unfoldable pub commit_workflow_failure_direction : FailureCause → ℕ → Db → CommitStatus × Db
  commit_workflow_failure_direction cause now db =
      begin_failing (select_first (is_workflow workflow_id) db.workflows) cause now db

  abbrev pub cancelling_where : WorkflowExecutionRecord → Bool
  cancelling_where w = is_workflow workflow_id w && WorkflowState.is_cancellable w.state

  abbrev pub begin_cancelling : Option WorkflowExecutionRecord → ℕ → Db → CommitStatus × Db
  begin_cancelling none now db = (precondition_failed, db)
  begin_cancelling (some w) now db =
      if WorkflowState.is_cancellable w.state
      then finish (update_workflows cancelling_where (cancelling_set now) db) occ_conflict
          (λ _. history_entry workflow_id none none "WorkflowCancellationRequested" now)
      else (precondition_failed, db)

  unfoldable pub commit_workflow_cancellation_direction : ℕ → Db → CommitStatus × Db
  commit_workflow_cancellation_direction now db =
      begin_cancelling (select_first (is_workflow workflow_id) db.workflows) now db
