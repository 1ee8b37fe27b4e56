-- ===== src/Transactions/Readiness.antt =====
-- src/nexusflow/persistence/transactions.py: a task becomes RUNNABLE, from PENDING or RETRY_WAIT.
use nexusflow.Base.{ℕ, ◌+◌, Bool, true, false, ◌&&◌, Option, none, some, ◌==◌, leb, if◌then◌else◌}
use nexusflow.Domain.Json.{JsonObject, object, thaw_json}
use nexusflow.Domain.WorkflowState
use nexusflow.Domain.TaskState
use nexusflow.Store.Records.{Db, TaskExecutionRecord, is_task}
use nexusflow.Transactions.Outcome.{
  CommitStatus, precondition_failed, occ_conflict, update_tasks, history_entry, workflow_state,
  state_in, finish,
}

-- retry_ready_at_utc <= now_utc, which SQL does not find true of NULL
abbrev pub is_due : ℕ → Option ℕ → Bool
is_due now none = false
is_due now (some t) = leb t now

abbrev pub readiness_set : JsonObject → ℕ → TaskExecutionRecord → TaskExecutionRecord
readiness_set stable_input now t = record t {
  state = TaskState.runnable;
  has_input = true;
  stable_input = some (thaw_json (object stable_input));
  revision = t.revision + 1;
  updated_at_utc = now;
}

abbrev pub retry_ready_set : ℕ → TaskExecutionRecord → TaskExecutionRecord
retry_ready_set now t = record t {
  state = TaskState.runnable;
  retry_ready_at_utc = none;
  revision = t.revision + 1;
  updated_at_utc = now;
}

module _ (task_id expected_task_revision workflow_id : ℕ) where
  abbrev pub readiness_where : TaskExecutionRecord → Bool
  readiness_where t =
      is_task task_id t
      && t.workflow_execution_id == workflow_id
      && TaskState.is_pending t.state
      && t.revision == expected_task_revision

  unfoldable pub commit_task_readiness : JsonObject → ℕ → Db → CommitStatus × Db
  commit_task_readiness stable_input now db =
      if state_in WorkflowState.is_running (workflow_state workflow_id db)
      then finish (update_tasks readiness_where (readiness_set stable_input now) db) occ_conflict
          (λ t. history_entry workflow_id (some task_id) none "TaskMarkedRunnable" now)
      else (precondition_failed, db)

  abbrev pub retry_ready_where : ℕ → TaskExecutionRecord → Bool
  retry_ready_where now t =
      is_task task_id t
      && t.workflow_execution_id == workflow_id
      && TaskState.is_retry_wait t.state
      && is_due now t.retry_ready_at_utc
      && t.revision == expected_task_revision

  unfoldable pub commit_retry_ready : ℕ → Db → CommitStatus × Db
  commit_retry_ready now db =
      if state_in WorkflowState.is_running (workflow_state workflow_id db)
      then finish (update_tasks (retry_ready_where now) (retry_ready_set now) db) occ_conflict
          (λ t. history_entry workflow_id (some task_id) none "TaskMarkedRunnable" now)
      else (precondition_failed, db)
