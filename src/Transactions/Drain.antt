-- ===== src/Transactions/Drain.antt =====
-- src/nexusflow/persistence/transactions.py: tasks and attempts of a draining workflow are cancelled.
use nexusflow.Base.{ℕ, String, ◌+◌, Bool, ◌&&◌, Option, none, some, ◌==◌, if◌then◌else◌}
use nexusflow.Domain.WorkflowState
use nexusflow.Domain.TaskState
use nexusflow.Domain.AttemptState
use nexusflow.Store.Table.{select_first}
use nexusflow.Store.Records.{Db, TaskExecutionRecord, ExecutionAttemptRecord, is_task, is_attempt}
use nexusflow.Transactions.Outcome.{
  CommitStatus, committed, precondition_failed, occ_conflict, update_tasks, update_attempts,
  add_history, history_entry, workflow_state, task_workflow, state_in, finish,
}
use nexusflow.Transactions.Readiness.{is_due}
use nexusflow.Transactions.Failure.{callback_where, internal_fail_where}

abbrev pub drain_task_set : ℕ → TaskExecutionRecord → TaskExecutionRecord
drain_task_set now t = record t {
  state = TaskState.cancelled;
  retry_ready_at_utc = none;
  revision = t.revision + 1;
  updated_at_utc = now;
}

abbrev pub cancel_task_set : ℕ → TaskExecutionRecord → TaskExecutionRecord
cancel_task_set now t = record t {
  state = TaskState.cancelled;
  revision = t.revision + 1;
  updated_at_utc = now;
}

abbrev pub cancel_attempt_set : ℕ → ExecutionAttemptRecord → ExecutionAttemptRecord
cancel_attempt_set now a = record a {
  state = AttemptState.cancelled;
  revision = a.revision + 1;
  updated_at_utc = now;
}

module _ (task_id expected_task_revision : ℕ) where
  abbrev pub drain_where : TaskExecutionRecord → Bool
  drain_where t =
      is_task task_id t && TaskState.is_unstarted t.state && t.revision == expected_task_revision

  abbrev pub drain_task : Option TaskExecutionRecord → ℕ → Db → CommitStatus × Db
  drain_task none now db = (precondition_failed, db)
  drain_task (some t) now db =
      if TaskState.is_unstarted t.state
      then (if state_in WorkflowState.is_draining (workflow_state t.workflow_execution_id db)
          then finish (update_tasks drain_where (drain_task_set now) db) occ_conflict (λ _.
            history_entry t.workflow_execution_id (some task_id) none "TaskExecutionCancelled" now)
          else (precondition_failed, db))
      else (precondition_failed, db)

  unfoldable pub commit_drain_task_cancellation : ℕ → Db → CommitStatus × Db
  commit_drain_task_cancellation now db =
      drain_task (select_first (is_task task_id) db.tasks) now db

module _ (attempt_id expected_attempt_revision task_id expected_task_revision : ℕ) where
  abbrev pub cancel_finish :
      Option TaskExecutionRecord × Db → ℕ → String → ℕ → (CommitStatus × Option ℕ) × Db
  cancel_finish (none, db) workflow_id category now = ((occ_conflict, none), db)
  cancel_finish (some t, db) workflow_id category now = (
    (committed, some workflow_id),
    add_history (history_entry workflow_id (some task_id) (some attempt_id) category now) db,
  )

  abbrev pub cancel_after :
      Option ExecutionAttemptRecord × Db → ℕ → String → ℕ → (CommitStatus × Option ℕ) × Db
  cancel_after (none, db) workflow_id category now = ((occ_conflict, none), db)
  cancel_after (some a, db) workflow_id category now =
      cancel_finish
        (update_tasks (internal_fail_where task_id expected_task_revision workflow_id)
          (cancel_task_set now) db)
        workflow_id category now

  abbrev pub cancel_ack : Option ℕ → ℕ → ℕ → Db → (CommitStatus × Option ℕ) × Db
  cancel_ack none worker_session_id now db = ((precondition_failed, none), db)
  cancel_ack (some workflow_id) worker_session_id now db =
      if state_in WorkflowState.is_draining (workflow_state workflow_id db)
      then cancel_after
          (update_attempts
            (callback_where attempt_id worker_session_id expected_attempt_revision task_id)
            (cancel_attempt_set now) db)
          workflow_id "AttemptCancellationAcknowledged" now
      else ((precondition_failed, none), db)

  unfoldable pub commit_worker_cancellation_ack : ℕ → ℕ → Db → (CommitStatus × Option ℕ) × Db
  commit_worker_cancellation_ack worker_session_id now db =
      cancel_ack (task_workflow task_id db) worker_session_id now db

  abbrev pub cancel_deadline_where : ℕ → ExecutionAttemptRecord → Bool
  cancel_deadline_where now a =
      is_attempt attempt_id a
      && a.task_execution_id == task_id
      && AttemptState.is_active a.state
      && is_due now a.cancellation_deadline_utc
      && a.revision == expected_attempt_revision

  abbrev pub cancel_deadline : Option ℕ → ℕ → Db → (CommitStatus × Option ℕ) × Db
  cancel_deadline none now db = ((precondition_failed, none), db)
  cancel_deadline (some workflow_id) now db =
      if state_in WorkflowState.is_draining (workflow_state workflow_id db)
      then cancel_after (update_attempts (cancel_deadline_where now) (cancel_attempt_set now) db)
          workflow_id "AttemptCancellationDeadlineExpired" now
      else ((precondition_failed, none), db)

  unfoldable pub commit_internal_cancellation_deadline : ℕ → Db → (CommitStatus × Option ℕ) × Db
  commit_internal_cancellation_deadline now db = cancel_deadline (task_workflow task_id db) now db

abbrev pub cancellation_deadline_set : ℕ → ExecutionAttemptRecord → ExecutionAttemptRecord
cancellation_deadline_set deadline a = record a { cancellation_deadline_utc = some deadline }

-- The session of ExecutionScheduler.drain_workflow (orchestration/scheduler.py) that writes the
-- deadline of an attempt, whatever its state; it leaves the revision as it is.
unfoldable pub commit_cancellation_deadline : ℕ → ℕ → Db → Db
commit_cancellation_deadline attempt_id deadline db =
    (update_attempts (is_attempt attempt_id) (cancellation_deadline_set deadline) db).1
