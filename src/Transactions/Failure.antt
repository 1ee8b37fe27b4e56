-- ===== src/Transactions/Failure.antt =====
-- src/nexusflow/persistence/transactions.py: an attempt fails, reported by its worker or found by
-- the engine, and its task is retried or fails with it.
use nexusflow.Base.{
  ℕ, String, ◌+◌, Bool, true, false, ◌&&◌, Option, none, some, ◌==◌, leb, str_eq, if◌then◌else◌,
}
use nexusflow.Domain.WorkflowState
use nexusflow.Domain.WorkflowState.{WorkflowState}
use nexusflow.Domain.TaskState
use nexusflow.Domain.TaskState.{TaskState}
use nexusflow.Domain.AttemptState
use nexusflow.Domain.Failure.{FailureCause}
use nexusflow.Store.Records.{
  Db, TaskExecutionRecord, ExecutionAttemptRecord, is_task, is_attempt, failure_columns,
}
use nexusflow.Transactions.Outcome.{
  CommitStatus, committed, precondition_failed, occ_conflict, update_tasks, update_attempts,
  add_history, history_entry, workflow_state, task_workflow, state_in, finish,
}
use nexusflow.Transactions.Readiness.{is_due}

abbrev pub fail_attempt_set : FailureCause → ℕ → ExecutionAttemptRecord → ExecutionAttemptRecord
fail_attempt_set cause now a = record a {
  state = AttemptState.failed;
  failure = some (failure_columns cause);
  revision = a.revision + 1;
  updated_at_utc = now;
}

abbrev pub retry_task_set : Option ℕ → ℕ → TaskExecutionRecord → TaskExecutionRecord
retry_task_set ready_at now t = record t {
  state = TaskState.retry_wait;
  retry_ready_at_utc = ready_at;
  revision = t.revision + 1;
  updated_at_utc = now;
}

abbrev pub fail_task_set : FailureCause → ℕ → TaskExecutionRecord → TaskExecutionRecord
fail_task_set cause now t = record t {
  state = TaskState.failed;
  failure = some (failure_columns cause);
  revision = t.revision + 1;
  updated_at_utc = now;
}

-- The attempt of a worker's callback: active, of this session and task, at the expected revision.
abbrev pub callback_where : ℕ → ℕ → ℕ → ℕ → ExecutionAttemptRecord → Bool
callback_where attempt_id worker_session_id expected_attempt_revision task_id a =
    is_attempt attempt_id a
    && a.worker_session_id == worker_session_id
    && a.task_execution_id == task_id
    && AttemptState.is_active a.state
    && a.revision == expected_attempt_revision

abbrev pub retry_task_where : ℕ → ℕ → ℕ → TaskExecutionRecord → Bool
retry_task_where task_id expected_task_revision workflow_id t =
    is_task task_id t
    && t.workflow_execution_id == workflow_id
    && TaskState.is_running t.state
    && leb t.next_attempt_ordinal t.max_attempts
    && t.revision == expected_task_revision

abbrev pub fail_task_where : ℕ → ℕ → TaskExecutionRecord → Bool
fail_task_where task_id expected_task_revision t =
    is_task task_id t && TaskState.is_running t.state && t.revision == expected_task_revision

module _ (attempt_id worker_session_id expected_attempt_revision task_id : ℕ) where
  abbrev pub retry_after : Option ExecutionAttemptRecord × Db → ℕ → ℕ → ℕ → ℕ → CommitStatus × Db
  retry_after (none, db) expected_task_revision workflow_id ready_at now = (occ_conflict, db)
  retry_after (some a, db) expected_task_revision workflow_id ready_at now =
      finish
        (update_tasks (retry_task_where task_id expected_task_revision workflow_id)
          (retry_task_set (some ready_at) now) db)
        precondition_failed
        (λ t.
          history_entry workflow_id (some task_id) (some attempt_id) "TaskExecutionRetrying" now)

  unfoldable pub commit_worker_failure_with_retry :
      ℕ → ℕ → ℕ → FailureCause → ℕ → Db → CommitStatus × Db
  commit_worker_failure_with_retry expected_task_revision workflow_id ready_at cause now db =
      if state_in WorkflowState.is_running (workflow_state workflow_id db)
      then retry_after
          (update_attempts
            (callback_where attempt_id worker_session_id expected_attempt_revision task_id)
            (fail_attempt_set cause now) db)
          expected_task_revision workflow_id ready_at now
      else (precondition_failed, db)

  -- The second part of a result is the workflow of the task, where the failure was committed.
  abbrev pub fail_finish : Option TaskExecutionRecord × Db → ℕ → (CommitStatus × Option ℕ) × Db
  fail_finish (none, db) now = ((occ_conflict, none), db)
  fail_finish (some t, db) now = (
    (committed, some t.workflow_execution_id),
    add_history
        (history_entry t.workflow_execution_id (some task_id) (some attempt_id)
          "TaskExecutionFailed" now)
        db,
  )

  abbrev pub fail_after :
      Option ExecutionAttemptRecord × Db → ℕ → FailureCause → ℕ → (CommitStatus × Option ℕ) × Db
  fail_after (none, db) expected_task_revision cause now = ((occ_conflict, none), db)
  fail_after (some a, db) expected_task_revision cause now =
      fail_finish
        (update_tasks (fail_task_where task_id expected_task_revision) (fail_task_set cause now) db)
        now

  unfoldable pub commit_worker_definitive_failure :
      ℕ → FailureCause → ℕ → Db → (CommitStatus × Option ℕ) × Db
  commit_worker_definitive_failure expected_task_revision cause now db =
      fail_after
        (update_attempts
          (callback_where attempt_id worker_session_id expected_attempt_revision task_id)
          (fail_attempt_set cause now) db)
        expected_task_revision cause now

-- worker_session_id == expected_lost_worker_session_id, if one is expected
abbrev pub is_lost_session : Option ℕ → ExecutionAttemptRecord → Bool
is_lost_session none a = true
is_lost_session (some id) a = a.worker_session_id == id

-- The filters that the code of the cause adds.
abbrev pub cause_filter : String → Option ℕ → ℕ → ExecutionAttemptRecord → Bool
cause_filter code lost now a =
    if str_eq code "START_DEADLINE_EXPIRED"
    then AttemptState.is_claimed a.state && leb a.start_deadline_utc now
    else if str_eq code "EXECUTION_TIMEOUT"
    then AttemptState.is_running a.state && is_due now a.execution_timeout_utc
    else if str_eq code "WORKER_LOSS"
    then is_lost_session lost a && AttemptState.is_active a.state
    else true

abbrev pub internal_where : ℕ → ℕ → ℕ → String → Option ℕ → ℕ → ExecutionAttemptRecord → Bool
internal_where attempt_id expected_attempt_revision task_id code lost now a =
    is_attempt attempt_id a
    && a.task_execution_id == task_id
    && a.revision == expected_attempt_revision
    && cause_filter code lost now a

abbrev pub internal_fail_where : ℕ → ℕ → ℕ → TaskExecutionRecord → Bool
internal_fail_where task_id expected_task_revision workflow_id t =
    is_task task_id t
    && t.workflow_execution_id == workflow_id
    && TaskState.is_running t.state
    && t.revision == expected_task_revision

-- `(wf_state == "RUNNING") and is_retryable and (retry_ready_at_utc is not None)`
abbrev pub can_retry : Option WorkflowState → Bool → Option ℕ → Bool
can_retry state is_retryable none = false
can_retry state is_retryable (some ready_at) =
    state_in WorkflowState.is_running state && is_retryable

module _ (attempt_id expected_attempt_revision task_id expected_task_revision : ℕ)
    (cause : FailureCause) (now : ℕ) where
  -- The last part of a result is the new state of the task, "" being `none`.
  abbrev pub internal_finish :
      Option TaskExecutionRecord × Db
      → ℕ
      → TaskState
      → (CommitStatus × Option ℕ × Option TaskState) × Db
  internal_finish (none, db) workflow_id new_state = ((occ_conflict, none, none), db)
  internal_finish (some t, db) workflow_id new_state = (
    (committed, some workflow_id, some new_state),
    add_history
        (history_entry workflow_id (some task_id) (some attempt_id) "InternalAttemptFailureSettled"
          now)
        db,
  )

  abbrev pub internal_fail : ℕ → Db → (CommitStatus × Option ℕ × Option TaskState) × Db
  internal_fail workflow_id db =
      internal_finish
        (update_tasks (internal_fail_where task_id expected_task_revision workflow_id)
          (fail_task_set cause now) db)
        workflow_id TaskState.failed

  -- Where the retry finds no row, the task fails instead.
  abbrev pub internal_retry :
      Option TaskExecutionRecord × Db → ℕ → (CommitStatus × Option ℕ × Option TaskState) × Db
  internal_retry (none, db) workflow_id = internal_fail workflow_id db
  internal_retry (some t, db) workflow_id =
      internal_finish (some t, db) workflow_id TaskState.retry_wait

  abbrev pub internal_after :
      Option ExecutionAttemptRecord × Db
      → ℕ
      → Bool
      → Option ℕ
      → (CommitStatus × Option ℕ × Option TaskState) × Db
  internal_after (none, db) workflow_id retry ready_at = ((occ_conflict, none, none), db)
  internal_after (some a, db) workflow_id retry ready_at =
      if retry
      then internal_retry
          (update_tasks (retry_task_where task_id expected_task_revision workflow_id)
            (retry_task_set ready_at now) db)
          workflow_id
      else internal_fail workflow_id db

  abbrev pub internal_failure :
      Option ℕ → Bool → Option ℕ → Option ℕ → Db → (CommitStatus × Option ℕ × Option TaskState) × Db
  internal_failure none is_retryable ready_at lost db = ((precondition_failed, none, none), db)
  internal_failure (some workflow_id) is_retryable ready_at lost db =
      internal_after
        (update_attempts
          (internal_where attempt_id expected_attempt_revision task_id cause.code lost now)
          (fail_attempt_set cause now) db)
        workflow_id (can_retry (workflow_state workflow_id db) is_retryable ready_at) ready_at

  unfoldable pub commit_internal_attempt_failure :
      Bool → Option ℕ → Option ℕ → Db → (CommitStatus × Option ℕ × Option TaskState) × Db
  commit_internal_attempt_failure is_retryable retry_ready_at expected_lost_worker_session_id db =
      internal_failure (task_workflow task_id db) is_retryable retry_ready_at
        expected_lost_worker_session_id db
