-- ===== src/Transactions/Success.antt =====
-- src/nexusflow/persistence/transactions.py: a worker reports the success of its attempt.
use nexusflow.Base.{
  ℕ, ◌+◌, Bool, true, ◌&&◌, Option, none, some, Result, ok, err, integrity_error, ◌==◌,
  if◌then◌else◌,
}
use nexusflow.Domain.Json.{PyValue, JsonValue, thaw_json}
use nexusflow.Domain.TaskState
use nexusflow.Domain.AttemptState
use nexusflow.Store.Table.{select_first}
use nexusflow.Store.Records.{
  Db, TaskExecutionRecord, ExecutionAttemptRecord, is_task, is_attempt, jsonb, read_column,
}
use nexusflow.Transactions.Outcome.{
  CommitStatus, committed, occ_conflict, update_tasks, update_attempts, history_entry, finish,
}

-- An UPDATE that writes has_output = TRUE and an output column raises IntegrityError where a row is
-- found and the column is NULL: chk_task_output_consistency and chk_workflow_output_consistency.
abbrev pub output_check : {A : Type 0} → Option PyValue → Option A × Db → Result (Option A × Db)
output_check none (some row, db) = err integrity_error
output_check column updated = ok updated

abbrev pub success_attempt_set : ℕ → ExecutionAttemptRecord → ExecutionAttemptRecord
success_attempt_set now a = record a {
  state = AttemptState.succeeded;
  revision = a.revision + 1;
  updated_at_utc = now;
}

module _ (attempt_id worker_session_id expected_attempt_revision task_id : ℕ) where
  abbrev pub success_attempt_where : ExecutionAttemptRecord → Bool
  success_attempt_where a =
      is_attempt attempt_id a
      && a.worker_session_id == worker_session_id
      && a.task_execution_id == task_id
      && AttemptState.is_running a.state
      && a.revision == expected_attempt_revision

abbrev pub success_task_set : Option PyValue → ℕ → TaskExecutionRecord → TaskExecutionRecord
success_task_set column now t = record t {
  state = TaskState.succeeded;
  has_output = true;
  task_output = column;
  revision = t.revision + 1;
  updated_at_utc = now;
}

module _ (task_id expected_task_revision : ℕ) where
  abbrev pub success_task_where : TaskExecutionRecord → Bool
  success_task_where t =
      is_task task_id t && TaskState.is_running t.state && t.revision == expected_task_revision

-- `json_eq` is Python's == on the values that a JSONB column holds.
module _ (json_eq : PyValue → PyValue → Bool) (attempt_id task_id : ℕ) where
  abbrev pub same_output : PyValue → Option TaskExecutionRecord → CommitStatus
  same_output payload none = occ_conflict
  same_output payload (some t) =
      if json_eq payload (read_column t.task_output) then committed else occ_conflict

  -- The attempt, looked up when no row was updated: a repeated callback is answered as before.
  abbrev pub duplicate_callback : PyValue → Option ExecutionAttemptRecord → Db → CommitStatus
  duplicate_callback payload none db = occ_conflict
  duplicate_callback payload (some a) db =
      if AttemptState.is_succeeded a.state
      then same_output payload (select_first (is_task task_id) db.tasks)
      else occ_conflict

  abbrev pub success_finish :
      Result (Option TaskExecutionRecord × Db) → ℕ → Result (CommitStatus × Db)
  success_finish (err e) now = err e
  success_finish (ok updated) now = ok (
      finish updated occ_conflict (λ t.
        history_entry t.workflow_execution_id (some task_id) (some attempt_id)
          "TaskExecutionSucceeded" now))

  abbrev pub succeed_task :
      Option ExecutionAttemptRecord × Db → ℕ → PyValue → ℕ → Result (CommitStatus × Db)
  succeed_task (none, db) expected_task_revision payload now =
      ok (duplicate_callback payload (select_first (is_attempt attempt_id) db.attempts) db, db)
  succeed_task (some a, db) expected_task_revision payload now =
      success_finish
        (output_check (jsonb payload) (
          update_tasks (success_task_where task_id expected_task_revision)
            (success_task_set (jsonb payload) now) db))
        now

  unfoldable pub commit_worker_task_success :
      ℕ → ℕ → ℕ → JsonValue → ℕ → Db → Result (CommitStatus × Db)
  commit_worker_task_success worker_session_id expected_attempt_revision expected_task_revision
        output now db =
      succeed_task
        (update_attempts
          (success_attempt_where attempt_id worker_session_id expected_attempt_revision task_id)
          (success_attempt_set now) db)
        expected_task_revision (thaw_json output) now
