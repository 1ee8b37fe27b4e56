-- ===== src/Transactions/Ownership.antt =====
-- src/nexusflow/persistence/transactions.py: a worker session claims a task and starts its attempt.
use nexusflow.Base.{
  ℕ, ◌+◌, Bool, not, ◌&&◌, ◌||◌, Option, none, some, [], ◌∷◌, ◌++◌, Result, ok, err,
  integrity_error, any, ◌==◌, leb, if◌then◌else◌,
}
use nexusflow.Domain.WorkflowState
use nexusflow.Domain.TaskState
use nexusflow.Domain.AttemptState
use nexusflow.Store.Table.{select_first}
use nexusflow.Store.Records.{Db, TaskExecutionRecord, ExecutionAttemptRecord, is_task, is_attempt}
use nexusflow.Transactions.Outcome.{
  CommitStatus, committed, precondition_failed, occ_conflict, update_tasks, update_attempts,
  add_history, history_entry, workflow_state, task_workflow, state_in,
}

-- An active attempt of the task.
abbrev pub is_active_of : ℕ → ExecutionAttemptRecord → Bool
is_active_of task_id a = a.task_execution_id == task_id && AttemptState.is_active a.state

-- The primary key and the unique indexes of execution_attempts: uq_attempt_ordinal_per_task and
-- uq_single_active_attempt_per_task.
abbrev pub attempt_clash : ExecutionAttemptRecord → ExecutionAttemptRecord → Bool
attempt_clash new a =
    is_attempt new.attempt_id a
    || (a.task_execution_id == new.task_execution_id && a.attempt_ordinal == new.attempt_ordinal)
    || (is_active_of new.task_execution_id a && AttemptState.is_active new.state)

-- session.add(ExecutionAttemptRecord(…)) and flush
abbrev pub insert_attempt : ExecutionAttemptRecord → Db → Result Db
insert_attempt new db =
    if any (attempt_clash new) db.attempts
    then err integrity_error
    else ok (record db { attempts = db.attempts ++ new ∷ [] })

abbrev pub ownership_set : ℕ → TaskExecutionRecord → TaskExecutionRecord
ownership_set now t = record t {
  state = TaskState.running;
  revision = t.revision + 1;
  next_attempt_ordinal = t.next_attempt_ordinal + 1;
  updated_at_utc = now;
}

abbrev pub new_attempt : ℕ → ℕ → ℕ → ℕ → ℕ → ℕ → ExecutionAttemptRecord
new_attempt task_id ordinal worker_session_id attempt_id start_deadline now = record {
  attempt_id = attempt_id;
  task_execution_id = task_id;
  attempt_ordinal = ordinal;
  worker_session_id = worker_session_id;
  state = AttemptState.claimed;
  revision = 1;
  start_deadline_utc = start_deadline;
  execution_timeout_utc = none;
  cancellation_deadline_utc = none;
  failure = none;
  created_at_utc = now;
  updated_at_utc = now;
}

module _ (task_id expected_task_revision workflow_id : ℕ) where
  abbrev pub ownership_where : TaskExecutionRecord → Bool
  ownership_where t =
      is_task task_id t
      && t.workflow_execution_id == workflow_id
      && TaskState.is_runnable t.state
      && t.revision == expected_task_revision

  -- From the UPDATE on: `none` stands for the allocated ordinal None.
  abbrev pub claim :
      Option TaskExecutionRecord × Db → ℕ → ℕ → ℕ → ℕ → Result ((CommitStatus × Option ℕ) × Db)
  claim (none, db) worker_session_id attempt_id start_deadline now = ok ((occ_conflict, none), db)
  claim (some t, db) worker_session_id attempt_id start_deadline now =
      let ordinal : ℕ = t.next_attempt_ordinal in
      elim (insert_attempt
        (new_attempt task_id ordinal worker_session_id attempt_id start_deadline now) db) [
          | err e ↦ err e
          | ok db' ↦ ok (
            (committed, some ordinal),
            add_history
                (history_entry workflow_id (some task_id) (some attempt_id) "TaskClaimedByWorker"
                  now)
                db',
          )
        ]

  unfoldable pub commit_attempt_ownership :
      ℕ → ℕ → ℕ → ℕ → Db → Result ((CommitStatus × Option ℕ) × Db)
  commit_attempt_ownership worker_session_id attempt_id start_deadline now db =
      if not (state_in WorkflowState.is_running (workflow_state workflow_id db))
      then ok ((precondition_failed, none), db)
      else if any (is_active_of task_id) db.attempts
      then ok ((precondition_failed, none), db)
      else claim (update_tasks ownership_where (ownership_set now) db) worker_session_id attempt_id
          start_deadline now

abbrev pub start_set : ℕ → ExecutionAttemptRecord → ExecutionAttemptRecord
start_set now a = record a {
  state = AttemptState.running;
  revision = a.revision + 1;
  updated_at_utc = now;
}

-- The attempt of this id and session, looked up when no row was updated.
abbrev pub already_started : Option ExecutionAttemptRecord → CommitStatus
already_started none = occ_conflict
already_started (some a) = if AttemptState.is_running a.state then committed else occ_conflict

-- `uuid4 ()` names a workflow where the task of the attempt is missing.
abbrev pub start_entry_workflow : ℕ → Option ℕ → ℕ
start_entry_workflow uuid4 none = uuid4
start_entry_workflow uuid4 (some workflow_id) = workflow_id

module _ (attempt_id worker_session_id expected_attempt_revision : ℕ) where
  abbrev pub start_where : ℕ → ExecutionAttemptRecord → Bool
  start_where now a =
      is_attempt attempt_id a
      && a.worker_session_id == worker_session_id
      && AttemptState.is_claimed a.state
      && leb now a.start_deadline_utc
      && a.revision == expected_attempt_revision

  abbrev pub start : Option ExecutionAttemptRecord × Db → ℕ → ℕ → CommitStatus × Db
  start (none, db) uuid4 now = (
    already_started (
        select_first (λ a. is_attempt attempt_id a && a.worker_session_id == worker_session_id)
          db.attempts),
    db,
  )
  start (some a, db) uuid4 now = (
    committed,
    add_history
        (history_entry (start_entry_workflow uuid4 (task_workflow a.task_execution_id db))
          (some a.task_execution_id) (some attempt_id) "AttemptExecutionStarted" now)
        db,
  )

  unfoldable pub commit_worker_execution_start : ℕ → ℕ → Db → CommitStatus × Db
  commit_worker_execution_start uuid4 now db =
      start (update_attempts (start_where now) (start_set now) db) uuid4 now
