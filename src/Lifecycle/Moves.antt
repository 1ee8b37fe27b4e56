-- ===== src/Lifecycle/Moves.antt =====
-- The moves of a task row: the state machine of TaskState with the columns that go with it.
use nexusflow.Base.{◌+◌, ◌≤◌, ◌≡◌, Bool, true, false, some, if◌then◌else◌}
use nexusflow.Domain.Json.{PyValue}
use nexusflow.Domain.TaskState
use nexusflow.Domain.TaskState.{
  TaskState, pending, runnable, running, retry_wait, succeeded, failed, cancelled,
}
use nexusflow.Store.Records.{TaskExecutionRecord}

-- The edges of the task lifecycle.
abbrev pub legal_move : TaskState → TaskState → Bool
legal_move pending runnable = true
legal_move pending cancelled = true
legal_move runnable running = true
legal_move runnable cancelled = true
legal_move running succeeded = true
legal_move running retry_wait = true
legal_move running failed = true
legal_move running cancelled = true
legal_move retry_wait runnable = true
legal_move retry_wait cancelled = true
legal_move _ _ = false

-- One write of a task row.
pub record Moves (t u : TaskExecutionRecord) : Type 0 where
  pub edge : legal_move t.state u.state ≡ true
  pub next_revision : u.revision ≡ t.revision + 1
  pub same_id : u.task_execution_id ≡ t.task_execution_id
  pub same_workflow : u.workflow_execution_id ≡ t.workflow_execution_id
  pub same_definition : u.task_definition_id ≡ t.task_definition_id
  pub same_budget : u.max_attempts ≡ t.max_attempts
  pub ordinals : u.next_attempt_ordinal ≡ (
      if TaskState.is_running u.state then t.next_attempt_ordinal + 1 else t.next_attempt_ordinal)
  pub input_kept : TaskState.is_pending t.state ≡ false → u.stable_input ≡ t.stable_input
  pub output_kept : TaskState.is_succeeded u.state ≡ false → u.task_output ≡ t.task_output

-- What a task row says by itself: its budget of attempts, its input once it is runnable, its output
-- once it has succeeded.
pub record IsSound (t : TaskExecutionRecord) : Type 0 where
  pub first_ordinal : 1 ≤ t.next_attempt_ordinal
  pub budget : t.next_attempt_ordinal ≤ t.max_attempts + 1
  pub room : TaskState.is_unstarted t.state ≡ true → t.next_attempt_ordinal ≤ t.max_attempts
  pub output : TaskState.is_succeeded t.state ≡ true → (v : PyValue) × (t.task_output ≡ some v)
