-- ===== src/Interfaces/Callback.antt =====
-- src/nexusflow/interfaces/http/routes/worker.py: report_callback. The session of the request is in a
-- transaction from its first SELECT on, so that the transactions that it calls are savepoints of it: an
-- exception that leaves the route, ApiHttpException or another, discards what they have written.
pub mod Whole
pub mod Success
pub mod Failure
pub mod Cancel
pub mod Answer
use nexusflow.Base.{ℕ, ◌+◌, Bool, false, Option, none, some, Result, ok, err, ◌==◌, if◌then◌else◌}
use nexusflow.Domain.Json.{PyValue, JsonValue, freeze_json}
use nexusflow.Domain.WorkflowState.{WorkflowState}
use nexusflow.Domain.Failure.{FailureCause, evaluate_retry_eligibility}
use nexusflow.Domain.Failure.Classify.{WorkerFailureReport, classify_worker_failure}
use nexusflow.Store.Table.{select_first}
use nexusflow.Store.Records.{Db, TaskExecutionRecord, ExecutionAttemptRecord, is_attempt, is_task}
use nexusflow.Transactions.Outcome.{CommitStatus, committed, workflow_state}
use nexusflow.Transactions.Success.{commit_worker_task_success}
use nexusflow.Transactions.Failure.{
  commit_worker_failure_with_retry, commit_worker_definitive_failure,
}
use nexusflow.Transactions.Drain.{commit_worker_cancellation_ack}
use nexusflow.Transactions.Direction.{commit_workflow_failure_direction}

-- payload.payload; the error of a failure payload is the report that is made of it.
pub data Payload : Type 0 where
  activity_success : (output : PyValue) → Payload
  activity_failure : (report : WorkerFailureReport) → Payload
  activity_cancel_ack : Payload

-- The codes of ApiHttpException, and any other exception.
pub data ApiError : Type 0 where
  attempt_not_found wrong_session internal_error invalid_output stale_attempt unhandled : ApiError

-- The pass of the scheduler that is called after session.commit().
pub data FollowUp : Type 0 where
  advance drain : (workflow_id : ℕ) → FollowUp
  no_pass : FollowUp

pub data Reply : Type 0 where
  accepted : (follow_up : FollowUp) → Reply
  refused : (error : ApiError) → Reply

-- The route raises, or it commits its session.
pub data Ending : Type 0 where
  raises : (error : ApiError) → Ending
  commits : (follow_up : FollowUp) (db : Db) → Ending

-- if outcome.status != COMMITTED: raise
abbrev pub if_committed : CommitStatus → Ending → Ending
if_committed committed ending = ending
if_committed _ ending = raises stale_attempt

-- timedelta(seconds=5.0)
abbrev pub callback_delay : ℕ
callback_delay = 5000000

abbrev pub is_retryable : TaskExecutionRecord → Bool → Option WorkflowState → Bool
is_retryable task is_classified_retryable none = false
is_retryable task is_classified_retryable (some wf_state) =
    evaluate_retry_eligibility task.next_attempt_ordinal task.max_attempts is_classified_retryable
      wf_state

module _ (json_eq : PyValue → PyValue → Bool) (attempt_id session now_utc : ℕ) where
  abbrev pub answer_success : TaskExecutionRecord → Result (CommitStatus × Db) → Ending
  answer_success task (err e) = raises unhandled
  answer_success task (ok outcome) =
      if_committed outcome.0 (commits (advance task.workflow_execution_id) outcome.1)

  abbrev pub report_success :
      ExecutionAttemptRecord → TaskExecutionRecord → Result JsonValue → Db → Ending
  report_success attempt task (err e) db = raises invalid_output
  report_success attempt task (ok frozen_output) db = answer_success task (
      commit_worker_task_success json_eq attempt_id task.task_execution_id session attempt.revision
        task.revision frozen_output now_utc db)

  abbrev pub fail_workflow : FailureCause → Option ℕ → Db → Ending
  fail_workflow cause none db = commits no_pass db
  fail_workflow cause (some wf_id) db =
      commits (drain wf_id) (commit_workflow_failure_direction wf_id cause now_utc db).1

  abbrev pub answer_retry : CommitStatus × Db → Ending
  answer_retry outcome = if_committed outcome.0 (commits no_pass outcome.1)

  abbrev pub answer_failure : FailureCause → (CommitStatus × Option ℕ) × Db → Ending
  answer_failure cause ((status, wf_id), db) = if_committed status (fail_workflow cause wf_id db)

  abbrev pub report_failure :
      ExecutionAttemptRecord → TaskExecutionRecord → FailureCause × Bool → Db → Ending
  report_failure attempt task (cause, is_classified_retryable) db =
      if is_retryable task is_classified_retryable (workflow_state task.workflow_execution_id db)
      then answer_retry (
          commit_worker_failure_with_retry attempt_id session attempt.revision
            task.task_execution_id task.revision task.workflow_execution_id
            (now_utc + callback_delay) cause now_utc db)
      else answer_failure cause (
          commit_worker_definitive_failure attempt_id session attempt.revision
            task.task_execution_id task.revision cause now_utc db)

  abbrev pub answer_cancel : TaskExecutionRecord → (CommitStatus × Option ℕ) × Db → Ending
  answer_cancel task ((status, wf_id), db) =
      if_committed status (commits (drain task.workflow_execution_id) db)

  abbrev pub for_task : ExecutionAttemptRecord → Option TaskExecutionRecord → Payload → Db → Ending
  for_task attempt none payload db = raises internal_error
  for_task attempt (some task) (activity_success output) db =
      report_success attempt task (freeze_json output) db
  for_task attempt (some task) (activity_failure report) db =
      report_failure attempt task (classify_worker_failure report) db
  for_task attempt (some task) activity_cancel_ack db = answer_cancel task (
      commit_worker_cancellation_ack attempt_id attempt.revision task.task_execution_id
        task.revision session now_utc db)

  abbrev pub for_attempt : Option ExecutionAttemptRecord → Payload → Db → Ending
  for_attempt none payload db = raises attempt_not_found
  for_attempt (some attempt) payload db =
      if attempt.worker_session_id == session
      then for_task attempt (select_first (is_task attempt.task_execution_id) db.tasks) payload db
      else raises wrong_session

  abbrev pub close : Db → Ending → Reply × Db
  close db (raises error) = (refused error, db)
  close db (commits follow_up written) = (accepted follow_up, written)

  unfoldable pub report_callback : Payload → Db → Reply × Db
  report_callback payload db =
      close db (for_attempt (select_first (is_attempt attempt_id) db.attempts) payload db)
