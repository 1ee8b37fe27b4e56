-- ===== src/Interfaces/Callback/Failure.antt =====
-- src/nexusflow/interfaces/http/routes/worker.py: the callback of a failure.
use nexusflow.Base.{
  ℕ, ◌≡◌, inl, inr, refl, Bool, Option, none, some, List, arith, Bool-cases, Option-cases,
}
use nexusflow.Domain.Json.{PyValue}
use nexusflow.Domain.WorkflowState
use nexusflow.Domain.Failure.{FailureCause}
use nexusflow.Store.Table.{select_first, update_where}
use nexusflow.Store.Records.{
  Db, TaskExecutionRecord, ExecutionAttemptRecord, WorkflowExecutionRecord,
}
use nexusflow.Transactions.Outcome.{
  precondition_failed, finish, history_entry, workflow_state, state_in,
}
use nexusflow.Transactions.Failure.{
  commit_worker_failure_with_retry, commit_worker_definitive_failure, callback_where,
  fail_attempt_set, retry_task_where, retry_task_set, fail_task_where, fail_task_set, fail_finish,
}
use nexusflow.Transactions.Direction.{
  commit_workflow_failure_direction, begin_failing, failing_where,
}
use nexusflow.Interfaces.Callback.{answer_retry, answer_failure}
use nexusflow.Interfaces.Callback.Whole.{EndsWhole, together}

module _ (json_eq : PyValue → PyValue → Bool) (attempt_id session now_utc : ℕ) (db : Db)
    (attempt : ExecutionAttemptRecord) (task : TaskExecutionRecord) where
  abbrev task_id : ℕ
  task_id = task.task_execution_id

  abbrev called : ExecutionAttemptRecord → Bool
  called = callback_where attempt_id session attempt.revision task_id

  module _ (cause : FailureCause) where
    abbrev failed_attempts : List ExecutionAttemptRecord
    failed_attempts = update_where called (fail_attempt_set cause now_utc) db.attempts

    abbrev retried : TaskExecutionRecord → Bool
    retried = retry_task_where task_id task.revision task.workflow_execution_id

    retry_task-EndsWhole :
        (a : ExecutionAttemptRecord) (row : Option TaskExecutionRecord) (ready_at : ℕ)
        → select_first called db.attempts ≡ some a
        → select_first retried db.tasks ≡ row
        → EndsWhole attempt_id db (
            answer_retry json_eq attempt_id session now_utc (
              finish
                (
                  row,
                  record db {
                    attempts = failed_attempts;
                    tasks = update_where retried (retry_task_set (some ready_at) now_utc) db.tasks;
                  },
                )
                precondition_failed
                (λ t.
                  history_entry task.workflow_execution_id
                    (some task_id)
                    (some attempt_id)
                    "TaskExecutionRetrying"
                    now_utc)))
    retry_task-EndsWhole a none ready_at found e = tt
    retry_task-EndsWhole a (some t) ready_at found e = inr (
        together attempt_id db task_id called (fail_attempt_set cause now_utc) retried
          (retry_task_set (some ready_at) now_utc) a t (λ y h. ground arith) (λ y h. ground arith)
          found e _ refl refl)

    pub retry-EndsWhole :
        (ready_at : ℕ)
        → EndsWhole attempt_id db (
            answer_retry json_eq attempt_id session now_utc (
              commit_worker_failure_with_retry attempt_id session attempt.revision task_id
                task.revision task.workflow_execution_id ready_at cause now_utc db))
    unfolding commit_worker_failure_with_retry
    retry-EndsWhole ready_at =
        elim (Bool-cases
          (state_in WorkflowState.is_running (workflow_state task.workflow_execution_id db))) [
            | inr stopped ↦ rw stopped tt
            | inl runs ↦ rw runs (elim (Option-cases (select_first called db.attempts)) [
              | inl missing ↦ rw missing tt
              | inr (a, found) ↦ rw found (retry_task-EndsWhole a _ ready_at found refl)
            ])
          ]

    -- The direction of the workflow leaves attempts and tasks.
    direction_leaves :
        (wf_id : ℕ) (row : Option WorkflowExecutionRecord) (before : Db)
        → ((begin_failing wf_id row cause now_utc before).1.attempts ≡ before.attempts)
          × ((begin_failing wf_id row cause now_utc before).1.tasks ≡ before.tasks)
    direction_leaves wf_id none before = (refl, refl)
    direction_leaves wf_id (some w) before = elim (Bool-cases (WorkflowState.is_running w.state)) [
      | inr stopped ↦ rw stopped (refl, refl)
      | inl runs ↦
          rw runs (elim (Option-cases (select_first (failing_where wf_id) before.workflows)) [
            | inl missing ↦ rw missing (refl, refl)
            | inr (x, found) ↦ rw found (refl, refl)
          ])
    ]

    abbrev fails : TaskExecutionRecord → Bool
    fails = fail_task_where task_id task.revision

    fail_task-EndsWhole :
        (a : ExecutionAttemptRecord) (row : Option TaskExecutionRecord)
        → select_first called db.attempts ≡ some a
        → select_first fails db.tasks ≡ row
        → EndsWhole attempt_id db (
            answer_failure json_eq attempt_id session now_utc cause (
              fail_finish attempt_id session attempt.revision task_id
                (
                  row,
                  record db {
                    attempts = failed_attempts;
                    tasks = update_where fails (fail_task_set cause now_utc) db.tasks;
                  },
                )
                now_utc))
    unfolding commit_workflow_failure_direction
    fail_task-EndsWhole a none found e = tt
    fail_task-EndsWhole a (some t) found e =
        let leaves = direction_leaves t.workflow_execution_id _ _ in
        inr (
          together attempt_id db task_id called (fail_attempt_set cause now_utc) fails
            (fail_task_set cause now_utc) a t (λ y h. ground arith) (λ y h. ground arith) found e _
            leaves.0 leaves.1)

    pub failure-EndsWhole : EndsWhole attempt_id db (
        answer_failure json_eq attempt_id session now_utc cause (
          commit_worker_definitive_failure attempt_id session attempt.revision task_id task.revision
            cause now_utc db))
    unfolding commit_worker_definitive_failure
    failure-EndsWhole = elim (Option-cases (select_first called db.attempts)) [
      | inl missing ↦ rw missing tt
      | inr (a, found) ↦ rw found (fail_task-EndsWhole a _ found refl)
    ]
