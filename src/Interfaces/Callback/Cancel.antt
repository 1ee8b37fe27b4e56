-- ===== src/Interfaces/Callback/Cancel.antt =====
-- src/nexusflow/interfaces/http/routes/worker.py: the acknowledgement of a cancellation.
use nexusflow.Base.{
  ℕ, ◌≡◌, inl, inr, refl, Bool, Option, none, some, arith, Bool-cases, Option-cases,
}
use nexusflow.Domain.Json.{PyValue}
use nexusflow.Domain.WorkflowState
use nexusflow.Store.Table.{select_first, update_where}
use nexusflow.Store.Records.{Db, TaskExecutionRecord, ExecutionAttemptRecord}
use nexusflow.Transactions.Outcome.{workflow_state, task_workflow, state_in}
use nexusflow.Transactions.Failure.{callback_where, internal_fail_where}
use nexusflow.Transactions.Drain.{
  commit_worker_cancellation_ack, cancel_ack, cancel_finish, cancel_attempt_set, cancel_task_set,
}
use nexusflow.Interfaces.Callback.{answer_cancel}
use nexusflow.Interfaces.Callback.Whole.{EndsWhole, together}

module _ (json_eq : PyValue → PyValue → Bool) (attempt_id session now_utc : ℕ) (db : Db)
    (attempt : ExecutionAttemptRecord) (task : TaskExecutionRecord) where
  abbrev task_id : ℕ
  task_id = task.task_execution_id

  abbrev called : ExecutionAttemptRecord → Bool
  called = callback_where attempt_id session attempt.revision task_id

  module _ (wf_id : ℕ) where
    abbrev cancels : TaskExecutionRecord → Bool
    cancels = internal_fail_where task_id task.revision wf_id

    cancel_task-EndsWhole :
        (a : ExecutionAttemptRecord) (row : Option TaskExecutionRecord)
        → select_first called db.attempts ≡ some a
        → select_first cancels db.tasks ≡ row
        → EndsWhole attempt_id db (
            answer_cancel json_eq attempt_id session now_utc task (
              cancel_finish attempt_id attempt.revision task_id task.revision
                (
                  row,
                  record db {
                    attempts = update_where called (cancel_attempt_set now_utc) db.attempts;
                    tasks = update_where cancels (cancel_task_set now_utc) db.tasks;
                  },
                )
                wf_id
                "AttemptCancellationAcknowledged"
                now_utc))
    cancel_task-EndsWhole a none found e = tt
    cancel_task-EndsWhole a (some t) found e = inr (
        together attempt_id db task_id called (cancel_attempt_set now_utc) cancels
          (cancel_task_set now_utc) a t (λ y h. ground arith) (λ y h. ground arith) found e _ refl
          refl)

  cancel_workflow-EndsWhole :
      (workflow : Option ℕ)
      → EndsWhole attempt_id db (
          answer_cancel json_eq attempt_id session now_utc task (
            cancel_ack attempt_id attempt.revision task_id task.revision workflow session now_utc
              db))
  cancel_workflow-EndsWhole none = tt
  cancel_workflow-EndsWhole (some wf_id) =
      elim (Bool-cases (state_in WorkflowState.is_draining (workflow_state wf_id db))) [
        | inr other ↦ rw other tt
        | inl drains ↦ rw drains (elim (Option-cases (select_first called db.attempts)) [
          | inl missing ↦ rw missing tt
          | inr (a, found) ↦ rw found (cancel_task-EndsWhole wf_id a _ found refl)
        ])
      ]

  pub cancel-EndsWhole : EndsWhole attempt_id db (
      answer_cancel json_eq attempt_id session now_utc task (
        commit_worker_cancellation_ack attempt_id attempt.revision task_id task.revision session
          now_utc db))
  unfolding commit_worker_cancellation_ack
  cancel-EndsWhole = cancel_workflow-EndsWhole (task_workflow task_id db)
