-- ===== src/Lifecycle/Steps/Settles.antt =====
-- src/nexusflow/persistence/transactions.py: the effects of the transactions that settle an attempt
-- together with its task. A conflict on the task leaves the attempt settled.
use nexusflow.Base.{ℕ, String, ◌≡◌, refl, Bool, true, false, Option, none, some, arith}
use nexusflow.Domain.WorkflowState
use nexusflow.Domain.Failure.{FailureCause}
use nexusflow.Store.Table.{select_first}
use nexusflow.Store.Records.{Db, TaskExecutionRecord, ExecutionAttemptRecord, is_task}
use nexusflow.Transactions.Outcome.{
  precondition_failed, state_in, workflow_state, task_workflow, update_attempts, update_tasks,
}
use nexusflow.Transactions.Ownership.{is_active_of}
use nexusflow.Transactions.Failure.{
  commit_worker_failure_with_retry, commit_worker_definitive_failure, retry_after, fail_after,
  fail_finish, callback_where, fail_attempt_set, retry_task_where, retry_task_set, fail_task_where,
  fail_task_set, internal_fail_where,
}
use nexusflow.Transactions.Drain.{
  commit_worker_cancellation_ack, cancel_after, cancel_ack, cancel_finish, cancel_attempt_set,
  cancel_task_set, cancel_deadline, cancel_deadline_where, commit_internal_cancellation_deadline,
}
use nexusflow.Lifecycle.Effect.{HasEffect, Leads, touch, settle, TaskChange, AttemptChange}
use nexusflow.Lifecycle.Changes.{
  retry-TaskChange, fail-TaskChange, cancel-TaskChange, fail-AttemptChange, cancel-AttemptChange,
}
use nexusflow.Lifecycle.Steps.Tasks.{leads_rules, Leads-if, Leads-refl}

module _ (db : Db) (task_id : ℕ) (q : ExecutionAttemptRecord → Bool)
    (g : ExecutionAttemptRecord → ExecutionAttemptRecord) (change : AttemptChange q g) where
  -- The attempt is written and its task is not looked at.
  pub attempt-HasEffect : HasEffect db (update_attempts q g db).1
  attempt-HasEffect = record { tables = touch q g change }

  -- An active attempt of the task is settled, and then the task is updated.
  pub settle-HasEffect :
      (inside : (a : ExecutionAttemptRecord) → q a ≡ true → is_active_of task_id a ≡ true)
      (gone : (a : ExecutionAttemptRecord) → is_active_of task_id (g a) ≡ false)
      (a : ExecutionAttemptRecord)
      → select_first q db.attempts ≡ some a
      → (p : TaskExecutionRecord → Bool) (f : TaskExecutionRecord → TaskExecutionRecord)
      → TaskChange p f
      → ((t : TaskExecutionRecord) → p t ≡ true → is_task task_id t ≡ true)
      → HasEffect db (update_tasks p f (update_attempts q g db).1).1
  settle-HasEffect inside gone a e p f tasks of_id = record {
    tables = settle task_id q g p f change inside gone a e tasks of_id;
  }

module _ (db : Db) (attempt_id session attempt_revision task_id task_revision : ℕ)
    (cause : FailureCause) (now : ℕ) where
  abbrev reported : ExecutionAttemptRecord → Bool
  reported = callback_where attempt_id session attempt_revision task_id

  abbrev failed_attempt : Db
  failed_attempt = (update_attempts reported (fail_attempt_set cause now) db).1

  untouched-HasEffect : HasEffect db failed_attempt
  untouched-HasEffect =
      attempt-HasEffect db task_id reported (fail_attempt_set cause now)
        (fail-AttemptChange reported cause now)

  module _ (workflow_id ready_at : ℕ) where
    retry-HasEffect :
        (a : ExecutionAttemptRecord)
        → select_first reported db.attempts ≡ some a
        → HasEffect db
            (update_tasks
              (retry_task_where task_id task_revision workflow_id)
              (retry_task_set (some ready_at) now)
              failed_attempt).1
    retry-HasEffect a e =
        settle-HasEffect db task_id reported (fail_attempt_set cause now)
          (fail-AttemptChange reported cause now) (λ b h. ground arith) (λ b. ground arith) a e _ _
          (retry-TaskChange task_id task_revision workflow_id now (some ready_at))
          (λ t h. ground arith)

    retry_after-Leads :
        (row : Option ExecutionAttemptRecord)
        → select_first reported db.attempts ≡ row
        → Leads db (
            retry_after attempt_id session attempt_revision task_id
              (row, failed_attempt)
              task_revision
              workflow_id
              ready_at
              now)
    retry_after-Leads none e = record { effect = untouched-HasEffect }
    retry_after-Leads (some a) e = search (leads_rules, retry-HasEffect a e)

    pub commit_worker_failure_with_retry-Leads : Leads db (
        commit_worker_failure_with_retry attempt_id session attempt_revision task_id task_revision
          workflow_id ready_at cause now db)
    unfolding commit_worker_failure_with_retry
    commit_worker_failure_with_retry-Leads =
        Leads-if db (state_in WorkflowState.is_running (workflow_state workflow_id db)) _ _
          (retry_after-Leads (select_first reported db.attempts) refl)
          (Leads-refl precondition_failed db)

  fail-HasEffect :
      (a : ExecutionAttemptRecord)
      → select_first reported db.attempts ≡ some a
      → HasEffect db
          (update_tasks
            (fail_task_where task_id task_revision)
            (fail_task_set cause now)
            failed_attempt).1
  fail-HasEffect a e =
      settle-HasEffect db task_id reported (fail_attempt_set cause now)
        (fail-AttemptChange reported cause now) (λ b h. ground arith) (λ b. ground arith) a e _ _
        (fail-TaskChange task_id task_revision now cause) (λ t h. ground arith)

  fail_finish-Leads :
      (db' : Db) (row : Option TaskExecutionRecord)
      → HasEffect db db'
      → Leads db (fail_finish attempt_id session attempt_revision task_id (row, db') now)
  fail_finish-Leads db' none h = record { effect = h }
  fail_finish-Leads db' (some t) h = record { effect = record { tables = h.tables } }

  fail_after-Leads :
      (row : Option ExecutionAttemptRecord)
      → select_first reported db.attempts ≡ row
      → Leads db (
          fail_after attempt_id session attempt_revision task_id
            (row, failed_attempt)
            task_revision
            cause
            now)
  fail_after-Leads none e = record { effect = untouched-HasEffect }
  fail_after-Leads (some a) e = search (fail_finish-Leads, fail-HasEffect a e)

  pub commit_worker_definitive_failure-Leads : Leads db (
      commit_worker_definitive_failure attempt_id session attempt_revision task_id task_revision
        cause now db)
  unfolding commit_worker_definitive_failure
  commit_worker_definitive_failure-Leads = fail_after-Leads (select_first reported db.attempts) refl

-- The two ways of a cancelled attempt differ in the rows that they look for.
module _ (db : Db) (attempt_id attempt_revision task_id task_revision now : ℕ)
    (q : ExecutionAttemptRecord → Bool)
    (inside : (a : ExecutionAttemptRecord) → q a ≡ true → is_active_of task_id a ≡ true) where
  abbrev cancelled_attempt : Db
  cancelled_attempt = (update_attempts q (cancel_attempt_set now) db).1

  cancel-HasEffect :
      (workflow_id : ℕ) (a : ExecutionAttemptRecord)
      → select_first q db.attempts ≡ some a
      → HasEffect db
          (update_tasks
            (internal_fail_where task_id task_revision workflow_id)
            (cancel_task_set now)
            cancelled_attempt).1
  cancel-HasEffect workflow_id a e =
      settle-HasEffect db task_id q (cancel_attempt_set now) (cancel-AttemptChange q now) inside
        (λ b. ground arith) a e _ _ (cancel-TaskChange task_id task_revision workflow_id now)
        (λ t h. ground arith)

  cancel_finish-Leads :
      (db' : Db) (row : Option TaskExecutionRecord) (workflow_id : ℕ) (category : String)
      → HasEffect db db'
      → Leads db (
          cancel_finish attempt_id attempt_revision task_id task_revision
            (row, db')
            workflow_id
            category
            now)
  cancel_finish-Leads db' none workflow_id category h = record { effect = h }
  cancel_finish-Leads db' (some t) workflow_id category h = record {
    effect = record { tables = h.tables };
  }

  cancel_after-Leads :
      (row : Option ExecutionAttemptRecord) (workflow_id : ℕ) (category : String)
      → select_first q db.attempts ≡ row
      → Leads db (
          cancel_after attempt_id attempt_revision task_id task_revision
            (row, cancelled_attempt)
            workflow_id
            category
            now)
  cancel_after-Leads none workflow_id category e = record {
    effect = record { tables = touch q _ (cancel-AttemptChange q now) };
  }
  cancel_after-Leads (some a) workflow_id category e =
      search (cancel_finish-Leads, cancel-HasEffect workflow_id a e)

module _ (db : Db) (attempt_id attempt_revision task_id task_revision now : ℕ) where
  cancel_ack-Leads :
      (session : ℕ) (workflow : Option ℕ)
      → Leads db
          (cancel_ack attempt_id attempt_revision task_id task_revision workflow session now db)
  cancel_ack-Leads session none = search leads_rules
  cancel_ack-Leads session (some workflow_id) =
      Leads-if db (state_in WorkflowState.is_draining (workflow_state workflow_id db)) _ _
        (cancel_after-Leads db attempt_id attempt_revision task_id task_revision now
          (callback_where attempt_id session attempt_revision task_id) (λ a h. ground arith)
          (select_first (callback_where attempt_id session attempt_revision task_id) db.attempts)
          workflow_id "AttemptCancellationAcknowledged" refl)
        (Leads-refl (precondition_failed, none) db)

  pub commit_worker_cancellation_ack-Leads :
      (session : ℕ)
      → Leads db (
          commit_worker_cancellation_ack attempt_id attempt_revision task_id task_revision session
            now db)
  unfolding commit_worker_cancellation_ack
  commit_worker_cancellation_ack-Leads session = cancel_ack-Leads session (task_workflow task_id db)

  cancel_deadline-Leads :
      (workflow : Option ℕ)
      → Leads db (cancel_deadline attempt_id attempt_revision task_id task_revision workflow now db)
  cancel_deadline-Leads none = search leads_rules
  cancel_deadline-Leads (some workflow_id) =
      Leads-if db (state_in WorkflowState.is_draining (workflow_state workflow_id db)) _ _
        (cancel_after-Leads db attempt_id attempt_revision task_id task_revision now
          (cancel_deadline_where attempt_id attempt_revision task_id task_revision now)
          (λ a h. ground arith)
          (select_first
            (cancel_deadline_where attempt_id attempt_revision task_id task_revision now)
            db.attempts)
          workflow_id "AttemptCancellationDeadlineExpired" refl)
        (Leads-refl (precondition_failed, none) db)

  pub commit_internal_cancellation_deadline-Leads : Leads db (
      commit_internal_cancellation_deadline attempt_id attempt_revision task_id task_revision now
        db)
  unfolding commit_internal_cancellation_deadline
  commit_internal_cancellation_deadline-Leads = cancel_deadline-Leads (task_workflow task_id db)
