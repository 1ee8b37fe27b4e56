-- ===== src/Lifecycle/Steps/Internal.antt =====
-- src/nexusflow/persistence/transactions.py: the effect of commit_internal_attempt_failure, under a
-- code that the engine gives: START_DEADLINE_EXPIRED, EXECUTION_TIMEOUT or WORKER_LOSS.
use nexusflow.Base.{
  ℕ, String, ◌≡◌, refl, Bool, true, false, ◌||◌, Option, none, some, arith, str_eq,
}
use nexusflow.Domain.Failure.{FailureCause}
use nexusflow.Domain.TaskState.{TaskState}
use nexusflow.Store.Table.{select_first}
use nexusflow.Store.Table.Laws.{update_where_absent}
use nexusflow.Store.Records.{Db, TaskExecutionRecord, ExecutionAttemptRecord}
use nexusflow.Transactions.Outcome.{
  precondition_failed, workflow_state, task_workflow, update_attempts, update_tasks,
}
use nexusflow.Transactions.Ownership.{is_active_of}
use nexusflow.Transactions.Failure.{
  commit_internal_attempt_failure, internal_where, internal_finish, internal_retry, internal_after,
  internal_failure, internal_fail_where, can_retry, fail_attempt_set, retry_task_where,
  retry_task_set, fail_task_set,
}
use nexusflow.Lifecycle.Effect.{HasEffect, Leads}
use nexusflow.Lifecycle.Changes.{retry-TaskChange, internal_fail-TaskChange, fail-AttemptChange}
use nexusflow.Lifecycle.Steps.Tasks.{Leads-refl}
use nexusflow.Lifecycle.Steps.Settles.{attempt-HasEffect, settle-HasEffect}

-- The causes that the scheduler and the recovery engine report.
abbrev pub is_engine_code : String → Bool
is_engine_code code =
    str_eq code "START_DEADLINE_EXPIRED"
    || str_eq code "EXECUTION_TIMEOUT"
    || str_eq code "WORKER_LOSS"

module _ (db : Db) (attempt_id attempt_revision task_id task_revision : ℕ) (cause : FailureCause)
    (now : ℕ) (known : is_engine_code cause.code ≡ true) (lost : Option ℕ) where
  abbrev found : ExecutionAttemptRecord → Bool
  found = internal_where attempt_id attempt_revision task_id cause.code lost now

  abbrev failed_attempt : Db
  failed_attempt = (update_attempts found (fail_attempt_set cause now) db).1

  found_active : (a : ExecutionAttemptRecord) → found a ≡ true → is_active_of task_id a ≡ true
  found_active a h = ground arith

  retry-HasEffect :
      (workflow_id : ℕ) (ready_at : Option ℕ) (a : ExecutionAttemptRecord)
      → select_first found db.attempts ≡ some a
      → HasEffect db
          (update_tasks
            (retry_task_where task_id task_revision workflow_id)
            (retry_task_set ready_at now)
            failed_attempt).1
  retry-HasEffect workflow_id ready_at a e =
      settle-HasEffect db task_id found (fail_attempt_set cause now)
        (fail-AttemptChange found cause now) found_active (λ b. ground arith) a e _ _
        (retry-TaskChange task_id task_revision workflow_id now ready_at) (λ t h. ground arith)

  fail-HasEffect :
      (workflow_id : ℕ) (a : ExecutionAttemptRecord)
      → select_first found db.attempts ≡ some a
      → HasEffect db
          (update_tasks
            (internal_fail_where task_id task_revision workflow_id)
            (fail_task_set cause now)
            failed_attempt).1
  fail-HasEffect workflow_id a e =
      settle-HasEffect db task_id found (fail_attempt_set cause now)
        (fail-AttemptChange found cause now) found_active (λ b. ground arith) a e _ _
        (internal_fail-TaskChange task_id task_revision workflow_id now cause) (λ t h. ground arith)

  internal_finish-Leads :
      (db' : Db) (row : Option TaskExecutionRecord) (workflow_id : ℕ) (new_state : TaskState)
      → HasEffect db db'
      → Leads db (
          internal_finish attempt_id attempt_revision task_id task_revision cause now
            (row, db')
            workflow_id
            new_state)
  internal_finish-Leads db' none workflow_id new_state h = record { effect = h }
  internal_finish-Leads db' (some t) workflow_id new_state h = record {
    effect = record { tables = h.tables };
  }

  -- The retry has found no row, so it has changed nothing.
  fail_after_retry-HasEffect :
      (workflow_id : ℕ) (ready_at : Option ℕ) (a : ExecutionAttemptRecord)
      → select_first found db.attempts ≡ some a
      → select_first (retry_task_where task_id task_revision workflow_id) db.tasks ≡ none
      → HasEffect db
          (update_tasks
            (internal_fail_where task_id task_revision workflow_id)
            (fail_task_set cause now)
            (update_tasks
              (retry_task_where task_id task_revision workflow_id)
              (retry_task_set ready_at now)
              failed_attempt).1).1
  fail_after_retry-HasEffect workflow_id ready_at a e missing = record {
    tables =
        rw (update_where_absent _ (retry_task_set ready_at now) db.tasks missing)
          (fail-HasEffect workflow_id a e).tables;
  }

  internal_retry-Leads :
      (row : Option TaskExecutionRecord) (workflow_id : ℕ) (ready_at : Option ℕ)
      (a : ExecutionAttemptRecord)
      → select_first found db.attempts ≡ some a
      → select_first (retry_task_where task_id task_revision workflow_id) db.tasks ≡ row
      → Leads db (
          internal_retry attempt_id attempt_revision task_id task_revision cause now
            (
              row,
              (update_tasks
                  (retry_task_where task_id task_revision workflow_id)
                  (retry_task_set ready_at now)
                  failed_attempt).1,
            )
            workflow_id)
  internal_retry-Leads none workflow_id ready_at a e missing =
      internal_finish-Leads _ _ workflow_id TaskState.failed
        (fail_after_retry-HasEffect workflow_id ready_at a e missing)
  internal_retry-Leads (some t) workflow_id ready_at a e here =
      internal_finish-Leads _ (some t) workflow_id TaskState.retry_wait
        (retry-HasEffect workflow_id ready_at a e)

  internal_after-Leads :
      (row : Option ExecutionAttemptRecord) (workflow_id : ℕ) (retry : Bool) (ready_at : Option ℕ)
      → select_first found db.attempts ≡ row
      → Leads db (
          internal_after attempt_id attempt_revision task_id task_revision cause now
            (row, failed_attempt)
            workflow_id
            retry
            ready_at)
  internal_after-Leads none workflow_id retry ready_at e = record {
    effect =
        attempt-HasEffect db task_id found (fail_attempt_set cause now)
          (fail-AttemptChange found cause now);
  }
  internal_after-Leads (some a) workflow_id true ready_at e =
      internal_retry-Leads _ workflow_id ready_at a e refl
  internal_after-Leads (some a) workflow_id false ready_at e =
      internal_finish-Leads _ _ workflow_id TaskState.failed (fail-HasEffect workflow_id a e)

  internal_failure-Leads :
      (workflow : Option ℕ) (is_retryable : Bool) (ready_at : Option ℕ)
      → Leads db (
          internal_failure attempt_id attempt_revision task_id task_revision cause now workflow
            is_retryable ready_at lost db)
  internal_failure-Leads none is_retryable ready_at =
      Leads-refl (precondition_failed, none, none) db
  internal_failure-Leads (some workflow_id) is_retryable ready_at =
      internal_after-Leads (select_first found db.attempts) workflow_id
        (can_retry (workflow_state workflow_id db) is_retryable ready_at) ready_at refl

  pub commit_internal_attempt_failure-Leads :
      (is_retryable : Bool) (ready_at : Option ℕ)
      → Leads db (
          commit_internal_attempt_failure attempt_id attempt_revision task_id task_revision cause
            now is_retryable ready_at lost db)
  unfolding commit_internal_attempt_failure
  commit_internal_attempt_failure-Leads is_retryable ready_at =
      internal_failure-Leads (task_workflow task_id db) is_retryable ready_at
