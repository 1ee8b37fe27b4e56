-- ===== src/Guarantees/Entities/Attempts.antt =====
-- src/nexusflow/domain/execution.py and src/nexusflow/persistence/transactions.py: updates of attempts.
use nexusflow.Base.{ℕ, ◌+◌, refl, ap, ◌&&◌, ◌==◌, ltb}
use nexusflow.Domain.AttemptState
use nexusflow.Domain.Execution.{ExecutionAttempt, observe_attempt_start, complete_attempt_success}
use nexusflow.Store.Records.{ExecutionAttemptRecord, is_attempt}
use nexusflow.Transactions.Ownership.{start_where, start_set}
use nexusflow.Transactions.Success.{success_attempt_where, success_attempt_set}
use nexusflow.Guarantees.Entities.{
  StoresAttempt, next_attempt_revision, Agrees, guarded, guarded_late, callback_order, late_order,
}

module _ (a : ExecutionAttemptRecord) (e : ExecutionAttempt) (stores : StoresAttempt a e)
    (now : ℕ) where
  start-Agrees :
      (attempt_id session revision : ℕ)
      → Agrees
          (λ r. StoresAttempt (start_set now a) (next_attempt_revision r))
          (start_where attempt_id session revision now a)
          (is_attempt attempt_id a && a.worker_session_id == session && a.revision == revision)
          (observe_attempt_start e now)
  start-Agrees attempt_id session revision =
      guarded_late _ (AttemptState.is_claimed e.state) (ltb e.start_deadline_utc now) _ _ _ _
        (rw stores.state (
          rw stores.start (
            late_order (is_attempt attempt_id a) (a.worker_session_id == session)
              (AttemptState.is_claimed e.state) (a.revision == revision) now e.start_deadline_utc)))
        (record {
          id = stores.id;
          task = stores.task;
          ordinal = stores.ordinal;
          session = stores.session;
          state = refl;
          revision = ap (λ n. n + 1) stores.revision;
          start = stores.start;
          timeout = stores.timeout;
          cancellation = stores.cancellation;
        })

  attempt_success-Agrees :
      (attempt_id session revision task_id : ℕ)
      → Agrees
          (λ r. StoresAttempt (success_attempt_set now a) (next_attempt_revision r))
          (success_attempt_where attempt_id session revision task_id a)
          (is_attempt attempt_id a
            && a.worker_session_id == session
            && a.task_execution_id == task_id
            && a.revision == revision)
          (complete_attempt_success e)
  attempt_success-Agrees attempt_id session revision task_id =
      guarded _ (AttemptState.is_running e.state) _ _ _ _
        (rw stores.state (
          callback_order (is_attempt attempt_id a) (a.worker_session_id == session)
            (a.task_execution_id == task_id) (AttemptState.is_running e.state)
            (a.revision == revision)))
        (record {
          id = stores.id;
          task = stores.task;
          ordinal = stores.ordinal;
          session = stores.session;
          state = refl;
          revision = ap (λ n. n + 1) stores.revision;
          start = stores.start;
          timeout = stores.timeout;
          cancellation = stores.cancellation;
        })

-- For a row that stores an attempt entity: the UPDATE statements of a worker's start and of its success
-- agree with observe_attempt_start, the start deadline included, and with complete_attempt_success.
pub attempt_updates-Agrees :
    (a : ExecutionAttemptRecord) (e : ExecutionAttempt)
    → StoresAttempt a e
    → (now attempt_id session revision task_id : ℕ)
    → Agrees
        (λ r. StoresAttempt (start_set now a) (next_attempt_revision r))
        (start_where attempt_id session revision now a)
        (is_attempt attempt_id a && a.worker_session_id == session && a.revision == revision)
        (observe_attempt_start e now)
      × Agrees
          (λ r. StoresAttempt (success_attempt_set now a) (next_attempt_revision r))
          (success_attempt_where attempt_id session revision task_id a)
          (is_attempt attempt_id a
            && a.worker_session_id == session
            && a.task_execution_id == task_id
            && a.revision == revision)
          (complete_attempt_success e)
attempt_updates-Agrees a e stores now attempt_id session revision task_id = (
  start-Agrees a e stores now attempt_id session revision,
  attempt_success-Agrees a e stores now attempt_id session revision task_id,
)
