-- ===== src/Orchestration/Scheduler/Sweeps.antt =====
-- src/nexusflow/orchestration/scheduler.py: sweep_timeouts_and_deadlines and sweep_worker_loss.
use nexusflow.Base.{
  ℕ, zero, suc, ◌+◌, Bool, true, ◌&&◌, Option, none, some, List, [], ◌∷◌, ◌++◌, any, ◌==◌, leb,
}
use nexusflow.Domain.Failure.{FailureCause, time_based, worker_availability}
use nexusflow.Domain.TaskState.{TaskState}
use nexusflow.Domain.AttemptState
use nexusflow.Store.Table.{select_all}
use nexusflow.Store.Records.{Db, TaskExecutionRecord, ExecutionAttemptRecord}
use nexusflow.Transactions.Outcome.{CommitStatus, committed}
use nexusflow.Transactions.Readiness.{is_due}
use nexusflow.Transactions.Failure.{commit_internal_attempt_failure}
use nexusflow.Transactions.Direction.{commit_workflow_failure_direction}
use nexusflow.Orchestration.Pass.{
  Pass, Setting, ◌>>=◌, ◌>>◌, return, sum_each, look, transact, now, lost_sessions,
}
use nexusflow.Orchestration.Scheduler.Drain.{joins, drain_workflow}

unfoldable pub take {ℓ} : {A : Type ℓ} → ℕ → List A → List A
take n [] = []
take zero (x ∷ xs) = []
take (suc n) (x ∷ xs) = x ∷ take n xs

abbrev pub with_task :
    ExecutionAttemptRecord
    → List TaskExecutionRecord
    → List (ExecutionAttemptRecord × TaskExecutionRecord)
with_task a [] = []
with_task a (t ∷ ts) = (a, t) ∷ with_task a ts

-- The attempts that p finds, each joined with its task.
abbrev pub join_tasks :
    List ExecutionAttemptRecord
    → List TaskExecutionRecord
    → List (ExecutionAttemptRecord × TaskExecutionRecord)
join_tasks [] tasks = []
join_tasks (a ∷ attempts) tasks =
    with_task a (select_all (joins a) tasks) ++ join_tasks attempts tasks

-- SELECT … JOIN … WHERE p LIMIT 50
abbrev pub joined :
    (ExecutionAttemptRecord → Bool) → Db → List (ExecutionAttemptRecord × TaskExecutionRecord)
joined p db = take 50 (join_tasks (select_all p db.attempts) db.tasks)

abbrev pub is_expired_claim : ℕ → ExecutionAttemptRecord → Bool
is_expired_claim now_utc a = AttemptState.is_claimed a.state && leb a.start_deadline_utc now_utc

abbrev pub is_expired_run : ℕ → ExecutionAttemptRecord → Bool
is_expired_run now_utc a = AttemptState.is_running a.state && is_due now_utc a.execution_timeout_utc

abbrev pub is_orphan : List ℕ → ExecutionAttemptRecord → Bool
is_orphan lost_ids a =
    any (λ id. id == a.worker_session_id) lost_ids && AttemptState.is_active a.state

abbrev pub start_deadline_expired : FailureCause
start_deadline_expired = record {
  category = time_based;
  code = "START_DEADLINE_EXPIRED";
  message = "Worker did not acknowledge start before start_deadline_utc";
  details = none;
}

abbrev pub execution_timeout : FailureCause
execution_timeout = record {
  category = time_based;
  code = "EXECUTION_TIMEOUT";
  message = "Activity execution exceeded configured execution timeout";
  details = none;
}

abbrev pub worker_loss : FailureCause
worker_loss = record {
  category = worker_availability;
  code = "WORKER_LOSS";
  message = "Worker session heartbeat timed out / lost";
  details = none;
}

-- timedelta(seconds=5.0)
abbrev pub retry_delay : ℕ
retry_delay = 5000000

module _ (setting : Setting) where
  -- After a settlement that was committed; the number of settlements.
  unfoldable pub after_settlement : FailureCause → ℕ → ℕ → Option TaskState → Pass ℕ
  after_settlement cause now_utc workflow_id (some TaskState.failed) =
      transact setting (commit_workflow_failure_direction workflow_id cause now_utc)
      >> drain_workflow setting workflow_id
      >> return 1
  after_settlement cause now_utc workflow_id _ = return 1

  unfoldable pub settlement_result :
      FailureCause → ℕ → CommitStatus × Option ℕ × Option TaskState → Pass ℕ
  settlement_result cause now_utc (committed, some workflow_id, new_state) =
      after_settlement cause now_utc workflow_id new_state
  settlement_result cause now_utc _ = return 0

  unfoldable pub settle_attempt :
      FailureCause → ℕ → Option ℕ → ExecutionAttemptRecord × TaskExecutionRecord → Pass ℕ
  settle_attempt cause now_utc lost (a, task) =
      transact setting (
        commit_internal_attempt_failure a.attempt_id a.revision task.task_execution_id task.revision
          cause now_utc true (some (now_utc + retry_delay)) lost)
      >>= settlement_result cause now_utc

  unfoldable pub sweep_timeouts_and_deadlines : Pass ℕ
  sweep_timeouts_and_deadlines = do
    now_utc ← now setting
    expired_claims ← look setting (joined (is_expired_claim now_utc))
    claims ← sum_each expired_claims (settle_attempt start_deadline_expired now_utc none)
    expired_timeouts ← look setting (joined (is_expired_run now_utc))
    timeouts ← sum_each expired_timeouts (settle_attempt execution_timeout now_utc none)
    return (claims + timeouts)

  unfoldable pub settle_orphan : ℕ → ExecutionAttemptRecord × TaskExecutionRecord → Pass ℕ
  settle_orphan now_utc row = settle_attempt worker_loss now_utc (some row.0.worker_session_id) row

  unfoldable pub sweep_sessions : ℕ → List ℕ → Pass ℕ
  sweep_sessions now_utc [] = return 0
  sweep_sessions now_utc (id ∷ ids) = look setting (joined (is_orphan (id ∷ ids))) >>= λ orphans.
      sum_each orphans (settle_orphan now_utc)

  unfoldable pub sweep_worker_loss : Pass ℕ
  sweep_worker_loss = do
    now_utc ← now setting
    lost ← lost_sessions setting
    sweep_sessions now_utc lost
