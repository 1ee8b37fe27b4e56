-- ===== src/Interfaces/Callback/Success.antt =====
-- src/nexusflow/interfaces/http/routes/worker.py: the callback of a success.
use nexusflow.Base.{ℕ, ◌≡◌, inl, inr, refl, Bool, Option, none, some, ok, arith, Option-cases}
use nexusflow.Domain.Json.{PyValue, JsonValue}
use nexusflow.Store.Table.{select_first, update_where}
use nexusflow.Store.Table.Laws.{update_where_absent}
use nexusflow.Store.Records.{Db, TaskExecutionRecord, ExecutionAttemptRecord}
use nexusflow.Transactions.Success.{
  commit_worker_task_success, success_attempt_where, success_attempt_set, success_task_where,
  success_task_set, success_finish, output_check,
}
use nexusflow.Interfaces.Callback.{answer_success, report_success}
use nexusflow.Interfaces.Callback.Whole.{EndsWhole, if_whole, together}

module _ (json_eq : PyValue → PyValue → Bool) (attempt_id session now_utc : ℕ) (db : Db)
    (attempt : ExecutionAttemptRecord) (task : TaskExecutionRecord) where
  abbrev task_id : ℕ
  task_id = task.task_execution_id

  -- The attempts after an update that finds no row.
  same_attempts :
      (p : ExecutionAttemptRecord → Bool) (f : ExecutionAttemptRecord → ExecutionAttemptRecord)
      → select_first p db.attempts ≡ none
      → record db { attempts = update_where p f db.attempts } ≡ db
  same_attempts p f missing = rw (update_where_absent p f db.attempts missing) refl

  module _ (output : JsonValue) where
    abbrev reported : ExecutionAttemptRecord → Bool
    reported = success_attempt_where attempt_id session attempt.revision task_id

    abbrev ready : TaskExecutionRecord → Bool
    ready = success_task_where task_id task.revision

    success_task-EndsWhole :
        (a : ExecutionAttemptRecord) (column : Option PyValue) (row : Option TaskExecutionRecord)
        → select_first reported db.attempts ≡ some a
        → select_first ready db.tasks ≡ row
        → EndsWhole attempt_id db (
            answer_success json_eq attempt_id session now_utc task (
              success_finish json_eq attempt_id task_id
                (output_check column (
                  row,
                  record db {
                    attempts = update_where reported (success_attempt_set now_utc) db.attempts;
                    tasks = update_where ready (success_task_set column now_utc) db.tasks;
                  },
                ))
                now_utc))
    success_task-EndsWhole a none none found e = tt
    success_task-EndsWhole a (some v) none found e = tt
    success_task-EndsWhole a none (some t) found e = tt
    success_task-EndsWhole a (some v) (some t) found e = inr (
        together attempt_id db task_id reported (success_attempt_set now_utc) ready
          (success_task_set (some v) now_utc) a t (λ y h. ground arith) (λ y h. ground arith) found
          e _ refl refl)

    pub success-EndsWhole :
        EndsWhole attempt_id db
          (report_success json_eq attempt_id session now_utc attempt task (ok output) db)
    unfolding commit_worker_task_success
    success-EndsWhole = elim (Option-cases (select_first reported db.attempts)) [
      | inl missing ↦
          rw (missing, same_attempts reported (success_attempt_set now_utc) missing)
            (if_whole attempt_id db _ _ db (inl refl))
      | inr (a, found) ↦ rw found (success_task-EndsWhole a _ _ found refl)
    ]
