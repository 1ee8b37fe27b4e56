-- ===== src/Lifecycle/Steps/Tasks.antt =====
-- src/nexusflow/persistence/transactions.py: the effects of the transactions that write one task.
use nexusflow.Base.{ℕ, Bool, true, false, Option, none, some, arith, if◌then◌else◌}
use nexusflow.Domain.Json.{JsonObject}
use nexusflow.Store.Table.{select_first}
use nexusflow.Store.Records.{Db, TaskExecutionRecord, HistoryEntryRecord, is_task}
use nexusflow.Transactions.Outcome.{CommitStatus, finish, update_tasks}
use nexusflow.Transactions.Readiness.{
  commit_task_readiness, commit_retry_ready, readiness_where, readiness_set, retry_ready_where,
  retry_ready_set,
}
use nexusflow.Transactions.Drain.{
  commit_drain_task_cancellation, drain_task, drain_where, drain_task_set,
}
use nexusflow.Lifecycle.Effect.{HasEffect, Leads, idle, move}
use nexusflow.Lifecycle.Changes.{readiness-TaskChange, retry_ready-TaskChange, drain-TaskChange}

pub Leads-refl : {A : Type 0} (a : A) (db : Db) → Leads db (a, db)
Leads-refl a db = record { effect = record { tables = idle } }

pub Leads-finish :
    {A : Type 0} (db db' : Db) (row : Option A) (conflict : CommitStatus)
    (entry : A → HistoryEntryRecord)
    → HasEffect db db'
    → Leads db (finish (row, db') conflict entry)
Leads-finish db db' none conflict entry h = record { effect = h }
Leads-finish db db' (some row) conflict entry h = record { effect = record { tables = h.tables } }

pub Leads-if :
    {A : Type 0} (db : Db) (b : Bool) (x y : A × Db)
    → Leads db x
    → Leads db y
    → Leads db (if b then x else y)
Leads-if db true x y hx hy = hx
Leads-if db false x y hx hy = hy

pub ruleset leads_rules = (Leads-refl, Leads-finish, Leads-if)

module _ (task_id revision workflow_id now : ℕ) (db : Db) where
  readiness-HasEffect :
      (input : JsonObject)
      → HasEffect db
          (update_tasks
            (readiness_where task_id revision workflow_id)
            (readiness_set input now)
            db).1
  readiness-HasEffect input = record {
    tables =
        move (readiness_where task_id revision workflow_id) (readiness_set input now)
          (readiness-TaskChange task_id revision workflow_id now input) (λ t e. ground arith);
  }

  pub commit_task_readiness-Leads :
      (input : JsonObject)
      → Leads db (commit_task_readiness task_id revision workflow_id input now db)
  unfolding commit_task_readiness
  commit_task_readiness-Leads input = search (leads_rules, readiness-HasEffect)

  retry_ready-HasEffect :
      HasEffect db
        (update_tasks
          (retry_ready_where task_id revision workflow_id now)
          (retry_ready_set now)
          db).1
  retry_ready-HasEffect = record {
    tables =
        move (retry_ready_where task_id revision workflow_id now) (retry_ready_set now)
          (retry_ready-TaskChange task_id revision workflow_id now) (λ t e. ground arith);
  }

  pub commit_retry_ready-Leads : Leads db (commit_retry_ready task_id revision workflow_id now db)
  unfolding commit_retry_ready
  commit_retry_ready-Leads = search (leads_rules, retry_ready-HasEffect)

module _ (task_id revision now : ℕ) (db : Db) where
  drain-HasEffect :
      HasEffect db (update_tasks (drain_where task_id revision) (drain_task_set now) db).1
  drain-HasEffect = record {
    tables =
        move (drain_where task_id revision) (drain_task_set now)
          (drain-TaskChange task_id revision now) (λ t e. ground arith);
  }

  drain_task-Leads :
      (row : Option TaskExecutionRecord) → Leads db (drain_task task_id revision row now db)
  drain_task-Leads none = search leads_rules
  drain_task-Leads (some t) = search (leads_rules, drain-HasEffect)

  pub commit_drain_task_cancellation-Leads :
      Leads db (commit_drain_task_cancellation task_id revision now db)
  unfolding commit_drain_task_cancellation
  commit_drain_task_cancellation-Leads = drain_task-Leads (select_first (is_task task_id) db.tasks)
