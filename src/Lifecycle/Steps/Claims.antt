-- ===== src/Lifecycle/Steps/Claims.antt =====
-- src/nexusflow/persistence/transactions.py: the effects of a claim, of a start and of a success.
use nexusflow.Base.{
  ℕ, ◌≡◌, inl, inr, refl, subst, Bool, true, false, Option, none, some, arith, any, Result, ok, err,
  Bool-cases, if◌then◌else◌,
}
use nexusflow.Domain.WorkflowState
use nexusflow.Domain.Json.{PyValue, JsonValue, thaw_json}
use nexusflow.Store.Table.{select_first}
use nexusflow.Store.Table.Laws.{update_where_absent}
use nexusflow.Store.Records.{Db, TaskExecutionRecord, ExecutionAttemptRecord, jsonb}
use nexusflow.Transactions.Outcome.{workflow_state, state_in, update_attempts, update_tasks}
use nexusflow.Transactions.Ownership.{
  commit_attempt_ownership, commit_worker_execution_start, claim, start, start_where, start_set,
  ownership_where, ownership_set, new_attempt, is_active_of, attempt_clash,
}
use nexusflow.Transactions.Success.{
  commit_worker_task_success, succeed_task, success_finish, success_attempt_where,
  success_attempt_set, success_task_where, success_task_set, output_check,
}
use nexusflow.Lifecycle.Effect.{HasEffect, Leads, move, touch, own}
use nexusflow.Lifecycle.Changes.{
  ownership-TaskChange, success-TaskChange, start-AttemptChange, success-AttemptChange,
}
use nexusflow.Lifecycle.Steps.Tasks.{Leads-refl, Leads-finish}
use nexusflow.Lifecycle.Steps.Settles.{attempt-HasEffect, settle-HasEffect}

-- A transaction that raises has no effect at all.
abbrev pub LeadsOk : {A : Type 0} → Db → Result (A × Db) → Type 0
LeadsOk db (ok outcome) = Leads db outcome
LeadsOk db (err e) = Unit

pub Leads-of_ok :
    {A : Type 0} (db : Db) (r : Result (A × Db)) (outcome : A × Db)
    → LeadsOk db r
    → r ≡ ok outcome
    → Leads db outcome
Leads-of_ok db r outcome h e = subst (LeadsOk db) e h

pub LeadsOk-if :
    {A : Type 0} (db : Db) (b : Bool) (x y : Result (A × Db))
    → LeadsOk db x
    → LeadsOk db y
    → LeadsOk db (if b then x else y)
LeadsOk-if db true x y hx hy = hx
LeadsOk-if db false x y hx hy = hy

module _ (db : Db) (attempt_id session revision : ℕ) where
  start-Leads :
      (uuid4 now : ℕ) (row : Option ExecutionAttemptRecord)
      → Leads db (
          start attempt_id session revision
            (
              row,
              (update_attempts (start_where attempt_id session revision now) (start_set now) db).1,
            )
            uuid4
            now)
  start-Leads uuid4 now none = record {
    effect = record { tables = touch _ _ (start-AttemptChange attempt_id session revision now) };
  }
  start-Leads uuid4 now (some a) = record {
    effect = record { tables = touch _ _ (start-AttemptChange attempt_id session revision now) };
  }

  pub commit_worker_execution_start-Leads :
      (uuid4 now : ℕ)
      → Leads db (commit_worker_execution_start attempt_id session revision uuid4 now db)
  unfolding commit_worker_execution_start
  commit_worker_execution_start-Leads uuid4 now =
      start-Leads uuid4 now (select_first (start_where attempt_id session revision now) db.attempts)

module _ (db : Db) (task_id revision workflow_id session attempt_id deadline now : ℕ) where
  abbrev claimed_task : Db
  claimed_task =
      (update_tasks (ownership_where task_id revision workflow_id) (ownership_set now) db).1

  claim-LeadsOk :
      (row : Option TaskExecutionRecord)
      → any (is_active_of task_id) db.attempts ≡ false
      → select_first (ownership_where task_id revision workflow_id) db.tasks ≡ row
      → LeadsOk db
          (claim task_id revision workflow_id (row, claimed_task) session attempt_id deadline now)
  claim-LeadsOk none free e = record {
    effect = record {
      tables =
          move _ _ (ownership-TaskChange task_id revision workflow_id now) (λ t h. ground arith);
    };
  }
  claim-LeadsOk (some t) free e =
      elim (Bool-cases (
        any
          (attempt_clash
            (new_attempt task_id t.next_attempt_ordinal session attempt_id deadline now))
          db.attempts)) [
            | inl clash ↦ rw clash tt
            | inr fresh ↦ rw fresh (record {
              effect = record {
                tables = own task_id revision workflow_id session attempt_id deadline now t free e;
              };
            })
          ]

  pub commit_attempt_ownership-LeadsOk :
      LeadsOk db
        (commit_attempt_ownership task_id revision workflow_id session attempt_id deadline now db)
  unfolding commit_attempt_ownership
  commit_attempt_ownership-LeadsOk =
      elim (Bool-cases (state_in WorkflowState.is_running (workflow_state workflow_id db))) [
        | inr stopped ↦ rw stopped (Leads-refl _ db)
        | inl runs ↦ rw runs (elim (Bool-cases (any (is_active_of task_id) db.attempts)) [
          | inl busy ↦ rw busy (Leads-refl _ db)
          | inr free ↦ rw free (claim-LeadsOk _ free refl)
        ])
      ]

module _ (json_eq : PyValue → PyValue → Bool) (db : Db)
    (attempt_id session attempt_revision task_id task_revision now : ℕ) where
  abbrev reported : ExecutionAttemptRecord → Bool
  reported = success_attempt_where attempt_id session attempt_revision task_id

  abbrev succeeded_attempt : Db
  succeeded_attempt = (update_attempts reported (success_attempt_set now) db).1

  untouched-HasEffect : HasEffect db succeeded_attempt
  untouched-HasEffect =
      attempt-HasEffect db task_id reported (success_attempt_set now)
        (success-AttemptChange reported now)

  success-HasEffect :
      (output : PyValue) (a : ExecutionAttemptRecord)
      → select_first reported db.attempts ≡ some a
      → HasEffect db
          (update_tasks
            (success_task_where task_id task_revision)
            (success_task_set (some output) now)
            succeeded_attempt).1
  success-HasEffect output a e =
      settle-HasEffect db task_id reported (success_attempt_set now)
        (success-AttemptChange reported now) (λ b h. ground arith) (λ b. ground arith) a e _ _
        (success-TaskChange task_id task_revision now output) (λ t h. ground arith)

  -- A NULL output is refused where a task is found; where none is found nothing is written.
  success_finish-LeadsOk :
      (column : Option PyValue) (row : Option TaskExecutionRecord) (a : ExecutionAttemptRecord)
      → select_first reported db.attempts ≡ some a
      → select_first (success_task_where task_id task_revision) db.tasks ≡ row
      → LeadsOk db (
          success_finish json_eq attempt_id task_id
            (output_check column (
              row,
              (update_tasks
                  (success_task_where task_id task_revision)
                  (success_task_set column now)
                  succeeded_attempt).1,
            ))
            now)
  success_finish-LeadsOk none (some t) a e here = tt
  success_finish-LeadsOk none none a e missing = record {
    effect = record {
      tables =
          rw (update_where_absent _ (success_task_set none now) db.tasks missing)
            untouched-HasEffect.tables;
    };
  }
  success_finish-LeadsOk (some output) row a e here =
      Leads-finish db _ row _ _ (success-HasEffect output a e)

  succeed_task-LeadsOk :
      (row : Option ExecutionAttemptRecord) (payload : PyValue)
      → select_first reported db.attempts ≡ row
      → LeadsOk db (
          succeed_task json_eq attempt_id task_id
            (row, succeeded_attempt)
            task_revision
            payload
            now)
  succeed_task-LeadsOk none payload e = record { effect = untouched-HasEffect }
  succeed_task-LeadsOk (some a) payload e = success_finish-LeadsOk (jsonb payload) _ a e refl

  pub commit_worker_task_success-LeadsOk :
      (output : JsonValue)
      → LeadsOk db (
          commit_worker_task_success json_eq attempt_id task_id session attempt_revision
            task_revision output now db)
  unfolding commit_worker_task_success
  commit_worker_task_success-LeadsOk output =
      succeed_task-LeadsOk (select_first reported db.attempts) (thaw_json output) refl
