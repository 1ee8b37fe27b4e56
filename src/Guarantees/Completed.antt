-- ===== src/Guarantees/Completed.antt =====
-- src/nexusflow/persistence/transactions.py: exactly when commit_workflow_success succeeds, and what it
-- leaves.
use nexusflow.Base.{
  ℕ, ◌+◌, ◌≡◌, ◌≢◌, ◌∙◌, ◌↔◌, refl, sym, ap, true, none, some, Result, ok, err, integrity_error,
}
use nexusflow.Domain.Json.{JsonValue, null, thaw_json}
use nexusflow.Domain.WorkflowState
use nexusflow.Domain.TaskState
use nexusflow.Store.Table.{select_first, update_where}
use nexusflow.Store.Table.Laws.{select_first-update_where, select_first-satisfies}
use nexusflow.Store.Records.{Db, WorkflowExecutionRecord, is_workflow}
use nexusflow.Transactions.Outcome.{CommitStatus, committed, history_entry, add_history}
use nexusflow.Transactions.Settlement.{
  settle_where, succeed_set, write_success, commit_workflow_success,
}
use nexusflow.Guarantees.Settled.{IsSettled, settle-IsSettled, IsSettled-settle, IsSettled-row}
use nexusflow.Guarantees.Entities.{column_of}

-- The workflow is SUCCEEDED at the next revision, with this output; tasks and attempts are as before.
pub record HasSucceeded (workflow_id revision : ℕ) (output : JsonValue) (db db' : Db) : Type 0 where
  pub row : WorkflowExecutionRecord
  pub found : select_first (is_workflow workflow_id) db'.workflows ≡ some row
  pub state : row.state ≡ WorkflowState.succeeded
  pub next : row.revision ≡ revision + 1
  pub has_output : row.has_output ≡ true
  pub stored : row.workflow_output ≡ some (thaw_json output)
  pub tasks : db'.tasks ≡ db.tasks
  pub attempts : db'.attempts ≡ db.attempts

module _ (workflow_id revision now : ℕ) (output : JsonValue) (db : Db) where
  -- The success is COMMITTED and leaves the workflow SUCCEEDED.
  abbrev pub Completes : Type 0
  Completes =
      (db' : Db) × (commit_workflow_success workflow_id revision output now db
        ≡ ok (committed, db'))
      × HasSucceeded workflow_id revision output db db'

  -- The workflow is RUNNING at this revision, and the ids of its SUCCEEDED tasks are those of its
  -- definition.
  abbrev pub IsReady : Type 0
  IsReady = IsSettled WorkflowState.is_running TaskState.is_succeeded workflow_id revision db

  abbrev succeeded : Db
  succeeded =
      add_history (history_entry workflow_id none none "WorkflowExecutionSucceeded" now)
        (record db {
          workflows =
              update_where (settle_where WorkflowState.is_running workflow_id revision)
                (succeed_set (some (thaw_json output)) now) db.workflows;
        })

  -- An output of JSON null is stored as SQL NULL, which the table does not take.
  pub null_raises :
      IsReady
      → output ≡ null
      → commit_workflow_success workflow_id revision output now db ≡ err integrity_error
  unfolding commit_workflow_success thaw_json
  null_raises s is_null =
      IsSettled-settle WorkflowState.is_running TaskState.is_succeeded
        (write_success output revision now) workflow_id revision db s
      ∙ rw
          (
            is_null,
            IsSettled-row WorkflowState.is_running TaskState.is_succeeded workflow_id revision db s,
          )
          refl

  raises_apart :
      (db' : Db)
      → ◌≡◌ {A = Result (CommitStatus × Db)} (err integrity_error) (ok (committed, db'))
      → ⊥
  raises_apart db' e = cc

  commits :
      IsReady
      → output ≢ null
      → commit_workflow_success workflow_id revision output now db ≡ ok (committed, succeeded)
  unfolding commit_workflow_success
  commits s not_null =
      IsSettled-settle WorkflowState.is_running TaskState.is_succeeded
        (write_success output revision now) workflow_id revision db s
      ∙ rw
          (
            column_of output not_null,
            IsSettled-row WorkflowState.is_running TaskState.is_succeeded workflow_id revision db s,
          )
          refl

  succeeded-HasSucceeded : IsReady → HasSucceeded workflow_id revision output db succeeded
  succeeded-HasSucceeded s =
      let set = succeed_set (some (thaw_json output)) now in
      let hit =
        select_first-satisfies (settle_where WorkflowState.is_running workflow_id revision)
          db.workflows s.row
          (IsSettled-row WorkflowState.is_running TaskState.is_succeeded workflow_id revision db
            s) in
      record {
        row = set s.row;
        found =
            select_first-update_where (is_workflow workflow_id)
              (settle_where WorkflowState.is_running workflow_id revision) set db.workflows s.row
              (λ w. refl) s.found
            ∙ rw hit refl;
        state = refl;
        next = ap (λ n. n + 1) s.same_revision;
        has_output = refl;
        stored = refl;
        tasks = refl;
        attempts = refl;
      }

  -- A workflow success is COMMITTED, and leaves the workflow SUCCEEDED at the next revision with the
  -- output stored and all tasks and attempts as they were, exactly when the workflow was RUNNING at the
  -- expected revision, the ids of its SUCCEEDED tasks were those of its registered definition, and the
  -- output is not JSON null.
  pub commit_workflow_success-Completes : Completes ↔ (IsReady × (output ≢ null))
  unfolding commit_workflow_success
  commit_workflow_success-Completes = (
    λ c.
        let s =
          settle-IsSettled WorkflowState.is_running TaskState.is_succeeded
            (write_success output revision now) workflow_id revision db c.0 c.1 in
        (s, λ is_null. raises_apart c.0 (sym (null_raises s is_null) ∙ c.1)),
    λ r. (succeeded, commits r.0 r.1, succeeded-HasSucceeded r.0),
  )
