-- ===== src/Lifecycle/Steps/Others.antt =====
-- src/nexusflow/persistence/transactions.py: the effects of the transactions that write workflows,
-- which leave tasks and attempts alone.
use nexusflow.Base.{
  ℕ, String, Bool, Option, none, some, List, Result, ok, err, ◌==◌, ◌&&◌, ◌>>=◌, same_set,
  if◌then◌else◌,
}
use nexusflow.Domain.Failure.{FailureCause}
use nexusflow.Domain.Json.{PyValue, JsonValue, thaw_json}
use nexusflow.Domain.WorkflowState
use nexusflow.Domain.WorkflowState.{WorkflowState}
use nexusflow.Domain.TaskState
use nexusflow.Domain.TaskState.{TaskState}
use nexusflow.Store.Table.{select_first}
use nexusflow.Store.Records.{
  Db, RegisteredDefinitionRecord, WorkflowExecutionRecord, is_workflow, jsonb,
}
use nexusflow.Transactions.Outcome.{
  CommitStatus, precondition_failed, occ_conflict, is_definition, task_keys, update_workflows,
  finish, history_entry,
}
use nexusflow.Transactions.Success.{output_check}
use nexusflow.Transactions.Settlement.{
  settle, settle_row, settle_definition, task_ids_where, any_state, settle_where, settle_set,
  succeed_set, write_state, write_success, commit_initialization_complete, commit_workflow_success,
  commit_workflow_failure, commit_workflow_cancellation,
}
use nexusflow.Transactions.Direction.{
  commit_workflow_failure_direction, commit_workflow_cancellation_direction, begin_failing,
  begin_cancelling, failing_where, failing_set, cancelling_where, cancelling_set,
}
use nexusflow.Lifecycle.Effect.{HasEffect, Leads, idle}
use nexusflow.Lifecycle.Steps.Tasks.{Leads-refl, Leads-finish, leads_rules}
use nexusflow.Lifecycle.Steps.Claims.{LeadsOk, LeadsOk-if}

module _ (db : Db) (p : WorkflowExecutionRecord → Bool)
    (f : WorkflowExecutionRecord → WorkflowExecutionRecord) where
  workflow-HasEffect : HasEffect db (update_workflows p f db).1
  workflow-HasEffect = record { tables = idle }

module _ (db : Db) (workflow_id now : ℕ) where
  begin_failing-Leads :
      (row : Option WorkflowExecutionRecord) (cause : FailureCause)
      → Leads db (begin_failing workflow_id row cause now db)
  begin_failing-Leads none cause = Leads-refl precondition_failed db
  begin_failing-Leads (some w) cause =
      search
        (leads_rules, workflow-HasEffect db (failing_where workflow_id) (failing_set cause now))

  pub commit_workflow_failure_direction-Leads :
      (cause : FailureCause) → Leads db (commit_workflow_failure_direction workflow_id cause now db)
  unfolding commit_workflow_failure_direction
  commit_workflow_failure_direction-Leads cause =
      begin_failing-Leads (select_first (is_workflow workflow_id) db.workflows) cause

  begin_cancelling-Leads :
      (row : Option WorkflowExecutionRecord) → Leads db (begin_cancelling workflow_id row now db)
  begin_cancelling-Leads none = Leads-refl precondition_failed db
  begin_cancelling-Leads (some w) =
      search
        (leads_rules, workflow-HasEffect db (cancelling_where workflow_id) (cancelling_set now))

  pub commit_workflow_cancellation_direction-Leads :
      Leads db (commit_workflow_cancellation_direction workflow_id now db)
  unfolding commit_workflow_cancellation_direction
  commit_workflow_cancellation_direction-Leads =
      begin_cancelling-Leads (select_first (is_workflow workflow_id) db.workflows)

module _ (in_state : WorkflowState → Bool) (counted : TaskState → Bool)
    (write : ℕ → Db → Result (CommitStatus × Db)) (workflow_id revision : ℕ) (db : Db)
    (writes : LeadsOk db (write workflow_id db)) where
  members-LeadsOk :
      (expected : Result (List String))
      → LeadsOk db (
          expected >>= λ expected_task_ids.
          if same_set expected_task_ids (task_ids_where workflow_id counted db)
          then write workflow_id db
          else ok (precondition_failed, db))
  members-LeadsOk (ok expected) =
      LeadsOk-if db (same_set expected (task_ids_where workflow_id counted db))
        (write workflow_id db) (ok (precondition_failed, db)) writes
        (Leads-refl precondition_failed db)
  members-LeadsOk (err e) = tt

  definition-LeadsOk :
      (row : Option RegisteredDefinitionRecord)
      → LeadsOk db (settle_definition in_state counted write workflow_id revision row db)
  definition-LeadsOk none = Leads-refl precondition_failed db
  definition-LeadsOk (some d) = members-LeadsOk (task_keys d.validated_iws)

  row-LeadsOk :
      (row : Option WorkflowExecutionRecord)
      → LeadsOk db (settle_row in_state counted write workflow_id revision row db)
  row-LeadsOk none = Leads-refl precondition_failed db
  row-LeadsOk (some w) =
      LeadsOk-if db (in_state w.state && w.revision == revision)
        (settle_definition in_state counted write workflow_id revision
          (select_first (is_definition w.definition_id) db.definitions) db)
        (ok (occ_conflict, db))
        (definition-LeadsOk (select_first (is_definition w.definition_id) db.definitions))
        (Leads-refl occ_conflict db)

  settle-LeadsOk : LeadsOk db (settle in_state counted write workflow_id revision db)
  settle-LeadsOk = row-LeadsOk (select_first (is_workflow workflow_id) db.workflows)

module _ (db : Db) (workflow_id revision now : ℕ) where
  write_state-LeadsOk :
      (in_state : WorkflowState → Bool) (new_state : WorkflowState) (category : String)
      → LeadsOk db (write_state in_state new_state category revision now workflow_id db)
  write_state-LeadsOk in_state new_state category =
      Leads-finish db _ (select_first (settle_where in_state workflow_id revision) db.workflows) _ _
        (workflow-HasEffect db (settle_where in_state workflow_id revision)
          (settle_set new_state now))

  success_finish-LeadsOk :
      (column : Option PyValue) (row : Option WorkflowExecutionRecord) (db' : Db)
      → HasEffect db db'
      → LeadsOk db (
          output_check column (row, db') >>= λ updated. ok (
            finish updated occ_conflict
              (λ _. history_entry workflow_id none none "WorkflowExecutionSucceeded" now)))
  success_finish-LeadsOk none none db' h = record { effect = h }
  success_finish-LeadsOk none (some w) db' h = tt
  success_finish-LeadsOk (some v) row db' h = Leads-finish db db' row _ _ h

  write_success-LeadsOk :
      (output : JsonValue) → LeadsOk db (write_success output revision now workflow_id db)
  write_success-LeadsOk output = success_finish-LeadsOk (jsonb (thaw_json output)) _ _ (
      workflow-HasEffect db (settle_where WorkflowState.is_running workflow_id revision)
        (succeed_set (jsonb (thaw_json output)) now))

  pub commit_initialization_complete-LeadsOk :
      LeadsOk db (commit_initialization_complete workflow_id revision now db)
  unfolding commit_initialization_complete
  commit_initialization_complete-LeadsOk =
      settle-LeadsOk WorkflowState.is_initializing any_state
        (write_state WorkflowState.is_initializing WorkflowState.running "WorkflowExecutionStarted"
          revision now)
        workflow_id revision db (write_state-LeadsOk _ _ _)

  pub commit_workflow_success-LeadsOk :
      (output : JsonValue) → LeadsOk db (commit_workflow_success workflow_id revision output now db)
  unfolding commit_workflow_success
  commit_workflow_success-LeadsOk output =
      settle-LeadsOk WorkflowState.is_running TaskState.is_succeeded
        (write_success output revision now) workflow_id revision db (write_success-LeadsOk output)

  pub commit_workflow_failure-LeadsOk :
      LeadsOk db (commit_workflow_failure workflow_id revision now db)
  unfolding commit_workflow_failure
  commit_workflow_failure-LeadsOk =
      settle-LeadsOk WorkflowState.is_failing TaskState.is_terminal
        (write_state WorkflowState.is_failing WorkflowState.failed "WorkflowExecutionFailed"
          revision now)
        workflow_id revision db (write_state-LeadsOk _ _ _)

  pub commit_workflow_cancellation-LeadsOk :
      LeadsOk db (commit_workflow_cancellation workflow_id revision now db)
  unfolding commit_workflow_cancellation
  commit_workflow_cancellation-LeadsOk =
      settle-LeadsOk WorkflowState.is_cancelling TaskState.is_terminal
        (write_state WorkflowState.is_cancelling WorkflowState.cancelled
          "WorkflowExecutionCancelled" revision now)
        workflow_id revision db (write_state-LeadsOk _ _ _)
