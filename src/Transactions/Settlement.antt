-- ===== src/Transactions/Settlement.antt =====
-- src/nexusflow/persistence/transactions.py: a workflow starts once its tasks are populated, and ends
-- once its tasks have ended. Each of the four transactions reads the workflow, then its definition,
-- compares two sets of task ids, and updates the workflow under its state and revision.
use nexusflow.Base.{
  ℕ, String, ◌+◌, Bool, true, ◌&&◌, Option, none, some, List, map, Result, ok, ◌>>=◌, ◌==◌,
  same_set, if◌then◌else◌,
}
use nexusflow.Domain.Json.{PyValue, JsonValue, thaw_json}
use nexusflow.Domain.WorkflowState
use nexusflow.Domain.WorkflowState.{WorkflowState}
use nexusflow.Domain.TaskState
use nexusflow.Domain.TaskState.{TaskState}
use nexusflow.Store.Table.{select_first, select_all}
use nexusflow.Store.Records.{
  Db, RegisteredDefinitionRecord, WorkflowExecutionRecord, is_workflow, jsonb,
}
use nexusflow.Transactions.Outcome.{
  CommitStatus, precondition_failed, occ_conflict, update_workflows, history_entry, is_definition,
  task_keys, finish,
}
use nexusflow.Transactions.Success.{output_check}

-- set(SELECT task_definition_id … WHERE workflow_execution_id = id AND p(state))
abbrev pub task_ids_where : ℕ → (TaskState → Bool) → Db → List String
task_ids_where workflow_id p db =
    map (λ t. t.task_definition_id)
      (select_all (λ t. t.workflow_execution_id == workflow_id && p t.state) db.tasks)

abbrev pub any_state : TaskState → Bool
any_state s = true

abbrev pub settle_where : (WorkflowState → Bool) → ℕ → ℕ → WorkflowExecutionRecord → Bool
settle_where in_state workflow_id expected_revision w =
    is_workflow workflow_id w && in_state w.state && w.revision == expected_revision

abbrev pub settle_set : WorkflowState → ℕ → WorkflowExecutionRecord → WorkflowExecutionRecord
settle_set new_state now w = record w {
  state = new_state;
  revision = w.revision + 1;
  updated_at_utc = now;
}

abbrev pub succeed_set : Option PyValue → ℕ → WorkflowExecutionRecord → WorkflowExecutionRecord
succeed_set column now w = record w {
  state = WorkflowState.succeeded;
  has_output = true;
  workflow_output = column;
  revision = w.revision + 1;
  updated_at_utc = now;
}

module _ (in_state : WorkflowState → Bool) (counted : TaskState → Bool)
    (write : ℕ → Db → Result (CommitStatus × Db)) (workflow_id expected_revision : ℕ) where
  abbrev pub settle_members : RegisteredDefinitionRecord → Db → Result (CommitStatus × Db)
  settle_members d db = task_keys d.validated_iws >>= λ expected_task_ids.
      if same_set expected_task_ids (task_ids_where workflow_id counted db)
      then write workflow_id db
      else ok (precondition_failed, db)

  abbrev pub settle_definition : Option RegisteredDefinitionRecord → Db → Result (CommitStatus × Db)
  settle_definition none db = ok (precondition_failed, db)
  settle_definition (some d) db = settle_members d db

  abbrev pub settle_row : Option WorkflowExecutionRecord → Db → Result (CommitStatus × Db)
  settle_row none db = ok (precondition_failed, db)
  settle_row (some w) db =
      if in_state w.state && w.revision == expected_revision
      then settle_definition (select_first (is_definition w.definition_id) db.definitions) db
      else ok (occ_conflict, db)

  abbrev pub settle : Db → Result (CommitStatus × Db)
  settle db = settle_row (select_first (is_workflow workflow_id) db.workflows) db

abbrev pub write_state :
    (WorkflowState → Bool) → WorkflowState → String → ℕ → ℕ → ℕ → Db → Result (CommitStatus × Db)
write_state in_state new_state category expected_revision now workflow_id db = ok (
    finish
      (update_workflows (settle_where in_state workflow_id expected_revision)
        (settle_set new_state now) db)
      occ_conflict (λ _. history_entry workflow_id none none category now))

abbrev pub write_success : JsonValue → ℕ → ℕ → ℕ → Db → Result (CommitStatus × Db)
write_success output expected_revision now workflow_id db = do
  updated ← output_check (jsonb (thaw_json output)) (
      update_workflows (settle_where WorkflowState.is_running workflow_id expected_revision)
        (succeed_set (jsonb (thaw_json output)) now) db)
  ok (
      finish updated occ_conflict
        (λ _. history_entry workflow_id none none "WorkflowExecutionSucceeded" now))

unfoldable pub commit_initialization_complete : ℕ → ℕ → ℕ → Db → Result (CommitStatus × Db)
commit_initialization_complete workflow_id expected_revision now db =
    settle WorkflowState.is_initializing any_state
      (write_state WorkflowState.is_initializing WorkflowState.running "WorkflowExecutionStarted"
        expected_revision now)
      workflow_id expected_revision db

unfoldable pub commit_workflow_success : ℕ → ℕ → JsonValue → ℕ → Db → Result (CommitStatus × Db)
commit_workflow_success workflow_id expected_workflow_revision output now db =
    settle WorkflowState.is_running TaskState.is_succeeded
      (write_success output expected_workflow_revision now) workflow_id expected_workflow_revision
      db

unfoldable pub commit_workflow_failure : ℕ → ℕ → ℕ → Db → Result (CommitStatus × Db)
commit_workflow_failure workflow_id expected_workflow_revision now db =
    settle WorkflowState.is_failing TaskState.is_terminal
      (write_state WorkflowState.is_failing WorkflowState.failed "WorkflowExecutionFailed"
        expected_workflow_revision now)
      workflow_id expected_workflow_revision db

unfoldable pub commit_workflow_cancellation : ℕ → ℕ → ℕ → Db → Result (CommitStatus × Db)
commit_workflow_cancellation workflow_id expected_workflow_revision now db =
    settle WorkflowState.is_cancelling TaskState.is_terminal
      (write_state WorkflowState.is_cancelling WorkflowState.cancelled "WorkflowExecutionCancelled"
        expected_workflow_revision now)
      workflow_id expected_workflow_revision db
