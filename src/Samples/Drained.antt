-- ===== src/Samples/Drained.antt =====
-- src/nexusflow/orchestration/scheduler.py: the workflow of one task, cancelled before the task is ready.
use nexusflow.Base.{◌≡◌, refl, some, []}
use nexusflow.Domain.WorkflowState
use nexusflow.Domain.Json.{thaw_json, string, str_value}
use nexusflow.Store.Table.{select_first, select_all, update_where}
use nexusflow.Store.Records.{Db, WorkflowExecutionRecord, TaskExecutionRecord, is_task}
use nexusflow.Transactions.Outcome.{key_names, subscript, task_keys}
use nexusflow.Transactions.Creation.{
  commit_workflow_creation, commit_task_population, populate, new_task, new_workflow,
}
use nexusflow.Transactions.Settlement.{commit_initialization_complete}
use nexusflow.Transactions.Direction.{commit_workflow_cancellation_direction}
use nexusflow.Orchestration.Pass.{World}
use nexusflow.Orchestration.Scheduler.Drain.{drain_workflow, workflow_row}
use nexusflow.Guarantees.Drained.Pass.{Undisturbed, Cancelled, drain_workflow-Cancelled}
use nexusflow.Samples.{initialized, uuid4, task_a}
use nexusflow.Samples.Passes.{quiet}

abbrev cancelling : Db
cancelling = (commit_workflow_cancellation_direction 10 8 initialized).1

abbrev beginning : World
beginning = record { db = cancelling; instant = 0; deliveries = [] }

-- The row as it is in the database.
abbrev waiting_task : TaskExecutionRecord
waiting_task = new_task uuid4 10 2 0 task_a

quiet-Undisturbed : Undisturbed quiet
quiet-Undisturbed i db = refl

waiting_found : select_first (is_task 100) cancelling.tasks ≡ some waiting_task
unfolding commit_workflow_creation commit_task_population commit_initialization_complete populate
    thaw_json select_first select_all task_keys key_names subscript update_where
    commit_workflow_cancellation_direction
waiting_found = refl

-- The row of a workflow that was created, set RUNNING and cancelled.
abbrev cancelling_workflow : WorkflowExecutionRecord
cancelling_workflow = record (new_workflow 10 1 (string "in") 1 (str_value "in")) {
  state = WorkflowState.cancelling;
  revision = 3;
  updated_at_utc = 8;
}

workflow_found : workflow_row 10 cancelling ≡ some cancelling_workflow
unfolding commit_workflow_creation commit_task_population commit_initialization_complete populate
    thaw_json select_first select_all task_keys key_names subscript update_where
    commit_workflow_cancellation_direction
workflow_found = refl

drain_workflow-Cancelled_example : Cancelled 100 (drain_workflow quiet 10 beginning).1.db
drain_workflow-Cancelled_example =
    drain_workflow-Cancelled quiet quiet-Undisturbed 10 100 waiting_task refl refl beginning
      cancelling_workflow workflow_found refl waiting_found
