-- ===== src/Samples/Entities.antt =====
-- src/nexusflow/domain/execution.py: a task, an attempt and a workflow as entities and as rows.
use nexusflow.Base.{◌≢◌, refl, none, some, ◌&&◌, ◌==◌}
use nexusflow.Domain.WorkflowState
use nexusflow.Domain.TaskState
use nexusflow.Domain.AttemptState
use nexusflow.Domain.Json.{thaw_json, null, string, str_value, end}
use nexusflow.Domain.Execution.{
  WorkflowExecution, TaskExecution, ExecutionAttempt, output_absent, mark_initially_runnable,
  mark_running, mark_succeeded, observe_attempt_start, complete_attempt_success, begin_running,
  complete_success,
}
use nexusflow.Store.Records.{
  WorkflowExecutionRecord, TaskExecutionRecord, ExecutionAttemptRecord, jsonb, is_task, is_attempt,
  is_workflow,
}
use nexusflow.Transactions.Creation.{new_task, new_workflow}
use nexusflow.Transactions.Ownership.{
  new_attempt, ownership_where, ownership_set, start_where, start_set,
}
use nexusflow.Transactions.Readiness.{readiness_where, readiness_set}
use nexusflow.Transactions.Success.{
  success_task_where, success_task_set, success_attempt_where, success_attempt_set,
}
use nexusflow.Transactions.Settlement.{settle_where, settle_set, succeed_set}
use nexusflow.Guarantees.Entities.{
  Stores, StoresAttempt, StoresWorkflow, Agrees, next_revision, next_attempt, next_attempt_revision,
  next_workflow_revision,
}
use nexusflow.Guarantees.Entities.Tasks.{task_updates-Agrees}
use nexusflow.Guarantees.Entities.Attempts.{attempt_updates-Agrees}
use nexusflow.Guarantees.Entities.Workflows.{workflow_updates-Agrees}
use nexusflow.Samples.{uuid4, task_a}

abbrev task_row_a : TaskExecutionRecord
task_row_a = new_task uuid4 10 2 0 task_a

abbrev task_entity_a : TaskExecution
task_entity_a = record {
  id = 100;
  workflow_execution_id = 10;
  task_definition_id = "a";
  state = TaskState.pending;
  revision = 1;
  stable_input = none;
  output = output_absent;
  max_attempts = 2;
  next_attempt_ordinal = 1;
  retry_ready_at_utc = none;
  terminal_failure_cause = none;
}

task_a-Stores : Stores task_row_a task_entity_a
task_a-Stores = record {
  id = refl;
  workflow = refl;
  definition = refl;
  state = refl;
  revision = refl;
  has_input = refl;
  input = refl;
  has_output = refl;
  output = refl;
  max_attempts = refl;
  ordinal = refl;
  retry = refl;
}

out_not_null : string "out" ≢ null
out_not_null e = cc

task_updates-Agrees_example :
    Agrees
      (λ r. Stores (readiness_set end 4 task_row_a) (next_revision r))
      (readiness_where 100 1 10 task_row_a)
      (is_task 100 task_row_a && task_row_a.workflow_execution_id == 10 && task_row_a.revision == 1)
      (mark_initially_runnable task_entity_a end)
    × Agrees
        (λ r. Stores (ownership_set 4 task_row_a) (next_attempt r))
        (ownership_where 100 1 10 task_row_a)
        (is_task 100 task_row_a
          && task_row_a.workflow_execution_id == 10
          && task_row_a.revision == 1)
        (mark_running task_entity_a)
    × Agrees
        (λ r.
          Stores
            (success_task_set (jsonb (thaw_json (string "out"))) 4 task_row_a)
            (next_revision r))
        (success_task_where 100 1 task_row_a)
        (is_task 100 task_row_a && task_row_a.revision == 1)
        (mark_succeeded task_entity_a (string "out"))
task_updates-Agrees_example =
    task_updates-Agrees task_row_a task_entity_a task_a-Stores refl 4 100 1 10 end (string "out")
      out_not_null

abbrev attempt_row : ExecutionAttemptRecord
attempt_row = new_attempt 100 1 7 55 1000 5

abbrev attempt_entity : ExecutionAttempt
attempt_entity = record {
  id = 55;
  task_execution_id = 100;
  attempt_ordinal = 1;
  worker_session_id = 7;
  state = AttemptState.claimed;
  revision = 1;
  start_deadline_utc = 1000;
  execution_timeout_utc = none;
  cancellation_deadline_utc = none;
  terminal_failure_cause = none;
}

attempt-Stores : StoresAttempt attempt_row attempt_entity
attempt-Stores = record {
  id = refl;
  task = refl;
  ordinal = refl;
  session = refl;
  state = refl;
  revision = refl;
  start = refl;
  timeout = refl;
  cancellation = refl;
}

attempt_updates-Agrees_example :
    Agrees
      (λ r. StoresAttempt (start_set 6 attempt_row) (next_attempt_revision r))
      (start_where 55 7 1 6 attempt_row)
      (is_attempt 55 attempt_row && attempt_row.worker_session_id == 7 && attempt_row.revision == 1)
      (observe_attempt_start attempt_entity 6)
    × Agrees
        (λ r. StoresAttempt (success_attempt_set 6 attempt_row) (next_attempt_revision r))
        (success_attempt_where 55 7 1 100 attempt_row)
        (is_attempt 55 attempt_row
          && attempt_row.worker_session_id == 7
          && attempt_row.task_execution_id == 100
          && attempt_row.revision == 1)
        (complete_attempt_success attempt_entity)
attempt_updates-Agrees_example =
    attempt_updates-Agrees attempt_row attempt_entity attempt-Stores 6 55 7 1 100

abbrev workflow_row_a : WorkflowExecutionRecord
workflow_row_a = new_workflow 10 1 (string "in") 1 (str_value "in")

abbrev workflow_entity : WorkflowExecution
workflow_entity = record {
  id = 10;
  definition_id = 1;
  state = WorkflowState.initializing;
  revision = 1;
  workflow_input = string "in";
  output = output_absent;
  failure_cause = none;
  created_at_utc = some 1;
  updated_at_utc = some 1;
}

workflow-Stores : StoresWorkflow workflow_row_a workflow_entity
unfolding thaw_json
workflow-Stores = record {
  id = refl;
  definition = refl;
  state = refl;
  revision = refl;
  input = refl;
  has_output = refl;
  output = refl;
  failure = refl;
}

workflow_updates-Agrees_example :
    Agrees
      (λ r.
        StoresWorkflow
          (settle_set WorkflowState.running 3 workflow_row_a)
          (next_workflow_revision r))
      (settle_where WorkflowState.is_initializing 10 1 workflow_row_a)
      (is_workflow 10 workflow_row_a && workflow_row_a.revision == 1)
      (begin_running workflow_entity)
    × Agrees
        (λ r.
          StoresWorkflow
            (succeed_set (jsonb (thaw_json (string "out"))) 3 workflow_row_a)
            (next_workflow_revision r))
        (settle_where WorkflowState.is_running 10 1 workflow_row_a)
        (is_workflow 10 workflow_row_a && workflow_row_a.revision == 1)
        (complete_success workflow_entity (string "out"))
workflow_updates-Agrees_example =
    workflow_updates-Agrees workflow_row_a workflow_entity workflow-Stores refl 3 10 1
      (string "out") out_not_null
