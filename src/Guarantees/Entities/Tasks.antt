-- ===== src/Guarantees/Entities/Tasks.antt =====
-- src/nexusflow/domain/execution.py and src/nexusflow/persistence/transactions.py: updates of tasks.
use nexusflow.Base.{ℕ, ◌+◌, ◌≡◌, ◌≢◌, refl, ap, none, ◌&&◌, ◌==◌}
use nexusflow.Domain.Json.{JsonValue, null, JsonObject, thaw_json}
use nexusflow.Domain.TaskState
use nexusflow.Domain.Execution.{
  TaskExecution, mark_initially_runnable, mark_running, mark_succeeded,
}
use nexusflow.Store.Records.{TaskExecutionRecord, jsonb, is_task}
use nexusflow.Transactions.Readiness.{readiness_where, readiness_set}
use nexusflow.Transactions.Ownership.{ownership_where, ownership_set}
use nexusflow.Transactions.Success.{success_task_where, success_task_set}
use nexusflow.Guarantees.Entities.{
  column_of, Stores, next_revision, next_attempt, Agrees, guarded, state_order, guard_order,
}

module _ (t : TaskExecutionRecord) (e : TaskExecution) (stores : Stores t e) (now : ℕ) where
  readiness-Agrees :
      (task_id revision workflow_id : ℕ) (input : JsonObject)
      → t.retry_ready_at_utc ≡ none
      → Agrees
          (λ r. Stores (readiness_set input now t) (next_revision r))
          (readiness_where task_id revision workflow_id t)
          (is_task task_id t && t.workflow_execution_id == workflow_id && t.revision == revision)
          (mark_initially_runnable e input)
  readiness-Agrees task_id revision workflow_id input no_retry =
      guarded _ (TaskState.is_pending e.state) _ _ _ _
        (rw stores.state (
          guard_order (is_task task_id t) (t.workflow_execution_id == workflow_id)
            (TaskState.is_pending e.state) (t.revision == revision)))
        (record {
          id = stores.id;
          workflow = stores.workflow;
          definition = stores.definition;
          state = refl;
          revision = ap (λ n. n + 1) stores.revision;
          has_input = refl;
          input = refl;
          has_output = stores.has_output;
          output = stores.output;
          max_attempts = stores.max_attempts;
          ordinal = stores.ordinal;
          retry = no_retry;
        })

  ownership-Agrees :
      (task_id revision workflow_id : ℕ)
      → Agrees
          (λ r. Stores (ownership_set now t) (next_attempt r))
          (ownership_where task_id revision workflow_id t)
          (is_task task_id t && t.workflow_execution_id == workflow_id && t.revision == revision)
          (mark_running e)
  ownership-Agrees task_id revision workflow_id =
      guarded _ (TaskState.is_runnable e.state) _ _ _ _
        (rw stores.state (
          guard_order (is_task task_id t) (t.workflow_execution_id == workflow_id)
            (TaskState.is_runnable e.state) (t.revision == revision)))
        (record {
          id = stores.id;
          workflow = stores.workflow;
          definition = stores.definition;
          state = refl;
          revision = ap (λ n. n + 1) stores.revision;
          has_input = stores.has_input;
          input = stores.input;
          has_output = stores.has_output;
          output = stores.output;
          max_attempts = stores.max_attempts;
          ordinal = ap (λ n. n + 1) stores.ordinal;
          retry = stores.retry;
        })

  success-Agrees :
      (task_id revision : ℕ) (output_value : JsonValue)
      → output_value ≢ null
      → Agrees
          (λ r. Stores (success_task_set (jsonb (thaw_json output_value)) now t) (next_revision r))
          (success_task_where task_id revision t)
          (is_task task_id t && t.revision == revision)
          (mark_succeeded e output_value)
  success-Agrees task_id revision output_value not_null =
      guarded _ (TaskState.is_running e.state) _ _ _ _
        (rw stores.state
          (state_order (is_task task_id t) (TaskState.is_running e.state) (t.revision == revision)))
        (record {
          id = stores.id;
          workflow = stores.workflow;
          definition = stores.definition;
          state = refl;
          revision = ap (λ n. n + 1) stores.revision;
          has_input = stores.has_input;
          input = stores.input;
          has_output = refl;
          output = column_of output_value not_null;
          max_attempts = stores.max_attempts;
          ordinal = stores.ordinal;
          retry = stores.retry;
        })

-- For a row that stores a task entity and has no retry time, and an output that is not JSON null: the UPDATE statements of readiness, of
-- ownership and of success agree with mark_initially_runnable, mark_running and mark_succeeded.
pub task_updates-Agrees :
    (t : TaskExecutionRecord) (e : TaskExecution)
    → Stores t e
    → t.retry_ready_at_utc ≡ none
    → (now task_id revision workflow_id : ℕ) (input : JsonObject) (output_value : JsonValue)
    → output_value ≢ null
    → Agrees
        (λ r. Stores (readiness_set input now t) (next_revision r))
        (readiness_where task_id revision workflow_id t)
        (is_task task_id t && t.workflow_execution_id == workflow_id && t.revision == revision)
        (mark_initially_runnable e input)
      × Agrees
          (λ r. Stores (ownership_set now t) (next_attempt r))
          (ownership_where task_id revision workflow_id t)
          (is_task task_id t && t.workflow_execution_id == workflow_id && t.revision == revision)
          (mark_running e)
      × Agrees
          (λ r. Stores (success_task_set (jsonb (thaw_json output_value)) now t) (next_revision r))
          (success_task_where task_id revision t)
          (is_task task_id t && t.revision == revision)
          (mark_succeeded e output_value)
task_updates-Agrees t e stores no_retry now task_id revision workflow_id input output_value
      not_null =
    (
      readiness-Agrees t e stores now task_id revision workflow_id input no_retry,
      ownership-Agrees t e stores now task_id revision workflow_id,
      success-Agrees t e stores now task_id revision output_value not_null,
    )
