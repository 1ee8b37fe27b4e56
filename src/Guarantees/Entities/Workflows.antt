-- ===== src/Guarantees/Entities/Workflows.antt =====
-- src/nexusflow/domain/execution.py and src/nexusflow/persistence/transactions.py: updates of workflows.
use nexusflow.Base.{ℕ, ◌+◌, refl, ap, ◌≡◌, ◌≢◌, ◌∙◌, none, ◌&&◌, ◌==◌}
use nexusflow.Domain.Json.{JsonValue, null, thaw_json}
use mathlib.Core.Option
use nexusflow.Domain.WorkflowState
use nexusflow.Domain.Execution.{WorkflowExecution, begin_running, complete_success}
use nexusflow.Store.Records.{WorkflowExecutionRecord, jsonb, failure_columns, is_workflow}
use nexusflow.Guarantees.Entities.{
  column_of, StoresWorkflow, next_workflow_revision, Agrees, guarded, state_order,
}
use nexusflow.Transactions.Settlement.{settle_where, settle_set, succeed_set}

module _ (w : WorkflowExecutionRecord) (e : WorkflowExecution) (stores : StoresWorkflow w e)
    (now : ℕ) where
  begin-Agrees :
      (workflow_id revision : ℕ)
      → Agrees
          (λ r. StoresWorkflow (settle_set WorkflowState.running now w) (next_workflow_revision r))
          (settle_where WorkflowState.is_initializing workflow_id revision w)
          (is_workflow workflow_id w && w.revision == revision)
          (begin_running e)
  begin-Agrees workflow_id revision =
      guarded _ (WorkflowState.is_initializing e.state) _ _ _ _
        (rw stores.state (
          state_order (is_workflow workflow_id w) (WorkflowState.is_initializing e.state)
            (w.revision == revision)))
        (record {
          id = stores.id;
          definition = stores.definition;
          state = refl;
          revision = ap (λ n. n + 1) stores.revision;
          input = stores.input;
          has_output = stores.has_output;
          output = stores.output;
          failure = stores.failure;
        })

  succeed-Agrees :
      (workflow_id revision : ℕ) (output : JsonValue)
      → output ≢ null
      → e.failure_cause ≡ none
      → Agrees
          (λ r.
            StoresWorkflow
              (succeed_set (jsonb (thaw_json output)) now w)
              (next_workflow_revision r))
          (settle_where WorkflowState.is_running workflow_id revision w)
          (is_workflow workflow_id w && w.revision == revision)
          (complete_success e output)
  succeed-Agrees workflow_id revision output not_null clear =
      guarded _ (WorkflowState.is_running e.state) _ _ _ _
        (rw stores.state (
          state_order (is_workflow workflow_id w) (WorkflowState.is_running e.state)
            (w.revision == revision)))
        (record {
          id = stores.id;
          definition = stores.definition;
          state = refl;
          revision = ap (λ n. n + 1) stores.revision;
          input = stores.input;
          has_output = refl;
          output = column_of output not_null;
          failure = stores.failure ∙ ap (Option.map failure_columns) clear;
        })

-- For a row that stores a workflow entity without a failure, and an output that is not JSON null: the
-- UPDATE statements that end the initialization and that
-- settle the success agree with begin_running and complete_success.
pub workflow_updates-Agrees :
    (w : WorkflowExecutionRecord) (e : WorkflowExecution)
    → StoresWorkflow w e
    → e.failure_cause ≡ none
    → (now workflow_id revision : ℕ) (output : JsonValue) → output ≢ null
    → Agrees
        (λ r. StoresWorkflow (settle_set WorkflowState.running now w) (next_workflow_revision r))
        (settle_where WorkflowState.is_initializing workflow_id revision w)
        (is_workflow workflow_id w && w.revision == revision)
        (begin_running e)
      × Agrees
          (λ r.
            StoresWorkflow
              (succeed_set (jsonb (thaw_json output)) now w)
              (next_workflow_revision r))
          (settle_where WorkflowState.is_running workflow_id revision w)
          (is_workflow workflow_id w && w.revision == revision)
          (complete_success e output)
workflow_updates-Agrees w e stores clear now workflow_id revision output not_null = (
  begin-Agrees w e stores now workflow_id revision,
  succeed-Agrees w e stores now workflow_id revision output not_null clear,
)
