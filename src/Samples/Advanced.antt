-- ===== src/Samples/Advanced.antt =====
-- src/nexusflow/orchestration/scheduler.py: an advance of the workflow of one task, which has succeeded,
-- under its definition and under one that binds an output.
use nexusflow.Base.{
  ◌&&◌, ◌==◌, length, every, ◌≡◌, ◌≢◌, refl, true, none, ok, err, integrity_error, [], ◌∷◌, List,
  String,
}
use nexusflow.Domain.Identifiers.{task_definition_id}
use nexusflow.Domain.Graph.{build_canonical_graph_and_verify_acyclic, reduce, reduced}
use nexusflow.Domain.Json.{
  freeze_json, thaw_json, py_dict, no_fields, field, text, str_value, PyValue, JsonValue, null,
  string, object, entry, end,
}
use nexusflow.Domain.Readiness.{resolve_workflow_outputs}
use nexusflow.Domain.Spec.{ValidatedWorkflowSpec, WorkflowTaskOutputBinding}
use nexusflow.Domain.WorkflowState
use nexusflow.Domain.TaskState
use nexusflow.Definition.Codec.Read.{deserialize_validated_spec, read_spec}
use nexusflow.Store.Table.{select_first, select_all, update_where}
use nexusflow.Store.Records.{Db, RegisteredDefinitionRecord, WorkflowExecutionRecord}
use nexusflow.Transactions.Outcome.{key_names, subscript, task_keys}
use nexusflow.Transactions.Creation.{
  commit_workflow_creation, commit_task_population, populate, new_workflow,
}
use nexusflow.Transactions.Ownership.{commit_attempt_ownership, commit_worker_execution_start}
use nexusflow.Transactions.Readiness.{commit_task_readiness}
use nexusflow.Transactions.Settlement.{commit_initialization_complete}
use nexusflow.Transactions.Success.{commit_worker_task_success}
use nexusflow.Orchestration.Pass.{World}
use nexusflow.Orchestration.Scheduler.Drain.{tasks_of}
use nexusflow.Orchestration.Scheduler.Advance.{advance_workflow, task_outputs}
use nexusflow.Guarantees.Settled.{IsSettled}
use nexusflow.Guarantees.Completed.{HasSucceeded}
use nexusflow.Guarantees.Drained.Pass.{Undisturbed}
use nexusflow.Guarantees.Passes.Advance.{advance_workflow-HasSucceeded, advance_workflow-unbound}
use nexusflow.Samples.{succeeded, stored_task_a, task_a, iws}
use nexusflow.Samples.Passes.{quiet}

abbrev definition_of : PyValue → RegisteredDefinitionRecord
definition_of validated_iws = record {
  definition_id = 1;
  workflow_name = "one_task";
  validated_iws = validated_iws;
  raw_yaml = none;
  created_at_utc = 0;
}

abbrev iws_with_output : PyValue
iws_with_output = py_dict (
    field (text "workflow_name") (str_value "one_task") (
      field (text "tasks") (py_dict (field (text "a") stored_task_a no_fields)) (
        field (text "output_bindings")
          (py_dict (
            field (text "result")
              (py_dict (
                field (text "type") (str_value "WorkflowTaskOutput")
                  (field (text "source_task_id") (str_value "a") no_fields)))
              no_fields))
          no_fields)))

abbrev with_output : Db
with_output = record succeeded { definitions = definition_of iws_with_output ∷ [] }

abbrev bindings : List (String × WorkflowTaskOutputBinding)
bindings = ("result", record { source_task_id = "a" }) ∷ []

abbrev spec_of : List (String × WorkflowTaskOutputBinding) → ValidatedWorkflowSpec
spec_of output_bindings = record {
  workflow_name = "one_task";
  tasks = ("a", task_a) ∷ [];
  output_bindings = output_bindings;
}

-- The row of the workflow after its initialization.
abbrev running_workflow : WorkflowExecutionRecord
running_workflow = record (new_workflow 10 1 (string "in") 1 (str_value "in")) {
  state = WorkflowState.running;
  revision = 2;
  updated_at_utc = 3;
}

abbrev Settled : Db → Type 0
Settled = IsSettled WorkflowState.is_running TaskState.is_succeeded 10 2

settled_with_output : Settled with_output
unfolding commit_workflow_creation commit_task_population commit_initialization_complete populate
    thaw_json select_first select_all task_keys key_names subscript update_where
    commit_task_readiness commit_attempt_ownership commit_worker_execution_start
    commit_worker_task_success
settled_with_output = record {
  row = running_workflow;
  found = refl;
  state = refl;
  same_revision = refl;
  definition = definition_of iws_with_output;
  registered = refl;
  task_ids = "a" ∷ [];
  keys = refl;
  members = refl;
}

settled_succeeded : Settled succeeded
unfolding commit_workflow_creation commit_task_population commit_initialization_complete populate
    thaw_json select_first select_all task_keys key_names subscript update_where
    commit_task_readiness commit_attempt_ownership commit_worker_execution_start
    commit_worker_task_success
settled_succeeded = record {
  row = running_workflow;
  found = refl;
  state = refl;
  same_revision = refl;
  definition = definition_of iws;
  registered = refl;
  task_ids = "a" ∷ [];
  keys = refl;
  members = refl;
}

quiet-Undisturbed : Undisturbed quiet
quiet-Undisturbed i db = refl

with_output_read :
    deserialize_validated_spec settled_with_output.definition.validated_iws ≡ ok (spec_of bindings)
unfolding deserialize_validated_spec read_spec task_definition_id
    build_canonical_graph_and_verify_acyclic reduce reduced freeze_json settled_with_output
with_output_read = refl

succeeded_read :
    deserialize_validated_spec settled_succeeded.definition.validated_iws ≡ ok (spec_of [])
unfolding deserialize_validated_spec read_spec task_definition_id
    build_canonical_graph_and_verify_acyclic reduce reduced freeze_json settled_succeeded
succeeded_read = refl

abbrev outputs : List (String × JsonValue)
outputs = ("a", string "out") ∷ []

with_output_values : task_outputs (tasks_of 10 with_output) ≡ ok outputs
unfolding commit_workflow_creation commit_task_population commit_initialization_complete populate
    thaw_json select_first select_all task_keys key_names subscript update_where
    commit_task_readiness commit_attempt_ownership commit_worker_execution_start
    commit_worker_task_success task_definition_id freeze_json
with_output_values = refl

succeeded_values : task_outputs (tasks_of 10 succeeded) ≡ ok outputs
unfolding commit_workflow_creation commit_task_population commit_initialization_complete populate
    thaw_json select_first select_all task_keys key_names subscript update_where
    commit_task_readiness commit_attempt_ownership commit_worker_execution_start
    commit_worker_task_success task_definition_id freeze_json
succeeded_values = refl

with_output_done :
    (length (tasks_of 10 with_output) == 1
      && every (λ t. TaskState.is_succeeded t.state) (tasks_of 10 with_output))
    ≡ true
unfolding commit_workflow_creation commit_task_population commit_initialization_complete populate
    thaw_json select_first select_all task_keys key_names subscript update_where
    commit_task_readiness commit_attempt_ownership commit_worker_execution_start
    commit_worker_task_success
with_output_done = refl

succeeded_done :
    (length (tasks_of 10 succeeded) == 1
      && every (λ t. TaskState.is_succeeded t.state) (tasks_of 10 succeeded))
    ≡ true
unfolding commit_workflow_creation commit_task_population commit_initialization_complete populate
    thaw_json select_first select_all task_keys key_names subscript update_where
    commit_task_readiness commit_attempt_ownership commit_worker_execution_start
    commit_worker_task_success
succeeded_done = refl

abbrev result : JsonValue
result = object (entry "result" (string "out") end)

resolved : resolve_workflow_outputs bindings outputs ≡ ok result
unfolding resolve_workflow_outputs
resolved = refl

result_not_null : result ≢ null
result_not_null e = cc

abbrev world_of : Db → World
world_of db = record { db = db; instant = 0; deliveries = [] }

advance_workflow-HasSucceeded_example :
    ((advance_workflow quiet 10 (world_of with_output)).0 ≡ ok tt)
    × HasSucceeded 10 2 result with_output (advance_workflow quiet 10 (world_of with_output)).1.db
advance_workflow-HasSucceeded_example =
    advance_workflow-HasSucceeded quiet quiet-Undisturbed (world_of with_output) 10 2
      settled_with_output (spec_of bindings) with_output_read outputs with_output_values
      with_output_done result resolved result_not_null

advance_workflow-unbound_example :
    ((advance_workflow quiet 10 (world_of succeeded)).0 ≡ err integrity_error)
    × ((advance_workflow quiet 10 (world_of succeeded)).1.db ≡ succeeded)
advance_workflow-unbound_example =
    advance_workflow-unbound quiet quiet-Undisturbed (world_of succeeded) 10 2 settled_succeeded
      (spec_of []) succeeded_read outputs succeeded_values succeeded_done refl
