-- ===== src/Domain/Readiness.antt =====
-- src/nexusflow/domain/readiness.py: whether a task may become RUNNABLE, and on what input. A state is
-- one of the enumeration, where the code holds its text; a mapping is a list of entries with distinct
-- keys; diagnostic messages, and ids and revisions that no branch reads, are left out.
pub mod Laws
use nexusflow.Base.{
  String, ◌≡◌, Bool, true, false, not, Option, none, some, List, [], ◌∷◌, Result, ok, err,
  key_error, ◌>>=◌, str_eq, if◌then◌else◌,
}
use nexusflow.Domain.Json.{JsonValue, JsonObject, null, object, end, entry}
use nexusflow.Domain.Spec.{
  TaskDefinition, InputBinding, literal, workflow_input, task_output, WorkflowTaskOutputBinding,
}
use nexusflow.Domain.WorkflowState
use nexusflow.Domain.WorkflowState.{WorkflowState}
use nexusflow.Domain.TaskState
use nexusflow.Domain.TaskState.{TaskState}

pub data ReadinessReason : Type 0 where
  is_ready workflow_not_running task_not_pending dependencies_incomplete dependency_not_succeeded
        output_not_available input_resolution_corrupt :
      ReadinessReason

pub record DependencyStateSnapshot : Type 0 where
  pub state : TaskState
  pub has_output : Bool
  pub output_value : JsonValue

pub record TaskReadinessSnapshot : Type 0 where
  pub workflow_state : WorkflowState
  pub workflow_input : JsonValue
  pub task_state : TaskState
  pub task_definition : TaskDefinition
  pub upstream_dependencies : List (String × DependencyStateSnapshot)

pub record ReadinessDecision : Type 0 where
  pub ready : Bool
  pub resolved_input : Option JsonObject
  pub reason : ReadinessReason

-- mapping.get(key)
abbrev pub get : {A : Type 0} → String → List (String × A) → Option A
get key [] = none
get key ((k, x) ∷ rest) = if str_eq k key then some x else get key rest

-- What is wrong with the state of one dependency, if anything is.
abbrev pub dependency_problem : Option DependencyStateSnapshot → Option ReadinessReason
dependency_problem none = some dependencies_incomplete
dependency_problem (some dep) =
    if TaskState.is_succeeded dep.state
    then (if dep.has_output then none else some output_not_available)
    else some dependency_not_succeeded

abbrev first_problem : Option ReadinessReason → Option ReadinessReason → Option ReadinessReason
first_problem (some reason) later = some reason
first_problem none later = later

abbrev pub dependencies_problem :
    List (String × DependencyStateSnapshot) → List String → Option ReadinessReason
dependencies_problem upstream [] = none
dependencies_problem upstream (dep_id ∷ dep_ids) =
    first_problem (dependency_problem (get dep_id upstream)) (dependencies_problem upstream dep_ids)

-- The value of a task output binding.
abbrev pub source_output : Option DependencyStateSnapshot → Option JsonValue
source_output none = none
source_output (some dep) = if dep.has_output then some dep.output_value else none

module _ (input : JsonValue) (upstream : List (String × DependencyStateSnapshot)) where
  abbrev pub binding_value : InputBinding → Option JsonValue
  binding_value (literal value) = some value
  binding_value workflow_input = some input
  binding_value (task_output upstream_task_id) = source_output (get upstream_task_id upstream)

  abbrev resolved_entry : String → Option JsonValue → Option JsonObject → Option JsonObject
  resolved_entry name (some value) (some rest) = some (entry name value rest)
  resolved_entry name _ _ = none

  abbrev pub resolve_bindings : List (String × InputBinding) → Option JsonObject
  resolve_bindings [] = some end
  resolve_bindings ((name, binding) ∷ bindings) =
      resolved_entry name (binding_value binding) (resolve_bindings bindings)

abbrev pub not_ready : ReadinessReason → ReadinessDecision
not_ready reason = record { ready = false; resolved_input = none; reason = reason }

abbrev pub resolution : Option JsonObject → ReadinessDecision
resolution none = not_ready input_resolution_corrupt
resolution (some input) = record { ready = true; resolved_input = some input; reason = is_ready }

abbrev pub unless_problem : Option ReadinessReason → Option JsonObject → ReadinessDecision
unless_problem (some reason) input = not_ready reason
unless_problem none input = resolution input

unfoldable pub evaluate_task_readiness : TaskReadinessSnapshot → ReadinessDecision
evaluate_task_readiness snapshot =
    if not (WorkflowState.is_running snapshot.workflow_state)
    then not_ready workflow_not_running
    else if not (TaskState.is_pending snapshot.task_state)
    then not_ready task_not_pending
    else unless_problem
        (dependencies_problem snapshot.upstream_dependencies snapshot.task_definition.dependencies)
        (resolve_bindings snapshot.workflow_input snapshot.upstream_dependencies
          snapshot.task_definition.input_bindings)

abbrev found_output : Option JsonValue → Result JsonValue
found_output none = err key_error
found_output (some value) = ok value

abbrev pub output_entries :
    List (String × WorkflowTaskOutputBinding) → List (String × JsonValue) → Result JsonObject
output_entries [] task_outputs = ok end
output_entries ((name, binding) ∷ bindings) task_outputs =
    found_output (get binding.source_task_id task_outputs) >>= λ value.
    output_entries bindings task_outputs >>= λ rest. ok (entry name value rest)

unfoldable pub resolve_workflow_outputs :
    List (String × WorkflowTaskOutputBinding) → List (String × JsonValue) → Result JsonValue
resolve_workflow_outputs [] task_outputs = ok null
resolve_workflow_outputs (binding ∷ bindings) task_outputs = do
  result ← output_entries (binding ∷ bindings) task_outputs
  ok (object result)
