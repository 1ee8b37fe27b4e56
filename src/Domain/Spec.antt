-- ===== src/Domain/Spec.antt =====
-- src/nexusflow/domain/spec.py: task definitions and workflow specifications. A TaskDefinitionId and
-- an ActivityType are the strings that they wrap; a mapping is a list of entries with distinct keys.
use nexusflow.Base.{ℕ, String, List}
use nexusflow.Domain.Json.{JsonValue}

pub data InputBinding : Type 0 where
  literal : (value : JsonValue) → InputBinding
  workflow_input : InputBinding
  task_output : (upstream_task_id : String) → InputBinding

-- WorkflowTaskOutputBinding
pub record WorkflowTaskOutputBinding : Type 0 where
  pub source_task_id : String

pub record TaskDefinition : Type 0 where
  pub id : String
  pub activity_type : String
  pub dependencies : List String
  pub input_bindings : List (String × InputBinding)
  pub max_attempts : ℕ

-- Tasks in the order of the candidate, with the dependencies as the user declared them.
pub record CandidateWorkflowSpec : Type 0 where
  pub workflow_name : String
  pub tasks : List TaskDefinition
  pub raw_dependencies : List (String × List String)
  pub output_bindings : List (String × WorkflowTaskOutputBinding)

pub record ValidatedWorkflowSpec : Type 0 where
  pub workflow_name : String
  pub tasks : List (String × TaskDefinition)
  pub output_bindings : List (String × WorkflowTaskOutputBinding)
