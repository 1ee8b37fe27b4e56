-- ===== src/Definition/Normalizer.antt =====
-- src/nexusflow/definition/normalizer.py, on the objects of src/nexusflow/definition/dto.py: a mapping is
-- a list of entries with distinct keys, and a frozenset a list of distinct members.
use nexusflow.Base.{ℕ, String, List, [], ◌∷◌, Result, ok, contains, if◌then◌else◌, ◌>>=◌}
use nexusflow.Domain.Json.{PyValue, freeze_json}
use nexusflow.Domain.Identifiers.{task_definition_id}
use nexusflow.Domain.Spec.{
  TaskDefinition, CandidateWorkflowSpec, InputBinding, literal, workflow_input, task_output,
  WorkflowTaskOutputBinding,
}

-- InputBindingDTO
pub data InputBindingDto : Type 0 where
  literal_dto : (value : PyValue) → InputBindingDto
  workflow_input_dto : InputBindingDto
  task_output_dto : (task : String) → InputBindingDto

-- TaskDefinitionDTO
pub record TaskDefinitionDto : Type 0 where
  pub activity_type : String
  pub dependencies : List String
  pub input_bindings : List (String × InputBindingDto)
  pub max_attempts : ℕ

-- WorkflowDefinitionDTO; an output binding is the task that it names.
pub record WorkflowDefinitionDto : Type 0 where
  pub workflow_name : String
  pub tasks : List (String × TaskDefinitionDto)
  pub output_bindings : List (String × String)

abbrev pub normalize_binding : InputBindingDto → Result InputBinding
normalize_binding (literal_dto value) = do x ← freeze_json value; ok (literal x)
normalize_binding workflow_input_dto = ok workflow_input
normalize_binding (task_output_dto task) = do id ← task_definition_id task; ok (task_output id)

abbrev pub normalize_bindings :
    List (String × InputBindingDto) → Result (List (String × InputBinding))
normalize_bindings [] = ok []
normalize_bindings ((name, dto) ∷ dtos) = do
  binding ← normalize_binding dto
  bindings ← normalize_bindings dtos
  ok ((name, binding) ∷ bindings)

-- frozenset(TaskDefinitionId(d) for d in dependencies)
abbrev pub dependency_set : List String → Result (List String)
dependency_set [] = ok []
dependency_set (d ∷ ds) = do
  id ← task_definition_id d
  ids ← dependency_set ds
  ok (if contains ids id then ids else id ∷ ids)

abbrev pub normalize_task : String → TaskDefinitionDto → Result TaskDefinition
normalize_task name dto = do
  task_id ← task_definition_id name
  input_bindings ← normalize_bindings dto.input_bindings
  activity_type ← task_definition_id dto.activity_type
  dependencies ← dependency_set dto.dependencies
  ok (record {
    id = task_id;
    activity_type = activity_type;
    dependencies = dependencies;
    input_bindings = input_bindings;
    max_attempts = dto.max_attempts;
  })

abbrev pub normalize_tasks : List (String × TaskDefinitionDto) → Result (List TaskDefinition)
normalize_tasks [] = ok []
normalize_tasks ((name, dto) ∷ dtos) = do
  task ← normalize_task name dto
  tasks ← normalize_tasks dtos
  ok (task ∷ tasks)

abbrev pub raw_dependencies : List (String × TaskDefinitionDto) → List (String × List String)
raw_dependencies [] = []
raw_dependencies ((name, dto) ∷ dtos) = (name, dto.dependencies) ∷ raw_dependencies dtos

abbrev pub normalize_outputs :
    List (String × String) → Result (List (String × WorkflowTaskOutputBinding))
normalize_outputs [] = ok []
normalize_outputs ((name, task) ∷ dtos) = do
  id ← task_definition_id task
  bindings ← normalize_outputs dtos
  ok ((name, record { source_task_id = id }) ∷ bindings)

-- Every exception is a ValueError or a TypeError of a value on the way.
unfoldable pub normalize_workflow_dto : WorkflowDefinitionDto → Result CandidateWorkflowSpec
normalize_workflow_dto dto = do
  tasks ← normalize_tasks dto.tasks
  output_bindings ← normalize_outputs dto.output_bindings
  ok (record {
    workflow_name = dto.workflow_name;
    tasks = tasks;
    raw_dependencies = raw_dependencies dto.tasks;
    output_bindings = output_bindings;
  })
