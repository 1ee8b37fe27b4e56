-- ===== src/Definition/Validator.antt =====
-- src/nexusflow/definition/validator.py: SemanticValidator.validate. An error is its code and the
-- parts of its path; messages are not modelled. The two limits of the constructor are arguments.
pub mod Decides
pub mod Accepts
pub mod Valid
use nexusflow.Base.{
  ℕ, ◌+◌, String, Bool, not, Option, none, some, List, [], ◌∷◌, ◌++◌, map, Result, ok, err, length,
  contains, str_eq, leb, ltb, if◌then◌else◌, ◌>>=◌,
}
use nexusflow.Domain.Identifiers.{task_definition_id}
use nexusflow.Domain.Spec.{
  TaskDefinition, CandidateWorkflowSpec, ValidatedWorkflowSpec, InputBinding, literal,
  workflow_input, task_output, WorkflowTaskOutputBinding,
}
use nexusflow.Domain.Graph.{CanonicalGraph, build_canonical_graph_and_verify_acyclic}

-- The codes that the validator gives.
pub data DefinitionValidationCode : Type 0 where
  empty_workflow unknown_dependency self_dependency duplicate_dependency unknown_task_output_source
        task_output_source_not_dependency unknown_workflow_output_source cycle_detected
        attempts_exceeded_limit :
      DefinitionValidationCode

pub data ErrorPath : Type 0 where
  tasks_path : ErrorPath
  attempts_path : (task_id : String) → ErrorPath
  dependency_path : (task_id : String) (index : ℕ) → ErrorPath
  input_path : (task_id input_name : String) → ErrorPath
  output_path : (output_name : String) → ErrorPath

pub record DefinitionValidationError : Type 0 where
  pub code : DefinitionValidationCode
  pub path : ErrorPath

pub record ValidatedDefinitionResult : Type 0 where
  pub spec : ValidatedWorkflowSpec
  pub graph : CanonicalGraph

pub record ValidationOutcome : Type 0 where
  pub success : Option ValidatedDefinitionResult
  pub errors : List DefinitionValidationError

abbrev pub Errors : Type 0
Errors = List DefinitionValidationError

-- The errors so far, and whether the function has returned with them because there are too many.
pub data Progress : Type 0 where
  going : Errors → Progress
  returned : Errors → Progress

-- What follows a check that has not returned.
abbrev pub next : Result Progress → (Errors → Result Progress) → Result Progress
next (ok (going errors)) k = k errors
next (ok (returned errors)) k = ok (returned errors)
next (err e) k = err e

-- task_map: of two tasks with one id, the later takes the place of the earlier.
abbrev pub put : TaskDefinition → List (String × TaskDefinition) → List (String × TaskDefinition)
put t [] = (t.id, t) ∷ []
put t ((key, u) ∷ rest) =
    let later = put t rest in if str_eq key t.id then (key, t) ∷ rest else (key, u) ∷ later

abbrev pub put_all :
    List TaskDefinition → List (String × TaskDefinition) → List (String × TaskDefinition)
put_all [] entries = entries
put_all (t ∷ ts) entries = put_all ts (put t entries)

abbrev pub task_map : List TaskDefinition → List (String × TaskDefinition)
task_map ts = put_all ts []

-- raw_dependencies.get(id, ())
abbrev pub get_raw : String → List (String × List String) → List String
get_raw id [] = []
get_raw id ((key, ds) ∷ rest) = if str_eq key id then ds else get_raw id rest

module _ (max_attempts_admission_limit max_errors : ℕ) where
  -- add_error, and the return where it says so
  abbrev pub add_error : DefinitionValidationCode → ErrorPath → Errors → Result Progress
  add_error code path errors =
      let errors' : Errors = errors ++ record { code = code; path = path } ∷ [] in
      ok (if leb max_errors (length errors') then returned errors' else going errors')

  -- if wrong: add_error(…)
  abbrev pub refuse_if : Bool → DefinitionValidationCode → ErrorPath → Errors → Result Progress
  refuse_if wrong code path errors = if wrong then add_error code path errors else ok (going errors)

  module _ (task_id_set : List String) where
    abbrev pub check_dependency :
        TaskDefinition → ℕ → List String → String → Errors → Result Progress
    check_dependency task idx seen_deps dep_str errors =
        next
          (refuse_if (contains seen_deps dep_str) duplicate_dependency (dependency_path task.id idx)
            errors)
          λ errors.
            next
              (refuse_if (str_eq dep_str task.id) self_dependency (dependency_path task.id idx)
                errors)
              λ errors. task_definition_id dep_str >>= λ dep_id.
                refuse_if (not (contains task_id_set dep_id)) unknown_dependency
                  (dependency_path task.id idx) errors

    abbrev pub check_dependencies :
        TaskDefinition → ℕ → List String → List String → Errors → Result Progress
    check_dependencies task idx seen_deps [] errors = ok (going errors)
    check_dependencies task idx seen_deps (dep_str ∷ rest) errors =
        next (check_dependency task idx seen_deps dep_str errors)
          (check_dependencies task (idx + 1) (dep_str ∷ seen_deps) rest)

    abbrev pub check_input : TaskDefinition → String → InputBinding → Errors → Result Progress
    check_input task input_name (literal value) errors = ok (going errors)
    check_input task input_name workflow_input errors = ok (going errors)
    check_input task input_name (task_output upstream_id) errors =
        if not (contains task_id_set upstream_id)
        then add_error unknown_task_output_source (input_path task.id input_name) errors
        else refuse_if (not (contains task.dependencies upstream_id))
            task_output_source_not_dependency (input_path task.id input_name) errors

    abbrev pub check_inputs :
        TaskDefinition → List (String × InputBinding) → Errors → Result Progress
    check_inputs task [] errors = ok (going errors)
    check_inputs task ((input_name, binding) ∷ bindings) errors =
        next (check_input task input_name binding errors) (check_inputs task bindings)

    abbrev pub check_task : List (String × List String) → TaskDefinition → Errors → Result Progress
    check_task raw_dependencies task errors =
        next
          (refuse_if (ltb max_attempts_admission_limit task.max_attempts) attempts_exceeded_limit
            (attempts_path task.id) errors)
          λ errors.
            next (check_dependencies task 0 [] (get_raw task.id raw_dependencies) errors)
              (check_inputs task task.input_bindings)

    abbrev pub check_tasks :
        List (String × List String) → List TaskDefinition → Errors → Result Progress
    check_tasks raw_dependencies [] errors = ok (going errors)
    check_tasks raw_dependencies (task ∷ tasks) errors =
        next (check_task raw_dependencies task errors) (check_tasks raw_dependencies tasks)

    abbrev pub check_outputs : List (String × WorkflowTaskOutputBinding) → Errors → Result Progress
    check_outputs [] errors = ok (going errors)
    check_outputs ((output_name, binding) ∷ bindings) errors =
        next
          (refuse_if (not (contains task_id_set binding.source_task_id))
            unknown_workflow_output_source (output_path output_name) errors)
          (check_outputs bindings)

  abbrev pub refused : Errors → ValidationOutcome
  refused errors = record { success = none; errors = errors }

  abbrev cycle_error : List String → DefinitionValidationError
  cycle_error message = record { code = cycle_detected; path = tasks_path }

  abbrev pub accepted : CandidateWorkflowSpec → CanonicalGraph → ValidationOutcome
  accepted candidate graph = record {
    success = some (record {
      spec = record {
        workflow_name = candidate.workflow_name;
        tasks = task_map candidate.tasks;
        output_bindings = candidate.output_bindings;
      };
      graph = graph;
    });
    errors = [];
  }

  -- Rules 5 and 6
  abbrev pub promote :
      CandidateWorkflowSpec → CanonicalGraph × List (List String) → ValidationOutcome
  promote candidate (graph, []) = accepted candidate graph
  promote candidate (graph, message ∷ messages) = refused (map cycle_error (message ∷ messages))

  abbrev pub verify : CandidateWorkflowSpec → Progress → Result ValidationOutcome
  verify candidate (returned errors) = ok (refused errors)
  verify candidate (going (e ∷ errors)) = ok (refused (e ∷ errors))
  verify candidate (going []) =
      build_canonical_graph_and_verify_acyclic (task_map candidate.tasks) >>= λ built.
      ok (promote candidate built)

  -- Rules 2, 3 and 4
  abbrev pub check_references : CandidateWorkflowSpec → Result Progress
  check_references candidate =
      let task_id_set : List String = map (λ t. t.id) candidate.tasks in
      next (check_tasks task_id_set candidate.raw_dependencies candidate.tasks [])
        (check_outputs task_id_set candidate.output_bindings)

  abbrev pub validate_tasks : CandidateWorkflowSpec → List TaskDefinition → Result ValidationOutcome
  validate_tasks candidate [] =
      ok (refused (record { code = empty_workflow; path = tasks_path } ∷ []))
  validate_tasks candidate (task ∷ tasks) = check_references candidate >>= verify candidate

  unfoldable pub validate : CandidateWorkflowSpec → Result ValidationOutcome
  validate candidate = validate_tasks candidate candidate.tasks
