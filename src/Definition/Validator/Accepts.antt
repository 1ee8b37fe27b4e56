-- ===== src/Definition/Validator/Accepts.antt =====
-- src/nexusflow/definition/validator.py: SemanticValidator.validate accepts exactly the definitions
-- that are sound references on a graph without cycles.
use nexusflow.Base.{
  ℕ, ◌+◌, ◌≤◌, ◌≡◌, refl, String, Bool, true, false, not, List, [], ◌∷◌, All, arith, ltb, contains,
  str_eq, if◌then◌else◌, value_error,
}
use nexusflow.Domain.Identifiers.{task_definition_id, is_identifier}
use nexusflow.Domain.Spec.{
  TaskDefinition, InputBinding, literal, workflow_input, task_output, WorkflowTaskOutputBinding,
}
use nexusflow.Definition.Validator.{
  get_raw, refuse_if, add_error, check_dependency, check_dependencies, check_input, check_inputs,
  check_task, check_tasks, check_outputs, unknown_dependency, dependency_path, input_path,
  unknown_task_output_source, task_output_source_not_dependency,
}
use nexusflow.Definition.Validator.Decides.{
  Decides, next-Decides, go_on-Decides, guard-Decides, iff-Decides, add_error-Decides,
  refuse_if-Decides,
}

module _ (ids : List String) where
  -- The declared dependencies of a task: no repetition, not the task itself, only identifiers of tasks.
  abbrev pub Declared : TaskDefinition → List String → List String → Type 0
  Declared task seen [] = Unit
  Declared task seen (d ∷ ds) =
      ((contains seen d ≡ false)
        × (str_eq d task.id ≡ false)
        × (is_identifier d ≡ true)
        × (contains ids d ≡ true))
      × Declared task (d ∷ seen) ds

  -- The source of an input is a task on which the task depends.
  abbrev pub Sourced : TaskDefinition → InputBinding → Type 0
  Sourced task (literal value) = Unit
  Sourced task workflow_input = Unit
  Sourced task (task_output u) = (contains ids u ≡ true) × (contains task.dependencies u ≡ true)

  module _ (limit max_errors : ℕ) where
    check_dependency-Decides :
        (task : TaskDefinition) (idx : ℕ) (seen : List String) (d : String)
        → Decides
            ((contains seen d ≡ false)
              × (str_eq d task.id ≡ false)
              × (is_identifier d ≡ true)
              × (contains ids d ≡ true))
            (check_dependency limit max_errors ids task idx seen d)
    unfolding task_definition_id
    check_dependency-Decides task idx seen d =
        iff-Decides _
          (next-Decides _ _ (refuse_if-Decides limit max_errors _ _ (contains seen d)) (
            next-Decides _ _ (refuse_if-Decides limit max_errors _ _ (str_eq d task.id)) (
              guard-Decides (is_identifier d) value_error d _ (
                refuse_if-Decides limit max_errors unknown_dependency (dependency_path task.id idx)
                  (not (contains ids d))))))
          (λ h. (h.0, h.1.0, h.1.1.0, ground (arith, h.1.1.1)))
          (λ h. (h.0, (h.1, (h.2, ground (arith, h.3)))))

    check_dependencies-Decides :
        (task : TaskDefinition) (idx : ℕ) (seen ds : List String)
        → Decides (Declared task seen ds) (check_dependencies limit max_errors ids task idx seen ds)
    check_dependencies-Decides task idx seen [] = go_on-Decides
    check_dependencies-Decides task idx seen (d ∷ ds) =
        next-Decides _ _ (check_dependency-Decides task idx seen d)
          (check_dependencies-Decides task (idx + 1) (d ∷ seen) ds)

    source-Decides :
        (task : TaskDefinition) (name u : String) (is_task : Bool)
        → Decides ((is_task ≡ true) × (contains task.dependencies u ≡ true)) (λ es.
          if not is_task
          then add_error limit max_errors unknown_task_output_source (input_path task.id name) es
          else refuse_if limit max_errors
              (not (contains task.dependencies u))
              task_output_source_not_dependency
              (input_path task.id name)
              es)
    source-Decides task name u true =
        iff-Decides _ (refuse_if-Decides limit max_errors _ _ (not (contains task.dependencies u)))
          (λ h. (refl, ground (arith, h))) (λ h. ground (arith, h.1))
    source-Decides task name u false =
        iff-Decides _ (add_error-Decides limit max_errors _ _) (λ h. absurd h)
          (λ h. absurd (ground (arith, h.0)))

    check_input-Decides :
        (task : TaskDefinition) (name : String) (binding : InputBinding)
        → Decides (Sourced task binding) (check_input limit max_errors ids task name binding)
    check_input-Decides task name (literal value) = go_on-Decides
    check_input-Decides task name workflow_input = go_on-Decides
    check_input-Decides task name (task_output u) = source-Decides task name u (contains ids u)

    check_inputs-Decides :
        (task : TaskDefinition) (bindings : List (String × InputBinding))
        → Decides
            (All (λ b. Sourced task b.1) bindings)
            (check_inputs limit max_errors ids task bindings)
    check_inputs-Decides task [] = go_on-Decides
    check_inputs-Decides task ((name, binding) ∷ bindings) =
        next-Decides _ _ (check_input-Decides task name binding)
          (check_inputs-Decides task bindings)

  -- What the rules on one task ask for.
  abbrev pub SoundTask : ℕ → List (String × List String) → TaskDefinition → Type 0
  SoundTask limit raw task =
      (task.max_attempts ≤ limit)
      × (Declared task [] (get_raw task.id raw))
      × (All (λ b. Sourced task b.1) task.input_bindings)

  module _ (limit max_errors : ℕ) where
    check_task-Decides :
        (raw : List (String × List String)) (task : TaskDefinition)
        → Decides (SoundTask limit raw task) (check_task limit max_errors ids raw task)
    check_task-Decides raw task =
        iff-Decides _
          (next-Decides _ _ (refuse_if-Decides limit max_errors _ _ (ltb limit task.max_attempts)) (
            next-Decides _ _
              (check_dependencies-Decides limit max_errors task 0 [] (get_raw task.id raw))
              (check_inputs-Decides limit max_errors task task.input_bindings)))
          (λ h. (ground (arith, h.0), h.1.0, h.1.1)) (λ h. (ground (arith, h.0), (h.1, h.2)))

    pub check_tasks-Decides :
        (raw : List (String × List String)) (tasks : List TaskDefinition)
        → Decides (All (SoundTask limit raw) tasks) (check_tasks limit max_errors ids raw tasks)
    check_tasks-Decides raw [] = go_on-Decides
    check_tasks-Decides raw (task ∷ tasks) =
        next-Decides _ _ (check_task-Decides raw task) (check_tasks-Decides raw tasks)

    pub check_outputs-Decides :
        (bindings : List (String × WorkflowTaskOutputBinding))
        → Decides
            (All (λ b. contains ids b.1.source_task_id ≡ true) bindings)
            (check_outputs limit max_errors ids bindings)
    check_outputs-Decides [] = go_on-Decides
    check_outputs-Decides ((name, binding) ∷ bindings) =
        iff-Decides _
          (next-Decides _ _
            (refuse_if-Decides limit max_errors _ _ (not (contains ids binding.source_task_id)))
            (check_outputs-Decides bindings))
          (λ h. (ground (arith, h.0), h.1)) (λ h. (ground (arith, h.0), h.1))
