-- ===== src/Definition/Codec/RoundTrip.antt =====
-- src/nexusflow/definition/codec.py: what is stored of a specification is read back.
use nexusflow.Base.{
  ℕ, zero, suc, ◌≤◌, ◌≡◌, refl, sym, ap, ◌∙◌, String, true, false, List, [], ◌∷◌, map, ok, All,
  arith, length, contains, str_eq, eq_iff, Bool-cases, inl, inr,
}
use nexusflow.Domain.Json.{int_value, pos}
use nexusflow.Domain.Json.RoundTrip.{freeze_json-thaw_json}
use nexusflow.Domain.Identifiers.{task_definition_id, is_identifier}
use nexusflow.Domain.Spec.{
  TaskDefinition, ValidatedWorkflowSpec, InputBinding, literal, workflow_input, task_output,
  WorkflowTaskOutputBinding,
}
use nexusflow.Domain.Graph.{
  nodes_of, CanonicalGraph, sorted, build_canonical_graph_and_verify_acyclic,
}
use nexusflow.Definition.Codec.{
  serialize_validated_spec, sorted_entries, dict_of, text_items, binding_dict, task_dict,
  output_dict, keyed_task,
}
use nexusflow.Definition.Codec.Read.{
  read_dependencies, read_binding, read_bindings, read_task, read_tasks, read_outputs, task_ids,
  is_empty_list, positive_int, read_spec, deserialize_validated_spec,
}
use nexusflow.Definition.Validator.Accepts.{Declared}

is_identifier_nonempty : (s : String) → is_identifier s ≡ true → str_eq s "" ≡ false
is_identifier_nonempty s h = elim (Bool-cases (str_eq s "")) [
  | inl empty ↦ absurd (ground (arith, sym (ap is_identifier ((eq_iff s "").0 empty)) ∙ h))
  | inr other ↦ other
]

positive_int_lem : (n : ℕ) → 1 ≤ n → positive_int (int_value (pos n)) ≡ ok n
positive_int_lem zero h = absurd (omega (arith, h))
positive_int_lem (suc n) h = refl

module _ (ids : List String) where
  read_dependencies-text_items :
      (task : TaskDefinition) (seen ds : List String)
      → Declared ids task seen ds
      → read_dependencies ids task.id seen (text_items ds) ≡ ok ds
  unfolding task_definition_id
  read_dependencies-text_items task seen [] h = refl
  read_dependencies-text_items task seen (d ∷ ds) h =
      let ih = read_dependencies-text_items task (d ∷ seen) ds h.1 in
      rw h.0.2 (rw h.0.0 (rw h.0.1 (rw h.0.3 (rw ih refl))))

  -- A binding of an input, to a dependency if to a task.
  abbrev pub StorableBinding : List String → InputBinding → Type 0
  StorableBinding deps (literal value) = Unit
  StorableBinding deps workflow_input = Unit
  StorableBinding deps (task_output u) =
      (is_identifier u ≡ true) × (contains ids u ≡ true) × (contains deps u ≡ true)

  read_binding-binding_dict :
      (deps : List String) (b : InputBinding)
      → StorableBinding deps b
      → read_binding ids deps (binding_dict b) ≡ ok b
  unfolding task_definition_id
  read_binding-binding_dict deps (literal value) h = rw (freeze_json-thaw_json value) refl
  read_binding-binding_dict deps workflow_input h = refl
  read_binding-binding_dict deps (task_output u) h = rw h.0 (rw h.1 (rw h.2 refl))

  read_bindings-dict_of :
      (deps : List String) (bs : List (String × InputBinding))
      → All (λ b. StorableBinding deps b.1) bs
      → read_bindings ids deps (dict_of binding_dict bs) ≡ ok bs
  read_bindings-dict_of deps [] h = refl
  read_bindings-dict_of deps ((name, b) ∷ bs) h =
      rw (read_binding-binding_dict deps b h.0) (rw (read_bindings-dict_of deps bs h.1) refl)

  -- A task under its id, with its sets and mappings in the order in which they are stored.
  pub record StorableTask (e : String × TaskDefinition) : Type 0 where
    pub keyed : e.0 ≡ e.1.id
    pub named : is_identifier e.1.id ≡ true
    pub typed : is_identifier e.1.activity_type ≡ true
    pub declared : Declared ids e.1 [] e.1.dependencies
    pub in_order : sorted e.1.dependencies ≡ e.1.dependencies
    pub bindings_in_order : sorted_entries e.1.input_bindings ≡ e.1.input_bindings
    pub bound : All (λ b. StorableBinding e.1.dependencies b.1) e.1.input_bindings
    pub attempts : 1 ≤ e.1.max_attempts

  read_task-task_dict :
      (e : String × TaskDefinition) → StorableTask e → read_task ids e.1.id (task_dict e.1) ≡ ok e.1
  unfolding task_definition_id
  read_task-task_dict e h =
      let same : str_eq e.1.id e.1.id ≡ true = (eq_iff e.1.id e.1.id).1 refl in
      rw
        (
          h.named,
          h.in_order,
          h.bindings_in_order,
          same,
          is_identifier_nonempty e.1.activity_type h.typed,
          h.typed,
          read_dependencies-text_items e.1 [] e.1.dependencies h.declared,
          positive_int_lem e.1.max_attempts h.attempts,
          read_bindings-dict_of e.1.dependencies e.1.input_bindings h.bound,
        )
        refl

  read_tasks-dict_of :
      (tasks : List (String × TaskDefinition))
      → All StorableTask tasks
      → read_tasks ids (dict_of task_dict tasks) ≡ ok tasks
  read_tasks-dict_of [] h = refl
  read_tasks-dict_of ((key, task) ∷ tasks) h =
      let head : read_task ids key (task_dict task) ≡ ok task =
        rw h.0.keyed (read_task-task_dict (key, task) h.0) in
      rw (head, read_tasks-dict_of tasks h.1) refl

  task_ids-dict_of :
      (tasks : List (String × TaskDefinition))
      → All StorableTask tasks
      → task_ids (dict_of task_dict tasks) ≡ ok (nodes_of tasks)
  unfolding task_definition_id
  task_ids-dict_of [] h = refl
  task_ids-dict_of ((key, task) ∷ tasks) h =
      let named : is_identifier key ≡ true = rw h.0.keyed h.0.named in
      rw (named, task_ids-dict_of tasks h.1) refl

  keyed_tasks :
      (tasks : List (String × TaskDefinition))
      → All StorableTask tasks
      → map keyed_task tasks ≡ tasks
  keyed_tasks [] h = refl
  keyed_tasks ((key, task) ∷ tasks) h =
      let head : keyed_task (key, task) ≡ (key, task) = rw h.0.keyed refl in
      rw (head, keyed_tasks tasks h.1) refl

  abbrev pub StorableOutput : String × WorkflowTaskOutputBinding → Type 0
  StorableOutput e =
      (is_identifier e.1.source_task_id ≡ true) × (contains ids e.1.source_task_id ≡ true)

  read_outputs-dict_of :
      (outputs : List (String × WorkflowTaskOutputBinding))
      → All StorableOutput outputs
      → read_outputs ids (dict_of output_dict outputs) ≡ ok outputs
  unfolding task_definition_id
  read_outputs-dict_of [] h = refl
  read_outputs-dict_of ((name, binding) ∷ outputs) h =
      rw (h.0.0, h.0.1, read_outputs-dict_of outputs h.1) refl

-- A specification as the validator makes it, whose mappings are in the order in which they are stored.
pub record Storable (spec : ValidatedWorkflowSpec) : Type 0 where
  pub named : str_eq spec.workflow_name "" ≡ false
  pub nonempty : 1 ≤ length spec.tasks
  pub in_order : sorted_entries spec.tasks ≡ spec.tasks
  pub tasks : All (StorableTask (nodes_of spec.tasks)) spec.tasks
  pub outputs_in_order : sorted_entries spec.output_bindings ≡ spec.output_bindings
  pub outputs : All (StorableOutput (nodes_of spec.tasks)) spec.output_bindings
  pub graph : CanonicalGraph
  pub acyclic : build_canonical_graph_and_verify_acyclic spec.tasks ≡ ok (graph, [])

has_ids :
    (tasks : List (String × TaskDefinition))
    → 1 ≤ length tasks
    → is_empty_list (nodes_of tasks) ≡ false
has_ids [] h = absurd (omega (arith, h))
has_ids (e ∷ tasks) h = refl

-- A specification that is valid, with its mappings in the order of their keys and its sets in the
-- order of their members, is read back from what is stored of it exactly as it was.
pub deserialize_validated_spec-serialize_validated_spec :
    (spec : ValidatedWorkflowSpec)
    → Storable spec
    → deserialize_validated_spec (serialize_validated_spec spec) ≡ ok spec
unfolding deserialize_validated_spec serialize_validated_spec read_spec
deserialize_validated_spec-serialize_validated_spec spec h =
    let ids : List String = nodes_of spec.tasks in
    rw
      (
        h.in_order,
        keyed_tasks ids spec.tasks h.tasks,
        h.outputs_in_order,
        h.named,
        task_ids-dict_of ids spec.tasks h.tasks,
        has_ids spec.tasks h.nonempty,
        read_tasks-dict_of ids spec.tasks h.tasks,
        read_outputs-dict_of ids spec.output_bindings h.outputs,
        h.acyclic,
      )
      refl
