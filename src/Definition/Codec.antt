-- ===== src/Definition/Codec.antt =====
-- src/nexusflow/definition/codec.py: a specification as the JSON that the database stores, and back. A
-- PersistenceIntegrityError carries no message.
pub mod Read
pub mod RoundTrip
use Prim.Native.String.{compare}
use package.text.Mathlib.Text.{is_le}
use nexusflow.Base.{ℕ, String, List, [], ◌∷◌, map, if◌then◌else◌}
use nexusflow.Domain.Json.{
  PyValue, PyItems, PyFields, ℤ, pos, int_value, str_value, py_list, py_dict, no_items, item,
  no_fields, field, text, thaw_json,
}
use nexusflow.Domain.Spec.{
  TaskDefinition, ValidatedWorkflowSpec, InputBinding, literal, workflow_input, task_output,
  WorkflowTaskOutputBinding,
}
use nexusflow.Domain.Graph.{sorted}

abbrev insert_entry : {A : Type 0} → String → A → List (String × A) → List (String × A)
insert_entry key x [] = (key, x) ∷ []
insert_entry key x ((k, y) ∷ rest) =
    let later = insert_entry key x rest in
    if is_le (compare key k) then (key, x) ∷ (k, y) ∷ rest else (k, y) ∷ later

-- [(key, mapping[key]) for key in sorted(mapping.keys())]
abbrev pub sorted_entries : {A : Type 0} → List (String × A) → List (String × A)
sorted_entries [] = []
sorted_entries ((key, x) ∷ rest) = insert_entry key x (sorted_entries rest)

-- A dict with these entries, each value written by f.
abbrev pub dict_of : {A : Type 0} → (A → PyValue) → List (String × A) → PyFields
dict_of f [] = no_fields
dict_of f ((key, x) ∷ rest) = field (text key) (f x) (dict_of f rest)

abbrev pub text_items : List String → PyItems
text_items [] = no_items
text_items (s ∷ ss) = item (str_value s) (text_items ss)

abbrev pub binding_dict : InputBinding → PyValue
binding_dict (literal value) =
    py_dict
      (field (text "type") (str_value "Literal") (field (text "value") (thaw_json value) no_fields))
binding_dict workflow_input = py_dict (field (text "type") (str_value "WorkflowInput") no_fields)
binding_dict (task_output upstream_task_id) = py_dict (
    field (text "type") (str_value "TaskOutput")
      (field (text "upstream_task_id") (str_value upstream_task_id) no_fields))

abbrev pub task_dict : TaskDefinition → PyValue
task_dict task = py_dict (
    field (text "id") (str_value task.id) (
      field (text "activity_type") (str_value task.activity_type) (
        field (text "dependencies") (py_list (text_items (sorted task.dependencies))) (
          field (text "input_bindings")
            (py_dict (dict_of binding_dict (sorted_entries task.input_bindings)))
            (field (text "max_attempts") (int_value (pos task.max_attempts)) no_fields)))))

abbrev pub output_dict : WorkflowTaskOutputBinding → PyValue
output_dict binding = py_dict (
    field (text "type") (str_value "WorkflowTaskOutput")
      (field (text "source_task_id") (str_value binding.source_task_id) no_fields))

-- The entry of a task is keyed by the key of the mapping, and so is the "id" in it.
abbrev pub keyed_task : String × TaskDefinition → String × TaskDefinition
keyed_task (key, task) = (key, record task { id = key })

unfoldable pub serialize_validated_spec : ValidatedWorkflowSpec → PyValue
serialize_validated_spec spec = py_dict (
    field (text "workflow_name") (str_value spec.workflow_name) (
      field (text "tasks")
        (py_dict (dict_of task_dict (map keyed_task (sorted_entries spec.tasks))))
        (field (text "output_bindings")
          (py_dict (dict_of output_dict (sorted_entries spec.output_bindings))) no_fields)))
