-- ===== src/Definition/Codec/Read.antt =====
-- src/nexusflow/definition/codec.py: deserialize_validated_spec. Every check that fails raises
-- PersistenceIntegrityError, and every other exception is turned into it.
use nexusflow.Base.{
  ℕ, suc, String, Bool, true, false, not, List, [], ◌∷◌, Result, ok, err,
  persistence_integrity_error, require, ◌>>=◌, ◌>>◌, contains, str_eq, if◌then◌else◌,
}
use nexusflow.Domain.Json.{
  PyValue, PyItems, PyFields, pos, int_value, str_value, py_list, py_dict, mapping_proxy, no_items,
  item, no_fields, field, text, other_key, freeze_json,
}
use nexusflow.Domain.Identifiers.{task_definition_id}
use nexusflow.Domain.Spec.{
  TaskDefinition, ValidatedWorkflowSpec, InputBinding, literal, workflow_input, task_output,
  WorkflowTaskOutputBinding,
}
use nexusflow.Domain.Graph.{build_canonical_graph_and_verify_acyclic}

abbrev corrupt : {A : Type 0} → Result A
corrupt = err persistence_integrity_error

abbrev pub as_mapping : PyValue → Result PyFields
as_mapping (py_dict fields) = ok fields
as_mapping (mapping_proxy fields) = ok fields
as_mapping _ = corrupt

abbrev pub as_text : PyValue → Result String
as_text (str_value s) = ok s
as_text _ = corrupt

-- A text that is not empty.
abbrev nonempty_text : PyValue → Result String
nonempty_text v =
    as_text v >>= λ s. require (not (str_eq s "")) persistence_integrity_error >>= λ _. ok s

-- data.get(key), where None fails the check that follows
abbrev pub dict_get : String → PyFields → Result PyValue
dict_get key no_fields = corrupt
dict_get key (field (text k) v fields) = if str_eq k key then ok v else dict_get key fields
dict_get key (field other_key v rest) = dict_get key rest

-- data.get(key, default)
abbrev get_or : PyValue → Result PyValue → PyValue
get_or default (ok v) = v
get_or default (err e) = default

-- type(value) is int and value >= 1
abbrev pub positive_int : PyValue → Result ℕ
positive_int (int_value (pos (suc n))) = ok (suc n)
positive_int _ = corrupt

-- The keys of raw_tasks, as task ids.
abbrev pub task_ids : PyFields → Result (List String)
task_ids no_fields = ok []
task_ids (field (text key) v rest) = do
  id ← task_definition_id key
  ids ← task_ids rest
  ok (id ∷ ids)
task_ids (field other_key v rest) = corrupt

-- The check of an embedded id, where there is one.
abbrev check_id : String → Result PyValue → Result (Unit {0})
check_id key (err e) = ok tt
check_id key (ok v) = as_text v >>= λ id. require (str_eq id key) persistence_integrity_error

module _ (task_id_set : List String) where
  -- The loop over raw_deps; `seen` is deps_set.
  abbrev pub read_dependencies : String → List String → PyItems → Result (List String)
  read_dependencies task_id seen no_items = ok []
  read_dependencies task_id seen (item v rest) = do
    name ← as_text v
    dep_id ← task_definition_id name
    require (not (contains seen dep_id)) persistence_integrity_error
    require (not (str_eq dep_id task_id)) persistence_integrity_error
    require (contains task_id_set dep_id) persistence_integrity_error
    deps ← read_dependencies task_id (dep_id ∷ seen) rest
    ok (dep_id ∷ deps)

  abbrev pub as_dependencies : String → PyValue → Result (List String)
  as_dependencies task_id (py_list items) = read_dependencies task_id [] items
  as_dependencies task_id _ = corrupt

  abbrev read_task_output : List String → PyFields → Result InputBinding
  read_task_output deps fields = do
    upstream ← dict_get "upstream_task_id" fields
    name ← as_text upstream
    upstream_id ← task_definition_id name
    require (contains task_id_set upstream_id) persistence_integrity_error
    require (contains deps upstream_id) persistence_integrity_error
    ok (task_output upstream_id)

  abbrev read_literal : PyFields → Result InputBinding
  read_literal fields = do
    raw ← dict_get "value" fields
    value ← freeze_json raw
    ok (literal value)

  abbrev read_binding_as : String → List String → PyFields → Result InputBinding
  read_binding_as b_type deps fields =
      if str_eq b_type "Literal"
      then read_literal fields
      else if str_eq b_type "WorkflowInput"
      then ok workflow_input
      else if str_eq b_type "TaskOutput"
      then read_task_output deps fields
      else corrupt

  abbrev pub read_binding : List String → PyValue → Result InputBinding
  read_binding deps v = do
    fields ← as_mapping v
    raw_type ← dict_get "type" fields
    b_type ← as_text raw_type
    read_binding_as b_type deps fields

  abbrev pub read_bindings : List String → PyFields → Result (List (String × InputBinding))
  read_bindings deps no_fields = ok []
  read_bindings deps (field (text key) v rest) = do
    binding ← read_binding deps v
    bindings ← read_bindings deps rest
    ok ((key, binding) ∷ bindings)
  read_bindings deps (field other_key v rest) = corrupt

  abbrev pub read_task : String → PyValue → Result TaskDefinition
  read_task key v = do
    fields ← as_mapping v
    task_id ← task_definition_id key
    check_id key (dict_get "id" fields)
    raw_type ← dict_get "activity_type" fields
    activity_name ← nonempty_text raw_type
    activity_type ← task_definition_id activity_name
    deps ← as_dependencies task_id (get_or (py_list no_items) (dict_get "dependencies" fields))
    raw_attempts ← dict_get "max_attempts" fields
    max_attempts ← positive_int raw_attempts
    raw_bindings ← as_mapping (get_or (py_dict no_fields) (dict_get "input_bindings" fields))
    bindings ← read_bindings deps raw_bindings
    ok (record {
      id = task_id;
      activity_type = activity_type;
      dependencies = deps;
      input_bindings = bindings;
      max_attempts = max_attempts;
    })

  abbrev pub read_tasks : PyFields → Result (List (String × TaskDefinition))
  read_tasks no_fields = ok []
  read_tasks (field (text key) v rest) = do
    task ← read_task key v
    tasks ← read_tasks rest
    ok ((key, task) ∷ tasks)
  read_tasks (field other_key v rest) = corrupt

  abbrev pub read_output : PyValue → Result WorkflowTaskOutputBinding
  read_output v = do
    fields ← as_mapping v
    raw_type ← dict_get "type" fields
    b_type ← as_text raw_type
    require (str_eq b_type "WorkflowTaskOutput") persistence_integrity_error
    source ← dict_get "source_task_id" fields
    name ← as_text source
    src_id ← task_definition_id name
    require (contains task_id_set src_id) persistence_integrity_error
    ok (record { source_task_id = src_id })

  abbrev pub read_outputs : PyFields → Result (List (String × WorkflowTaskOutputBinding))
  read_outputs no_fields = ok []
  read_outputs (field (text key) v rest) = do
    output ← read_output v
    outputs ← read_outputs rest
    ok ((key, output) ∷ outputs)
  read_outputs (field other_key v rest) = corrupt

abbrev pub is_empty_list : {A : Type 0} → List A → Bool
is_empty_list [] = true
is_empty_list (x ∷ xs) = false

-- The body of the try statement.
unfoldable pub read_spec : PyValue → Result ValidatedWorkflowSpec
read_spec v = do
  root ← as_mapping v
  raw_name ← dict_get "workflow_name" root
  name ← nonempty_text raw_name
  raw_tasks ← dict_get "tasks" root
  task_fields ← as_mapping raw_tasks
  raw_outputs ← as_mapping (get_or (py_dict no_fields) (dict_get "output_bindings" root))
  ids ← task_ids task_fields
  require (not (is_empty_list ids)) persistence_integrity_error
  tasks ← read_tasks ids task_fields
  outputs ← read_outputs ids raw_outputs
  graph ← build_canonical_graph_and_verify_acyclic tasks
  require (is_empty_list graph.1) persistence_integrity_error
  ok (record { workflow_name = name; tasks = tasks; output_bindings = outputs })

abbrev all_corrupt : {A : Type 0} → Result A → Result A
all_corrupt (ok x) = ok x
all_corrupt (err e) = corrupt

unfoldable pub deserialize_validated_spec : PyValue → Result ValidatedWorkflowSpec
unfolding read_spec
deserialize_validated_spec v = all_corrupt (read_spec v)
