-- ===== src/Samples.antt =====
-- A run of one workflow with one task through the transactions of
-- src/nexusflow/persistence/transactions.py, and the theorems of the other modules on it.
mod Endings
mod Applied
mod Guaranteed
mod Ready
mod Sessions
mod Passes
mod Graphs
mod Drained
mod Stored
mod Entities
mod Failures
mod Advanced
mod Callbacks
use nexusflow.Base.{
  ℕ, String, ◌≡◌, refl, Bool, true, false, Option, none, some, List, [], ◌∷◌, Result, ok, err,
  contains, any, arith, ◌≤◌,
}
use nexusflow.Domain.Json.{
  PyValue, PyFields, py_dict, py_list, no_items, int_value, pos, no_fields, field, text, JsonValue,
  string, null, object, end, JsonObject, freeze_json, thaw_json, array, cons, nil, boolean,
  str_value,
}
use nexusflow.Domain.Spec.{TaskDefinition}
use nexusflow.Domain.TaskState
use nexusflow.Domain.AttemptState
use nexusflow.Domain.WorkflowState
use nexusflow.Store.Table.{select_first, select_all, row_count, update_where}
use nexusflow.Store.Records.{
  Db, RegisteredDefinitionRecord, TaskExecutionRecord, ExecutionAttemptRecord, is_task,
}
use nexusflow.Transactions.Outcome.{CommitStatus, committed, key_names, subscript, task_keys}
use nexusflow.Transactions.Creation.{
  commit_workflow_creation, commit_task_population, populate, new_task,
}
use nexusflow.Transactions.Readiness.{commit_task_readiness}
use nexusflow.Transactions.Ownership.{commit_attempt_ownership, commit_worker_execution_start}
use nexusflow.Transactions.Success.{commit_worker_task_success}
use nexusflow.Transactions.Settlement.{commit_initialization_complete, commit_workflow_success}
use nexusflow.Lifecycle.Step.{
  Step, Reach, here, then_step, create_workflow, populate_tasks, complete_initialization,
  make_ready, own_attempt, start_execution, report_success, succeed_workflow,
}
use nexusflow.Lifecycle.Safety.{IsEmpty}

abbrev pub stored_task_a : PyValue
stored_task_a = py_dict (
    field (text "id") (str_value "a") (
      field (text "activity_type") (str_value "echo") (
        field (text "dependencies") (py_list no_items) (
          field (text "input_bindings") (py_dict no_fields)
            (field (text "max_attempts") (int_value (pos 2)) no_fields)))))

-- The definition of one task, as serialize_validated_spec writes it.
abbrev pub iws : PyValue
iws = py_dict (
    field (text "workflow_name") (str_value "one_task") (
      field (text "tasks") (py_dict (field (text "a") stored_task_a no_fields))
        (field (text "output_bindings") (py_dict no_fields) no_fields)))

abbrev pub task_a : TaskDefinition
task_a = record {
  id = "a";
  activity_type = "echo";
  dependencies = [];
  input_bindings = [];
  max_attempts = 2;
}

-- One registered definition, and nothing else.
abbrev pub registered : Db
registered = record {
  definitions =
      record {
        definition_id = 1;
        workflow_name = "one_task";
        validated_iws = iws;
        raw_yaml = none;
        created_at_utc = 0;
      }
      ∷ [];
  workflows = [];
  tasks = [];
  attempts = [];
  history = [];
  idempotency = [];
}

pub registered_IsEmpty : IsEmpty registered
registered_IsEmpty = record { tasks = refl; attempts = refl }

-- The database of a result, `registered` where it is an error.
abbrev pub after : {A : Type 0} → Result (A × Db) → Db
after (ok outcome) = outcome.1
after (err e) = registered

abbrev pub uuid4 : ℕ → ℕ
uuid4 i = 100

abbrev pub json_eq : PyValue → PyValue → Bool
json_eq x y = true

abbrev pub created : Db
created =
    after (commit_workflow_creation 10 1 (string "in") 1 (some "key") (some "print") registered)

abbrev pub populated : Db
populated = after (commit_task_population uuid4 10 2 (task_a ∷ []) created)

abbrev pub initialized : Db
initialized = after (commit_initialization_complete 10 1 3 populated)

abbrev pub ready : Db
ready = (commit_task_readiness 100 1 10 end 4 initialized).1

abbrev pub owned : Db
owned = after (commit_attempt_ownership 100 2 10 7 55 1000 5 ready)

abbrev pub started : Db
started = (commit_worker_execution_start 55 7 1 0 6 owned).1

abbrev pub succeeded : Db
succeeded = after (commit_worker_task_success json_eq 55 100 7 2 3 (string "out") 7 started)

pub created_lem :
    commit_workflow_creation 10 1 (string "in") 1 (some "key") (some "print") registered
    ≡ ok ((committed, 10), created)
unfolding commit_workflow_creation thaw_json select_first
created_lem = refl

populated_lem : commit_task_population uuid4 10 2 (task_a ∷ []) created ≡ ok (committed, populated)
unfolding commit_workflow_creation commit_task_population populate thaw_json select_first
populated_lem = refl

initialized_lem : commit_initialization_complete 10 1 3 populated ≡ ok (committed, initialized)
unfolding commit_workflow_creation commit_task_population commit_initialization_complete populate
    thaw_json select_first select_all task_keys key_names subscript update_where
initialized_lem = refl

pub owned_lem :
    commit_attempt_ownership 100 2 10 7 55 1000 5 ready ≡ ok ((committed, some 1), owned)
unfolding commit_workflow_creation commit_task_population commit_initialization_complete populate
    thaw_json select_first select_all task_keys key_names subscript update_where
    commit_task_readiness commit_attempt_ownership commit_worker_execution_start
    commit_worker_task_success
owned_lem = refl

succeeded_lem :
    commit_worker_task_success json_eq 55 100 7 2 3 (string "out") 7 started
    ≡ ok (committed, succeeded)
unfolding commit_workflow_creation commit_task_population commit_initialization_complete populate
    thaw_json select_first select_all task_keys key_names subscript update_where
    commit_task_readiness commit_attempt_ownership commit_worker_execution_start
    commit_worker_task_success
succeeded_lem = refl

pub Reach-ready : Reach registered ready
Reach-ready =
    then_step
      (then_step
        (then_step
          (then_step here (
            create_workflow 10 1 (string "in") 1 (some "key") (some "print") (committed, 10) created
              created_lem))
          (populate_tasks uuid4 10 2 (task_a ∷ []) committed populated populated_lem))
        (complete_initialization 10 1 3 committed initialized initialized_lem))
      (make_ready 100 1 10 end 4)

pub Reach-owned : Reach registered owned
Reach-owned =
    then_step Reach-ready (own_attempt 100 2 10 7 55 1000 5 (committed, some 1) owned owned_lem)

pub step_started : Step owned started
step_started = start_execution 55 7 1 0 6

pub Reach-started : Reach registered started
Reach-started = then_step Reach-owned step_started

pub step_succeeded : Step started succeeded
step_succeeded =
    report_success json_eq 55 100 7 2 3 (string "out") 7 committed succeeded succeeded_lem

pub Reach-succeeded : Reach registered succeeded
Reach-succeeded = then_step Reach-started step_succeeded

abbrev pub task_row : Option TaskExecutionRecord → TaskExecutionRecord
task_row none = new_task uuid4 10 0 0 task_a
task_row (some t) = t

abbrev pub ready_task : TaskExecutionRecord
ready_task = task_row (select_first (is_task 100) ready.tasks)

abbrev pub succeeded_task : TaskExecutionRecord
succeeded_task = task_row (select_first (is_task 100) succeeded.tasks)

pub ready_found : select_first (is_task 100) ready.tasks ≡ some ready_task
unfolding commit_workflow_creation commit_task_population commit_initialization_complete populate
    thaw_json select_first select_all task_keys key_names subscript update_where
    commit_task_readiness commit_attempt_ownership commit_worker_execution_start
    commit_worker_task_success
ready_found = refl

pub succeeded_found : select_first (is_task 100) succeeded.tasks ≡ some succeeded_task
unfolding commit_workflow_creation commit_task_population commit_initialization_complete populate
    thaw_json select_first select_all task_keys key_names subscript update_where
    commit_task_readiness commit_attempt_ownership commit_worker_execution_start
    commit_worker_task_success
succeeded_found = refl
