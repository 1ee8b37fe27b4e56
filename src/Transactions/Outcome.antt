-- ===== src/Transactions/Outcome.antt =====
-- src/nexusflow/persistence/transactions.py: CommitStatus, and the statements that several
-- transactions share. Outcome messages and event payloads are not modelled.
use mathlib.Core.Option
use nexusflow.Base.{
  ℕ, String, Bool, false, Option, none, some, List, [], ◌∷◌, ◌++◌, Result, ok, err, type_error,
  key_error, str_eq, if◌then◌else◌, ◌>>=◌, ◌==◌,
}
use nexusflow.Domain.Json.{
  PyValue, py_dict, mapping_proxy, PyFields, no_fields, field, text, other_key,
}
use nexusflow.Domain.WorkflowState.{WorkflowState}
use nexusflow.Store.Table.{update_where, select_first}
use nexusflow.Store.Records.{
  Db, RegisteredDefinitionRecord, WorkflowExecutionRecord, TaskExecutionRecord,
  ExecutionAttemptRecord, HistoryEntryRecord, is_workflow, is_task,
}

pub data CommitStatus : Type 0 where
  committed precondition_failed occ_conflict unknown_outcome : CommitStatus

-- UPDATE workflow_executions SET f WHERE p. The first part is a row that p finds, as it was:
-- `none` stands for a rowcount of 0, and for a RETURNING clause that returns no row.
abbrev pub update_workflows :
    (WorkflowExecutionRecord → Bool)
    → (WorkflowExecutionRecord → WorkflowExecutionRecord)
    → Db
    → Option WorkflowExecutionRecord × Db
update_workflows p f db =
    (select_first p db.workflows, record db { workflows = update_where p f db.workflows })

-- UPDATE task_executions SET f WHERE p
abbrev pub update_tasks :
    (TaskExecutionRecord → Bool)
    → (TaskExecutionRecord → TaskExecutionRecord)
    → Db
    → Option TaskExecutionRecord × Db
update_tasks p f db = (select_first p db.tasks, record db { tasks = update_where p f db.tasks })

-- UPDATE execution_attempts SET f WHERE p
abbrev pub update_attempts :
    (ExecutionAttemptRecord → Bool)
    → (ExecutionAttemptRecord → ExecutionAttemptRecord)
    → Db
    → Option ExecutionAttemptRecord × Db
update_attempts p f db =
    (select_first p db.attempts, record db { attempts = update_where p f db.attempts })

-- session.add(HistoryEntryRecord(…))
abbrev pub add_history : HistoryEntryRecord → Db → Db
add_history entry db = record db { history = db.history ++ entry ∷ [] }

abbrev pub history_entry : ℕ → Option ℕ → Option ℕ → String → ℕ → HistoryEntryRecord
history_entry workflow task attempt category now = record {
  workflow_execution_id = workflow;
  task_execution_id = task;
  attempt_id = attempt;
  event_category = category;
  occurred_at_utc = now;
}

-- SELECT state FROM workflow_executions WHERE workflow_execution_id = id
abbrev pub workflow_state : ℕ → Db → Option WorkflowState
workflow_state id db = Option.map (λ w. w.state) (select_first (is_workflow id) db.workflows)

-- SELECT workflow_execution_id FROM task_executions WHERE task_execution_id = id
abbrev pub task_workflow : ℕ → Db → Option ℕ
task_workflow id db = Option.map (λ t. t.workflow_execution_id) (select_first (is_task id) db.tasks)

-- A test of a state that was read; a missing row passes no test.
abbrev pub state_in : (WorkflowState → Bool) → Option WorkflowState → Bool
state_in p none = false
state_in p (some s) = p s

-- definition_id == id
abbrev pub is_definition : ℕ → RegisteredDefinitionRecord → Bool
is_definition id d = d.definition_id == id

-- Keys of a JSONB object are strings; no other key can have been stored.
unfoldable pub key_names : PyFields → Result (List String)
key_names no_fields = ok []
key_names (field (text k) v fs) = do ks ← key_names fs; ok (k ∷ ks)
key_names (field other_key v fs) = err type_error

-- d[k], on the fields of a mapping
unfoldable pub subscript : String → PyFields → Result PyValue
subscript k no_fields = err key_error
subscript k (field (text j) v fs) = if str_eq j k then ok v else subscript k fs
subscript k (field other_key v fs) = subscript k fs

abbrev as_fields : PyValue → Result PyFields
as_fields (py_dict fs) = ok fs
as_fields (mapping_proxy fs) = ok fs
as_fields _ = err type_error

-- set(def_row["tasks"].keys())
unfoldable pub task_keys : PyValue → Result (List String)
unfolding key_names subscript
task_keys iws = do
  root ← as_fields iws
  tasks ← subscript "tasks" root
  fields ← as_fields tasks
  key_names fields

-- The end of most transactions: no row updated is a conflict, which leaves the database as the
-- statements so far left it; else the history entry is added.
abbrev pub finish :
    {A : Type 0} → Option A × Db → CommitStatus → (A → HistoryEntryRecord) → CommitStatus × Db
finish (none, db) conflict entry = (conflict, db)
finish (some row, db) conflict entry = (committed, add_history (entry row) db)
