-- ===== src/Transactions/Creation.antt =====
-- src/nexusflow/persistence/transactions.py: a workflow is created, once for an idempotency key, and
-- its tasks are populated.
use nexusflow.Base.{
  ℕ, String, ◌+◌, Bool, true, false, not, ◌&&◌, ◌||◌, Option, none, some, List, [], ◌∷◌, ◌++◌,
  Result, ok, err, value_error, integrity_error, any, ◌==◌, str_eq, if◌then◌else◌, ◌>>=◌,
}
use nexusflow.Domain.Json.{PyValue, JsonValue, thaw_json}
use nexusflow.Domain.Spec.{TaskDefinition}
use nexusflow.Domain.WorkflowState
use nexusflow.Domain.TaskState
use nexusflow.Store.Table.{select_first}
use nexusflow.Store.Records.{
  Db, WorkflowExecutionRecord, TaskExecutionRecord, IdempotencyRecord, OperationType,
  start_execution, register_definition, is_workflow, is_task, jsonb,
}
use nexusflow.Transactions.Outcome.{
  CommitStatus, committed, precondition_failed, add_history, history_entry, is_definition,
  workflow_state, state_in,
}

abbrev pub same_operation : OperationType → OperationType → Bool
same_operation register_definition register_definition = true
same_operation start_execution start_execution = true
same_operation _ _ = false

-- The primary key of idempotency_records.
abbrev pub is_key : OperationType → String → IdempotencyRecord → Bool
is_key operation key r = same_operation r.operation_type operation && str_eq r.idempotency_key key

module _ (execution_id definition_id : ℕ) (workflow_input : JsonValue) (now : ℕ) where
  abbrev pub new_workflow : PyValue → WorkflowExecutionRecord
  new_workflow input = record {
    workflow_execution_id = execution_id;
    definition_id = definition_id;
    state = WorkflowState.initializing;
    revision = 1;
    workflow_input = input;
    has_output = false;
    workflow_output = none;
    failure = none;
    created_at_utc = now;
    updated_at_utc = now;
  }

  -- The insertion of the workflow and of its history entry. The row must have a new primary key, a
  -- definition that exists, and an input column that is not NULL.
  abbrev pub insert_workflow : Option PyValue → Db → Result ((CommitStatus × ℕ) × Db)
  insert_workflow none db = err integrity_error
  insert_workflow (some input) db =
      if any (is_workflow execution_id) db.workflows
        || not (any (is_definition definition_id) db.definitions)
      then err integrity_error
      else ok (
        (committed, execution_id),
        add_history (history_entry execution_id none none "WorkflowExecutionCreated" now)
            (record db { workflows = db.workflows ++ new_workflow input ∷ [] }),
      )

  abbrev pub creation : Db → Result ((CommitStatus × ℕ) × Db)
  creation db = insert_workflow (jsonb (thaw_json workflow_input)) db

  abbrev pub new_key : String → String → IdempotencyRecord
  new_key key fingerprint = record {
    operation_type = start_execution;
    idempotency_key = key;
    request_fingerprint = fingerprint;
    resource_id = execution_id;
    created_at_utc = now;
  }

  -- INSERT … ON CONFLICT DO NOTHING of the key, and what follows where it was there before.
  abbrev pub creation_with_key :
      Option IdempotencyRecord → String → String → Db → Result ((CommitStatus × ℕ) × Db)
  creation_with_key none key fingerprint db =
      creation (record db { idempotency = db.idempotency ++ new_key key fingerprint ∷ [] })
  creation_with_key (some existing) key fingerprint db =
      if str_eq existing.request_fingerprint fingerprint
      then ok ((committed, existing.resource_id), db)
      else ok ((precondition_failed, execution_id), db)

  unfoldable pub commit_workflow_creation :
      Option String → Option String → Db → Result ((CommitStatus × ℕ) × Db)
  commit_workflow_creation none fingerprint db = creation db
  commit_workflow_creation (some key) none db = err value_error
  commit_workflow_creation (some key) (some fingerprint) db =
      creation_with_key (select_first (is_key start_execution key) db.idempotency) key fingerprint
        db

-- `uuid4 i` is the id that the i-th call of uuid4 draws.
module _ (uuid4 : ℕ → ℕ) (workflow_id now : ℕ) where
  abbrev pub new_task : ℕ → TaskDefinition → TaskExecutionRecord
  new_task i task_def = record {
    task_execution_id = uuid4 i;
    workflow_execution_id = workflow_id;
    task_definition_id = task_def.id;
    state = TaskState.pending;
    revision = 1;
    has_input = false;
    stable_input = none;
    has_output = false;
    task_output = none;
    max_attempts = task_def.max_attempts;
    next_attempt_ordinal = 1;
    retry_ready_at_utc = none;
    failure = none;
    created_at_utc = now;
    updated_at_utc = now;
  }

  -- uq_task_definition_per_workflow
  abbrev pub is_member : TaskDefinition → TaskExecutionRecord → Bool
  is_member task_def t =
      t.workflow_execution_id == workflow_id && str_eq t.task_definition_id task_def.id

  -- INSERT … ON CONFLICT DO NOTHING: chk_task_max_attempts, the conflict, the primary key.
  abbrev pub insert_task :
      ℕ → TaskDefinition → List TaskExecutionRecord → Result (List TaskExecutionRecord)
  insert_task i task_def tasks =
      if task_def.max_attempts == 0
      then err integrity_error
      else if any (is_member task_def) tasks
      then ok tasks
      else if any (is_task (uuid4 i)) tasks
      then err integrity_error
      else ok (tasks ++ new_task i task_def ∷ [])

  unfoldable pub populate :
      ℕ → List TaskDefinition → List TaskExecutionRecord → Result (List TaskExecutionRecord)
  populate i [] tasks = ok tasks
  populate i (task_def ∷ task_defs) tasks =
      insert_task i task_def tasks >>= populate (i + 1) task_defs

  unfoldable pub commit_task_population : List TaskDefinition → Db → Result (CommitStatus × Db)
  unfolding populate
  commit_task_population task_defs db =
      if state_in WorkflowState.is_initializing (workflow_state workflow_id db)
      then (do
        tasks ← populate 0 task_defs db.tasks
        ok (
          committed,
          add_history (history_entry workflow_id none none "TaskPopulationEstablished" now)
              (record db { tasks = tasks }),
        ))
      else ok (precondition_failed, db)
