-- ===== src/Store/Records.antt =====
-- src/nexusflow/persistence/orm.py: a row of each table. A UUID is a number, a timestamp is a number
-- of microseconds, a nullable column is an Option. History rows carry no id of their own.
use nexusflow.Base.{ℕ, String, Bool, Option, none, some, List, ◌==◌}
use nexusflow.Domain.Json.{PyValue, JsonObject, none_value, object, end, entry, thaw_json}
use nexusflow.Domain.Failure.{FailureCategory, FailureCause}
use nexusflow.Domain.WorkflowState.{WorkflowState}
use nexusflow.Domain.TaskState.{TaskState}
use nexusflow.Domain.AttemptState.{AttemptState}

-- The four columns failure_category … failure_details, which are written together.
pub record Failure : Type 0 where
  pub failure_category : FailureCategory
  pub failure_code : String
  pub failure_message : String
  pub failure_details : Option PyValue

pub record RegisteredDefinitionRecord : Type 0 where
  pub definition_id : ℕ
  pub workflow_name : String
  pub validated_iws : PyValue
  pub raw_yaml : Option String
  pub created_at_utc : ℕ

pub record WorkflowExecutionRecord : Type 0 where
  pub workflow_execution_id : ℕ
  pub definition_id : ℕ
  pub state : WorkflowState
  pub revision : ℕ
  pub workflow_input : PyValue
  pub has_output : Bool
  pub workflow_output : Option PyValue
  pub failure : Option Failure
  pub created_at_utc : ℕ
  pub updated_at_utc : ℕ

pub record TaskExecutionRecord : Type 0 where
  pub task_execution_id : ℕ
  pub workflow_execution_id : ℕ
  pub task_definition_id : String
  pub state : TaskState
  pub revision : ℕ
  pub has_input : Bool
  pub stable_input : Option PyValue
  pub has_output : Bool
  pub task_output : Option PyValue
  pub max_attempts : ℕ
  pub next_attempt_ordinal : ℕ
  pub retry_ready_at_utc : Option ℕ
  pub failure : Option Failure
  pub created_at_utc : ℕ
  pub updated_at_utc : ℕ

pub record ExecutionAttemptRecord : Type 0 where
  pub attempt_id : ℕ
  pub task_execution_id : ℕ
  pub attempt_ordinal : ℕ
  pub worker_session_id : ℕ
  pub state : AttemptState
  pub revision : ℕ
  pub start_deadline_utc : ℕ
  pub execution_timeout_utc : Option ℕ
  pub cancellation_deadline_utc : Option ℕ
  pub failure : Option Failure
  pub created_at_utc : ℕ
  pub updated_at_utc : ℕ

pub record HistoryEntryRecord : Type 0 where
  pub workflow_execution_id : ℕ
  pub task_execution_id : Option ℕ
  pub attempt_id : Option ℕ
  pub event_category : String
  pub occurred_at_utc : ℕ

pub data OperationType : Type 0 where
  register_definition start_execution : OperationType

pub record IdempotencyRecord : Type 0 where
  pub operation_type : OperationType
  pub idempotency_key : String
  pub request_fingerprint : String
  pub resource_id : ℕ
  pub created_at_utc : ℕ

pub record Db : Type 0 where
  pub definitions : List RegisteredDefinitionRecord
  pub workflows : List WorkflowExecutionRecord
  pub tasks : List TaskExecutionRecord
  pub attempts : List ExecutionAttemptRecord
  pub history : List HistoryEntryRecord
  pub idempotency : List IdempotencyRecord

-- JSONB(none_as_null=True): a Python None is stored as SQL NULL.
abbrev pub jsonb : PyValue → Option PyValue
jsonb none_value = none
jsonb v = some v

-- What a nullable JSONB column reads as in Python.
abbrev pub read_column : Option PyValue → PyValue
read_column none = none_value
read_column (some v) = v

-- `thaw_json(cause.details) if cause.details else None`: an empty mapping is falsy too.
abbrev pub stored_details : Option JsonObject → Option PyValue
stored_details none = none
stored_details (some end) = none
stored_details (some (entry k v fs)) = some (thaw_json (object (entry k v fs)))

-- The failure columns that the transactions write from a cause.
abbrev pub failure_columns : FailureCause → Failure
failure_columns cause = record {
  failure_category = cause.category;
  failure_code = cause.code;
  failure_message = cause.message;
  failure_details = stored_details cause.details;
}

-- task_execution_id == id
abbrev pub is_task : ℕ → TaskExecutionRecord → Bool
is_task id t = t.task_execution_id == id

-- workflow_execution_id == id
abbrev pub is_workflow : ℕ → WorkflowExecutionRecord → Bool
is_workflow id w = w.workflow_execution_id == id

-- attempt_id == id
abbrev pub is_attempt : ℕ → ExecutionAttemptRecord → Bool
is_attempt id a = a.attempt_id == id
