-- ===== src/Domain/Execution.antt =====
-- src/nexusflow/domain/execution.py: the entities and their transitions. Reasons of rejections are not
-- modelled; times are numbers.
use nexusflow.Base.{ℕ, String, Option, none, some, ltb, if◌then◌else◌}
use nexusflow.Domain.Json.{JsonValue, JsonObject}
use nexusflow.Domain.Failure.{FailureCause}
use nexusflow.Domain.WorkflowState
use nexusflow.Domain.WorkflowState.{WorkflowState}
use nexusflow.Domain.TaskState
use nexusflow.Domain.TaskState.{TaskState}
use nexusflow.Domain.AttemptState
use nexusflow.Domain.AttemptState.{AttemptState}

pub data OutputPresence : Type 0 where
  output_absent : OutputPresence
  output_committed : (value : JsonValue) → OutputPresence

pub data SemanticEvent : Type 0 where
  workflow_initialized workflow_started workflow_init_failed workflow_failing_begun
        workflow_cancelling_begun workflow_succeeded workflow_failed workflow_cancelled
        task_initial_runnable task_retry_runnable task_running_started task_succeeded
        task_retry_waiting task_failed task_drain_cancelled task_attempt_cancelled
        attempt_start_observed attempt_succeeded attempt_failed attempt_cancelled_settled :
      SemanticEvent

pub data TransitionResult (A : Type 0) : Type 0 where
  transition_applied : (entity : A) (event : SemanticEvent) → TransitionResult A
  transition_rejected : TransitionResult A
  transition_no_op : (entity : A) → TransitionResult A

pub record WorkflowExecution : Type 0 where
  pub id : ℕ
  pub definition_id : ℕ
  pub state : WorkflowState
  pub revision : ℕ
  pub workflow_input : JsonValue
  pub output : OutputPresence
  pub failure_cause : Option FailureCause
  pub created_at_utc : Option ℕ
  pub updated_at_utc : Option ℕ

pub record TaskExecution : Type 0 where
  pub id : ℕ
  pub workflow_execution_id : ℕ
  pub task_definition_id : String
  pub state : TaskState
  pub revision : ℕ
  pub stable_input : Option JsonObject
  pub output : OutputPresence
  pub max_attempts : ℕ
  pub next_attempt_ordinal : ℕ
  pub retry_ready_at_utc : Option ℕ
  pub terminal_failure_cause : Option FailureCause

pub record ExecutionAttempt : Type 0 where
  pub id : ℕ
  pub task_execution_id : ℕ
  pub attempt_ordinal : ℕ
  pub worker_session_id : ℕ
  pub state : AttemptState
  pub revision : ℕ
  pub start_deadline_utc : ℕ
  pub execution_timeout_utc : Option ℕ
  pub cancellation_deadline_utc : Option ℕ
  pub terminal_failure_cause : Option FailureCause

abbrev pub begin_running : WorkflowExecution → TransitionResult WorkflowExecution
begin_running wf =
    if WorkflowState.is_initializing wf.state
    then transition_applied (record wf { state = WorkflowState.running }) workflow_started
    else transition_rejected

abbrev pub complete_success : WorkflowExecution → JsonValue → TransitionResult WorkflowExecution
complete_success wf output_value =
    if WorkflowState.is_running wf.state
    then transition_applied
        (record wf {
          state = WorkflowState.succeeded;
          output = output_committed output_value;
          failure_cause = none;
        })
        workflow_succeeded
    else transition_rejected

abbrev pub mark_initially_runnable : TaskExecution → JsonObject → TransitionResult TaskExecution
mark_initially_runnable task resolved_input =
    if TaskState.is_pending task.state
    then transition_applied
        (record task {
          state = TaskState.runnable;
          stable_input = some resolved_input;
          retry_ready_at_utc = none;
        })
        task_initial_runnable
    else transition_rejected

abbrev pub mark_running : TaskExecution → TransitionResult TaskExecution
mark_running task =
    if TaskState.is_runnable task.state
    then transition_applied (record task { state = TaskState.running }) task_running_started
    else transition_rejected

abbrev pub mark_succeeded : TaskExecution → JsonValue → TransitionResult TaskExecution
mark_succeeded task output_value =
    if TaskState.is_running task.state
    then transition_applied
        (record task { state = TaskState.succeeded; output = output_committed output_value })
        task_succeeded
    else transition_rejected

abbrev pub observe_attempt_start : ExecutionAttempt → ℕ → TransitionResult ExecutionAttempt
observe_attempt_start attempt now_utc =
    if AttemptState.is_claimed attempt.state
    then (if ltb attempt.start_deadline_utc now_utc
        then transition_rejected
        else transition_applied (record attempt { state = AttemptState.running })
            attempt_start_observed)
    else transition_rejected

abbrev pub complete_attempt_success : ExecutionAttempt → TransitionResult ExecutionAttempt
complete_attempt_success attempt =
    if AttemptState.is_running attempt.state
    then transition_applied (record attempt { state = AttemptState.succeeded }) attempt_succeeded
    else transition_rejected
