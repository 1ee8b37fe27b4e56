-- ===== src/Guarantees/Entities.antt =====
-- src/nexusflow/domain/execution.py and src/nexusflow/persistence/transactions.py: the rows and the
-- entities that they store, and what it is for an UPDATE of a row to agree with a transition.
pub mod Tasks
pub mod Attempts
pub mod Workflows
use nexusflow.Base.{
  ℕ, not, ◌+◌, ◌≡◌, ◌≢◌, refl, sym, ap, ◌∙◌, Bool, true, false, Option, none, some, ◌&&◌, ◌==◌, leb,
  ltb, arith, if◌then◌else◌,
}
use mathlib.Core.Option
use nexusflow.Domain.Json.{
  null, boolean, integer, number, string, array, JsonValue, JsonObject, object, PyValue, thaw_json,
}
use nexusflow.Domain.TaskState
use nexusflow.Domain.AttemptState
use nexusflow.Domain.Execution.{
  WorkflowExecution, OutputPresence, output_absent, output_committed, TransitionResult,
  transition_applied, transition_rejected, SemanticEvent, transition_rejected, SemanticEvent,
  TaskExecution, ExecutionAttempt, task_initial_runnable, task_running_started, task_succeeded,
  attempt_start_observed, attempt_succeeded, mark_initially_runnable, mark_running, mark_succeeded,
  observe_attempt_start, complete_attempt_success,
}
use nexusflow.Store.Records.{
  failure_columns, WorkflowExecutionRecord, TaskExecutionRecord, ExecutionAttemptRecord, jsonb,
  is_task, is_attempt,
}
use nexusflow.Transactions.Readiness.{readiness_where, readiness_set}
use nexusflow.Transactions.Ownership.{ownership_where, ownership_set, start_where, start_set}
use nexusflow.Transactions.Success.{
  success_task_where, success_task_set, success_attempt_where, success_attempt_set,
}

-- The columns of an output and of an input. A committed JSON null is the JSONB value null, which is
-- not SQL NULL.
abbrev pub has_value : OutputPresence → Bool
has_value output_absent = false
has_value (output_committed v) = true

abbrev pub stored_output : OutputPresence → Option PyValue
stored_output output_absent = none
stored_output (output_committed v) = some (thaw_json v)

abbrev pub has_object : Option JsonObject → Bool
has_object none = false
has_object (some x) = true

-- The row stores the entity. The failure, which no transition of a task writes, is left out.
pub record Stores (t : TaskExecutionRecord) (e : TaskExecution) : Type 0 where
  pub id : t.task_execution_id ≡ e.id
  pub workflow : t.workflow_execution_id ≡ e.workflow_execution_id
  pub definition : t.task_definition_id ≡ e.task_definition_id
  pub state : t.state ≡ e.state
  pub revision : t.revision ≡ e.revision
  pub has_input : t.has_input ≡ has_object e.stable_input
  pub input : t.stable_input ≡ Option.map (λ x. thaw_json (object x)) e.stable_input
  pub has_output : t.has_output ≡ has_value e.output
  pub output : t.task_output ≡ stored_output e.output
  pub max_attempts : t.max_attempts ≡ e.max_attempts
  pub ordinal : t.next_attempt_ordinal ≡ e.next_attempt_ordinal
  pub retry : t.retry_ready_at_utc ≡ e.retry_ready_at_utc

-- The same at the next revision, and with the next ordinal where an attempt was begun.
abbrev pub next_revision : TaskExecution → TaskExecution
next_revision e = record e { revision = e.revision + 1 }

abbrev pub next_attempt : TaskExecution → TaskExecution
next_attempt e = record e {
  revision = e.revision + 1;
  next_attempt_ordinal = e.next_attempt_ordinal + 1;
}

-- The row of an attempt stores the entity. The failure is left out.
pub record StoresAttempt (a : ExecutionAttemptRecord) (e : ExecutionAttempt) : Type 0 where
  pub id : a.attempt_id ≡ e.id
  pub task : a.task_execution_id ≡ e.task_execution_id
  pub ordinal : a.attempt_ordinal ≡ e.attempt_ordinal
  pub session : a.worker_session_id ≡ e.worker_session_id
  pub state : a.state ≡ e.state
  pub revision : a.revision ≡ e.revision
  pub start : a.start_deadline_utc ≡ e.start_deadline_utc
  pub timeout : a.execution_timeout_utc ≡ e.execution_timeout_utc
  pub cancellation : a.cancellation_deadline_utc ≡ e.cancellation_deadline_utc

abbrev pub next_attempt_revision : ExecutionAttempt → ExecutionAttempt
next_attempt_revision e = record e { revision = e.revision + 1 }

-- The row of a workflow stores the entity. The times are left out.
pub record StoresWorkflow (w : WorkflowExecutionRecord) (e : WorkflowExecution) : Type 0 where
  pub id : w.workflow_execution_id ≡ e.id
  pub definition : w.definition_id ≡ e.definition_id
  pub state : w.state ≡ e.state
  pub revision : w.revision ≡ e.revision
  pub input : w.workflow_input ≡ thaw_json e.workflow_input
  pub has_output : w.has_output ≡ has_value e.output
  pub output : w.workflow_output ≡ stored_output e.output
  pub failure : w.failure ≡ Option.map failure_columns e.failure_cause

abbrev pub next_workflow_revision : WorkflowExecution → WorkflowExecution
next_workflow_revision e = record e { revision = e.revision + 1 }

-- The column that a transaction writes for an output, where that is not JSON null.
pub column_of :
    (output_value : JsonValue)
    → output_value ≢ null
    → jsonb (thaw_json output_value) ≡ some (thaw_json output_value)
unfolding thaw_json
column_of null not_null = absurd (not_null refl)
column_of (boolean b) not_null = refl
column_of (integer z) not_null = refl
column_of (number bits) not_null = refl
column_of (string s) not_null = refl
column_of (array xs) not_null = refl
column_of (object fs) not_null = refl

-- Where the transition is applied, the WHERE clause is found true exactly of the named row, and the new
-- row stores the new entity; where it is not, the WHERE clause is not found true.
abbrev pub Agrees : {A : Type 0} → (A → Type 0) → Bool → Bool → TransitionResult A → Type 0
Agrees stored found named (transition_applied e event) = (found ≡ named) × stored e
Agrees stored found named _ = found ≡ false

named_applied : (b named : Bool) → b ≡ true → (named && b) ≡ named
named_applied b true at = at
named_applied b false at = refl

named_rejected : (b named : Bool) → b ≡ false → (named && b) ≡ false
named_rejected b true at = at
named_rejected b false at = refl

-- The guard of a transition as the last conjunct of a WHERE clause.
pub guarded :
    {A : Type 0} (stored : A → Type 0) (b found named : Bool) (entity : A) (event : SemanticEvent)
    → found ≡ (named && b)
    → stored entity
    → Agrees stored found named (if b then transition_applied entity event else transition_rejected)
guarded stored true found named entity event same now_stored =
    (same ∙ named_applied true named refl, now_stored)
guarded stored false found named entity event same now_stored =
    same ∙ named_rejected false named refl

-- The same where the transition is rejected after a deadline as well.
pub guarded_late :
    {A : Type 0} (stored : A → Type 0) (b late found named : Bool) (entity : A)
    (event : SemanticEvent)
    → found ≡ (named && (b && not late))
    → stored entity
    → Agrees stored found named (
        if b
        then (if late then transition_rejected else transition_applied entity event)
        else transition_rejected)
guarded_late stored true true found named entity event same now_stored =
    same ∙ named_rejected false named refl
guarded_late stored true false found named entity event same now_stored =
    (same ∙ named_applied true named refl, now_stored)
guarded_late stored false late found named entity event same now_stored =
    same ∙ named_rejected false named refl

pub state_order : (a b c : Bool) → (a && b && c) ≡ ((a && c) && b)
state_order a b c = ground arith

pub guard_order : (a b c d : Bool) → (a && b && c && d) ≡ ((a && b && d) && c)
guard_order a b c d = ground arith

pub callback_order : (a b c d e : Bool) → (a && b && c && d && e) ≡ ((a && b && c && e) && d)
callback_order a b c d e = ground arith

pub late_order :
    (a b c d : Bool) (now deadline : ℕ)
    → (a && b && c && leb now deadline && d) ≡ ((a && b && d) && (c && not (ltb deadline now)))
late_order a b c d now deadline = ground arith
