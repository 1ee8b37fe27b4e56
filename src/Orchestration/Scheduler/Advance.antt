-- ===== src/Orchestration/Scheduler/Advance.antt =====
-- src/nexusflow/orchestration/scheduler.py: advance_workflow and the methods that only it calls.
use mathlib.Core.List.{reverse}
use nexusflow.Base.{
  ℕ, String, ◌+◌, Bool, ◌&&◌, Option, none, some, List, [], ◌∷◌, Result, ok, length, every, ◌==◌,
  str_eq, if◌then◌else◌,
}
use nexusflow.Base.{◌>>=◌ as and_then}
use nexusflow.Domain.Json.{
  PyValue, none_value, py_dict, mapping_proxy, no_fields, JsonValue, JsonObject, null, freeze_json,
}
use nexusflow.Domain.Identifiers.{task_definition_id}
use nexusflow.Domain.Spec.{TaskDefinition, ValidatedWorkflowSpec}
use nexusflow.Domain.Readiness.{
  DependencyStateSnapshot, TaskReadinessSnapshot, ReadinessDecision, get, evaluate_task_readiness,
  resolve_workflow_outputs,
}
use nexusflow.Domain.WorkflowState
use nexusflow.Domain.TaskState
use nexusflow.Definition.Codec.Read.{deserialize_validated_spec}
use nexusflow.Store.Table.{select_first, select_all}
use nexusflow.Store.Records.{
  RegisteredDefinitionRecord, WorkflowExecutionRecord, TaskExecutionRecord, read_column,
}
use nexusflow.Transactions.Outcome.{CommitStatus, committed, is_definition}
use nexusflow.Transactions.Readiness.{is_due, commit_task_readiness, commit_retry_ready}
use nexusflow.Transactions.Ownership.{commit_attempt_ownership}
use nexusflow.Transactions.Settlement.{commit_workflow_success}
use nexusflow.Orchestration.Registry.{WorkerSessionSnapshot}
use nexusflow.Orchestration.Pass.{
  Pass, Setting, assignment, ◌>>=◌, ◌>>◌, lift, done, for_each, look, transact, transact_or_raise,
  now, generate, find_worker, queue_delivery,
}
use nexusflow.Orchestration.Scheduler.Drain.{tasks_of, workflow_row, drain_workflow}

-- freeze_json(row.task_output) if row.has_output else None
abbrev pub frozen_output : TaskExecutionRecord → Result JsonValue
frozen_output row = if row.has_output then freeze_json (read_column row.task_output) else ok null

-- tasks_by_def_id.get(id): of two rows with one id, the later is in the dict.
abbrev pub task_by_def_id : String → List TaskExecutionRecord → Option TaskExecutionRecord
task_by_def_id id task_rows = select_first (λ t. str_eq t.task_definition_id id) (reverse task_rows)

abbrev pub dependency_snapshot : TaskExecutionRecord → JsonValue → DependencyStateSnapshot
dependency_snapshot row output = record {
  state = row.state;
  has_output = row.has_output;
  output_value = output;
}

abbrev pub Snapshots : Type 0
Snapshots = List (String × DependencyStateSnapshot)

abbrev with_snapshot : String → DependencyStateSnapshot → Option Snapshots → Option Snapshots
with_snapshot dep_id snapshot none = none
with_snapshot dep_id snapshot (some later) = some ((dep_id, snapshot) ∷ later)

-- The loop over task_def.dependencies, which ends with `none` at a dependency without a row.
abbrev pub dependency_snapshots : List TaskExecutionRecord → List String → Result (Option Snapshots)
dependency_snapshots task_rows [] = ok (some [])
dependency_snapshots task_rows (dep_id ∷ dep_ids) =
    let rest = dependency_snapshots task_rows dep_ids in
    elim (task_by_def_id dep_id task_rows) [
      | none ↦ ok none
      | some row ↦ and_then (frozen_output row) (λ output.
          and_then rest (λ later. ok (with_snapshot dep_id (dependency_snapshot row output) later)))
    ]

-- task_outputs, of which a later entry of a dict replaces an earlier one of the same key
abbrev pub task_outputs : List TaskExecutionRecord → Result (List (String × JsonValue))
task_outputs [] = ok []
task_outputs (row ∷ rows) = and_then (task_definition_id row.task_definition_id) (λ id.
    and_then (frozen_output row)
      (λ output. and_then (task_outputs rows) (λ rest. ok ((id, output) ∷ rest))))

-- value or {}, of a column that holds an object or NULL
abbrev pub or_empty : PyValue → PyValue
or_empty none_value = py_dict no_fields
or_empty (mapping_proxy no_fields) = py_dict no_fields
or_empty v = v

abbrev pub snapshot_of :
    WorkflowExecutionRecord
    → TaskExecutionRecord
    → TaskDefinition
    → Snapshots
    → JsonValue
    → TaskReadinessSnapshot
snapshot_of wf t task_def dep_snapshots workflow_input = record {
  workflow_state = wf.state;
  workflow_input = workflow_input;
  task_state = t.state;
  task_definition = task_def;
  upstream_dependencies = dep_snapshots;
}

abbrev pub all_succeeded : ValidatedWorkflowSpec → List TaskExecutionRecord → Bool
all_succeeded spec task_rows =
    length task_rows == length spec.tasks && every (λ t. TaskState.is_succeeded t.state) task_rows

module _ (setting : Setting) (workflow_id : ℕ) where
  unfoldable pub try_succeed_workflow :
      WorkflowExecutionRecord → ValidatedWorkflowSpec → List TaskExecutionRecord → Pass (Unit {0})
  try_succeed_workflow wf spec task_rows = do
    outputs ← lift (task_outputs task_rows)
    resolved_output ← lift (resolve_workflow_outputs spec.output_bindings (reverse outputs))
    now_utc ← now setting
    transact_or_raise setting
        (commit_workflow_success workflow_id wf.revision resolved_output now_utc)
    done

  unfoldable pub promote_due : ℕ → TaskExecutionRecord → Pass (Unit {0})
  promote_due now_utc t =
      if TaskState.is_retry_wait t.state && is_due now_utc t.retry_ready_at_utc
      then transact setting
          (λ db. (tt, (commit_retry_ready t.task_execution_id t.revision workflow_id now_utc db).1))
      else done

  unfoldable pub promote_with : TaskExecutionRecord → Option JsonObject → Pass (Unit {0})
  promote_with t none = done
  promote_with t (some resolved_input) = do
    now_utc ← now setting
    transact setting (λ db. (
      tt,
      (commit_task_readiness t.task_execution_id t.revision workflow_id resolved_input now_utc
          db).1,
    ))

  unfoldable pub evaluate_snapshots :
      WorkflowExecutionRecord
      → TaskExecutionRecord
      → TaskDefinition
      → Option Snapshots
      → Pass (Unit {0})
  evaluate_snapshots wf t task_def none = done
  evaluate_snapshots wf t task_def (some dep_snapshots) = do
    workflow_input ← lift (freeze_json wf.workflow_input)
    let decision : ReadinessDecision =
        evaluate_task_readiness (snapshot_of wf t task_def dep_snapshots workflow_input)
    if decision.ready then promote_with t decision.resolved_input else done

  unfoldable pub evaluate_definition :
      WorkflowExecutionRecord
      → List TaskExecutionRecord
      → TaskExecutionRecord
      → Option TaskDefinition
      → Pass (Unit {0})
  evaluate_definition wf task_rows t none = done
  evaluate_definition wf task_rows t (some task_def) =
      lift (dependency_snapshots task_rows task_def.dependencies)
      >>= evaluate_snapshots wf t task_def

  unfoldable pub evaluate_and_promote_task :
      WorkflowExecutionRecord
      → ValidatedWorkflowSpec
      → List TaskExecutionRecord
      → TaskExecutionRecord
      → Pass (Unit {0})
  evaluate_and_promote_task wf spec task_rows t =
      lift (task_definition_id t.task_definition_id) >>= λ id.
      evaluate_definition wf task_rows t (get id spec.tasks)

  -- The body of the loop over the PENDING tasks.
  unfoldable pub evaluate_pending :
      WorkflowExecutionRecord
      → ValidatedWorkflowSpec
      → List TaskExecutionRecord
      → TaskExecutionRecord
      → Pass (Unit {0})
  evaluate_pending wf spec task_rows t =
      if TaskState.is_pending t.state then evaluate_and_promote_task wf spec task_rows t else done

  -- The hint to the worker, where the ownership was committed.
  unfoldable pub hint :
      TaskExecutionRecord
      → TaskDefinition
      → WorkerSessionSnapshot
      → ℕ
      → ℕ
      → CommitStatus × Option ℕ
      → Pass (Unit {0})
  hint t task_def worker attempt_id start_deadline (committed, some ordinal) =
      queue_delivery setting worker.session_id (
        assignment attempt_id ordinal t.task_execution_id workflow_id worker.session_id
          task_def.activity_type (or_empty (read_column t.stable_input)) start_deadline)
  hint t task_def worker attempt_id start_deadline _ = done

  unfoldable pub dispatch_to :
      TaskExecutionRecord → TaskDefinition → Option WorkerSessionSnapshot → Pass (Unit {0})
  dispatch_to t task_def none = done
  dispatch_to t task_def (some worker) = do
    now_utc ← now setting
    attempt_id ← generate setting
    outcome ← transact_or_raise setting (
        commit_attempt_ownership t.task_execution_id t.revision workflow_id worker.session_id
          attempt_id (now_utc + setting.start_deadline) now_utc)
    hint t task_def worker attempt_id (now_utc + setting.start_deadline) outcome

  unfoldable pub dispatch_definition : TaskExecutionRecord → Option TaskDefinition → Pass (Unit {0})
  dispatch_definition t none = done
  dispatch_definition t (some task_def) =
      find_worker setting task_def.activity_type >>= dispatch_to t task_def

  unfoldable pub dispatch_task : ValidatedWorkflowSpec → TaskExecutionRecord → Pass (Unit {0})
  dispatch_task spec t = lift (task_definition_id t.task_definition_id) >>= λ id.
      dispatch_definition t (get id spec.tasks)

  unfoldable pub dispatch_runnable_tasks : ValidatedWorkflowSpec → Pass (Unit {0})
  dispatch_runnable_tasks spec = do
    runnable_tasks ← look setting (λ db.
        select_all (λ t. t.workflow_execution_id == workflow_id && TaskState.is_runnable t.state)
          db.tasks)
    for_each runnable_tasks (dispatch_task spec)

  unfoldable pub advance_tasks :
      WorkflowExecutionRecord → ValidatedWorkflowSpec → List TaskExecutionRecord → Pass (Unit {0})
  advance_tasks wf spec task_rows =
      if all_succeeded spec task_rows then try_succeed_workflow wf spec task_rows else (do
        now_utc ← now setting
        for_each task_rows (promote_due now_utc)
        for_each task_rows (evaluate_pending wf spec task_rows)
        dispatch_runnable_tasks spec)

  unfoldable pub advance_definition :
      WorkflowExecutionRecord → Option RegisteredDefinitionRecord → Pass (Unit {0})
  advance_definition wf none = done
  advance_definition wf (some definition) = do
    spec ← lift (deserialize_validated_spec definition.validated_iws)
    task_rows ← look setting (tasks_of workflow_id)
    advance_tasks wf spec task_rows

  unfoldable pub advance_row : Option WorkflowExecutionRecord → Pass (Unit {0})
  advance_row none = done
  advance_row (some wf) =
      if WorkflowState.is_draining wf.state
      then drain_workflow setting workflow_id
      else if WorkflowState.is_running wf.state
      then look setting (λ db. select_first (is_definition wf.definition_id) db.definitions)
        >>= advance_definition wf
      else done

  unfoldable pub advance_workflow : Pass (Unit {0})
  advance_workflow = look setting (workflow_row workflow_id) >>= advance_row
