-- ===== src/Orchestration/Scheduler/Drain.antt =====
-- src/nexusflow/orchestration/scheduler.py: drain_workflow.
use nexusflow.Base.{
  ℕ, ◌+◌, ◌&&◌, Bool, Option, none, some, List, every, any, ◌==◌, leb, if◌then◌else◌,
}
use nexusflow.Domain.WorkflowState
use nexusflow.Domain.WorkflowState.{WorkflowState}
use nexusflow.Domain.TaskState
use nexusflow.Domain.AttemptState
use nexusflow.Store.Table.{select_first, select_all}
use nexusflow.Store.Records.{
  Db, WorkflowExecutionRecord, TaskExecutionRecord, ExecutionAttemptRecord, is_workflow, is_task,
}
use nexusflow.Transactions.Drain.{
  commit_drain_task_cancellation, commit_internal_cancellation_deadline,
  commit_cancellation_deadline,
}
use nexusflow.Transactions.Settlement.{commit_workflow_failure, commit_workflow_cancellation}
use nexusflow.Orchestration.Pass.{
  Pass, Setting, cancel_command, ◌>>=◌, ◌>>◌, done, for_each, look, transact, transact_or_raise,
  now, queue_delivery,
}

-- SELECT … FROM task_executions WHERE workflow_execution_id = id
abbrev pub tasks_of : ℕ → Db → List TaskExecutionRecord
tasks_of workflow_id db = select_all (λ t. t.workflow_execution_id == workflow_id) db.tasks

-- SELECT … FROM workflow_executions WHERE workflow_execution_id = id
abbrev pub workflow_row : ℕ → Db → Option WorkflowExecutionRecord
workflow_row workflow_id db = select_first (is_workflow workflow_id) db.workflows

abbrev pub joins : ExecutionAttemptRecord → TaskExecutionRecord → Bool
joins a t = is_task a.task_execution_id t

abbrev pub is_active_attempt_of : ℕ → Db → ExecutionAttemptRecord → Bool
is_active_attempt_of workflow_id db a =
    AttemptState.is_active a.state && any (joins a) (tasks_of workflow_id db)

-- timedelta(seconds=10.0)
abbrev pub cancellation_period : ℕ
cancellation_period = 10000000

module _ (setting : Setting) (workflow_id : ℕ) where
  unfoldable pub cancel_unstarted : ℕ → TaskExecutionRecord → Pass (Unit {0})
  cancel_unstarted now_utc t =
      if TaskState.is_unstarted t.state
      then transact setting
          (λ db. (tt, (commit_drain_task_cancellation t.task_execution_id t.revision now_utc db).1))
      else done

  unfoldable pub expire_attempt :
      ℕ → ExecutionAttemptRecord → Option TaskExecutionRecord → Pass (Unit {0})
  expire_attempt now_utc a none = done
  expire_attempt now_utc a (some task) =
      if TaskState.is_running task.state
      then transact setting (λ db. (
        tt,
        (commit_internal_cancellation_deadline a.attempt_id a.revision a.task_execution_id
            task.revision now_utc db).1,
      ))
      else done

  -- The deadline that is materialized, and the hint to the worker.
  unfoldable pub command_cancellation : WorkflowState → ℕ → ExecutionAttemptRecord → Pass (Unit {0})
  command_cancellation state now_utc a =
      transact setting
        (λ db. (tt, commit_cancellation_deadline a.attempt_id (now_utc + cancellation_period) db))
      >> queue_delivery setting a.worker_session_id
          (cancel_command a.attempt_id a.worker_session_id a.task_execution_id workflow_id state)

  unfoldable pub cancel_active :
      WorkflowState → ℕ → ExecutionAttemptRecord → Option ℕ → Pass (Unit {0})
  cancel_active state now_utc a none = command_cancellation state now_utc a
  cancel_active state now_utc a (some deadline) =
      if leb deadline now_utc
      then look setting (λ db. select_first (is_task a.task_execution_id) db.tasks)
        >>= expire_attempt now_utc a
      else done

  unfoldable pub settle_row : ℕ → Option WorkflowExecutionRecord → Pass (Unit {0})
  settle_row now_utc none = done
  settle_row now_utc (some current_wf) =
      if WorkflowState.is_failing current_wf.state
      then transact_or_raise setting
          (commit_workflow_failure workflow_id current_wf.revision now_utc)
        >> done
      else if WorkflowState.is_cancelling current_wf.state
      then transact_or_raise setting
          (commit_workflow_cancellation workflow_id current_wf.revision now_utc)
        >> done
      else done

  unfoldable pub settle_terminal : ℕ → List TaskExecutionRecord → Pass (Unit {0})
  settle_terminal now_utc updated_tasks =
      if every (λ t. TaskState.is_terminal t.state) updated_tasks
      then look setting (workflow_row workflow_id) >>= settle_row now_utc
      else done

  -- The active attempts, and the end of the workflow.
  unfoldable pub drain_attempts : WorkflowState → ℕ → Pass (Unit {0})
  drain_attempts state now_utc = do
    active_attempts ←
        look setting (λ db. select_all (is_active_attempt_of workflow_id db) db.attempts)
    for_each active_attempts (λ a. cancel_active state now_utc a a.cancellation_deadline_utc)
    updated_tasks ← look setting (tasks_of workflow_id)
    settle_terminal now_utc updated_tasks

  -- The pass over a workflow in one of the draining states.
  unfoldable pub drain_tasks : WorkflowState → Pass (Unit {0})
  drain_tasks state = do
    task_rows ← look setting (tasks_of workflow_id)
    now_utc ← now setting
    for_each task_rows (cancel_unstarted now_utc)
    drain_attempts state now_utc

  unfoldable pub drain_row : Option WorkflowExecutionRecord → Pass (Unit {0})
  drain_row none = done
  drain_row (some wf) = if WorkflowState.is_draining wf.state then drain_tasks wf.state else done

  unfoldable pub drain_workflow : Pass (Unit {0})
  drain_workflow = look setting (workflow_row workflow_id) >>= drain_row
