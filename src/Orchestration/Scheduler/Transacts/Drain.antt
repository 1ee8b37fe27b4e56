-- ===== src/Orchestration/Scheduler/Transacts/Drain.antt =====
-- src/nexusflow/orchestration/scheduler.py: drain_workflow goes by transactions.
use nexusflow.Base.{ℕ, ◌+◌, Option, none, some, List}
use nexusflow.Domain.WorkflowState
use nexusflow.Domain.WorkflowState.{WorkflowState}
use nexusflow.Domain.TaskState
use nexusflow.Domain.TaskState.{TaskState}
use nexusflow.Store.Records.{WorkflowExecutionRecord, TaskExecutionRecord, ExecutionAttemptRecord}
use nexusflow.Lifecycle.Step.{
  drain_task, expire_cancellation, materialize_deadline, fail_workflow, cancel_workflow,
}
use nexusflow.Orchestration.Pass.{Setting}
use nexusflow.Orchestration.Follows.{
  Follows, OnlyTransacts, follows_rules, Follows-look, Follows-if, Follows-then, Follows-bind,
  Follows-for_each, Follows-transact, Follows-transact_or_raise, Follows-now,
  Follows-queue_delivery, Follows-done,
}
use nexusflow.Orchestration.Scheduler.Drain.{
  cancel_unstarted, expire_attempt, command_cancellation, cancel_active, settle_row,
  settle_terminal, drain_attempts, drain_tasks, drain_row, drain_workflow, cancellation_period,
}

module _ (setting : Setting) (only : OnlyTransacts setting) (workflow_id : ℕ) where
  pub cancel_unstarted-Follows :
      (now_utc : ℕ) (t : TaskExecutionRecord)
      → Follows (cancel_unstarted setting workflow_id now_utc t)
  unfolding cancel_unstarted
  cancel_unstarted-Follows now_utc t =
      Follows-if (TaskState.is_unstarted t.state) _ _
        (Follows-transact setting only _ (λ db. drain_task t.task_execution_id t.revision now_utc))
        Follows-done

  expire_attempt-Follows :
      (now_utc : ℕ) (a : ExecutionAttemptRecord) (task : Option TaskExecutionRecord)
      → Follows (expire_attempt setting workflow_id now_utc a task)
  unfolding expire_attempt
  expire_attempt-Follows now_utc a none = Follows-done
  expire_attempt-Follows now_utc a (some task) =
      Follows-if (TaskState.is_running task.state) _ _
        (Follows-transact setting only _ (λ db.
          expire_cancellation a.attempt_id a.revision a.task_execution_id task.revision now_utc))
        Follows-done

  command_cancellation-Follows :
      (state : WorkflowState) (now_utc : ℕ) (a : ExecutionAttemptRecord)
      → Follows (command_cancellation setting workflow_id state now_utc a)
  unfolding command_cancellation
  command_cancellation-Follows state now_utc a =
      Follows-then _ _
        (Follows-transact setting only _
          (λ db. materialize_deadline a.attempt_id (now_utc + cancellation_period)))
        (Follows-queue_delivery setting only _ _)

  cancel_active-Follows :
      (state : WorkflowState) (now_utc : ℕ) (a : ExecutionAttemptRecord) (deadline : Option ℕ)
      → Follows (cancel_active setting workflow_id state now_utc a deadline)
  unfolding cancel_active
  cancel_active-Follows state now_utc a none = command_cancellation-Follows state now_utc a
  cancel_active-Follows state now_utc a (some deadline) =
      search (follows_rules, Follows-look setting only, expire_attempt-Follows now_utc a)

  settle_row-Follows :
      (now_utc : ℕ) (row : Option WorkflowExecutionRecord)
      → Follows (settle_row setting workflow_id now_utc row)
  unfolding settle_row
  settle_row-Follows now_utc none = Follows-done
  settle_row-Follows now_utc (some wf) =
      Follows-if (WorkflowState.is_failing wf.state) _ _
        (Follows-then _ _
          (Follows-transact_or_raise setting only _
            (λ db. fail_workflow workflow_id wf.revision now_utc))
          Follows-done)
        (Follows-if (WorkflowState.is_cancelling wf.state) _ _
          (Follows-then _ _
            (Follows-transact_or_raise setting only _
              (λ db. cancel_workflow workflow_id wf.revision now_utc))
            Follows-done)
          Follows-done)

  settle_terminal-Follows :
      (now_utc : ℕ) (rows : List TaskExecutionRecord)
      → Follows (settle_terminal setting workflow_id now_utc rows)
  unfolding settle_terminal
  settle_terminal-Follows now_utc rows =
      search (follows_rules, Follows-look setting only, settle_row-Follows now_utc)

  pub drain_attempts-Follows :
      (state : WorkflowState) (now_utc : ℕ)
      → Follows (drain_attempts setting workflow_id state now_utc)
  unfolding drain_attempts
  drain_attempts-Follows state now_utc =
      Follows-bind _ _ (Follows-look setting only _) (λ active_attempts.
        Follows-then _ _
          (Follows-for_each active_attempts _
            (λ a. cancel_active-Follows state now_utc a a.cancellation_deadline_utc))
          (Follows-bind _ _ (Follows-look setting only _) (settle_terminal-Follows now_utc)))

  drain_tasks-Follows : (state : WorkflowState) → Follows (drain_tasks setting workflow_id state)
  unfolding drain_tasks
  drain_tasks-Follows state = Follows-bind _ _ (Follows-look setting only _) (λ task_rows.
      Follows-bind _ _ (Follows-now setting only) (λ now_utc.
        Follows-then _ _ (Follows-for_each task_rows _ (cancel_unstarted-Follows now_utc))
          (drain_attempts-Follows state now_utc)))

  drain_row-Follows :
      (row : Option WorkflowExecutionRecord) → Follows (drain_row setting workflow_id row)
  unfolding drain_row
  drain_row-Follows none = Follows-done
  drain_row-Follows (some wf) =
      Follows-if (WorkflowState.is_draining wf.state) _ _ (drain_tasks-Follows wf.state)
        Follows-done

  pub drain_workflow-Follows : Follows (drain_workflow setting workflow_id)
  unfolding drain_workflow
  drain_workflow-Follows = search (follows_rules, Follows-look setting only, drain_row-Follows)
