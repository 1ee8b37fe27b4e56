-- ===== src/Guarantees/Passes/Advance.antt =====
-- src/nexusflow/orchestration/scheduler.py: an advance of a workflow whose tasks have all succeeded.
use mathlib.Core.List.{reverse}
use nexusflow.Base.{
  ◌&&◌, ◌==◌, length, every, ℕ, ◌+◌, String, ◌≡◌, ◌≢◌, refl, true, false, List, [], ok, err,
  integrity_error,
}
use nexusflow.Domain.Json.{JsonValue, null}
use nexusflow.Domain.Spec.{ValidatedWorkflowSpec}
use nexusflow.Domain.Readiness.{resolve_workflow_outputs}
use nexusflow.Domain.WorkflowState
use nexusflow.Domain.WorkflowState.{WorkflowState}
use nexusflow.Domain.TaskState
use nexusflow.Definition.Codec.Read.{deserialize_validated_spec}
use nexusflow.Orchestration.Pass.{
  Setting, World, later, ◌>>=◌, ◌>>◌, lift, done, look, transact_or_raise, now,
}
use nexusflow.Orchestration.Scheduler.Drain.{tasks_of}
use nexusflow.Orchestration.Scheduler.Advance.{
  task_outputs, try_succeed_workflow, advance_tasks, advance_definition, advance_row,
  advance_workflow,
}
use nexusflow.Guarantees.Settled.{IsSettled}
use nexusflow.Guarantees.Completed.{HasSucceeded, commit_workflow_success-Completes, null_raises}
use nexusflow.Guarantees.Drained.Pass.{Undisturbed}
use nexusflow.Transactions.Settlement.{commit_workflow_success}

running_not_draining :
    (state : WorkflowState)
    → WorkflowState.is_running state ≡ true
    → WorkflowState.is_draining state ≡ false
running_not_draining WorkflowState.running e = refl
running_not_draining WorkflowState.initializing e = refl
running_not_draining WorkflowState.succeeded e = refl
running_not_draining WorkflowState.failed e = refl
running_not_draining WorkflowState.cancelled e = refl
running_not_draining WorkflowState.failing e = absurd (cc)
running_not_draining WorkflowState.cancelling e = absurd (cc)

module _ (setting : Setting) (undisturbed : Undisturbed setting) (w : World)
    (workflow_id revision : ℕ)
    (s : IsSettled WorkflowState.is_running TaskState.is_succeeded workflow_id revision w.db)
    (spec : ValidatedWorkflowSpec)
    (read : deserialize_validated_spec s.definition.validated_iws ≡ ok spec)
    (outputs : List (String × JsonValue))
    (task_values : task_outputs (tasks_of workflow_id w.db) ≡ ok outputs)
    (all_done : (length (tasks_of workflow_id w.db) == length spec.tasks
        && every (λ t. TaskState.is_succeeded t.state) (tasks_of workflow_id w.db))
      ≡ true) where
  -- The clock at the success.
  abbrev now_utc : ℕ
  now_utc = setting.clock (w.instant + 1 + 1 + 1)

  abbrev at_success : World
  at_success = later setting w.db (later setting w.db (later setting w.db (later setting w.db w)))

  advance_workflow-commit_workflow_success :
      (output : JsonValue)
      → resolve_workflow_outputs spec.output_bindings (reverse outputs) ≡ ok output
      → advance_workflow setting workflow_id w
        ≡ (transact_or_raise setting (commit_workflow_success workflow_id revision output now_utc)
              >> done)
            at_success
  unfolding advance_workflow advance_row advance_definition advance_tasks try_succeed_workflow look
      now ◌>>=◌ ◌>>◌ lift done
  advance_workflow-commit_workflow_success output resolved =
      rw
        (
          undisturbed w.instant w.db,
          s.found,
          running_not_draining s.row.state s.state,
          s.state,
          undisturbed (w.instant + 1) w.db,
          s.registered,
          read,
          undisturbed (w.instant + 1 + 1) w.db,
          all_done,
          task_values,
          resolved,
          s.same_revision,
        )
        refl

  -- An advance, between whose accesses no other transaction comes, completes a RUNNING workflow: where
  -- the rows of its tasks are all SUCCEEDED and as many as the tasks of its definition, their ids are
  -- those of the definition, and the output bindings resolve to an output that is not JSON null, the
  -- advance returns and leaves the workflow SUCCEEDED with this output, and all tasks and attempts as
  -- they were.
  pub advance_workflow-HasSucceeded :
      (output : JsonValue)
      → resolve_workflow_outputs spec.output_bindings (reverse outputs) ≡ ok output
      → output ≢ null
      → ((advance_workflow setting workflow_id w).0 ≡ ok tt)
        × HasSucceeded workflow_id revision output w.db
            (advance_workflow setting workflow_id w).1.db
  unfolding ◌>>◌ done transact_or_raise
  advance_workflow-HasSucceeded output resolved not_null =
      let c =
        (commit_workflow_success-Completes workflow_id revision now_utc output w.db).1
          (s, not_null) in
      rw
        (
          advance_workflow-commit_workflow_success output resolved,
          undisturbed (w.instant + 1 + 1 + 1 + 1) w.db,
          c.1,
        )
        (refl, c.2)

  -- An advance of such a workflow whose definition has no output bindings raises IntegrityError and
  -- leaves the database as it was, so that the workflow stays RUNNING.
  pub advance_workflow-unbound :
      spec.output_bindings ≡ []
      → ((advance_workflow setting workflow_id w).0 ≡ err integrity_error)
        × ((advance_workflow setting workflow_id w).1.db ≡ w.db)
  unfolding ◌>>◌ done transact_or_raise resolve_workflow_outputs
  advance_workflow-unbound unbound =
      rw
        (
          advance_workflow-commit_workflow_success null (rw unbound refl),
          undisturbed (w.instant + 1 + 1 + 1 + 1) w.db,
          null_raises workflow_id revision now_utc null w.db s refl,
        )
        (refl, refl)
