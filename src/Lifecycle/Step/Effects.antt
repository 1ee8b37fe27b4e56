-- ===== src/Lifecycle/Step/Effects.antt =====
-- src/nexusflow/persistence/transactions.py: what each step does to the tables of tasks and attempts.
use nexusflow.Store.Records.{Db}
use nexusflow.Lifecycle.Effect.{HasEffect}
use nexusflow.Lifecycle.Steps.Tasks.{
  commit_task_readiness-Leads, commit_retry_ready-Leads, commit_drain_task_cancellation-Leads,
}
use nexusflow.Lifecycle.Steps.Settles.{
  commit_worker_failure_with_retry-Leads, commit_worker_definitive_failure-Leads,
  commit_worker_cancellation_ack-Leads, commit_internal_cancellation_deadline-Leads,
}
use nexusflow.Lifecycle.Steps.Internal.{commit_internal_attempt_failure-Leads}
use nexusflow.Lifecycle.Steps.Claims.{
  Leads-of_ok, commit_worker_execution_start-Leads, commit_attempt_ownership-LeadsOk,
  commit_worker_task_success-LeadsOk,
}
use nexusflow.Lifecycle.Steps.Others.{
  commit_workflow_failure_direction-Leads, commit_workflow_cancellation_direction-Leads,
  commit_initialization_complete-LeadsOk, commit_workflow_success-LeadsOk,
  commit_workflow_failure-LeadsOk, commit_workflow_cancellation-LeadsOk,
}
use nexusflow.Lifecycle.Steps.Population.{
  commit_workflow_creation-LeadsOk, commit_task_population-LeadsOk,
}
use nexusflow.Lifecycle.Steps.Registration.{
  commit_registered_definition-LeadsOk, commit_cancellation_deadline-HasEffect,
}
use nexusflow.Lifecycle.Step.{
  Step, register_definition, create_workflow, populate_tasks, complete_initialization, make_ready,
  own_attempt, start_execution, report_success, succeed_workflow, report_failure,
  report_definitive_failure, direct_to_failure, direct_to_cancellation, drain_task,
  acknowledge_cancellation, expire_cancellation, fail_attempt, make_retry_ready, fail_workflow,
  cancel_workflow, materialize_deadline,
}

pub Step-HasEffect : {db db' : Db} → Step db db' → HasEffect db db'
Step-HasEffect {db}
      (create_workflow execution_id definition_id workflow_input now key fingerprint status db' e) =
    (Leads-of_ok db _ (status, db')
      (commit_workflow_creation-LeadsOk db execution_id definition_id workflow_input now key
        fingerprint)
      e).effect
Step-HasEffect {db} (populate_tasks uuid4 workflow_id now task_defs status db' e) =
    (Leads-of_ok db _ (status, db')
      (commit_task_population-LeadsOk uuid4 workflow_id now db task_defs) e).effect
Step-HasEffect {db} (complete_initialization workflow_id revision now status db' e) =
    (Leads-of_ok db _ (status, db')
      (commit_initialization_complete-LeadsOk db workflow_id revision now) e).effect
Step-HasEffect {db} (make_ready task_id revision workflow_id input now) =
    (commit_task_readiness-Leads task_id revision workflow_id now db input).effect
Step-HasEffect {db}
      (own_attempt task_id revision workflow_id session attempt_id deadline now status db' e) =
    (Leads-of_ok db _ (status, db')
      (commit_attempt_ownership-LeadsOk db task_id revision workflow_id session attempt_id deadline
        now)
      e).effect
Step-HasEffect {db} (start_execution attempt_id session revision uuid4 now) =
    (commit_worker_execution_start-Leads db attempt_id session revision uuid4 now).effect
Step-HasEffect {db}
      (report_success json_eq attempt_id task_id session attempt_revision task_revision output now
        status db' e) =
    (Leads-of_ok db _ (status, db')
      (commit_worker_task_success-LeadsOk json_eq db attempt_id session attempt_revision task_id
        task_revision now output)
      e).effect
Step-HasEffect {db} (succeed_workflow workflow_id revision output now status db' e) =
    (Leads-of_ok db _ (status, db')
      (commit_workflow_success-LeadsOk db workflow_id revision now output) e).effect
Step-HasEffect {db}
      (report_failure attempt_id session attempt_revision task_id task_revision workflow_id ready_at
        cause now) =
    (commit_worker_failure_with_retry-Leads db attempt_id session attempt_revision task_id
      task_revision cause now workflow_id ready_at).effect
Step-HasEffect {db}
      (report_definitive_failure attempt_id session attempt_revision task_id task_revision cause
        now) =
    (commit_worker_definitive_failure-Leads db attempt_id session attempt_revision task_id
      task_revision cause now).effect
Step-HasEffect {db} (direct_to_failure workflow_id cause now) =
    (commit_workflow_failure_direction-Leads db workflow_id now cause).effect
Step-HasEffect {db} (direct_to_cancellation workflow_id now) =
    (commit_workflow_cancellation_direction-Leads db workflow_id now).effect
Step-HasEffect {db} (drain_task task_id revision now) =
    (commit_drain_task_cancellation-Leads task_id revision now db).effect
Step-HasEffect {db}
      (acknowledge_cancellation attempt_id attempt_revision task_id task_revision session now) =
    (commit_worker_cancellation_ack-Leads db attempt_id attempt_revision task_id task_revision now
      session).effect
Step-HasEffect {db} (expire_cancellation attempt_id attempt_revision task_id task_revision now) =
    (commit_internal_cancellation_deadline-Leads db attempt_id attempt_revision task_id
      task_revision now).effect
Step-HasEffect {db}
      (fail_attempt attempt_id attempt_revision task_id task_revision cause now is_retryable
        ready_at lost known) =
    (commit_internal_attempt_failure-Leads db attempt_id attempt_revision task_id task_revision
      cause now known lost is_retryable ready_at).effect
Step-HasEffect {db} (make_retry_ready task_id revision workflow_id now) =
    (commit_retry_ready-Leads task_id revision workflow_id now db).effect
Step-HasEffect {db} (fail_workflow workflow_id revision now status db' e) =
    (Leads-of_ok db _ (status, db') (commit_workflow_failure-LeadsOk db workflow_id revision now)
      e).effect
Step-HasEffect {db} (cancel_workflow workflow_id revision now status db' e) =
    (Leads-of_ok db _ (status, db')
      (commit_workflow_cancellation-LeadsOk db workflow_id revision now) e).effect
Step-HasEffect {db}
      (register_definition definition_id workflow_name spec raw_yaml now key fingerprint status db'
        e) =
    (Leads-of_ok db _ (status, db')
      (commit_registered_definition-LeadsOk db definition_id workflow_name spec raw_yaml now key
        fingerprint)
      e).effect
Step-HasEffect {db} (materialize_deadline attempt_id deadline) =
    commit_cancellation_deadline-HasEffect db attempt_id deadline
