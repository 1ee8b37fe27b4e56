-- ===== src/Samples/Ready.antt =====
-- src/nexusflow/domain/readiness.py on a task with one dependency.
use nexusflow.Base.{String, ◌≡◌, refl, true, some, [], ◌∷◌, contains}
use nexusflow.Domain.Json.{JsonObject, string, null}
use nexusflow.Domain.Spec.{task_output, workflow_input}
use nexusflow.Domain.TaskState
use nexusflow.Domain.WorkflowState
use nexusflow.Domain.Readiness.{
  DependencyStateSnapshot, TaskReadinessSnapshot, is_ready, evaluate_task_readiness,
}
use nexusflow.Domain.Readiness.Laws.{
  IsDone, evaluate_task_readiness-IsDone, evaluate_task_readiness_complete,
}

abbrev upstream : DependencyStateSnapshot
upstream = record { state = TaskState.succeeded; has_output = true; output_value = string "x" }

abbrev snapshot : TaskReadinessSnapshot
snapshot = record {
  workflow_state = WorkflowState.running;
  workflow_input = null;
  task_state = TaskState.pending;
  task_definition = record {
    id = "b";
    activity_type = "echo";
    dependencies = "a" ∷ [];
    input_bindings = ("given", workflow_input) ∷ ("from_a", task_output "a") ∷ [];
    max_attempts = 1;
  };
  upstream_dependencies = ("a", upstream) ∷ [];
}

snapshot_ready : (evaluate_task_readiness snapshot).ready ≡ true
unfolding evaluate_task_readiness
snapshot_ready = refl

evaluate_task_readiness-IsDone_example :
    (WorkflowState.is_running snapshot.workflow_state ≡ true)
    × (TaskState.is_pending snapshot.task_state ≡ true)
    × ((dep_id : String)
        → contains snapshot.task_definition.dependencies dep_id ≡ true
        → IsDone snapshot.upstream_dependencies dep_id)
evaluate_task_readiness-IsDone_example = evaluate_task_readiness-IsDone snapshot snapshot_ready

snapshot-IsDone :
    (dep_id : String)
    → contains snapshot.task_definition.dependencies dep_id ≡ true
    → IsDone snapshot.upstream_dependencies dep_id
snapshot-IsDone = (evaluate_task_readiness-IsDone snapshot snapshot_ready).2

evaluate_task_readiness_complete_example :
    (input : JsonObject) × (evaluate_task_readiness snapshot
      ≡ record { ready = true; resolved_input = some input; reason = is_ready })
evaluate_task_readiness_complete_example =
    evaluate_task_readiness_complete snapshot refl refl snapshot-IsDone refl
