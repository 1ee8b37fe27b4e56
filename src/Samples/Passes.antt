-- ===== src/Samples/Passes.antt =====
-- src/nexusflow/orchestration/scheduler.py on the workflow of one task, with one worker.
use nexusflow.Base.{◌≡◌, refl, true, [], ◌∷◌}
use nexusflow.Definition.Codec.Read.{deserialize_validated_spec, read_spec}
use nexusflow.Domain.Identifiers.{task_definition_id}
use nexusflow.Domain.Graph.{build_canonical_graph_and_verify_acyclic, reduce, reduced}
use nexusflow.Domain.Json.{freeze_json, thaw_json, py_dict, no_fields}
use nexusflow.Domain.Readiness.{evaluate_task_readiness}
use nexusflow.Orchestration.Pass.{
  Setting, World, assignment, ◌>>=◌, ◌>>◌, look, lift, done, find_worker, for_each, generate, now,
  queue_delivery, transact, transact_or_raise,
}
use nexusflow.Orchestration.Registry.{WorkerRegistry, find_eligible_worker_for_activity}
use nexusflow.Orchestration.Scheduler.Advance.{
  advance_workflow, advance_row, advance_definition, advance_tasks, dispatch_definition,
  dispatch_runnable_tasks, dispatch_task, dispatch_to, evaluate_and_promote_task,
  evaluate_definition, evaluate_pending, evaluate_snapshots, hint, promote_due, promote_with,
}
use nexusflow.Transactions.Creation.{commit_workflow_creation, commit_task_population, populate}
use nexusflow.Transactions.Outcome.{key_names, subscript, task_keys}
use nexusflow.Transactions.Ownership.{commit_attempt_ownership}
use nexusflow.Transactions.Readiness.{commit_task_readiness}
use nexusflow.Transactions.Settlement.{commit_initialization_complete}
use nexusflow.Domain.AttemptState
use nexusflow.Store.Table.{select_first, select_all, update_where}
use nexusflow.Samples.{initialized, owned}

abbrev workers : WorkerRegistry
workers = record {
  liveness_timeout = 15;
  sessions =
      record {
        session_id = 7;
        worker_id = "worker";
        capabilities = "echo" ∷ [];
        registered_at_monotonic = 0;
        last_heartbeat_monotonic = 0;
        last_heartbeat_utc = 0;
        accepting_new_work = true;
      }
      ∷ [];
}

-- Nothing else happens.
abbrev pub quiet : Setting
quiet = record {
  others = λ i db. db;
  registry = λ i. workers;
  clock = λ i. 1000;
  monotonic = λ i. 1;
  uuid4 = λ i. 55;
  start_deadline = 30;
}

abbrev beginning : World
beginning = record { db = initialized; instant = 0; deliveries = [] }

-- Before the start deadline of the attempt.
abbrev early : Setting
early = record quiet { clock = λ i. 500 }

abbrev claimed : World
claimed = record { db = owned; instant = 0; deliveries = [] }

advanced_lem :
    (advance_workflow quiet 10 beginning).1.deliveries
    ≡ (7, assignment 55 1 100 10 7 "echo" (py_dict no_fields) 1030) ∷ []
unfolding deserialize_validated_spec read_spec task_definition_id
    build_canonical_graph_and_verify_acyclic reduce reduced freeze_json thaw_json
    evaluate_task_readiness ◌>>=◌ ◌>>◌ look lift done find_worker for_each generate now
    queue_delivery transact transact_or_raise find_eligible_worker_for_activity advance_workflow
    advance_row advance_definition advance_tasks dispatch_definition dispatch_runnable_tasks
    dispatch_task dispatch_to evaluate_and_promote_task evaluate_definition evaluate_pending
    evaluate_snapshots hint promote_due promote_with commit_workflow_creation commit_task_population
    populate key_names subscript task_keys commit_attempt_ownership commit_task_readiness
    commit_initialization_complete select_first select_all update_where
advanced_lem = refl
