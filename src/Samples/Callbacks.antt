-- ===== src/Samples/Callbacks.antt =====
-- src/nexusflow/interfaces/http/routes/worker.py: the callback of the worker that runs the one task.
use nexusflow.Base.{◌≡◌, refl}
use nexusflow.Domain.Json.{str_value, freeze_json, thaw_json}
use nexusflow.Store.Table.{select_first, select_all, update_where}
use nexusflow.Transactions.Outcome.{key_names, subscript, task_keys}
use nexusflow.Transactions.Creation.{commit_workflow_creation, commit_task_population, populate}
use nexusflow.Transactions.Readiness.{commit_task_readiness}
use nexusflow.Transactions.Ownership.{commit_attempt_ownership, commit_worker_execution_start}
use nexusflow.Transactions.Success.{commit_worker_task_success}
use nexusflow.Transactions.Settlement.{commit_initialization_complete}
use nexusflow.Interfaces.Callback.{
  activity_success, advance, accepted, refused, wrong_session, report_callback,
}
use nexusflow.Samples.{json_eq, started, succeeded}

reported :
    report_callback json_eq 55 7 7 (activity_success (str_value "out")) started
    ≡ (accepted (advance 10), succeeded)
unfolding commit_workflow_creation commit_task_population commit_initialization_complete populate
    thaw_json select_first select_all task_keys key_names subscript update_where
    commit_task_readiness commit_attempt_ownership commit_worker_execution_start
    commit_worker_task_success report_callback freeze_json
reported = refl

foreign :
    report_callback json_eq 55 8 7 (activity_success (str_value "out")) started
    ≡ (refused wrong_session, started)
unfolding commit_workflow_creation commit_task_population commit_initialization_complete populate
    thaw_json select_first select_all task_keys key_names subscript update_where
    commit_task_readiness commit_attempt_ownership commit_worker_execution_start report_callback
foreign = refl
