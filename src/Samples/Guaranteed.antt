-- ===== src/Samples/Guaranteed.antt =====
-- The guarantees of single transactions on the run of src/nexusflow/persistence/transactions.py in
-- Samples.
use nexusflow.Base.{◌≤◌, arith}
use nexusflow.Store.Table.{row_count}
use nexusflow.Store.Records.{is_attempt}
use nexusflow.Transactions.Outcome.{committed}
use nexusflow.Transactions.Ownership.{commit_worker_execution_start}
use nexusflow.Samples.{owned}
use nexusflow.Guarantees.Callbacks.{commit_worker_execution_start-again}
use nexusflow.Base.{◌≡◌, ◌≢◌, ◌↔◌, refl, some, ok, str_eq, if◌then◌else◌}
use nexusflow.Domain.Json.{string, null, array, cons, nil, freeze_json, thaw_json}
use nexusflow.Domain.Json.RoundTrip.{freeze_json-thaw_json}
use nexusflow.Domain.TaskState
use nexusflow.Domain.WorkflowState
use nexusflow.Store.Table.{select_first, select_all, update_where}
use nexusflow.Transactions.Outcome.{committed, precondition_failed, key_names, subscript, task_keys}
use nexusflow.Transactions.Creation.{commit_workflow_creation, commit_task_population, populate}
use nexusflow.Transactions.Readiness.{commit_task_readiness}
use nexusflow.Transactions.Ownership.{commit_attempt_ownership, commit_worker_execution_start}
use nexusflow.Transactions.Success.{commit_worker_task_success}
use nexusflow.Transactions.Settlement.{commit_initialization_complete}
use nexusflow.Guarantees.Settled.{IsSettled}
use nexusflow.Guarantees.Endings.{AllCounted, commit_workflow_success-committed}
use nexusflow.Guarantees.Repeated.{commit_workflow_creation-again}
use nexusflow.Guarantees.Completed.{Completes, IsReady, commit_workflow_success-Completes}
use nexusflow.Store.Records.{is_attempt}
use nexusflow.Guarantees.Endings.{
  commit_workflow_failure-committed, commit_workflow_cancellation-committed,
}
use nexusflow.Samples.Endings.{
  finished, finished_lem, failing, failed, failed_lem, cancelling, cancelled, cancelled_lem,
}
use nexusflow.Samples.{registered, created, created_lem, started, succeeded}

commit_workflow_success-committed_example :
    AllCounted 10 2 succeeded WorkflowState.is_running TaskState.is_succeeded
commit_workflow_success-committed_example =
    commit_workflow_success-committed 10 2 8 succeeded finished (string "result") finished_lem

commit_workflow_failure-committed_example :
    AllCounted 10 3 failing WorkflowState.is_failing TaskState.is_terminal
commit_workflow_failure-committed_example =
    commit_workflow_failure-committed 10 3 6 failing failed failed_lem

commit_workflow_cancellation-committed_example :
    AllCounted 10 3 cancelling WorkflowState.is_cancelling TaskState.is_terminal
commit_workflow_cancellation-committed_example =
    commit_workflow_cancellation-committed 10 3 6 cancelling cancelled cancelled_lem

succeeded-IsSettled : IsSettled WorkflowState.is_running TaskState.is_succeeded 10 2 succeeded
succeeded-IsSettled =
    (commit_workflow_success-committed 10 2 8 succeeded finished (string "result") finished_lem).0

result_not_null : string "result" ≢ null
result_not_null e = cc

commit_workflow_success-Completes_example :
    Completes 10 2 8 (string "result") succeeded
    ↔ (IsReady 10 2 8 (string "result") succeeded × (string "result" ≢ null))
commit_workflow_success-Completes_example =
    commit_workflow_success-Completes 10 2 8 (string "result") succeeded

completes : Completes 10 2 8 (string "result") succeeded
completes =
    (commit_workflow_success-Completes 10 2 8 (string "result") succeeded).1
      (succeeded-IsSettled, result_not_null)

commit_workflow_creation-again_example :
    commit_workflow_creation 11 1 (string "in") 2 (some "key") (some "other") created
    ≡ ok (if str_eq "print" "other" then (committed, 10) else (precondition_failed, 11), created)
commit_workflow_creation-again_example =
    commit_workflow_creation-again 10 1 (string "in") 1 "key" "print" 10 registered created
      created_lem 11 1 (string "in") 2 "other"

freeze_json-thaw_json_example :
    freeze_json (thaw_json (array (cons (string "a") (cons null nil))))
    ≡ ok (array (cons (string "a") (cons null nil)))
freeze_json-thaw_json_example = freeze_json-thaw_json (array (cons (string "a") (cons null nil)))

one_attempt : row_count (is_attempt 55) owned.attempts ≤ 1
unfolding commit_workflow_creation commit_task_population commit_initialization_complete populate
    thaw_json select_first select_all task_keys key_names subscript update_where
    commit_task_readiness commit_attempt_ownership commit_worker_execution_start
    commit_worker_task_success row_count
one_attempt = omega arith

started_lem : commit_worker_execution_start 55 7 1 0 6 owned ≡ (committed, started)
unfolding commit_workflow_creation commit_task_population commit_initialization_complete populate
    thaw_json select_first select_all task_keys key_names subscript update_where
    commit_task_readiness commit_attempt_ownership commit_worker_execution_start
    commit_worker_task_success
started_lem = refl

commit_worker_execution_start-again_example :
    commit_worker_execution_start 55 7 9 1 60 started ≡ (committed, started)
commit_worker_execution_start-again_example =
    commit_worker_execution_start-again 55 7 1 0 6 owned started one_attempt started_lem 9 1 60
