-- ===== src/Samples/Applied.antt =====
-- The theorems on the run of src/nexusflow/persistence/transactions.py in Samples.
use nexusflow.Base.{
  ℕ, ◌≡◌, ◌⊎◌, ◌≤◌, ◌<◌, ◌∷◌, [], ◌++◌, refl, true, false, Option, some, ok, All, arith, any,
}
use nexusflow.Domain.Json.{PyValue, end, thaw_json}
use nexusflow.Domain.TaskState
use nexusflow.Domain.WorkflowState
use nexusflow.Store.Table.{select_first, select_all, row_count, update_where}
use nexusflow.Store.Records.{Db, TaskExecutionRecord, is_task}
use nexusflow.Transactions.Outcome.{
  CommitStatus, committed, key_names, subscript, task_keys, add_history, history_entry,
}
use nexusflow.Transactions.Creation.{commit_workflow_creation, commit_task_population, populate}
use nexusflow.Transactions.Readiness.{commit_task_readiness}
use nexusflow.Transactions.Ownership.{
  commit_attempt_ownership, commit_worker_execution_start, is_active_of, ownership_where,
  ownership_set, new_attempt,
}
use nexusflow.Transactions.Success.{commit_worker_task_success}
use nexusflow.Transactions.Settlement.{commit_initialization_complete}
use nexusflow.Lifecycle.Moves.{Moves}
use nexusflow.Lifecycle.Step.{Reach, here, then_step}
use nexusflow.Lifecycle.Safety.{
  Reach-single_active, Reach-budget, Reach-output, Step-Moves, Reach-terminal, Reach-revision,
  Reach-stable_input,
}
use nexusflow.Lifecycle.Claiming.{
  commit_attempt_ownership-committed, commit_attempt_ownership-returns,
}
use nexusflow.Lifecycle.Step.{own_attempt, make_ready, drain_task}
use nexusflow.Transactions.Drain.{commit_drain_task_cancellation}
use nexusflow.Store.Records.{is_attempt}
use nexusflow.Transactions.Outcome.{workflow_state, state_in}
use nexusflow.Samples.{
  ready_task, ready_found, succeeded_task, succeeded_found, owned_lem, registered_IsEmpty, ready,
  owned, started, succeeded, Reach-ready, Reach-started, Reach-succeeded, step_started,
  step_succeeded,
}

started_busy : 0 < row_count (is_active_of 100) started.attempts
unfolding commit_workflow_creation commit_task_population commit_initialization_complete populate
    thaw_json select_first select_all task_keys key_names subscript update_where
    commit_task_readiness commit_attempt_ownership commit_worker_execution_start
    commit_worker_task_success row_count
started_busy = omega arith

Reach-single_active_example :
    (row_count (is_active_of 100) started.attempts ≡ 1)
    × (t : TaskExecutionRecord) × (select_first (is_task 100) started.tasks ≡ some t)
    × (t.state ≡ TaskState.running)
Reach-single_active_example = Reach-single_active registered_IsEmpty Reach-started 100 started_busy

Reach-budget_example :
    All
      (λ a.
        (t : TaskExecutionRecord) × (select_first (is_task a.task_execution_id) started.tasks
          ≡ some t)
        × (1 ≤ a.attempt_ordinal)
        × (a.attempt_ordinal ≤ t.max_attempts))
      started.attempts
Reach-budget_example = Reach-budget registered_IsEmpty Reach-started

unused_attempt : any (is_attempt 55) ready.attempts ≡ false
unfolding commit_workflow_creation commit_task_population commit_initialization_complete populate
    thaw_json select_first select_all task_keys key_names subscript update_where
    commit_task_readiness commit_attempt_ownership commit_worker_execution_start
    commit_worker_task_success
unused_attempt = refl

ready_running : state_in WorkflowState.is_running (workflow_state 10 ready) ≡ true
unfolding commit_workflow_creation commit_task_population commit_initialization_complete populate
    thaw_json select_first select_all task_keys key_names subscript update_where
    commit_task_readiness commit_attempt_ownership commit_worker_execution_start
    commit_worker_task_success
ready_running = refl

ready_runnable : select_first (ownership_where 100 2 10) ready.tasks ≡ some ready_task
unfolding commit_workflow_creation commit_task_population commit_initialization_complete populate
    thaw_json select_first select_all task_keys key_names subscript update_where
    commit_task_readiness commit_attempt_ownership commit_worker_execution_start
    commit_worker_task_success
ready_runnable = refl

commit_attempt_ownership-committed_example :
    (commit_attempt_ownership 100 2 10 7 55 1000 5 ready
      ≡ ok (
        (committed, some ready_task.next_attempt_ordinal),
        add_history (history_entry 10 (some 100) (some 55) "TaskClaimedByWorker" 5) (record ready {
          tasks = update_where (ownership_where 100 2 10) (ownership_set 5) ready.tasks;
          attempts =
              ready.attempts ++ new_attempt 100 ready_task.next_attempt_ordinal 7 55 1000 5 ∷ [];
        }),
      ))
    × (ready_task.next_attempt_ordinal ≤ ready_task.max_attempts)
commit_attempt_ownership-committed_example =
    commit_attempt_ownership-committed registered_IsEmpty Reach-ready 100 2 10 7 55 1000 5
      unused_attempt ready_task ready_running ready_runnable

commit_attempt_ownership-returns_example :
    (outcome : (CommitStatus × Option ℕ) × Db) × (commit_attempt_ownership 100 2 10 7 55 1000 5
        ready
      ≡ ok outcome)
commit_attempt_ownership-returns_example =
    commit_attempt_ownership-returns registered_IsEmpty Reach-ready 100 2 10 7 55 1000 5
      unused_attempt

Step-Moves_example :
    (u : TaskExecutionRecord) × (select_first (is_task 100) owned.tasks ≡ some u)
    × ((u ≡ ready_task) ⊎ Moves ready_task u)
Step-Moves_example =
    Step-Moves (own_attempt 100 2 10 7 55 1000 5 (committed, some 1) owned owned_lem) 100 ready_task
      ready_found

drained_succeeded : Reach succeeded (commit_drain_task_cancellation 100 4 9 succeeded).1
drained_succeeded = then_step here (drain_task 100 4 9)

succeeded_is_terminal : TaskState.is_terminal succeeded_task.state ≡ true
unfolding commit_workflow_creation commit_task_population commit_initialization_complete populate
    thaw_json select_first select_all task_keys key_names subscript update_where
    commit_task_readiness commit_attempt_ownership commit_worker_execution_start
    commit_worker_task_success
succeeded_is_terminal = refl

succeeded_has_state : TaskState.is_succeeded succeeded_task.state ≡ true
unfolding commit_workflow_creation commit_task_population commit_initialization_complete populate
    thaw_json select_first select_all task_keys key_names subscript update_where
    commit_task_readiness commit_attempt_ownership commit_worker_execution_start
    commit_worker_task_success
succeeded_has_state = refl

Reach-terminal_example :
    select_first (is_task 100) (commit_drain_task_cancellation 100 4 9 succeeded).1.tasks
    ≡ some succeeded_task
Reach-terminal_example =
    Reach-terminal drained_succeeded 100 succeeded_task succeeded_found succeeded_is_terminal

Reach-output_example : (v : PyValue) × (succeeded_task.task_output ≡ some v)
Reach-output_example =
    Reach-output registered_IsEmpty Reach-succeeded 100 succeeded_task succeeded_found
      succeeded_has_state

-- The task is made ready a second time, in vain.
abbrev ready_again : Db
ready_again = (commit_task_readiness 100 1 10 end 9 ready).1

ready_again_found : select_first (is_task 100) ready_again.tasks ≡ some ready_task
unfolding commit_workflow_creation commit_task_population commit_initialization_complete populate
    thaw_json select_first select_all task_keys key_names subscript update_where
    commit_task_readiness commit_attempt_ownership commit_worker_execution_start
    commit_worker_task_success
ready_again_found = refl

Reach-revision_example : ready_task ≡ ready_task
Reach-revision_example =
    Reach-revision (then_step here (make_ready 100 1 10 end 9)) 100 ready_task ready_found
      ready_task ready_again_found refl

ready_not_pending : TaskState.is_pending ready_task.state ≡ false
unfolding commit_workflow_creation commit_task_population commit_initialization_complete populate
    thaw_json select_first select_all task_keys key_names subscript update_where
    commit_task_readiness commit_attempt_ownership commit_worker_execution_start
    commit_worker_task_success
ready_not_pending = refl

Reach-from_ready : Reach ready succeeded
Reach-from_ready =
    then_step
      (then_step
        (then_step here (own_attempt 100 2 10 7 55 1000 5 (committed, some 1) owned owned_lem))
        step_started)
      step_succeeded

Reach-stable_input_example : succeeded_task.stable_input ≡ ready_task.stable_input
Reach-stable_input_example =
    Reach-stable_input Reach-from_ready 100 ready_task ready_found ready_not_pending succeeded_task
      succeeded_found
