-- ===== src/Guarantees/Drained.antt =====
-- src/nexusflow/orchestration/scheduler.py: what drain_workflow does to the tasks of its workflow.
pub mod Pass
use mathlib.Core.Option
use nexusflow.Base.{
  ◌⊎◌, ℕ, ◌≡◌, refl, sym, ap, ◌∙◌, subst, Bool, true, false, Option, none, some, List, [], ◌∷◌,
  arith, Bool-cases, inl, inr, ◌&&◌, ◌==◌, if◌then◌else◌, Result, ok,
}
use nexusflow.Domain.WorkflowState
use nexusflow.Domain.WorkflowState.{WorkflowState}
use nexusflow.Domain.TaskState
use nexusflow.Domain.TaskState.{TaskState}
use nexusflow.Store.Table.{select_first, select_all, update_where}
use nexusflow.Store.Table.Laws.{select_first-update_where, select_first-satisfies}
use nexusflow.Store.Records.{
  Db, WorkflowExecutionRecord, TaskExecutionRecord, HistoryEntryRecord, is_task, is_workflow,
}
use nexusflow.Transactions.Outcome.{
  CommitStatus, occ_conflict, finish, update_tasks, state_in, workflow_state,
}
use nexusflow.Transactions.Drain.{
  commit_drain_task_cancellation, drain_task, drain_where, drain_task_set,
}

-- What a drain of one task row leaves of the tables.
pub record Drains (id revision now : ℕ) (db db' : Db) : Type 0 where
  pub workflows : db'.workflows ≡ db.workflows
  pub tasks :
      (db'.tasks ≡ db.tasks)
      ⊎ (db'.tasks ≡ update_where (drain_where id revision) (drain_task_set now) db.tasks)

finish_tables :
    {A : Type 0} (row : Option A) (db : Db) (conflict : CommitStatus)
    (entry : A → HistoryEntryRecord)
    → ((finish (row, db) conflict entry).1.workflows ≡ db.workflows)
      × ((finish (row, db) conflict entry).1.tasks ≡ db.tasks)
finish_tables none db conflict entry = (refl, refl)
finish_tables (some x) db conflict entry = (refl, refl)

Drains-if :
    {A : Type 0} (id revision now : ℕ) (db : Db) (b : Bool) (x y : A × Db)
    → Drains id revision now db x.1
    → Drains id revision now db y.1
    → Drains id revision now db (if b then x else y).1
Drains-if id revision now db true x y hx hy = hx
Drains-if id revision now db false x y hx hy = hy

module _ (id revision now : ℕ) (db : Db) where
  abbrev updated : Option TaskExecutionRecord × Db
  updated = update_tasks (drain_where id revision) (drain_task_set now) db

  drain_task-Drains :
      (row : Option TaskExecutionRecord)
      → Drains id revision now db (drain_task id revision row now db).1
  drain_task-Drains none = record { workflows = refl; tasks = inl refl }
  drain_task-Drains (some x) =
      Drains-if id revision now db (TaskState.is_unstarted x.state) _ _
        (Drains-if id revision now db
          (state_in WorkflowState.is_draining (workflow_state x.workflow_execution_id db)) _ _
          (let tables = finish_tables updated.0 updated.1 occ_conflict _ in
            record { workflows = tables.0; tasks = inr tables.1 })
          (record { workflows = refl; tasks = inl refl }))
        (record { workflows = refl; tasks = inl refl })

  pub commit-Drains :
      Drains id revision now db (commit_drain_task_cancellation id revision now db).1
  unfolding commit_drain_task_cancellation
  commit-Drains = drain_task-Drains (select_first (is_task id) db.tasks)

module _ (task_id now : ℕ) (t : TaskExecutionRecord)
    (unstarted : TaskState.is_unstarted t.state ≡ true) where
  -- The row is in its table, and its workflow is draining.
  pub record Waits (db : Db) : Type 0 where
    pub found : select_first (is_task task_id) db.tasks ≡ some t
    pub draining :
        state_in WorkflowState.is_draining (workflow_state t.workflow_execution_id db) ≡ true

  pub other_Waits :
      (id revision : ℕ) (db db' : Db)
      → (id == task_id) ≡ false
      → Drains id revision now db db'
      → Waits db
      → Waits db'
  other_Waits id revision db db' other drains waits = record {
    found = elim drains.tasks [
      | inl same ↦ ap (select_first (is_task task_id)) same ∙ waits.found
      | inr updated ↦
          let apart : drain_where id revision t ≡ false =
            ground
              (arith, other, select_first-satisfies (is_task task_id) db.tasks t waits.found) in
          ap (select_first (is_task task_id)) updated
          ∙ select_first-update_where (is_task task_id) (drain_where id revision)
              (drain_task_set now) db.tasks t (λ y. refl) waits.found
          ∙ rw apart refl
    ];
    draining =
        ap
          (λ ws.
            state_in WorkflowState.is_draining
              (Option.map (λ w. w.state) (select_first (is_workflow t.workflow_execution_id) ws)))
          drains.workflows
        ∙ waits.draining;
  }

  pub this_cancelled :
      (db : Db)
      → Waits db
      → select_first
          (is_task task_id)
          (commit_drain_task_cancellation task_id t.revision now db).1.tasks
        ≡ some (drain_task_set now t)
  unfolding commit_drain_task_cancellation
  this_cancelled db waits =
      let here = select_first-satisfies (is_task task_id) db.tasks t waits.found in
      let this : drain_where task_id t.revision t ≡ true = ground (arith, here, unstarted) in
      rw (waits.found, unstarted, waits.draining)
        (ap (select_first (is_task task_id)) (finish_tables _ _ occ_conflict _).1
          ∙ select_first-update_where (is_task task_id) (drain_where task_id t.revision)
              (drain_task_set now) db.tasks t (λ y. refl) waits.found
          ∙ rw this refl)
