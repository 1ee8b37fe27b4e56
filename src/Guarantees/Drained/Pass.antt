-- ===== src/Guarantees/Drained/Pass.antt =====
-- src/nexusflow/orchestration/scheduler.py: a pass of drain_workflow that nothing interrupts.
use mathlib.Core.Option
use mathlib.Core.Option.{some-injective}
use nexusflow.Transactions.Outcome.{state_in, workflow_state}
use nexusflow.Base.{
  ℕ, ◌+◌, ◌≡◌, refl, sym, ap, ◌∙◌, subst, Bool, true, false, some, List, [], ◌∷◌, arith, Bool-cases,
  inl, inr, ◌==◌, Result, ok,
}
use nexusflow.Domain.WorkflowState
use nexusflow.Domain.WorkflowState.{WorkflowState}
use nexusflow.Domain.TaskState
use nexusflow.Domain.TaskState.{TaskState}
use nexusflow.Store.Table.{select_first, select_all}
use nexusflow.Store.Table.Laws.{select_first-satisfies}
use nexusflow.Store.Records.{Db, WorkflowExecutionRecord, TaskExecutionRecord, is_task}
use nexusflow.Transactions.Drain.{commit_drain_task_cancellation, drain_task_set}
use nexusflow.Lifecycle.Step.{Reach, here}
use nexusflow.Lifecycle.Safety.{Reach-terminal}
use nexusflow.Orchestration.Pass.{
  Setting, World, Pass, for_each, look, transact, done, now, continue_with, later, ◌>>=◌, ◌>>◌,
}
use nexusflow.Orchestration.Follows.{OnlyTransacts, Follows-for_each, continue_with-Reach}
use nexusflow.Orchestration.Scheduler.Drain.{
  tasks_of, workflow_row, cancel_unstarted, drain_attempts, drain_tasks, drain_row, drain_workflow,
}
use nexusflow.Orchestration.Scheduler.Transacts.Drain.{
  cancel_unstarted-Follows, drain_attempts-Follows,
}
use nexusflow.Guarantees.Drained.{Waits, commit-Drains, other_Waits, this_cancelled}

-- No other transaction comes between.
abbrev pub Undisturbed : Setting → Type 0
Undisturbed setting = (i : ℕ) (db : Db) → setting.others i db ≡ db

-- The task is in its table, and CANCELLED.
pub record Cancelled (task_id : ℕ) (db : Db) : Type 0 where
  pub row : TaskExecutionRecord
  pub found : select_first (is_task task_id) db.tasks ≡ some row
  pub cancelled : row.state ≡ TaskState.cancelled

stays-Cancelled :
    (task_id : ℕ) (db db' : Db) → Cancelled task_id db → Reach db db' → Cancelled task_id db'
stays-Cancelled task_id db db' c reach = record {
  row = c.row;
  found = Reach-terminal reach task_id c.row c.found (rw c.cancelled refl);
  cancelled = c.cancelled;
}

module _ (setting : Setting) (undisturbed : Undisturbed setting) (workflow_id : ℕ) where
  only : OnlyTransacts setting
  only i db = subst (Reach db) (sym (undisturbed i db)) here

  module _ (task_id now_utc : ℕ) (t : TaskExecutionRecord)
      (unstarted : TaskState.is_unstarted t.state ≡ true) where
    abbrev body : TaskExecutionRecord → Pass (Unit {0})
    body = cancel_unstarted setting workflow_id now_utc

    abbrev drained : TaskExecutionRecord → World → Db
    drained r w =
        (commit_drain_task_cancellation r.task_execution_id r.revision now_utc
          (setting.others w.instant w.db)).1

    body_drains :
        (r : TaskExecutionRecord) (w : World)
        → TaskState.is_unstarted r.state ≡ true
        → body r w ≡ (ok tt, later setting (drained r w) w)
    unfolding cancel_unstarted transact
    body_drains r w e = rw e refl

    body_passes :
        (r : TaskExecutionRecord) (w : World)
        → TaskState.is_unstarted r.state ≡ false
        → body r w ≡ (ok tt, w)
    unfolding cancel_unstarted done
    body_passes r w e = rw e refl

    rest_of :
        (rs : List TaskExecutionRecord) (r : TaskExecutionRecord) (w w' : World)
        → body r w ≡ (ok tt, w')
        → for_each (r ∷ rs) body w ≡ for_each rs body w'
    unfolding for_each ◌>>◌
    rest_of rs r w w' e = ap (λ x. continue_with x (λ y. for_each rs body)) e

    this_one :
        (db : Db)
        → Waits task_id now_utc t unstarted db
        → Cancelled task_id
            (commit_drain_task_cancellation t.task_execution_id t.revision now_utc db).1
    this_one db waits =
        let here = select_first-satisfies (is_task task_id) db.tasks t waits.found in
        let same : t.task_execution_id ≡ task_id = ground (arith, here) in
        record {
          row = drain_task_set now_utc t;
          found =
              subst
                (λ id.
                  select_first (is_task task_id)
                    (commit_drain_task_cancellation id t.revision now_utc db).1.tasks
                  ≡ some (drain_task_set now_utc t))
                (sym same) (this_cancelled task_id now_utc t unstarted db waits);
          cancelled = refl;
        }

    this_row :
        (rs : List TaskExecutionRecord) (w : World)
        → Waits task_id now_utc t unstarted w.db
        → Cancelled task_id (for_each (t ∷ rs) body w).1.db
    this_row rs w waits =
        let rest =
          Follows-for_each rs body (cancel_unstarted-Follows setting only workflow_id now_utc) in
        let found =
          this_one (setting.others w.instant w.db)
            (subst (Waits task_id now_utc t unstarted) (sym (undisturbed w.instant w.db)) waits) in
        rw (rest_of rs t w _ (body_drains t w unstarted))
          (stays-Cancelled task_id _ _ found (rest.reaches _))

    all_rows :
        (rows : List TaskExecutionRecord) (w : World)
        → select_first (is_task task_id) rows ≡ some t
        → Waits task_id now_utc t unstarted w.db
        → Cancelled task_id (for_each rows body w).1.db
    unfolding select_first
    all_rows [] w e waits = absurd (cc)
    all_rows (r ∷ rs) w e waits = elim (Bool-cases (is_task task_id r)) [
      | inl this ↦
          let same : r ≡ t = some-injective r t (sym (rw this refl) ∙ e) in
          subst (λ x. Cancelled task_id (for_each (x ∷ rs) body w).1.db) (sym same)
            (this_row rs w waits)
      | inr other ↦
          let later_on : select_first (is_task task_id) rs ≡ some t = sym (rw other refl) ∙ e in
          elim (Bool-cases (TaskState.is_unstarted r.state)) [
            | inl waiting ↦ rw (rest_of rs r w _ (body_drains r w waiting)) (
                all_rows rs _ later_on (
                  other_Waits task_id now_utc t unstarted r.task_execution_id r.revision
                    (setting.others w.instant w.db) (drained r w) (ground (arith, other))
                    (commit-Drains r.task_execution_id r.revision now_utc
                      (setting.others w.instant w.db))
                    (subst (Waits task_id now_utc t unstarted) (sym (undisturbed w.instant w.db))
                      waits)))
            | inr settled ↦
                rw (rest_of rs r w w (body_passes r w settled)) (all_rows rs w later_on waits)
          ]
    ]

  select_first-select_all :
      (p q : TaskExecutionRecord → Bool) (xs : List TaskExecutionRecord) (x : TaskExecutionRecord)
      → q x ≡ true
      → select_first p xs ≡ some x
      → select_first p (select_all q xs) ≡ some x
  unfolding select_first select_all
  select_first-select_all p q [] x h e = absurd (cc)
  select_first-select_all p q (y ∷ ys) x h e = elim (Bool-cases (p y)) [
    | inl this ↦
        let same : y ≡ x = some-injective y x (sym (rw this refl) ∙ e) in
        let kept : q y ≡ true = ap q same ∙ h in rw kept (rw this (ap some same))
    | inr other ↦
        let ih = select_first-select_all p q ys x h (sym (rw other refl) ∙ e) in
        elim (Bool-cases (q y)) [ inl kept ↦ rw kept (rw other ih) | inr left ↦ rw left ih ]
  ]

  module _ (task_id : ℕ) (t : TaskExecutionRecord)
      (unstarted : TaskState.is_unstarted t.state ≡ true)
      (member : t.workflow_execution_id ≡ workflow_id) where
    tasks-Cancelled :
        (state : WorkflowState) (w : World)
        → Waits task_id (setting.clock (w.instant + 1)) t unstarted w.db
        → Cancelled task_id (drain_tasks setting workflow_id state w).1.db
    unfolding drain_tasks look now ◌>>=◌ ◌>>◌
    tasks-Cancelled state w waits =
        let now_utc : ℕ = setting.clock (w.instant + 1) in
        let db : Db = setting.others w.instant w.db in
        let rows : List TaskExecutionRecord = tasks_of workflow_id db in
        let w1 : World = later setting db w in
        let w2 : World = later setting db w1 in
        let waits' =
          subst (Waits task_id now_utc t unstarted) (sym (undisturbed w.instant w.db)) waits in
        let listed =
          select_first-select_all (is_task task_id) (λ x. x.workflow_execution_id == workflow_id)
            db.tasks t (ground (arith, member)) waits'.found in
        let loop = all_rows task_id now_utc t unstarted rows w2 listed waits' in
        let result : Result (Unit {0}) × World =
          for_each rows (cancel_unstarted setting workflow_id now_utc) w2 in
        stays-Cancelled task_id result.1.db _ loop (
          continue_with-Reach (λ x. drain_attempts setting workflow_id state now_utc)
            (λ x. drain_attempts-Follows setting only workflow_id state now_utc) result.1.db
            result.0 result.1 here)

    -- A drain of a workflow that is FAILING or CANCELLING, between whose accesses no other transaction
    -- comes, leaves each task of the workflow CANCELLED that was PENDING, RUNNABLE or RETRY_WAIT.
    pub drain_workflow-Cancelled :
        (w : World) (wf : WorkflowExecutionRecord)
        → workflow_row workflow_id w.db ≡ some wf
        → WorkflowState.is_draining wf.state ≡ true
        → select_first (is_task task_id) w.db.tasks ≡ some t
        → Cancelled task_id (drain_workflow setting workflow_id w).1.db
    unfolding drain_workflow drain_row look ◌>>=◌
    drain_workflow-Cancelled w wf found draining at_t =
        let same = undisturbed w.instant w.db in
        let w1 : World = later setting (setting.others w.instant w.db) w in
        let now_utc : ℕ = setting.clock (w1.instant + 1) in
        let waits : Waits task_id now_utc t unstarted w.db = record {
          found = at_t;
          draining =
              ap (λ id. state_in WorkflowState.is_draining (workflow_state id w.db)) member
              ∙ ap (λ r. state_in WorkflowState.is_draining (Option.map (λ x. x.state) r)) found
              ∙ draining;
        } in
        subst (λ r. Cancelled task_id (drain_row setting workflow_id r w1).1.db)
          (sym (ap (workflow_row workflow_id) same ∙ found))
          (rw draining (
            tasks-Cancelled wf.state w1
              (subst (Waits task_id now_utc t unstarted) (sym same) waits)))
