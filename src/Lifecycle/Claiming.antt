-- ===== src/Lifecycle/Claiming.antt =====
-- src/nexusflow/persistence/transactions.py: the claim of a task, on the databases that transactions
-- reach.
use mathlib.Core.Option.{some-injective}
use nexusflow.Base.{
  ℕ, ◌≤◌, ◌<◌, ◌≡◌, inl, inr, refl, sym, ap, ◌∙◌, subst, true, false, Option, none, some, List, [],
  ◌∷◌, ◌++◌, ◌==◌, ◌&&◌, arith, All, ok, any, Bool-cases, ==_iff, Option-cases,
}
use nexusflow.Domain.WorkflowState
use nexusflow.Domain.TaskState
use nexusflow.Store.Table.{row_count, select_first, update_where}
use nexusflow.Store.Table.Laws.{
  any_of_row_count, select_first_unique, select_first-satisfies, select_first-All,
}
use nexusflow.Store.Records.{Db, TaskExecutionRecord, ExecutionAttemptRecord, is_task, is_attempt}
use nexusflow.Transactions.Outcome.{
  CommitStatus, committed, precondition_failed, occ_conflict, update_tasks, add_history,
  history_entry, workflow_state, state_in,
}
use nexusflow.Transactions.Ownership.{
  commit_attempt_ownership, claim, is_active_of, attempt_clash, ownership_where, ownership_set,
  new_attempt,
}
use nexusflow.Lifecycle.Moves.{IsSound}
use nexusflow.Lifecycle.Consistent.{IsConsistent, IsIssued}
use nexusflow.Lifecycle.Step.{Reach}
use nexusflow.Lifecycle.Safety.{IsEmpty, IsEmpty-Consistent}

module _ (task_id session attempt_id deadline now : ℕ) (ts : List TaskExecutionRecord)
    (t : TaskExecutionRecord) (e : select_first (is_task task_id) ts ≡ some t) where
  issued_apart :
      (a : ExecutionAttemptRecord)
      → IsIssued ts a
      → (a.task_execution_id == task_id && a.attempt_ordinal == t.next_attempt_ordinal) ≡ false
  issued_apart a i = elim (Bool-cases (a.task_execution_id == task_id)) [
    | inl same ↦
        let found : select_first (is_task task_id) ts ≡ some i.task =
          subst (λ k. select_first (is_task k) ts ≡ some i.task)
            ((==_iff a.task_execution_id task_id).0 same) i.found in
        let is_row : i.task ≡ t = some-injective _ _ (sym found ∙ e) in
        ground (arith, i.given_out, ap (λ x. x.next_attempt_ordinal) is_row)
    | inr other ↦ rw other refl
  ]

  no_clash :
      (as_ : List ExecutionAttemptRecord)
      → All (IsIssued ts) as_
      → any (is_attempt attempt_id) as_ ≡ false
      → any (is_active_of task_id) as_ ≡ false
      → any
          (attempt_clash
            (new_attempt task_id t.next_attempt_ordinal session attempt_id deadline now))
          as_
        ≡ false
  no_clash [] h fresh free = refl
  no_clash (a ∷ as_) h fresh free = ground (arith, issued_apart a h.0, no_clash as_ h.1)

module _ (db : Db) (c : IsConsistent db) (task_id : ℕ) (t : TaskExecutionRecord)
    (e : select_first (is_task task_id) db.tasks ≡ some t) where
  -- A task that is not RUNNING has no active attempt.
  not_held : TaskState.is_running t.state ≡ false → any (is_active_of task_id) db.attempts ≡ false
  not_held idle = any_of_row_count (is_active_of task_id) db.attempts (ground (arith, busy))
    where
      busy : 0 < row_count (is_active_of task_id) db.attempts → ⊥
      busy b =
          let h = c.held task_id b in
          let is_row : h.task ≡ t = some-injective _ _ (sym h.found ∙ e) in
          ground (arith, ap (λ x. x.state) is_row, h.running, idle)

module _ (db : Db) (c : IsConsistent db)
    (task_id revision workflow_id session attempt_id deadline now : ℕ) (t : TaskExecutionRecord)
    (e : select_first (ownership_where task_id revision workflow_id) db.tasks ≡ some t) where
  claimed_row : select_first (is_task task_id) db.tasks ≡ some t
  claimed_row =
      select_first_unique (ownership_where task_id revision workflow_id) (is_task task_id) db.tasks
        t (λ y h. ground arith) (c.key task_id) e

  claimed_runnable : TaskState.is_runnable t.state ≡ true
  claimed_runnable =
      ground
        (arith, select_first-satisfies (ownership_where task_id revision workflow_id) db.tasks t e)

  claim_free : any (is_active_of task_id) db.attempts ≡ false
  claim_free = not_held db c task_id t claimed_row (ground (arith, claimed_runnable))

  claim_in_budget : t.next_attempt_ordinal ≤ t.max_attempts
  claim_in_budget =
      (select_first-All IsSound (is_task task_id) db.tasks t c.sound claimed_row).room
        (ground (arith, claimed_runnable))

  claim-committed :
      any (is_attempt attempt_id) db.attempts ≡ false
      → state_in WorkflowState.is_running (workflow_state workflow_id db) ≡ true
      → commit_attempt_ownership task_id revision workflow_id session attempt_id deadline now db
        ≡ ok (
          (committed, some t.next_attempt_ordinal),
          add_history
              (history_entry workflow_id (some task_id) (some attempt_id) "TaskClaimedByWorker" now)
              (record db {
                tasks =
                    update_where
                      (ownership_where task_id revision workflow_id)
                      (ownership_set now)
                      db.tasks;
                attempts =
                    db.attempts
                    ++ new_attempt task_id t.next_attempt_ordinal session attempt_id deadline now
                      ∷ [];
              }),
        )
  unfolding commit_attempt_ownership
  claim-committed fresh runs =
      rw
        (
          runs,
          claim_free,
          e,
          no_clash task_id session attempt_id deadline now db.tasks t claimed_row db.attempts
              c.issued fresh claim_free,
          claim,
        )
        refl

module _ {start db : Db} (empty : IsEmpty start) (reach : Reach start db)
    (task_id revision workflow_id session attempt_id deadline now : ℕ)
    (fresh : any (is_attempt attempt_id) db.attempts ≡ false) where
  -- On a database that transactions reach from one without tasks and attempts, a claim under an
  -- unused attempt id that finds its task RUNNABLE at the expected revision in a RUNNING workflow is
  -- COMMITTED with the next ordinal of the task, which is within max_attempts; it makes the task
  -- RUNNING, adds the CLAIMED attempt and one history entry, and changes nothing else.
  pub commit_attempt_ownership-committed :
      (t : TaskExecutionRecord)
      → state_in WorkflowState.is_running (workflow_state workflow_id db) ≡ true
      → select_first (ownership_where task_id revision workflow_id) db.tasks ≡ some t
      → (commit_attempt_ownership task_id revision workflow_id session attempt_id deadline now db
          ≡ ok (
            (committed, some t.next_attempt_ordinal),
            add_history
                (history_entry workflow_id
                  (some task_id)
                  (some attempt_id)
                  "TaskClaimedByWorker"
                  now)
                (record db {
                  tasks =
                      update_where
                        (ownership_where task_id revision workflow_id)
                        (ownership_set now)
                        db.tasks;
                  attempts =
                      db.attempts
                      ++ new_attempt task_id t.next_attempt_ordinal session attempt_id deadline now
                        ∷ [];
                }),
          ))
        × (t.next_attempt_ordinal ≤ t.max_attempts)
  commit_attempt_ownership-committed t runs e =
      let c = IsEmpty-Consistent empty reach in
      (
        claim-committed db c task_id revision workflow_id session attempt_id deadline now t e fresh
            runs,
        claim_in_budget db c task_id revision workflow_id session attempt_id deadline now t e,
      )

  -- On a database that transactions reach from one without tasks and attempts, a claim under an
  -- unused attempt id raises no IntegrityError, whatever its other arguments are.
  pub commit_attempt_ownership-returns :
      (outcome : (CommitStatus × Option ℕ) × Db) × (commit_attempt_ownership task_id revision
          workflow_id session attempt_id deadline now db
        ≡ ok outcome)
  unfolding commit_attempt_ownership
  commit_attempt_ownership-returns =
      elim (Bool-cases (state_in WorkflowState.is_running (workflow_state workflow_id db))) [
        | inr stopped ↦ (((precondition_failed, none), db), rw stopped refl)
        | inl runs ↦ elim (Bool-cases (any (is_active_of task_id) db.attempts)) [
          | inl busy ↦ (((precondition_failed, none), db), rw (runs, busy) refl)
          | inr free ↦
              elim (Option-cases
                (select_first (ownership_where task_id revision workflow_id) db.tasks)) [
                  | inl missing ↦ (
                    (
                      (occ_conflict, none),
                      (update_tasks (ownership_where task_id revision workflow_id)
                          (ownership_set now) db).1,
                    ),
                    rw (runs, free, missing) refl,
                  )
                  | inr (t, e) ↦ (_, (commit_attempt_ownership-committed t runs e).0)
                ]
        ]
      ]
