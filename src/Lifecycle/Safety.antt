-- ===== src/Lifecycle/Safety.antt =====
-- src/nexusflow/persistence/transactions.py: what holds of tasks and attempts after any sequence of
-- transactions, from a database without tasks and attempts.
use nexusflow.Base.{
  ℕ, ◌≤◌, ◌<◌, ◌≡◌, ◌⊎◌, inl, inr, sym, ap, ◌∙◌, subst, true, false, some, [], arith, All, All-map,
}
use mathlib.Core.Option.{some-injective}
use nexusflow.Domain.Json.{PyValue}
use nexusflow.Domain.TaskState
use nexusflow.Store.Table.{row_count, select_first}
use nexusflow.Store.Table.Laws.{select_first-All}
use nexusflow.Store.Records.{Db, TaskExecutionRecord, ExecutionAttemptRecord, is_task}
use nexusflow.Transactions.Ownership.{is_active_of}
use nexusflow.Lifecycle.Moves.{Moves, IsSound}
use nexusflow.Lifecycle.Consistent.{Consistent, IsConsistent, IsIssued}
use nexusflow.Lifecycle.Consistent.Keep.{Effect-Consistent}
use nexusflow.Lifecycle.Step.{Step, Reach, here, then_step}
use nexusflow.Lifecycle.Step.Effects.{Step-HasEffect}
use nexusflow.Lifecycle.Evolve.{Effect-Advances, Reach-Found}

empty-Consistent : Consistent [] []
unfolding row_count
empty-Consistent = record {
  key = λ id. omega arith;
  sound = tt;
  single = λ id. omega arith;
  held = λ id busy. absurd (omega arith);
  issued = tt;
}

pub Reach-IsConsistent : {start db : Db} → Reach start db → IsConsistent start → IsConsistent db
Reach-IsConsistent here c = c
Reach-IsConsistent (then_step before step) c =
    Effect-Consistent (Step-HasEffect step).tables (Reach-IsConsistent before c)

-- A database without tasks and attempts.
pub record IsEmpty (db : Db) : Type 0 where
  pub tasks : db.tasks ≡ []
  pub attempts : db.attempts ≡ []

pub IsEmpty-Consistent : {start db : Db} → IsEmpty start → Reach start db → IsConsistent db
IsEmpty-Consistent {start} empty reach = Reach-IsConsistent reach (
    subst (λ as_. Consistent start.tasks as_) (sym empty.attempts)
      (subst (λ ts. Consistent ts []) (sym empty.tasks) empty-Consistent))

-- From a database without tasks and attempts, after any sequence of transactions, a task that has an
-- active attempt has exactly one, is in its table, and is RUNNING.
pub Reach-single_active :
    {start db : Db}
    → IsEmpty start
    → Reach start db
    → (task_id : ℕ) → 0 < row_count (is_active_of task_id) db.attempts
    → (row_count (is_active_of task_id) db.attempts ≡ 1)
      × (t : TaskExecutionRecord) × (select_first (is_task task_id) db.tasks ≡ some t)
      × (t.state ≡ TaskState.running)
Reach-single_active empty reach task_id busy =
    let c = IsEmpty-Consistent empty reach in
    let h = c.held task_id busy in (omega (arith, c.single task_id), h.task, h.found, h.running)

module _ (db : Db) (c : IsConsistent db) where
  issued_within_budget :
      (a : ExecutionAttemptRecord)
      → IsIssued db.tasks a
      → (t : TaskExecutionRecord) × (select_first (is_task a.task_execution_id) db.tasks ≡ some t)
        × (1 ≤ a.attempt_ordinal)
        × (a.attempt_ordinal ≤ t.max_attempts)
  issued_within_budget a i =
      let s =
        select_first-All IsSound (is_task a.task_execution_id) db.tasks i.task c.sound i.found in
      (i.task, i.found, i.from_one, omega (arith, i.given_out, s.budget))

-- From a database without tasks and attempts, after any sequence of transactions, the ordinal of
-- every attempt is at least 1 and at most the max_attempts of its task, which is in its table.
pub Reach-budget :
    {start db : Db}
    → IsEmpty start
    → Reach start db
    → All
        (λ a.
          (t : TaskExecutionRecord) × (select_first (is_task a.task_execution_id) db.tasks ≡ some t)
          × (1 ≤ a.attempt_ordinal)
          × (a.attempt_ordinal ≤ t.max_attempts))
        db.attempts
Reach-budget {db = db} empty reach =
    let c = IsEmpty-Consistent empty reach in
    All-map (IsIssued db.tasks) _ db.attempts (issued_within_budget db c) c.issued

-- From a database without tasks and attempts, after any sequence of transactions, a task row that is
-- SUCCEEDED has an output that is not NULL.
pub Reach-output :
    {start db : Db}
    → IsEmpty start
    → Reach start db
    → (task_id : ℕ) (t : TaskExecutionRecord) → select_first (is_task task_id) db.tasks ≡ some t
    → TaskState.is_succeeded t.state ≡ true
    → (v : PyValue) × (t.task_output ≡ some v)
Reach-output {db = db} empty reach task_id t e =
    (select_first-All IsSound (is_task task_id) db.tasks t (IsEmpty-Consistent empty reach).sound
      e).output

-- A transaction leaves each task row as it was, or moves it along one edge of the task lifecycle,
-- adds one to its revision, keeps its id, workflow, definition and budget of attempts, and adds one
-- to its next ordinal exactly if it becomes RUNNING.
pub Step-Moves :
    {db db' : Db}
    → Step db db'
    → (task_id : ℕ) (t : TaskExecutionRecord) → select_first (is_task task_id) db.tasks ≡ some t
    → (u : TaskExecutionRecord) × (select_first (is_task task_id) db'.tasks ≡ some u)
      × ((u ≡ t) ⊎ Moves t u)
Step-Moves step task_id t e =
    let next = Effect-Advances task_id t (Step-HasEffect step).tables e in
    (next.row, next.found, next.moved)

module _ {db db' : Db} (reach : Reach db db') (task_id : ℕ) (t : TaskExecutionRecord)
    (before : select_first (is_task task_id) db.tasks ≡ some t) where
  -- A task row that is SUCCEEDED, FAILED or CANCELLED is the same after any sequence of transactions.
  pub Reach-terminal :
      TaskState.is_terminal t.state ≡ true → select_first (is_task task_id) db'.tasks ≡ some t
  Reach-terminal terminal =
      let f = Reach-Found task_id t reach before in f.found ∙ ap some (f.descends.frozen terminal)

  -- After any sequence of transactions, a task row that has the revision it had before is the row
  -- that it was: an update under an expected revision meets the row that was read.
  pub Reach-revision :
      (u : TaskExecutionRecord)
      → select_first (is_task task_id) db'.tasks ≡ some u
      → u.revision ≡ t.revision
      → u ≡ t
  Reach-revision u after same =
      let f = Reach-Found task_id t reach before in
      let is_row : u ≡ f.row = some-injective _ _ (sym after ∙ f.found) in
      elim f.descends.revisions [
        | inl unchanged ↦ is_row ∙ unchanged
        | inr later ↦ absurd (omega (arith, same, later, ap (λ x. x.revision) is_row))
      ]

  -- Once a task row is not PENDING, its stable input is the same after any sequence of transactions,
  -- so that all attempts of the task run on one input.
  pub Reach-stable_input :
      TaskState.is_pending t.state ≡ false
      → (u : TaskExecutionRecord) → select_first (is_task task_id) db'.tasks ≡ some u
      → u.stable_input ≡ t.stable_input
  Reach-stable_input started u after =
      let f = Reach-Found task_id t reach before in
      ap (λ x. x.stable_input) (some-injective _ _ (sym after ∙ f.found))
      ∙ (f.descends.started started).1
