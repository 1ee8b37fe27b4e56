-- ===== src/Lifecycle/Consistent.antt =====
-- The consistency of the tables of tasks and attempts, which every effect keeps.
pub mod Updates
mod Inserts
pub mod Keep
use mathlib.Core.Option
use nexusflow.Base.{ℕ, ◌+◌, ◌≤◌, ◌<◌, ◌≡◌, Bool, Option, none, some, List, All}
use nexusflow.Domain.TaskState
use nexusflow.Domain.TaskState.{TaskState}
use nexusflow.Store.Table.{row_count, select_first}
use nexusflow.Store.Records.{Db, TaskExecutionRecord, ExecutionAttemptRecord, is_task}
use nexusflow.Transactions.Ownership.{is_active_of}
use nexusflow.Lifecycle.Moves.{IsSound}

-- The task of this id is there, and is RUNNING.
pub record IsHeld (ts : List TaskExecutionRecord) (id : ℕ) : Type 0 where
  pub task : TaskExecutionRecord
  pub found : select_first (is_task id) ts ≡ some task
  pub running : task.state ≡ TaskState.running

-- An attempt has an ordinal from 1 on that its task has given out.
pub record IsIssued (ts : List TaskExecutionRecord) (a : ExecutionAttemptRecord) : Type 0 where
  pub task : TaskExecutionRecord
  pub found : select_first (is_task a.task_execution_id) ts ≡ some task
  pub from_one : 1 ≤ a.attempt_ordinal
  pub given_out : a.attempt_ordinal < task.next_attempt_ordinal

pub record Consistent (ts : List TaskExecutionRecord) (as_ : List ExecutionAttemptRecord)
    : Type 0 where
  -- the primary key of task_executions
  pub key : (id : ℕ) → row_count (is_task id) ts ≤ 1
  pub sound : All IsSound ts
  -- at most one active attempt of a task
  pub single : (id : ℕ) → row_count (is_active_of id) as_ ≤ 1
  -- a task with an active attempt is RUNNING
  pub held : (id : ℕ) → 0 < row_count (is_active_of id) as_ → IsHeld ts id
  pub issued : All (IsIssued ts) as_

abbrev pub IsConsistent : Db → Type 0
IsConsistent db = Consistent db.tasks db.attempts
