-- ===== src/Lifecycle/Effect.antt =====
-- What a transaction may do to the tables of tasks and attempts, as a relation.
use nexusflow.Base.{ℕ, ◌≤◌, ◌≡◌, Bool, true, false, some, List, [], ◌∷◌, ◌++◌, any}
use nexusflow.Domain.TaskState
use nexusflow.Domain.AttemptState
use nexusflow.Store.Table.{update_where, select_first}
use nexusflow.Store.Records.{Db, TaskExecutionRecord, ExecutionAttemptRecord, is_task}
use nexusflow.Transactions.Ownership.{is_active_of, ownership_where, ownership_set, new_attempt}
use nexusflow.Lifecycle.Moves.{Moves, IsSound}

-- An update of tasks whose rows make moves.
pub record TaskChange (p : TaskExecutionRecord → Bool)
    (f : TaskExecutionRecord → TaskExecutionRecord) : Type 0 where
  pub keeps_id : (t : TaskExecutionRecord) → (f t).task_execution_id ≡ t.task_execution_id
  pub keeps_ordinals :
      (t : TaskExecutionRecord) → t.next_attempt_ordinal ≤ (f t).next_attempt_ordinal
  pub moves : (t : TaskExecutionRecord) → p t ≡ true → Moves t (f t)
  pub sound : (t : TaskExecutionRecord) → p t ≡ true → IsSound t → IsSound (f t)

-- An update of attempts that makes no settled attempt active.
pub record AttemptChange (p : ExecutionAttemptRecord → Bool)
    (f : ExecutionAttemptRecord → ExecutionAttemptRecord) : Type 0 where
  pub keeps_task : (a : ExecutionAttemptRecord) → (f a).task_execution_id ≡ a.task_execution_id
  pub keeps_ordinal : (a : ExecutionAttemptRecord) → (f a).attempt_ordinal ≡ a.attempt_ordinal
  pub settles :
      (a : ExecutionAttemptRecord)
      → p a ≡ true
      → AttemptState.is_active (f a).state ≡ true
      → AttemptState.is_active a.state ≡ true

-- A row as `commit_task_population` inserts it.
pub record IsNew (t : TaskExecutionRecord) : Type 0 where
  pub is_pending : TaskState.is_pending t.state ≡ true
  pub first : t.next_attempt_ordinal ≡ 1
  pub attempts_allowed : 1 ≤ t.max_attempts

-- Insertions of new task rows, one after the other.
pub data Inserted (ts : List TaskExecutionRecord) : List TaskExecutionRecord → Type 0 where
  nothing : Inserted ts ts
  one_more :
      {us : List TaskExecutionRecord} (t : TaskExecutionRecord)
      → Inserted ts us
      → IsNew t
      → any (is_task t.task_execution_id) us ≡ false
      → Inserted ts (us ++ t ∷ [])

pub data Effect (ts : List TaskExecutionRecord) (as_ : List ExecutionAttemptRecord)
    : List TaskExecutionRecord → List ExecutionAttemptRecord → Type 0 where
  idle : Effect ts as_ ts as_
  -- a task that no attempt holds moves
  move :
      (p : TaskExecutionRecord → Bool) (f : TaskExecutionRecord → TaskExecutionRecord)
      → TaskChange p f
      → ((t : TaskExecutionRecord) → p t ≡ true → TaskState.is_running t.state ≡ false)
      → Effect ts as_ (update_where p f ts) as_
  -- an attempt is written, its task is not
  touch :
      (p : ExecutionAttemptRecord → Bool) (f : ExecutionAttemptRecord → ExecutionAttemptRecord)
      → AttemptChange p f
      → Effect ts as_ ts (update_where p f as_)
  -- the active attempt of a task is settled, and the task moves with it
  settle :
      (id : ℕ) (q : ExecutionAttemptRecord → Bool)
      (g : ExecutionAttemptRecord → ExecutionAttemptRecord) (p : TaskExecutionRecord → Bool)
      (f : TaskExecutionRecord → TaskExecutionRecord)
      → AttemptChange q g
      → ((a : ExecutionAttemptRecord) → q a ≡ true → is_active_of id a ≡ true)
      → ((a : ExecutionAttemptRecord) → is_active_of id (g a) ≡ false)
      → (a : ExecutionAttemptRecord) → select_first q as_ ≡ some a
      → TaskChange p f
      → ((t : TaskExecutionRecord) → p t ≡ true → is_task id t ≡ true)
      → Effect ts as_ (update_where p f ts) (update_where q g as_)
  -- a runnable task is claimed
  own :
      (id revision workflow_id session attempt_id deadline now : ℕ) (t : TaskExecutionRecord)
      → any (is_active_of id) as_ ≡ false
      → select_first (ownership_where id revision workflow_id) ts ≡ some t
      → Effect ts as_
          (update_where (ownership_where id revision workflow_id) (ownership_set now) ts)
          (as_ ++ new_attempt id t.next_attempt_ordinal session attempt_id deadline now ∷ [])
  -- tasks are inserted
  insert : {us : List TaskExecutionRecord} → Inserted ts us → Effect ts as_ us as_

-- The effect of a transaction that takes one database to another.
pub record HasEffect (db db' : Db) : Type 0 where
  pub tables : Effect db.tasks db.attempts db'.tasks db'.attempts

-- The effect of a transaction with this outcome.
pub record Leads {A : Type 0} (db : Db) (outcome : A × Db) : Type 0 where
  pub effect : HasEffect db outcome.1
