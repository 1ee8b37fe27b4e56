-- ===== src/Interfaces/Callback/Whole.antt =====
-- src/nexusflow/interfaces/http/routes/worker.py: what it is for a callback to settle its
-- attempt and the task of it, or to change nothing.
use nexusflow.Base.{
  ℕ, ◌≡◌, ◌⊎◌, inl, inr, refl, sym, ◌∙◌, subst, Bool, true, not, ◌&&◌, ◌==◌, some, List, [], ◌∷◌,
  any, arith, Bool-cases,
}
use nexusflow.Domain.TaskState
use nexusflow.Domain.AttemptState
use nexusflow.Store.Table.{select_first, update_where}
use nexusflow.Store.Records.{Db, TaskExecutionRecord, ExecutionAttemptRecord, is_attempt, is_task}
use nexusflow.Transactions.Outcome.{CommitStatus, committed}
use nexusflow.Interfaces.Callback.{
  FollowUp, Ending, Reply, accepted, refused, raises, commits, if_committed,
}

abbrev pub is_settled_attempt : ℕ → ℕ → ExecutionAttemptRecord → Bool
is_settled_attempt attempt_id task_id a =
    is_attempt attempt_id a && a.task_execution_id == task_id && AttemptState.is_terminal a.state

abbrev pub is_settled_task : ℕ → TaskExecutionRecord → Bool
is_settled_task task_id t = is_task task_id t && not (TaskState.is_running t.state)

-- The attempt is in a terminal state, and its task is not RUNNING.
pub record IsTogether (attempt_id : ℕ) (db : Db) : Type 0 where
  pub task_id : ℕ
  pub attempt : any (is_settled_attempt attempt_id task_id) db.attempts ≡ true
  pub task : any (is_settled_task task_id) db.tasks ≡ true

-- The database is as it was, or has the attempt and its task settled.
abbrev pub IsWhole : ℕ → Db → Db → Type 0
IsWhole attempt_id db db' = (db' ≡ db) ⊎ IsTogether attempt_id db'

-- A refusal leaves the database as it was.
abbrev pub AnswersWhole : ℕ → Db → Reply × Db → Type 0
AnswersWhole attempt_id db (accepted follow_up, db') = IsWhole attempt_id db db'
AnswersWhole attempt_id db (refused error, db') = db' ≡ db

abbrev pub EndsWhole : ℕ → Db → Ending → Type 0
EndsWhole attempt_id db (raises error) = Unit {0}
EndsWhole attempt_id db (commits follow_up written) = IsWhole attempt_id db written

any_updated {ℓ} :
    {A : Type ℓ} (q p : A → Bool) (f : A → A) (xs : List A) (x : A)
    → ((y : A) → p y ≡ true → q (f y) ≡ true)
    → select_first p xs ≡ some x
    → any q (update_where p f xs) ≡ true
unfolding select_first update_where
any_updated q p f [] x h e = absurd (cc)
any_updated q p f (y ∷ ys) x h e = elim (Bool-cases (p y)) [
  | inl hit ↦ rw hit (rw (h y hit) refl)
  | inr miss ↦
      let rest = any_updated q p f ys x h (sym (rw miss refl) ∙ e) in ground (arith, miss, rest)
]

module _ (attempt_id : ℕ) (db : Db) where
  pub if_whole :
      (status : CommitStatus) (follow_up : FollowUp) (written : Db)
      → IsWhole attempt_id db written
      → EndsWhole attempt_id db (if_committed status (commits follow_up written))
  if_whole committed follow_up written whole = whole
  if_whole _ follow_up written whole = tt

  -- Two updates that each find a row, of the attempt and of its task.
  pub together :
      (task_id : ℕ) (p : ExecutionAttemptRecord → Bool)
      (f : ExecutionAttemptRecord → ExecutionAttemptRecord) (q : TaskExecutionRecord → Bool)
      (g : TaskExecutionRecord → TaskExecutionRecord) (a : ExecutionAttemptRecord)
      (t : TaskExecutionRecord)
      → ((y : ExecutionAttemptRecord)
          → p y ≡ true
          → is_settled_attempt attempt_id task_id (f y) ≡ true)
      → ((y : TaskExecutionRecord) → q y ≡ true → is_settled_task task_id (g y) ≡ true)
      → select_first p db.attempts ≡ some a
      → select_first q db.tasks ≡ some t
      → (written : Db) → written.attempts ≡ update_where p f db.attempts
      → written.tasks ≡ update_where q g db.tasks
      → IsTogether attempt_id written
  together task_id p f q g a t hp hq at_a at_t written attempts tasks = record {
    task_id = task_id;
    attempt =
        subst (λ xs. any (is_settled_attempt attempt_id task_id) xs ≡ true) (sym attempts)
          (any_updated (is_settled_attempt attempt_id task_id) p f db.attempts a hp at_a);
    task =
        subst (λ xs. any (is_settled_task task_id) xs ≡ true) (sym tasks)
          (any_updated (is_settled_task task_id) q g db.tasks t hq at_t);
  }
