-- ===== src/Lifecycle/Consistent/Updates.antt =====
-- Updates of the two tables keep them consistent.
use nexusflow.Base.{ℕ, ◌≤◌, ◌<◌, ◌≡◌, Bool, true, false, some, List, All-map, arith, if◌then◌else◌}
use nexusflow.Domain.TaskState
use nexusflow.Store.Table.{update_where, row_count, select_first}
use nexusflow.Store.Table.Laws.{
  select_first-update_where, row_count-update_leave, row_count-update_le, All-update_where,
  select_first-satisfies, row_count-pos,
}
use nexusflow.Store.Records.{TaskExecutionRecord, ExecutionAttemptRecord, is_task}
use nexusflow.Transactions.Ownership.{is_active_of}
use nexusflow.Lifecycle.Moves.{IsSound}
use nexusflow.Lifecycle.Effect.{TaskChange, AttemptChange}
use nexusflow.Lifecycle.Consistent.{IsHeld, IsIssued, Consistent}

module _ {p : TaskExecutionRecord → Bool} {f : TaskExecutionRecord → TaskExecutionRecord}
    (change : TaskChange p f) where
  -- The task of an id, after the update.
  pub found_after :
      (ts : List TaskExecutionRecord) (id : ℕ) (t : TaskExecutionRecord)
      → select_first (is_task id) ts ≡ some t
      → select_first (is_task id) (update_where p f ts) ≡ some (if p t then f t else t)
  found_after ts id t e =
      select_first-update_where (is_task id) p f ts t (λ x. ground (arith, change.keeps_id x)) e

  IsIssued-change :
      (ts : List TaskExecutionRecord) (a : ExecutionAttemptRecord)
      → IsIssued ts a
      → IsIssued (update_where p f ts) a
  IsIssued-change ts a h = record {
    task = if p h.task then f h.task else h.task;
    found = found_after ts a.task_execution_id h.task h.found;
    from_one = h.from_one;
    given_out = ground (arith, change.keeps_ordinals h.task, h.given_out);
  }

  key-change :
      (ts : List TaskExecutionRecord) (id : ℕ)
      → row_count (is_task id) ts ≤ 1
      → row_count (is_task id) (update_where p f ts) ≤ 1
  key-change ts id h =
      omega (
        arith,
        row_count-update_le (is_task id) p f ts (λ x e e'. ground (arith, change.keeps_id x)),
      )

  -- The task of an id stays RUNNING where the rows of that id that the update finds do.
  IsHeld-change :
      (ts : List TaskExecutionRecord) (id : ℕ)
      → ((t : TaskExecutionRecord)
          → p t ≡ true
          → is_task id t ≡ true
          → TaskState.is_running t.state ≡ true
          → ⊥)
      → IsHeld ts id
      → IsHeld (update_where p f ts) id
  IsHeld-change ts id apart h = record {
    task = if p h.task then f h.task else h.task;
    found = found_after ts id h.task h.found;
    running =
        ground
          (arith, apart h.task, h.running, select_first-satisfies (is_task id) ts h.task h.found);
  }

  -- An update of tasks that finds no RUNNING task with an active attempt.
  pub Consistent-change :
      (ts : List TaskExecutionRecord) (as_ : List ExecutionAttemptRecord)
      → ((t : TaskExecutionRecord) (id : ℕ)
          → p t ≡ true
          → is_task id t ≡ true
          → 0 < row_count (is_active_of id) as_
          → TaskState.is_running t.state ≡ true
          → ⊥)
      → Consistent ts as_
      → Consistent (update_where p f ts) as_
  Consistent-change ts as_ apart c = record {
    key = λ id. key-change ts id (c.key id);
    sound = All-update_where IsSound p f ts change.sound c.sound;
    single = c.single;
    held = λ id busy. IsHeld-change ts id (λ t e e' r. apart t id e e' busy r) (c.held id busy);
    issued =
        All-map (IsIssued ts) (IsIssued (update_where p f ts)) as_ (IsIssued-change ts) c.issued;
  }

module _ {q : ExecutionAttemptRecord → Bool} {g : ExecutionAttemptRecord → ExecutionAttemptRecord}
    (change : AttemptChange q g) where
  active-change :
      (as_ : List ExecutionAttemptRecord) (id : ℕ)
      → row_count (is_active_of id) (update_where q g as_) ≤ row_count (is_active_of id) as_
  active-change as_ id =
      row_count-update_le (is_active_of id) q g as_
        (λ a e e'. ground (arith, change.keeps_task a, change.settles a e))

  IsIssued-attempt :
      (ts : List TaskExecutionRecord) (a : ExecutionAttemptRecord)
      → IsIssued ts a
      → IsIssued ts (g a)
  IsIssued-attempt ts a h = record {
    task = h.task;
    found = rw (change.keeps_task a) h.found;
    from_one = rw (change.keeps_ordinal a) h.from_one;
    given_out = rw (change.keeps_ordinal a) h.given_out;
  }

  pub Consistent-attempt :
      (ts : List TaskExecutionRecord) (as_ : List ExecutionAttemptRecord)
      → Consistent ts as_
      → Consistent ts (update_where q g as_)
  Consistent-attempt ts as_ c = record {
    key = c.key;
    sound = c.sound;
    single = λ id. omega (arith, active-change as_ id, c.single id);
    held = λ id busy. c.held id (omega (arith, active-change as_ id));
    issued = All-update_where (IsIssued ts) q g as_ (λ a _. IsIssued-attempt ts a) c.issued;
  }

-- Once its active attempt is settled, a task has none.
pub none_active :
    (id : ℕ) (q : ExecutionAttemptRecord → Bool)
    (g : ExecutionAttemptRecord → ExecutionAttemptRecord) (as_ : List ExecutionAttemptRecord)
    (a : ExecutionAttemptRecord)
    → ((a : ExecutionAttemptRecord) → q a ≡ true → is_active_of id a ≡ true)
    → ((a : ExecutionAttemptRecord) → is_active_of id (g a) ≡ false)
    → row_count (is_active_of id) as_ ≤ 1
    → select_first q as_ ≡ some a
    → row_count (is_active_of id) (update_where q g as_) ≡ 0
none_active id q g as_ a inside gone one e =
    omega
      (arith, row_count-update_leave (is_active_of id) q g as_ inside gone, row_count-pos q as_ a e)
