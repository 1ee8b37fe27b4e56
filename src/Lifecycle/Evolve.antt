-- ===== src/Lifecycle/Evolve.antt =====
-- src/nexusflow/persistence/transactions.py: what becomes of one task row under a transaction, and
-- under any sequence of transactions.
use nexusflow.Base.{
  ℕ, ◌≤◌, ◌<◌, ◌≡◌, ◌⊎◌, inl, inr, refl, sym, ap, ◌∙◌, subst, Bool, true, false, some, List, arith,
  ◌∷◌, [], if◌then◌else◌, Bool-cases,
}
use nexusflow.Domain.TaskState
use nexusflow.Store.Table.{update_where, select_first}
use nexusflow.Store.Table.Laws.{select_first-update_where, select_first-append}
use nexusflow.Store.Records.{Db, TaskExecutionRecord, ExecutionAttemptRecord, is_task}
use nexusflow.Lifecycle.Moves.{Moves}
use nexusflow.Lifecycle.Effect.{
  TaskChange, Inserted, nothing, one_more, Effect, idle, move, touch, settle, own, insert,
}
use nexusflow.Lifecycle.Changes.{ownership-TaskChange}
use nexusflow.Lifecycle.Step.{Step, Reach, here, then_step}
use nexusflow.Lifecycle.Step.Effects.{Step-HasEffect}

-- The row of this id is still there, and is as it was or has made one move.
pub record Advances (ts : List TaskExecutionRecord) (id : ℕ) (t : TaskExecutionRecord)
    : Type 0 where
  pub row : TaskExecutionRecord
  pub found : select_first (is_task id) ts ≡ some row
  pub moved : (row ≡ t) ⊎ Moves t row

module _ (id : ℕ) (t : TaskExecutionRecord) where
  change-Advances :
      {p : TaskExecutionRecord → Bool} {f : TaskExecutionRecord → TaskExecutionRecord}
      (ts : List TaskExecutionRecord)
      → TaskChange p f
      → select_first (is_task id) ts ≡ some t
      → Advances (update_where p f ts) id t
  change-Advances {p} {f} ts change e = record {
    row = if p t then f t else t;
    found =
        select_first-update_where (is_task id) p f ts t (λ y. ground (arith, change.keeps_id y)) e;
    moved = elim (Bool-cases (p t)) [
      | inl changed ↦ rw changed (inr (change.moves t changed))
      | inr left ↦ rw left (inl refl)
    ];
  }

  pub Inserted-found :
      {ts us : List TaskExecutionRecord}
      → Inserted ts us
      → select_first (is_task id) ts ≡ some t
      → select_first (is_task id) us ≡ some t
  Inserted-found nothing e = e
  Inserted-found (one_more {us} u before new absent) e =
      select_first-append (is_task id) us (u ∷ []) t (Inserted-found before e)

  pub Effect-Advances :
      {ts ts' : List TaskExecutionRecord} {as_ as' : List ExecutionAttemptRecord}
      → Effect ts as_ ts' as'
      → select_first (is_task id) ts ≡ some t
      → Advances ts' id t
  Effect-Advances idle e = record { row = t; found = e; moved = inl refl }
  Effect-Advances {ts} (move p f change quiet) e = change-Advances ts change e
  Effect-Advances (touch p f change) e = record { row = t; found = e; moved = inl refl }
  Effect-Advances {ts} (settle i q g p f change inside gone a at_a tasks of_id) e =
      change-Advances ts tasks e
  Effect-Advances {ts} (own i revision workflow_id session attempt_id deadline now u free at_u) e =
      change-Advances ts (ownership-TaskChange i revision workflow_id now) e
  Effect-Advances (insert new) e = record {
    row = t;
    found = Inserted-found new e;
    moved = inl refl;
  }

-- What a row still has in common with the row it was at some time before.
pub record Descends (t u : TaskExecutionRecord) : Type 0 where
  pub same_id : u.task_execution_id ≡ t.task_execution_id
  pub same_workflow : u.workflow_execution_id ≡ t.workflow_execution_id
  pub same_definition : u.task_definition_id ≡ t.task_definition_id
  pub same_budget : u.max_attempts ≡ t.max_attempts
  pub ordinals : t.next_attempt_ordinal ≤ u.next_attempt_ordinal
  pub revisions : (u ≡ t) ⊎ (t.revision < u.revision)
  pub frozen : TaskState.is_terminal t.state ≡ true → u ≡ t
  pub started :
      TaskState.is_pending t.state ≡ false
      → (TaskState.is_pending u.state ≡ false) × (u.stable_input ≡ t.stable_input)

Descends-refl : (t : TaskExecutionRecord) → Descends t t
Descends-refl t = record {
  same_id = refl;
  same_workflow = refl;
  same_definition = refl;
  same_budget = refl;
  ordinals = omega arith;
  revisions = inl refl;
  frozen = λ e. refl;
  started = λ e. (e, refl);
}

-- A terminal state has no edge.
stays : (t u : TaskExecutionRecord) → TaskState.is_terminal t.state ≡ true → Moves t u → ⊥
stays t u e m = ground (arith, m.edge)

Moves-Descends : (t u v : TaskExecutionRecord) → Descends t u → Moves u v → Descends t v
Moves-Descends t u v d m = record {
  same_id = m.same_id ∙ d.same_id;
  same_workflow = m.same_workflow ∙ d.same_workflow;
  same_definition = m.same_definition ∙ d.same_definition;
  same_budget = m.same_budget ∙ d.same_budget;
  ordinals = ground (arith, m.ordinals, d.ordinals);
  revisions = inr (elim d.revisions [
    | inl same ↦ omega (arith, m.next_revision, ap (λ x. x.revision) same)
    | inr later ↦ omega (arith, m.next_revision, later)
  ]);
  frozen = λ e. absurd (stays u v (ap (λ x. TaskState.is_terminal x.state) (d.frozen e) ∙ e) m);
  started = λ e.
      (ground (arith, m.edge, (d.started e).0), m.input_kept (d.started e).0 ∙ (d.started e).1);
}

-- The row of this id, found later.
pub record Found (db : Db) (id : ℕ) (t : TaskExecutionRecord) : Type 0 where
  pub row : TaskExecutionRecord
  pub found : select_first (is_task id) db.tasks ≡ some row
  pub descends : Descends t row

Step-Found :
    {db db' : Db} (id : ℕ) (t : TaskExecutionRecord) → Step db db' → Found db id t → Found db' id t
Step-Found {db} {db'} id t step f =
    let next = Effect-Advances id f.row (Step-HasEffect step).tables f.found in
    record {
      row = next.row;
      found = next.found;
      descends = elim next.moved [
        | inl same ↦ subst (Descends t) (sym same) f.descends
        | inr moves ↦ Moves-Descends t f.row next.row f.descends moves
      ];
    }

pub Reach-Found :
    {start db : Db} (id : ℕ) (t : TaskExecutionRecord)
    → Reach start db
    → select_first (is_task id) start.tasks ≡ some t
    → Found db id t
Reach-Found id t here e = record { row = t; found = e; descends = Descends-refl t }
Reach-Found id t (then_step before step) e = Step-Found id t step (Reach-Found id t before e)
