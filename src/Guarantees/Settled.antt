-- ===== src/Guarantees/Settled.antt =====
-- src/nexusflow/persistence/transactions.py: when a workflow is settled.
use nexusflow.Base.{
  ℕ, String, ◌≡◌, refl, inl, inr, Bool, true, Option, none, some, List, [], ◌∷◌, ◌&&◌, ◌==◌, arith,
  Result, ok, err, any, every, contains, same_set, str_eq, eq_iff, map, ◌>>=◌, Bool-cases, ==_refl,
  if◌then◌else◌, subst,
}
use nexusflow.Domain.WorkflowState.{WorkflowState}
use nexusflow.Domain.TaskState.{TaskState}
use nexusflow.Store.Table.{select_first, select_all}
use nexusflow.Store.Table.Laws.{select_first_finer, select_first-satisfies}
use nexusflow.Store.Records.{
  Db, RegisteredDefinitionRecord, WorkflowExecutionRecord, TaskExecutionRecord, is_workflow,
}
use nexusflow.Transactions.Outcome.{
  CommitStatus, committed, precondition_failed, occ_conflict, is_definition, task_keys,
}
use nexusflow.Transactions.Settlement.{
  settle, settle_row, settle_definition, settle_where, task_ids_where,
}

-- The workflow is in a state and at a revision, its definition is registered, and the ids of its
-- tasks in the counted states are those of the definition.
pub record IsSettled (in_state : WorkflowState → Bool) (counted : TaskState → Bool)
    (workflow_id revision : ℕ) (db : Db) : Type 0 where
  pub row : WorkflowExecutionRecord
  pub found : select_first (is_workflow workflow_id) db.workflows ≡ some row
  pub state : in_state row.state ≡ true
  pub same_revision : row.revision ≡ revision
  pub definition : RegisteredDefinitionRecord
  pub registered : select_first (is_definition row.definition_id) db.definitions ≡ some definition
  pub task_ids : List String
  pub keys : task_keys definition.validated_iws ≡ ok task_ids
  pub members : same_set task_ids (task_ids_where workflow_id counted db) ≡ true

precondition_apart :
    (db db' : Db)
    → ◌≡◌ {A = Result (CommitStatus × Db)} (ok (precondition_failed, db)) (ok (committed, db'))
    → ⊥
precondition_apart db db' e = cc

conflict_apart :
    (db db' : Db)
    → ◌≡◌ {A = Result (CommitStatus × Db)} (ok (occ_conflict, db)) (ok (committed, db'))
    → ⊥
conflict_apart db db' e = cc

module _ (in_state : WorkflowState → Bool) (counted : TaskState → Bool)
    (write : ℕ → Db → Result (CommitStatus × Db)) (workflow_id revision : ℕ) (db db' : Db) where
  members_of :
      (expected : Result (List String))
      → (expected >>= λ expected_task_ids.
          if same_set expected_task_ids (task_ids_where workflow_id counted db)
          then write workflow_id db
          else ok (precondition_failed, db))
        ≡ ok (committed, db')
      → (ids : List String) × (expected ≡ ok ids)
        × (same_set ids (task_ids_where workflow_id counted db) ≡ true)
  members_of (err e) h = absurd (cc)
  members_of (ok ids) h = elim (Bool-cases (same_set ids (task_ids_where workflow_id counted db))) [
    | inl same ↦ (ids, refl, same)
    | inr other ↦ absurd (precondition_apart db db' (rw other at h))
  ]

  definition_of :
      (w : WorkflowExecutionRecord) (row : Option RegisteredDefinitionRecord)
      → select_first (is_workflow workflow_id) db.workflows ≡ some w
      → in_state w.state ≡ true
      → w.revision ≡ revision
      → select_first (is_definition w.definition_id) db.definitions ≡ row
      → settle_definition in_state counted write workflow_id revision row db ≡ ok (committed, db')
      → IsSettled in_state counted workflow_id revision db
  definition_of w none found state same_revision registered h = absurd (cc)
  definition_of w (some d) found state same_revision registered h =
      let m = members_of (task_keys d.validated_iws) h in
      record {
        row = w;
        found = found;
        state = state;
        same_revision = same_revision;
        definition = d;
        registered = registered;
        task_ids = m.0;
        keys = m.1;
        members = m.2;
      }

  row_of :
      (row : Option WorkflowExecutionRecord)
      → select_first (is_workflow workflow_id) db.workflows ≡ row
      → settle_row in_state counted write workflow_id revision row db ≡ ok (committed, db')
      → IsSettled in_state counted workflow_id revision db
  row_of none found h = absurd (cc)
  row_of (some w) found h = elim (Bool-cases (in_state w.state && w.revision == revision)) [
    | inl meets ↦
        definition_of w _ found (ground (arith, meets)) (ground (arith, meets)) refl (rw meets at h)
    | inr misses ↦ absurd (conflict_apart db db' (rw misses at h))
  ]

  -- A settlement that is committed meets its conditions.
  pub settle-IsSettled :
      settle in_state counted write workflow_id revision db ≡ ok (committed, db')
      → IsSettled in_state counted workflow_id revision db
  settle-IsSettled = row_of (select_first (is_workflow workflow_id) db.workflows) refl

contains_of :
    (p : String → Bool) (xs : List String) (s : String)
    → every p xs ≡ true
    → contains xs s ≡ true
    → p s ≡ true
contains_of p [] s h e = absurd (cc)
contains_of p (x ∷ xs) s h e = elim (Bool-cases (str_eq x s)) [
  | inl same ↦ subst (λ y. p y ≡ true) ((eq_iff x s).0 same) (ground (arith, h))
  | inr other ↦ contains_of p xs s (ground (arith, h)) (ground (arith, e, other))
]

-- A task row of this workflow and definition id in a counted state.
abbrev pub is_counted : ℕ → (TaskState → Bool) → String → TaskExecutionRecord → Bool
is_counted workflow_id counted task_def t =
    t.workflow_execution_id == workflow_id
    && counted t.state
    && str_eq t.task_definition_id task_def

module _ (in_state : WorkflowState → Bool) (counted : TaskState → Bool)
    (write : ℕ → Db → Result (CommitStatus × Db)) (workflow_id revision : ℕ) (db : Db)
    (s : IsSettled in_state counted workflow_id revision db) where
  -- Under the conditions, all that is left of a settlement is its write.
  pub IsSettled-settle :
      settle in_state counted write workflow_id revision db ≡ write workflow_id db
  IsSettled-settle =
      rw
        (
          s.found,
          settle_row,
          s.state,
          s.same_revision,
          ==_refl revision,
          s.registered,
          settle_definition,
          s.keys,
          s.members,
        )
        refl

module _ (in_state : WorkflowState → Bool) (counted : TaskState → Bool) (workflow_id revision : ℕ)
    (db : Db) (s : IsSettled in_state counted workflow_id revision db) where
  -- The write finds the workflow.
  pub IsSettled-row :
      select_first (settle_where in_state workflow_id revision) db.workflows ≡ some s.row
  IsSettled-row =
      select_first_finer (settle_where in_state workflow_id revision) (is_workflow workflow_id)
        db.workflows s.row (λ y h. ground arith) s.found
        (ground (
          arith,
          s.state,
          s.same_revision,
          select_first-satisfies (is_workflow workflow_id) db.workflows s.row s.found,
        ))

counted_row :
    (workflow_id : ℕ) (counted : TaskState → Bool) (s : String) (ts : List TaskExecutionRecord)
    → contains
        (map
          (λ t. t.task_definition_id)
          (select_all (λ t. t.workflow_execution_id == workflow_id && counted t.state) ts))
        s
      ≡ true
    → any (is_counted workflow_id counted s) ts ≡ true
unfolding select_all
counted_row workflow_id counted s [] e = absurd (cc)
counted_row workflow_id counted s (t ∷ ts) e =
    elim (Bool-cases (t.workflow_execution_id == workflow_id && counted t.state)) [
      | inl counts ↦ ground (arith, rw counts at e, counted_row workflow_id counted s ts)
      | inr outside ↦ ground (arith, rw outside at e, counted_row workflow_id counted s ts)
    ]

-- Each task id of the definition has a row in a counted state.
pub IsSettled-counted :
    (in_state : WorkflowState → Bool) (counted : TaskState → Bool) (workflow_id revision : ℕ)
    (db : Db) (s : IsSettled in_state counted workflow_id revision db) (task_id : String)
    → contains s.task_ids task_id ≡ true
    → any (is_counted workflow_id counted task_id) db.tasks ≡ true
IsSettled-counted in_state counted workflow_id revision db s task_id e =
    counted_row workflow_id counted task_id db.tasks (
      contains_of (contains (task_ids_where workflow_id counted db)) s.task_ids task_id
        (ground (arith, s.members)) e)
