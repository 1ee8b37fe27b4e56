-- ===== src/Lifecycle/Steps/Population.antt =====
-- src/nexusflow/persistence/transactions.py: the effects of the creation of a workflow and of the
-- population of its tasks.
use nexusflow.Base.{
  ℕ, ◌+◌, String, not, Option, none, some, List, [], ◌∷◌, arith, Result, ok, err, ◌==◌, str_eq,
  ◌||◌, ◌>>=◌, refl, any, Bool-cases, inl, inr,
}
use nexusflow.Domain.Json.{PyValue, JsonValue, thaw_json}
use nexusflow.Domain.Spec.{TaskDefinition}
use nexusflow.Domain.WorkflowState
use nexusflow.Store.Table.{select_first}
use nexusflow.Store.Records.{
  Db, TaskExecutionRecord, IdempotencyRecord, start_execution, is_task, is_workflow, jsonb,
}
use nexusflow.Transactions.Outcome.{
  precondition_failed, is_definition, committed, add_history, history_entry, state_in,
  workflow_state,
}
use nexusflow.Transactions.Creation.{
  commit_workflow_creation, commit_task_population, insert_workflow, creation_with_key, populate,
  insert_task, new_task, is_member, is_key,
}
use nexusflow.Lifecycle.Effect.{HasEffect, idle, insert, Inserted, nothing, one_more}
use nexusflow.Lifecycle.Steps.Tasks.{Leads-refl}
use nexusflow.Lifecycle.Steps.Claims.{LeadsOk, LeadsOk-if}

module _ (db : Db) (execution_id definition_id : ℕ) (workflow_input : JsonValue) (now : ℕ) where
  insert_workflow-LeadsOk :
      (column : Option PyValue) (db' : Db)
      → HasEffect db db'
      → LeadsOk db (insert_workflow execution_id definition_id workflow_input now column db')
  insert_workflow-LeadsOk none db' h = tt
  insert_workflow-LeadsOk (some input) db' h =
      elim (Bool-cases (
        any (is_workflow execution_id) db'.workflows
        || not (any (is_definition definition_id) db'.definitions))) [
          | inl clash ↦ rw clash tt
          | inr fresh ↦ rw fresh (record { effect = record { tables = h.tables } })
        ]

  creation_with_key-LeadsOk :
      (row : Option IdempotencyRecord) (key fingerprint : String)
      → LeadsOk db
          (creation_with_key execution_id definition_id workflow_input now row key fingerprint db)
  creation_with_key-LeadsOk none key fingerprint =
      insert_workflow-LeadsOk (jsonb (thaw_json workflow_input)) _ (record { tables = idle })
  creation_with_key-LeadsOk (some r) key fingerprint =
      LeadsOk-if db (str_eq r.request_fingerprint fingerprint) (ok ((committed, r.resource_id), db))
        (ok ((precondition_failed, execution_id), db)) (Leads-refl _ db) (Leads-refl _ db)

  pub commit_workflow_creation-LeadsOk :
      (key fingerprint : Option String)
      → LeadsOk db (
          commit_workflow_creation execution_id definition_id workflow_input now key fingerprint db)
  unfolding commit_workflow_creation
  commit_workflow_creation-LeadsOk none fingerprint =
      insert_workflow-LeadsOk (jsonb (thaw_json workflow_input)) db (record { tables = idle })
  commit_workflow_creation-LeadsOk (some key) none = tt
  commit_workflow_creation-LeadsOk (some key) (some fingerprint) =
      creation_with_key-LeadsOk (select_first (is_key start_execution key) db.idempotency) key
        fingerprint

-- A result that, if it is one, satisfies P.
abbrev OnOk : {A : Type 0} → (A → Type 0) → Result A → Type 0
OnOk P (ok x) = P x
OnOk P (err e) = Unit

OnOk-bind :
    {A B : Type 0} (P : A → Type 0) (Q : B → Type 0) (r : Result A) (k : A → Result B)
    → OnOk P r
    → ((x : A) → P x → OnOk Q (k x))
    → OnOk Q (r >>= k)
OnOk-bind P Q (ok x) k h step = step x h
OnOk-bind P Q (err e) k h step = tt

module _ (uuid4 : ℕ → ℕ) (workflow_id now : ℕ) (ts : List TaskExecutionRecord) where
  insert_task-OnOk :
      (i : ℕ) (d : TaskDefinition) (us : List TaskExecutionRecord)
      → Inserted ts us
      → OnOk (Inserted ts) (insert_task uuid4 workflow_id now i d us)
  insert_task-OnOk i d us h = elim (Bool-cases (d.max_attempts == 0)) [
    | inl zero ↦ rw zero tt
    | inr more ↦ rw more (elim (Bool-cases (any (is_member uuid4 workflow_id now d) us)) [
      | inl there ↦ rw there h
      | inr absent ↦ rw absent (elim (Bool-cases (any (is_task (uuid4 i)) us)) [
        | inl clash ↦ rw clash tt
        | inr fresh ↦ rw fresh (
            one_more (new_task uuid4 workflow_id now i d) h
              (record { is_pending = refl; first = refl; attempts_allowed = ground arith }) fresh)
      ])
    ])
  ]

  populate-OnOk :
      (i : ℕ) (ds : List TaskDefinition) (us : List TaskExecutionRecord)
      → Inserted ts us
      → OnOk (Inserted ts) (populate uuid4 workflow_id now i ds us)
  unfolding populate
  populate-OnOk i [] us h = h
  populate-OnOk i (d ∷ ds) us h =
      OnOk-bind (Inserted ts) (Inserted ts) (insert_task uuid4 workflow_id now i d us)
        (populate uuid4 workflow_id now (i + 1) ds) (insert_task-OnOk i d us h)
        (λ vs. populate-OnOk (i + 1) ds vs)

module _ (uuid4 : ℕ → ℕ) (workflow_id now : ℕ) (db : Db) where
  populated-LeadsOk :
      (r : Result (List TaskExecutionRecord))
      → OnOk (Inserted db.tasks) r
      → LeadsOk db (
          r >>= λ tasks. ok (
            committed,
            add_history
                (history_entry workflow_id none none "TaskPopulationEstablished" now)
                (record db { tasks = tasks }),
          ))
  populated-LeadsOk (ok tasks) h = record { effect = record { tables = insert h } }
  populated-LeadsOk (err e) h = tt

  pub commit_task_population-LeadsOk :
      (ds : List TaskDefinition) → LeadsOk db (commit_task_population uuid4 workflow_id now ds db)
  unfolding commit_task_population
  commit_task_population-LeadsOk ds =
      elim (Bool-cases (state_in WorkflowState.is_initializing (workflow_state workflow_id db))) [
        | inl starts ↦ rw starts (
            populated-LeadsOk (populate uuid4 workflow_id now 0 ds db.tasks)
              (populate-OnOk uuid4 workflow_id now db.tasks 0 ds db.tasks nothing))
        | inr other ↦ rw other (Leads-refl precondition_failed db)
      ]
