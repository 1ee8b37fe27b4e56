-- ===== src/Lifecycle/Steps/Registration.antt =====
-- src/nexusflow/persistence/transactions.py: the effects of the registration of a definition and of
-- the write of a cancellation deadline.
use nexusflow.Base.{
  ℕ, String, Option, none, some, ok, refl, any, str_eq, ◌||◌, Bool-cases, inl, inr,
}
use nexusflow.Domain.Spec.{ValidatedWorkflowSpec}
use nexusflow.Store.Table.{select_first}
use nexusflow.Store.Records.{Db, IdempotencyRecord, register_definition, is_attempt}
use nexusflow.Transactions.Outcome.{precondition_failed, is_definition}
use nexusflow.Transactions.Creation.{is_key}
use nexusflow.Transactions.Registration.{
  registration, is_blank, registration_with_key, commit_registered_definition,
}
use nexusflow.Transactions.Drain.{commit_cancellation_deadline, cancellation_deadline_set}
use nexusflow.Lifecycle.Effect.{HasEffect, idle, touch}
use nexusflow.Lifecycle.Steps.Tasks.{Leads-refl}
use nexusflow.Lifecycle.Steps.Claims.{LeadsOk, LeadsOk-if}

module _ (db : Db) (definition_id : ℕ) (workflow_name : String) (spec : ValidatedWorkflowSpec)
    (raw_yaml : Option String) (now : ℕ) where
  registration-LeadsOk :
      (db' : Db)
      → HasEffect db db'
      → LeadsOk db (registration definition_id workflow_name spec raw_yaml now db')
  registration-LeadsOk db' h =
      elim (Bool-cases
        (any (is_definition definition_id) db'.definitions || is_blank workflow_name)) [
          | inl clash ↦ rw clash tt
          | inr fresh ↦ rw fresh (record { effect = record { tables = h.tables } })
        ]

  registration_with_key-LeadsOk :
      (row : Option IdempotencyRecord) (key fingerprint : String)
      → LeadsOk db (
          registration_with_key definition_id workflow_name spec raw_yaml now row key fingerprint
            db)
  registration_with_key-LeadsOk none key fingerprint =
      registration-LeadsOk _ (record { tables = idle })
  registration_with_key-LeadsOk (some r) key fingerprint =
      LeadsOk-if db (str_eq r.request_fingerprint fingerprint) (ok ((_, r.resource_id), db))
        (ok ((precondition_failed, definition_id), db)) (Leads-refl _ db) (Leads-refl _ db)

  pub commit_registered_definition-LeadsOk :
      (key fingerprint : Option String)
      → LeadsOk db (
          commit_registered_definition definition_id workflow_name spec raw_yaml now key fingerprint
            db)
  unfolding commit_registered_definition
  commit_registered_definition-LeadsOk none fingerprint =
      registration-LeadsOk db (record { tables = idle })
  commit_registered_definition-LeadsOk (some key) none = tt
  commit_registered_definition-LeadsOk (some key) (some fingerprint) =
      registration_with_key-LeadsOk (select_first (is_key register_definition key) db.idempotency)
        key fingerprint

pub commit_cancellation_deadline-HasEffect :
    (db : Db) (attempt_id deadline : ℕ)
    → HasEffect db (commit_cancellation_deadline attempt_id deadline db)
unfolding commit_cancellation_deadline
commit_cancellation_deadline-HasEffect db attempt_id deadline = record {
  tables = touch (is_attempt attempt_id) (cancellation_deadline_set deadline) (record {
    keeps_task = λ a. refl;
    keeps_ordinal = λ a. refl;
    settles = λ a e active. active;
  });
}
