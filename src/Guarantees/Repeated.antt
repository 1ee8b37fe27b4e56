-- ===== src/Guarantees/Repeated.antt =====
-- src/nexusflow/persistence/transactions.py: what a request that is made again is answered.
use nexusflow.Base.{
  ℕ, String, ◌≡◌, refl, inl, inr, true, Option, none, some, List, [], ◌∷◌, ◌++◌, Error, err, Result,
  ok, ◌||◌, not, any, str_eq, eq_iff, if◌then◌else◌, Bool-cases, ap, sym, ◌∙◌,
}
use nexusflow.Domain.Json.{PyValue, JsonValue, thaw_json}
use nexusflow.Store.Table.{select_first}
use nexusflow.Store.Table.Laws.{select_first-append_new}
use nexusflow.Store.Records.{Db, IdempotencyRecord, start_execution, is_workflow, jsonb}
use nexusflow.Transactions.Outcome.{CommitStatus, committed, precondition_failed, is_definition}
use nexusflow.Transactions.Creation.{
  commit_workflow_creation, creation_with_key, insert_workflow, is_key, new_key,
}

-- The key is recorded with this fingerprint and this resource.
pub record IsRecorded (key fingerprint : String) (resource : ℕ) (db : Db) : Type 0 where
  pub entry : IdempotencyRecord
  pub found : select_first (is_key start_execution key) db.idempotency ≡ some entry
  pub same_fingerprint : str_eq entry.request_fingerprint fingerprint ≡ true
  pub same_resource : entry.resource_id ≡ resource

-- The keys and the resource of an outcome.
abbrev entries : Result ((CommitStatus × ℕ) × Db) → List IdempotencyRecord × ℕ
entries (ok ((status, resource), db)) = (db.idempotency, resource)
entries (err e) = ([], 0)

raised : {A : Type 0} {e : Error} {a : A} → ◌≡◌ {A = Result A} (err e) (ok a) → ⊥
raised h = cc

refused :
    {a b : ℕ} {db db' : Db}
    → ◌≡◌ {A = Result ((CommitStatus × ℕ) × Db)}
        (ok ((precondition_failed, a), db))
        (ok ((committed, b), db'))
    → ⊥
refused h = cc

recorded :
    (execution_id definition_id : ℕ) (workflow_input : JsonValue) (now : ℕ)
    (key fingerprint other : String) (resource : ℕ) (db : Db)
    → IsRecorded key fingerprint resource db
    → commit_workflow_creation execution_id definition_id workflow_input now
        (some key)
        (some other)
        db
      ≡ ok (
        if str_eq fingerprint other
            then (committed, resource)
            else (precondition_failed, execution_id),
        db,
      )
unfolding commit_workflow_creation
recorded execution_id definition_id workflow_input now key fingerprint other resource db r =
    rw
      (
        r.found,
        creation_with_key,
        (eq_iff r.entry.request_fingerprint fingerprint).0 r.same_fingerprint,
      )
      (elim (Bool-cases (str_eq fingerprint other)) [
        | inl same ↦ rw (same, r.same_resource) refl
        | inr differs ↦ rw differs refl
      ])

module _ (execution_id definition_id : ℕ) (workflow_input : JsonValue) (now : ℕ)
    (key fingerprint : String) (resource : ℕ) (db' : Db) where
  inserted_IsRecorded :
      (column : Option PyValue) (db : Db)
      → insert_workflow execution_id definition_id workflow_input now column db
        ≡ ok ((committed, resource), db')
      → (db'.idempotency ≡ db.idempotency) × (execution_id ≡ resource)
  inserted_IsRecorded none db e = absurd (cc)
  inserted_IsRecorded (some input) db e =
      elim (Bool-cases (
        any (is_workflow execution_id) db.workflows
        || not (any (is_definition definition_id) db.definitions))) [
          | inl clash ↦ absurd (raised (rw clash at e))
          | inr fresh ↦
              let same = rw fresh at e in
              (sym (ap (λ r. (entries r).0) same), ap (λ r. (entries r).1) same)
        ]

  -- A creation that is COMMITTED under a key has recorded it, or found it recorded.
  creation-IsRecorded :
      (db : Db) (row : Option IdempotencyRecord)
      → select_first (is_key start_execution key) db.idempotency ≡ row
      → creation_with_key execution_id definition_id workflow_input now row key fingerprint db
        ≡ ok ((committed, resource), db')
      → IsRecorded key fingerprint resource db'
  creation-IsRecorded db none missing e =
      let made =
        inserted_IsRecorded (jsonb (thaw_json workflow_input))
          (record db {
            idempotency =
                db.idempotency
                ++ new_key execution_id definition_id workflow_input now key fingerprint ∷ [];
          })
          e in
      record {
        entry = new_key execution_id definition_id workflow_input now key fingerprint;
        found =
            ap (select_first (is_key start_execution key)) made.0
            ∙ select_first-append_new (is_key start_execution key) db.idempotency _ missing
                ((eq_iff key key).1 refl);
        same_fingerprint = (eq_iff fingerprint fingerprint).1 refl;
        same_resource = made.1;
      }
  creation-IsRecorded db (some r) there e =
      elim (Bool-cases (str_eq r.request_fingerprint fingerprint)) [
        | inl same ↦
            let answer = rw same at e in
            record {
              entry = r;
              found =
                  ap (λ o. select_first (is_key start_execution key) (entries o).0) (sym answer)
                  ∙ there;
              same_fingerprint = same;
              same_resource = ap (λ o. (entries o).1) answer;
            }
        | inr other ↦ absurd (refused (rw other at e))
      ]

-- A creation that is COMMITTED under an idempotency key, made again with any other arguments under
-- the same key, writes nothing. Under the same fingerprint it is answered with COMMITTED and the id
-- of the workflow of the first call, else with PRECONDITION_FAILED.
pub commit_workflow_creation-again :
    (execution_id definition_id : ℕ) (workflow_input : JsonValue) (now : ℕ)
    (key fingerprint : String) (resource : ℕ) (db db' : Db)
    → commit_workflow_creation execution_id definition_id workflow_input now
        (some key)
        (some fingerprint)
        db
      ≡ ok ((committed, resource), db')
    → (execution_id2 definition_id2 : ℕ) (workflow_input2 : JsonValue) (now2 : ℕ)
      (fingerprint2 : String)
    → commit_workflow_creation execution_id2 definition_id2 workflow_input2 now2
        (some key)
        (some fingerprint2)
        db'
      ≡ ok (
        if str_eq fingerprint fingerprint2
            then (committed, resource)
            else (precondition_failed, execution_id2),
        db',
      )
unfolding commit_workflow_creation
commit_workflow_creation-again execution_id definition_id workflow_input now key fingerprint
      resource db db' e execution_id2 definition_id2 workflow_input2 now2 fingerprint2 =
    let r =
      creation-IsRecorded execution_id definition_id workflow_input now key fingerprint resource db'
        db _ refl e in
    recorded execution_id2 definition_id2 workflow_input2 now2 key fingerprint fingerprint2 resource
      db' r
