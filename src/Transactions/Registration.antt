-- ===== src/Transactions/Registration.antt =====
-- src/nexusflow/persistence/transactions.py: a definition is registered, once for an idempotency key.
use Prim.Native.Char.{code}
use Prim.Native.String.{String}
use nexusflow.Base.{
  Bool, true, ◌==◌, ◌&&◌, ℕ, Option, none, some, [], ◌∷◌, ◌++◌, Result, ok, err, value_error,
  integrity_error, any, str_eq, if◌then◌else◌, ◌||◌,
}
use nexusflow.Domain.Spec.{ValidatedWorkflowSpec}
use nexusflow.Definition.Codec.{serialize_validated_spec}
use nexusflow.Store.Table.{select_first}
use nexusflow.Store.Records.{Db, RegisteredDefinitionRecord, IdempotencyRecord, register_definition}
use nexusflow.Transactions.Outcome.{CommitStatus, committed, precondition_failed, is_definition}
use nexusflow.Transactions.Creation.{is_key}

-- length(trim(s)) = 0
abbrev pub is_blank : String → Bool
is_blank String.[] = true
is_blank (String.◌∷◌ c s) = code c == 32 && is_blank s

module _ (definition_id : ℕ) (workflow_name : String) (spec : ValidatedWorkflowSpec)
    (raw_yaml : Option String) (now : ℕ) where
  abbrev pub definition_row : RegisteredDefinitionRecord
  unfolding serialize_validated_spec
  definition_row = record {
    definition_id = definition_id;
    workflow_name = workflow_name;
    validated_iws = serialize_validated_spec spec;
    raw_yaml = raw_yaml;
    created_at_utc = now;
  }

  -- The insertion of the row: its primary key, and chk_definitions_name_non_empty.
  abbrev pub registration : Db → Result ((CommitStatus × ℕ) × Db)
  registration db =
      if any (is_definition definition_id) db.definitions || is_blank workflow_name
      then err integrity_error
      else ok (
        (committed, definition_id),
        record db { definitions = db.definitions ++ definition_row ∷ [] },
      )

  abbrev pub registration_key : String → String → IdempotencyRecord
  registration_key key fingerprint = record {
    operation_type = register_definition;
    idempotency_key = key;
    request_fingerprint = fingerprint;
    resource_id = definition_id;
    created_at_utc = now;
  }

  -- INSERT … ON CONFLICT DO NOTHING of the key, and what follows where it was there before.
  abbrev pub registration_with_key :
      Option IdempotencyRecord → String → String → Db → Result ((CommitStatus × ℕ) × Db)
  registration_with_key none key fingerprint db =
      registration
        (record db { idempotency = db.idempotency ++ registration_key key fingerprint ∷ [] })
  registration_with_key (some existing) key fingerprint db =
      if str_eq existing.request_fingerprint fingerprint
      then ok ((committed, existing.resource_id), db)
      else ok ((precondition_failed, definition_id), db)

  unfoldable pub commit_registered_definition :
      Option String → Option String → Db → Result ((CommitStatus × ℕ) × Db)
  commit_registered_definition none fingerprint db = registration db
  commit_registered_definition (some key) none db = err value_error
  commit_registered_definition (some key) (some fingerprint) db =
      registration_with_key (select_first (is_key register_definition key) db.idempotency) key
        fingerprint db
