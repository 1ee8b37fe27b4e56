-- ===== src/Lifecycle/Changes.antt =====
-- The updates of src/nexusflow/persistence/transactions.py as changes of task rows and of attempts.
use nexusflow.Base.{ℕ, refl, Bool, Option, some, arith}
use nexusflow.Domain.Json.{PyValue, JsonObject}
use nexusflow.Domain.Failure.{FailureCause}
use nexusflow.Store.Records.{ExecutionAttemptRecord}
use nexusflow.Transactions.Readiness.{
  readiness_where, readiness_set, retry_ready_where, retry_ready_set,
}
use nexusflow.Transactions.Ownership.{ownership_where, ownership_set, start_where, start_set}
use nexusflow.Transactions.Success.{success_task_where, success_task_set, success_attempt_set}
use nexusflow.Transactions.Failure.{
  retry_task_where, retry_task_set, fail_task_where, fail_task_set, internal_fail_where,
  fail_attempt_set,
}
use nexusflow.Transactions.Drain.{drain_where, drain_task_set, cancel_task_set, cancel_attempt_set}
use nexusflow.Lifecycle.Effect.{TaskChange, AttemptChange}

pub readiness-TaskChange :
    (id revision workflow_id now : ℕ) (input : JsonObject)
    → TaskChange (readiness_where id revision workflow_id) (readiness_set input now)
readiness-TaskChange id revision workflow_id now input = record {
  keeps_id = λ t. refl;
  keeps_ordinals = λ t. omega arith;
  moves = λ t e. ground arith;
  sound = λ t e s. ground arith;
}

pub ownership-TaskChange :
    (id revision workflow_id now : ℕ)
    → TaskChange (ownership_where id revision workflow_id) (ownership_set now)
ownership-TaskChange id revision workflow_id now = record {
  keeps_id = λ t. refl;
  keeps_ordinals = λ t. omega arith;
  moves = λ t e. ground arith;
  sound = λ t e s. ground arith;
}

pub retry_ready-TaskChange :
    (id revision workflow_id now : ℕ)
    → TaskChange (retry_ready_where id revision workflow_id now) (retry_ready_set now)
retry_ready-TaskChange id revision workflow_id now = record {
  keeps_id = λ t. refl;
  keeps_ordinals = λ t. omega arith;
  moves = λ t e. ground arith;
  sound = λ t e s. ground arith;
}

-- The output column of a success is not NULL.
pub success-TaskChange :
    (id revision now : ℕ) (output : PyValue)
    → TaskChange (success_task_where id revision) (success_task_set (some output) now)
success-TaskChange id revision now output = record {
  keeps_id = λ t. refl;
  keeps_ordinals = λ t. omega arith;
  moves = λ t e. ground arith;
  sound = λ t e s. record {
    first_ordinal = s.first_ordinal;
    budget = s.budget;
    room = λ h. absurd (cc);
    output = λ h. (output, refl);
  };
}

pub retry-TaskChange :
    (id revision workflow_id now : ℕ) (ready_at : Option ℕ)
    → TaskChange (retry_task_where id revision workflow_id) (retry_task_set ready_at now)
retry-TaskChange id revision workflow_id now ready_at = record {
  keeps_id = λ t. refl;
  keeps_ordinals = λ t. omega arith;
  moves = λ t e. ground arith;
  sound = λ t e s. ground arith;
}

pub fail-TaskChange :
    (id revision now : ℕ) (cause : FailureCause)
    → TaskChange (fail_task_where id revision) (fail_task_set cause now)
fail-TaskChange id revision now cause = record {
  keeps_id = λ t. refl;
  keeps_ordinals = λ t. omega arith;
  moves = λ t e. ground arith;
  sound = λ t e s. ground arith;
}

pub internal_fail-TaskChange :
    (id revision workflow_id now : ℕ) (cause : FailureCause)
    → TaskChange (internal_fail_where id revision workflow_id) (fail_task_set cause now)
internal_fail-TaskChange id revision workflow_id now cause = record {
  keeps_id = λ t. refl;
  keeps_ordinals = λ t. omega arith;
  moves = λ t e. ground arith;
  sound = λ t e s. ground arith;
}

pub drain-TaskChange :
    (id revision now : ℕ) → TaskChange (drain_where id revision) (drain_task_set now)
drain-TaskChange id revision now = record {
  keeps_id = λ t. refl;
  keeps_ordinals = λ t. omega arith;
  moves = λ t e. ground arith;
  sound = λ t e s. ground arith;
}

pub cancel-TaskChange :
    (id revision workflow_id now : ℕ)
    → TaskChange (internal_fail_where id revision workflow_id) (cancel_task_set now)
cancel-TaskChange id revision workflow_id now = record {
  keeps_id = λ t. refl;
  keeps_ordinals = λ t. omega arith;
  moves = λ t e. ground arith;
  sound = λ t e s. ground arith;
}

pub start-AttemptChange :
    (attempt_id session revision now : ℕ)
    → AttemptChange (start_where attempt_id session revision now) (start_set now)
start-AttemptChange attempt_id session revision now = record {
  keeps_task = λ a. refl;
  keeps_ordinal = λ a. refl;
  settles = λ a e h. ground arith;
}

-- An update that writes a settled state is a change, whatever rows it finds.
pub success-AttemptChange :
    (p : ExecutionAttemptRecord → Bool) (now : ℕ) → AttemptChange p (success_attempt_set now)
success-AttemptChange p now = record {
  keeps_task = λ a. refl;
  keeps_ordinal = λ a. refl;
  settles = λ a e h. absurd (cc);
}

pub fail-AttemptChange :
    (p : ExecutionAttemptRecord → Bool) (cause : FailureCause) (now : ℕ)
    → AttemptChange p (fail_attempt_set cause now)
fail-AttemptChange p cause now = record {
  keeps_task = λ a. refl;
  keeps_ordinal = λ a. refl;
  settles = λ a e h. absurd (cc);
}

pub cancel-AttemptChange :
    (p : ExecutionAttemptRecord → Bool) (now : ℕ) → AttemptChange p (cancel_attempt_set now)
cancel-AttemptChange p now = record {
  keeps_task = λ a. refl;
  keeps_ordinal = λ a. refl;
  settles = λ a e h. absurd (cc);
}
