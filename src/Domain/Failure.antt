-- ===== src/Domain/Failure.antt =====
-- src/nexusflow/domain/failure.py and FailureCategory of src/nexusflow/domain/enums.py.
pub mod Text
pub mod Classify
use nexusflow.Base.{ℕ, String, Bool, false, Option, if◌then◌else◌, leb}
use nexusflow.Domain.Json.{JsonObject}
use nexusflow.Domain.WorkflowState
use nexusflow.Domain.WorkflowState.{WorkflowState}

pub data FailureCategory : Type 0 where
  client_input validation domain_conflict domain_execution time_based worker_availability
        system_transient system_permanent concurrency integrity unknown_outcome security :
      FailureCategory

pub record FailureCause : Type 0 where
  pub category : FailureCategory
  pub code : String
  pub message : String
  pub details : Option JsonObject

unfoldable pub evaluate_retry_eligibility : ℕ → ℕ → Bool → WorkflowState → Bool
evaluate_retry_eligibility next_attempt_ordinal max_attempts is_classified_retryable state =
    if WorkflowState.is_running state
    then (if is_classified_retryable then leb next_attempt_ordinal max_attempts else false)
    else false
