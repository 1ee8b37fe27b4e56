-- ===== src/Domain/Failure/Classify.antt =====
-- src/nexusflow/domain/failure.py: classify_worker_failure.
pub mod Laws
use nexusflow.Base.{
  String, ◌≡◌, refl, Bool, true, false, not, Option, List, [], ◌∷◌, ◌&&◌, ◌||◌, any, if◌then◌else◌,
}
use nexusflow.Domain.Json.{JsonObject}
use nexusflow.Domain.Failure.{
  FailureCategory, FailureCause, system_transient, worker_availability, time_based, validation,
  security, integrity, domain_execution,
}
use nexusflow.Domain.Failure.Text.{strip, prefix, upper, codes, occurs}

pub record WorkerFailureReport : Type 0 where
  pub error_code : String
  pub error_message : String
  pub details : Option JsonObject

abbrev pub stripped_or : String → String → String
stripped_or default String.[] = default
stripped_or default (String.◌∷◌ c s) = strip (String.◌∷◌ c s)

-- word in code.upper()
abbrev pub mentions : String → String → Bool
mentions code word = occurs (codes word) (upper code)

abbrev pub transient_words : List String
transient_words =
    "TRANSIENT" ∷ "IO_ERROR" ∷ "NETWORK" ∷ "CONNECTION" ∷ "SOCKET" ∷ "OSERROR" ∷ "TIMEOUT" ∷ []

unfoldable pub category_of : String → FailureCategory × Bool
category_of code =
    if any (mentions code) transient_words
    then (system_transient, true)
    else if mentions code "UNAVAILABLE" || mentions code "CRASH"
    then (worker_availability, true)
    else if mentions code "TIMEOUT" || mentions code "DEADLINE"
    then (time_based, true)
    else if mentions code "VALIDATION" || mentions code "BAD_INPUT"
    then (validation, false)
    else if mentions code "SECURITY" || mentions code "UNAUTHORIZED"
    then (security, false)
    else if mentions code "INTEGRITY"
    then (integrity, false)
    else (domain_execution, mentions code "RETRY")

unfoldable pub classify_worker_failure : WorkerFailureReport → FailureCause × Bool
classify_worker_failure report =
    let code = stripped_or "UNKNOWN_ERROR" report.error_code in
    let msg = stripped_or "Activity failure reported by worker" report.error_message in
    (
      record {
        category = (category_of code).0;
        code = code;
        message = prefix 4096 msg;
        details = report.details;
      },
      (category_of code).1,
    )
