-- ===== src/Domain/Failure/Classify/Laws.antt =====
-- src/nexusflow/domain/failure.py: which reports of workers classify_worker_failure finds retryable.
use nexusflow.Base.{
  ◌≡◌, refl, String, Bool, true, false, not, ◌&&◌, ◌||◌, if◌then◌else◌, arith, any,
}
use nexusflow.Domain.Failure.{
  FailureCategory, system_transient, worker_availability, time_based, validation, security,
  integrity, domain_execution,
}
use nexusflow.Domain.Failure.Classify.{
  WorkerFailureReport, stripped_or, mentions, transient_words, category_of, classify_worker_failure,
}

-- The categories that a retry can cure whatever the code says.
abbrev pub is_passing : FailureCategory → Bool
is_passing system_transient = true
is_passing worker_availability = true
is_passing time_based = true
is_passing _ = false

abbrev pub is_time_based : FailureCategory → Bool
is_time_based time_based = true
is_time_based _ = false

abbrev pub is_domain_execution : FailureCategory → Bool
is_domain_execution domain_execution = true
is_domain_execution _ = false

-- What the category says of the retry, given what the code mentions.
abbrev pub FollowsCategory : FailureCategory → Bool → Bool → Bool → Type 0
FollowsCategory category retryable retry_word timeout_word =
    (retryable ≡ (is_passing category || (is_domain_execution category && retry_word)))
    × ((is_time_based category && timeout_word) ≡ false)

by_tests :
    (transient unavailable deadline invalid unauthorized broken retry timeout : Bool)
    → (timeout && not transient) ≡ false
    → let result : FailureCategory × Bool =
        (if transient
          then (system_transient, true)
          else if unavailable
          then (worker_availability, true)
          else if timeout || deadline
          then (time_based, true)
          else if invalid
          then (validation, false)
          else if unauthorized
          then (security, false)
          else if broken
          then (integrity, false)
          else (domain_execution, retry)) in
      FollowsCategory result.0 result.1 retry timeout
by_tests true u d i a b r t h = (refl, refl)
by_tests false true d i a b r t h = (refl, refl)
by_tests false false d i a b r true h = (refl, h)
by_tests false false true i a b r false h = (refl, refl)
by_tests false false false true a b r false h = (refl, refl)
by_tests false false false false true b r false h = (refl, refl)
by_tests false false false false false true r false h = (refl, refl)
by_tests false false false false false false r false h = (refl, refl)

last_word :
    (a b c d e f g : Bool)
    → (g && not (a || (b || (c || (d || (e || (f || (g || false)))))))) ≡ false
last_word a b c d e f g = ground arith

category_of-FollowsCategory :
    (code : String)
    → FollowsCategory
        (category_of code).0
        (category_of code).1
        (mentions code "RETRY")
        (mentions code "TIMEOUT")
unfolding category_of
category_of-FollowsCategory code =
    by_tests (any (mentions code) transient_words)
      (mentions code "UNAVAILABLE" || mentions code "CRASH") (mentions code "DEADLINE")
      (mentions code "VALIDATION" || mentions code "BAD_INPUT")
      (mentions code "SECURITY" || mentions code "UNAUTHORIZED") (mentions code "INTEGRITY")
      (mentions code "RETRY") (mentions code "TIMEOUT")
      (last_word (mentions code "TRANSIENT") (mentions code "IO_ERROR") (mentions code "NETWORK")
        (mentions code "CONNECTION") (mentions code "SOCKET") (mentions code "OSERROR")
        (mentions code "TIMEOUT"))

-- A report of a worker is retryable exactly when its category is SYSTEM_TRANSIENT, WORKER_AVAILABILITY
-- or TIME_BASED, or is DOMAIN_EXECUTION and the upper case of the code that is recorded has RETRY; and
-- no report whose recorded code has TIMEOUT in its upper case is TIME_BASED.
pub classify_worker_failure-retryable :
    (report : WorkerFailureReport)
    → FollowsCategory
        (classify_worker_failure report).0.category
        (classify_worker_failure report).1
        (mentions (classify_worker_failure report).0.code "RETRY")
        (mentions (classify_worker_failure report).0.code "TIMEOUT")
unfolding classify_worker_failure
classify_worker_failure-retryable report =
    category_of-FollowsCategory (stripped_or "UNKNOWN_ERROR" report.error_code)
