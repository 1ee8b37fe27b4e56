-- ===== src/Samples/Failures.antt =====
-- src/nexusflow/domain/failure.py: the classification of a report with blanks around a small-letter code.
use nexusflow.Base.{◌≡◌, refl, none}
use nexusflow.Domain.Failure.{system_transient, time_based}
use nexusflow.Domain.Failure.Text.{strip, upper, codes, occurs}
use nexusflow.Domain.Failure.Classify.{
  WorkerFailureReport, mentions, category_of, classify_worker_failure,
}
use nexusflow.Domain.Failure.Classify.Laws.{FollowsCategory, classify_worker_failure-retryable}

abbrev report : WorkerFailureReport
report = record { error_code = " timeout\n"; error_message = ""; details = none }

classified : (classify_worker_failure report).0.category ≡ system_transient
unfolding classify_worker_failure category_of strip upper codes occurs
classified = refl

recorded : (classify_worker_failure report).0.code ≡ "timeout"
unfolding classify_worker_failure strip
recorded = refl

deadline : (category_of "Deadline").0 ≡ time_based
unfolding category_of upper codes occurs
deadline = refl

classify_worker_failure-retryable_example :
    FollowsCategory
      (classify_worker_failure report).0.category
      (classify_worker_failure report).1
      (mentions (classify_worker_failure report).0.code "RETRY")
      (mentions (classify_worker_failure report).0.code "TIMEOUT")
classify_worker_failure-retryable_example = classify_worker_failure-retryable report
