-- ===== src/Domain/TaskState.antt =====
-- src/nexusflow/domain/enums.py: TaskState, and the tests of it that the code makes.
use nexusflow.Base.{Bool, true, false}

pub data TaskState : Type 0 where
  pending runnable running retry_wait succeeded failed cancelled : TaskState

-- state == "PENDING"
abbrev pub is_pending : TaskState → Bool
is_pending pending = true
is_pending _ = false

-- state == "RUNNABLE"
abbrev pub is_runnable : TaskState → Bool
is_runnable runnable = true
is_runnable _ = false

-- state == "RUNNING"
abbrev pub is_running : TaskState → Bool
is_running running = true
is_running _ = false

-- state == "RETRY_WAIT"
abbrev pub is_retry_wait : TaskState → Bool
is_retry_wait retry_wait = true
is_retry_wait _ = false

-- state == "SUCCEEDED"
abbrev pub is_succeeded : TaskState → Bool
is_succeeded succeeded = true
is_succeeded _ = false

-- `state in ["PENDING", "RUNNABLE", "RETRY_WAIT"]`
abbrev pub is_unstarted : TaskState → Bool
is_unstarted pending = true
is_unstarted runnable = true
is_unstarted retry_wait = true
is_unstarted _ = false

-- TaskExecution.is_terminal, and `state in ["SUCCEEDED", "FAILED", "CANCELLED"]`
abbrev pub is_terminal : TaskState → Bool
is_terminal succeeded = true
is_terminal failed = true
is_terminal cancelled = true
is_terminal _ = false
