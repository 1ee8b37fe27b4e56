-- ===== src/Domain/AttemptState.antt =====
-- src/nexusflow/domain/enums.py: AttemptState, and the tests of it that the code makes.
use nexusflow.Base.{Bool, true, false}

pub data AttemptState : Type 0 where
  claimed running succeeded failed cancelled : AttemptState

-- state == "CLAIMED"
abbrev pub is_claimed : AttemptState → Bool
is_claimed claimed = true
is_claimed _ = false

-- state == "RUNNING"
abbrev pub is_running : AttemptState → Bool
is_running running = true
is_running _ = false

-- state == "SUCCEEDED"
abbrev pub is_succeeded : AttemptState → Bool
is_succeeded succeeded = true
is_succeeded _ = false

-- `state in ["CLAIMED", "RUNNING"]`
abbrev pub is_active : AttemptState → Bool
is_active claimed = true
is_active running = true
is_active _ = false

-- ExecutionAttempt.is_terminal
abbrev pub is_terminal : AttemptState → Bool
is_terminal succeeded = true
is_terminal failed = true
is_terminal cancelled = true
is_terminal _ = false
