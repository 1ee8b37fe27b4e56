-- ===== src/Domain/WorkflowState.antt =====
-- src/nexusflow/domain/enums.py: WorkflowState, and the tests of it that the code makes.
use nexusflow.Base.{Bool, true, false}

pub data WorkflowState : Type 0 where
  initializing running failing cancelling succeeded failed cancelled : WorkflowState

-- state == "INITIALIZING"
abbrev pub is_initializing : WorkflowState → Bool
is_initializing initializing = true
is_initializing _ = false

-- state == "RUNNING"
abbrev pub is_running : WorkflowState → Bool
is_running running = true
is_running _ = false

-- state == "FAILING"
abbrev pub is_failing : WorkflowState → Bool
is_failing failing = true
is_failing _ = false

-- state == "CANCELLING"
abbrev pub is_cancelling : WorkflowState → Bool
is_cancelling cancelling = true
is_cancelling _ = false

-- WorkflowExecution.is_draining, and `state in ["FAILING", "CANCELLING"]`
abbrev pub is_draining : WorkflowState → Bool
is_draining failing = true
is_draining cancelling = true
is_draining _ = false

-- `state in ["INITIALIZING", "RUNNING"]`
abbrev pub is_cancellable : WorkflowState → Bool
is_cancellable initializing = true
is_cancellable running = true
is_cancellable _ = false

-- WorkflowExecution.is_terminal
abbrev pub is_terminal : WorkflowState → Bool
is_terminal succeeded = true
is_terminal failed = true
is_terminal cancelled = true
is_terminal _ = false
