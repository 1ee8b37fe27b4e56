-- ===== src/Domain.antt =====
-- src/nexusflow/domain: the vocabulary of states, JSON values and failures.
pub mod WorkflowState
pub mod TaskState
pub mod AttemptState
pub mod Json
pub mod Failure
pub mod Identifiers
pub mod Spec
pub mod Readiness
pub mod Graph
pub mod Execution
