-- ===== src/Interfaces.antt =====
-- The HTTP interface of src/nexusflow/interfaces/http.
pub mod Callback
