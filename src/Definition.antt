-- ===== src/Definition.antt =====
-- src/nexusflow/definition: from a definition as it is written to a definition as it is stored.
pub mod Codec
pub mod Normalizer
pub mod Validator
