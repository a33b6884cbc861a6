-- ===== src/Domain.antt =====
-- The domain layer, src/invariantql/domain.
pub mod Diagnostics
pub mod Types
pub mod Expressions
pub mod Plan
pub mod Schema
pub mod Semantics
pub mod Capabilities
pub mod Explain
pub mod Execution
