-- ===== src/Application.antt =====
-- The application layer, src/invariantql/application.
pub mod Parameters
pub mod Binding
pub mod Registry
pub mod Placement
pub mod Planner
