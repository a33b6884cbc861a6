-- ===== src/Tests.antt =====
-- Runs of the properties on concrete inputs.
mod Types
mod Expressions
mod Plan
mod Planner
mod Schema
mod Parameters
mod SqlText
mod MongoDb
mod Registry
mod Binding
