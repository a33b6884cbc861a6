-- ===== src/Adapters.antt =====
-- The adapters of src/invariantql/adapters: the text of SQL statements, and the MongoDB source.
pub mod SqlText
pub mod PostgresSql
pub mod MongoDb
