-- ===== src/Metadata.antt =====
-- The crate cecil-metadata: tables, heaps and the rows of a metadata root.
pub mod Coded
mod Examples
pub mod Schema
pub mod TableSet
pub mod Heaps
pub mod Root
pub mod Reader
mod TableExamples
pub mod Builder
mod BuilderExamples
