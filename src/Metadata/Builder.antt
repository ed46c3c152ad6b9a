-- ===== src/Metadata/Builder.antt =====
-- crates/cecil-metadata/src/builder.rs: heaps and rows of a metadata root under construction.
pub mod HeapIndex
pub mod HeapBuffer
pub mod UserStrings
pub mod Guids
pub mod Rows
pub mod Finalize
