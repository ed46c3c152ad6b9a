-- ===== src/Core.antt =====
-- The crate cecil-core: errors, byte cursors, compressed integers and tokens.
pub mod Error
pub mod Reader
pub mod Writer
pub mod TableIndex
pub mod TokenType
pub mod Token
pub mod Examples
