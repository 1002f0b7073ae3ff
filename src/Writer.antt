-- ===== src/Writer.antt =====
-- writer.go and internal/spool (spool.go): how an archive is written.
pub mod Spool
pub mod Coordinator
pub mod Aes
pub mod State
pub mod Create
pub mod Describe
pub mod Close
pub mod Layout
pub mod Placement
