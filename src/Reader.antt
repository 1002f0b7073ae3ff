-- ===== src/Reader.antt =====
-- reader.go: how an archive is opened and its files are read.
pub mod Signature
pub mod Front
pub mod Opens
pub mod Files
pub mod Content
pub mod Listing
