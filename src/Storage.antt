-- ===== src/Storage.antt =====
-- src/lib/storage: the names and descriptions of uploaded files.
pub mod FileName
pub mod Descriptors
