-- ===== src/File.antt =====
-- The files of a share, stored in the local directory: backend/src/file/local.service.ts.
pub mod Name
pub mod Upload
pub mod Edit
