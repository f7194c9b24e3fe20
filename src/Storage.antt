-- ===== src/Storage.antt =====
-- backend/app/storage: where files of jobs and uploads are kept.
pub mod Paths
pub mod Cleanup
