-- ===== src/Jobs.antt =====
-- backend/app/jobs: the records of a job, its run, and the manager of jobs.
pub mod Models
pub mod Hashing
pub mod Run
pub mod Manager
mod Examples
