-- ===== src/Publishing.antt =====
-- backend/app/publishing and the rows of backend/app/db/models.py that it keeps.
pub mod CostGuard
pub mod AutoQueue
pub mod Rows
pub mod Machine
pub mod Scheduler
pub mod Metadata
pub mod Settings
pub mod Enqueue
pub mod Manager
pub mod Worker
pub mod Lifecycle
pub mod Providers
pub mod Oauth
mod Examples
