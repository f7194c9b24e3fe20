-- ===== src/Ingestion.antt =====
-- backend/app/video_ingestion: the sources of a video, and the manager of downloads.
pub mod Host
pub mod Remote
pub mod Manager
mod Examples
