-- ===== src/Clip.antt =====
-- The rendering of a clip: backend/app/clip_processing/pipeline.py, backend/app/cropping,
-- backend/app/watermark and backend/app/ffmpeg_utils.
pub mod Filters
pub mod Progress
pub mod Pipeline
mod Examples
