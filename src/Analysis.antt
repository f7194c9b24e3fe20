-- ===== src/Analysis.antt =====
-- backend/app/json_validation: v1_0.py and video_bounds.py.
pub mod Document
pub mod Bounds
pub mod Foreign
pub mod Validator
mod Examples
