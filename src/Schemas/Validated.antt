-- ===== src/Schemas/Validated.antt =====
-- backend/app/schemas/analysis.py and backend/app/schemas/validated.py.
use ai_video_clip_processing.Base.{ℕ, Bool, Option, List, Text, ℤ}
use ai_video_clip_processing.Schemas.Json.{Fields}

-- the `analysis` object of a document
pub record AnalysisMeta : Type 0 where
  pub source_type : Text
  pub language : Text
  pub total_clips_found : ℤ
  pub analysis_status : Text

-- A clip as the analysis step wrote it. `extra` holds what `extra="allow"` lets through.
pub record ClipIn : Type 0 where
  pub clip_id : Text
  pub rank : ℤ
  pub start_time : Text
  pub end_time : Text
  pub duration_seconds : ℤ
  pub viral_score : ℤ
  pub category : Text
  pub speaker : Text
  pub hook : Text
  pub title_options : List (Text × Text)
  pub caption : Text
  pub hashtags : List Text
  pub reason : Text
  pub payoff : Text
  pub context_warning : Option Text
  pub copyright_warning : Option Text
  pub extra : Fields

pub record AnalysisDocument : Type 0 where
  pub schema_version : Text
  pub analysis : AnalysisMeta
  pub clips : List ClipIn

pub record ValidatedClip : Type 0 where
  pub clip_id : Text
  pub rank : ℤ
  pub start_time : Text
  pub end_time : Text
  pub start_seconds : ℕ
  pub end_seconds : ℕ
  pub duration_seconds : ℕ
  pub ai_reported_duration_seconds : ℤ
  pub duration_mismatch : Bool
  pub viral_score : ℤ
  pub category : Text
  pub speaker : Text
  pub hook : Text
  pub title_options : List (Text × Text)
  pub caption : Text
  pub hashtags : List Text
  pub reason : Text
  pub payoff : Text
  pub context_warning : Option Text
  pub copyright_warning : Option Text
  pub extra : Fields

pub record ValidatedAnalysis : Type 0 where
  pub schema_version : Text
  pub analysis : AnalysisMeta
  pub clips : List ValidatedClip
