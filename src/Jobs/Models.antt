-- ===== src/Jobs/Models.antt =====
-- backend/app/jobs/models.py, and `VideoMetadata` of backend/app/video_metadata/probe.py.
use ai_video_clip_processing.Base.{ℕ, Bool, true, false, Option, List, Text}
use ai_video_clip_processing.Errors.{AppError}
use ai_video_clip_processing.Schemas.Validated.{ValidatedClip}
use ai_video_clip_processing.Schemas.ProcessingConfig.{ProcessingConfig}

pub data JobStatus : Type 0 where
  queued downloading downloaded validating processing completed failed cancelled : JobStatus

pub data ClipStatus : Type 0 where
  queued processing completed failed cancelled : ClipStatus

-- `duration_seconds` is in microseconds, the precision that ffprobe prints, and `fps` a fraction.
pub record VideoMetadata : Type 0 where
  pub duration_seconds : ℕ
  pub width : ℕ
  pub height : ℕ
  pub fps : ℕ × ℕ
  pub video_codec : Text
  pub audio_codec : Option Text
  pub audio_present : Bool
  pub size_bytes : ℕ

-- `progress_pct` is in millionths of a percent.
pub record ClipJob : Type 0 where
  pub clip : ValidatedClip
  pub status : ClipStatus
  pub progress_pct : ℕ
  pub output_file : Option Text
  pub error : Option AppError

-- `clips` is a dict in the order of insertion, keyed by `clip_id`.
pub record ProcessingJob : Type 0 where
  pub job_id : Text
  pub idempotency_key : Text
  pub config : ProcessingConfig
  pub clips : List (Text × ClipJob)
  pub status : JobStatus
  pub source_video : Option VideoMetadata
  pub created_at : ℕ
  pub error : Option AppError
  pub reused : Bool

abbrev pub clip_completed : ClipStatus → Bool
clip_completed completed = true
clip_completed _ = false
