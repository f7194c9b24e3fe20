-- ===== src/Schemas/ProcessingConfig.antt =====
-- backend/app/schemas/processing_config.py: what the operator chooses for a job.
use ai_video_clip_processing.Base.{
  ℕ, Bool, true, false, ◌&&◌, not, Option, none, some, Text, is_some, [],
}

pub data CropStrategy : Type 0 where
  center_crop fit_with_blur_background : CropStrategy

pub data WatermarkMode : Type 0 where
  unmarked authorized_overlay authorized_remove : WatermarkMode

pub record RemoveRegion : Type 0 where
  pub x : ℕ
  pub y : ℕ
  pub width : ℕ
  pub height : ℕ

-- `opacity` is in millionths.
pub record WatermarkConfig : Type 0 where
  pub mode : WatermarkMode
  pub authorized : Bool
  pub overlay_asset_id : Option Text
  pub position : Text
  pub margin_px : ℕ
  pub opacity : ℕ
  pub remove_region : Option RemoveRegion

-- `fps` is `none` to keep the source's.
pub record ProcessingConfig : Type 0 where
  pub output_width : ℕ
  pub output_height : ℕ
  pub crop_strategy : CropStrategy
  pub watermark : WatermarkConfig
  pub video_codec : Text
  pub audio_codec : Text
  pub crf : ℕ
  pub fps : Option ℕ

-- `not text` for an optional text
abbrev pub is_blank : Option Text → Bool
is_blank none = true
is_blank (some []) = true
is_blank (some _) = false

-- `mode != WatermarkMode.NONE`
abbrev pub is_marked : WatermarkMode → Bool
is_marked unmarked = false
is_marked _ = true

-- what each mode requires beside the confirmation
abbrev mode_complete : WatermarkMode → WatermarkConfig → Bool
mode_complete unmarked w = true
mode_complete authorized_overlay w = not (is_blank w.overlay_asset_id)
mode_complete authorized_remove w = is_some w.remove_region

-- `check_authorization`, which pydantic runs after the fields' own constraints: whether it accepts
unfoldable pub check_authorization : WatermarkConfig → Bool
check_authorization w = not (is_marked w.mode && not w.authorized) && mode_complete w.mode w
