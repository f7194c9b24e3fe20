-- ===== src/Samples.antt =====
-- The data at which the theorems on jobs and clips are run.
use ai_video_clip_processing.Base.{ℕ, true, false, none, some, [], Text, codes, pos}
use ai_video_clip_processing.Schemas.Json.{end}
use ai_video_clip_processing.Schemas.Validated.{ValidatedClip}
use ai_video_clip_processing.Schemas.ProcessingConfig.{
  WatermarkConfig, ProcessingConfig, unmarked, fit_with_blur_background,
}
use ai_video_clip_processing.Jobs.Models.{VideoMetadata}

-- a clip with an identifier, from the fifth second to `end_seconds`
abbrev pub sample_clip : Text → ℕ → ValidatedClip
sample_clip clip_id end_seconds = record {
  clip_id = clip_id;
  rank = pos 1;
  start_time = codes "00:00:05";
  end_time = codes "00:00:35";
  start_seconds = 5;
  end_seconds = end_seconds;
  duration_seconds = 30;
  ai_reported_duration_seconds = pos 30;
  duration_mismatch = false;
  viral_score = pos 8;
  category = [];
  speaker = [];
  hook = codes "hook";
  title_options = [];
  caption = [];
  hashtags = [];
  reason = [];
  payoff = [];
  context_warning = none;
  copyright_warning = none;
  extra = end;
}

abbrev sample_watermark : WatermarkConfig
sample_watermark = record {
  mode = unmarked;
  authorized = false;
  overlay_asset_id = none;
  position = codes "center";
  margin_px = 10;
  opacity = 500000;
  remove_region = none;
}

abbrev pub sample_config : ProcessingConfig
sample_config = record {
  output_width = 1080;
  output_height = 1920;
  crop_strategy = fit_with_blur_background;
  watermark = sample_watermark;
  video_codec = codes "libx264";
  audio_codec = codes "aac";
  crf = 21;
  fps = some 30;
}

-- a video of so many microseconds
abbrev pub sample_video : ℕ → VideoMetadata
sample_video duration_seconds = record {
  duration_seconds = duration_seconds;
  width = 1080;
  height = 1920;
  fps = (30, 1);
  video_codec = codes "h264";
  audio_codec = some (codes "aac");
  audio_present = true;
  size_bytes = 9;
}
