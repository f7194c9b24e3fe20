-- ===== src/Examples.antt =====
-- The theorems about time codes, analysis documents and paths at concrete values.
use ai_video_clip_processing.Base.{
  true, ◌≡◌, refl, false, none, [], ◌∷◌, ◌++◌, map, All, Text, codes, text_eq, strip, strip_by,
  drop_while, is_space, pos, if◌then◌else◌,
}
use ai_video_clip_processing.Errors.{ok, err, not_found}
use ai_video_clip_processing.Schemas.Json.{end}
use ai_video_clip_processing.Schemas.Validated.{
  AnalysisDocument, ClipIn, ValidatedAnalysis, ValidatedClip,
}
use ai_video_clip_processing.Jobs.Models.{VideoMetadata}
use ai_video_clip_processing.Publishing.Rows.{Unique}
use ai_video_clip_processing.Timecode.{
  digit_value, other_zeros, validate_clip_range, parse_timecode, format_seconds,
}
use ai_video_clip_processing.Timecode.RoundTrip.{parse-format}
use ai_video_clip_processing.Analysis.Document.{validated_clip, validate_document}
use ai_video_clip_processing.Analysis.Document.Valid.{IsTimed, validate_document-valid}
use ai_video_clip_processing.Output.Naming.{clip_output_basename}
use ai_video_clip_processing.Output.Naming.Safe.{is_safe, is_safe-clip_output_basename}
use ai_video_clip_processing.Storage.Paths.{match_id, job_dir}
use ai_video_clip_processing.Storage.Paths.Own.{job_dir-own}

parse-format_example : parse_timecode (format_seconds 3661) ≡ ok 3661
parse-format_example = parse-format 3661

abbrev clip_in : Text → Text → ClipIn
clip_in clip_id end_time = record {
  clip_id = clip_id;
  rank = pos 1;
  start_time = codes "00:00:05";
  end_time = end_time;
  duration_seconds = pos 30;
  viral_score = pos 8;
  category = [];
  speaker = [];
  hook = codes "hook";
  title_options = [];
  caption = [];
  hashtags = [];
  reason = [];
  payoff = [];
  context_warning = none;
  copyright_warning = none;
  extra = end;
}

abbrev pub document : AnalysisDocument
document = record {
  schema_version = codes "1.0";
  analysis = record {
    source_type = codes "podcast";
    language = codes "en";
    total_clips_found = pos 2;
    analysis_status = codes "complete";
  };
  clips = clip_in (codes "1") (codes "00:00:35") ∷ clip_in (codes "2") (codes "00:01:00") ∷ [];
}

abbrev pub clip1 : ValidatedClip
clip1 = validated_clip (clip_in (codes "1") (codes "00:00:35")) 5 35 30

abbrev pub clip2 : ValidatedClip
clip2 = validated_clip (clip_in (codes "2") (codes "00:01:00")) 5 60 55

abbrev pub validated_document : ValidatedAnalysis
validated_document = record {
  schema_version = codes "1.0";
  analysis = document.analysis;
  clips = clip1 ∷ clip2 ∷ [];
}

document-validated : validate_document document ≡ ok validated_document
unfolding validate_document validate_clip_range text_eq strip strip_by drop_while is_space
    digit_value other_zeros
document-validated = refl

validate_document-valid_example :
    All IsTimed (clip1 ∷ clip2 ∷ [])
    × (map (λ (c : ValidatedClip). c.clip_id) (clip1 ∷ clip2 ∷ [])
        ≡ map (λ (c : ClipIn). c.clip_id) document.clips)
    × Unique (λ (c : ClipIn). c.clip_id) document.clips
validate_document-valid_example =
    validate_document-valid document validated_document document-validated

-- a video of 40 seconds
abbrev pub video : VideoMetadata
video = record {
  duration_seconds = 40000000;
  width = 1920;
  height = 1080;
  fps = (25, 1);
  video_codec = codes "h264";
  audio_codec = none;
  audio_present = false;
  size_bytes = 9;
}

job_dir-own_example :
    job_dir (λ path. path) (codes "jobs" ∷ []) (codes "uploads" ∷ []) (codes "a1") ≡ (
      if match_id 0 (codes "a1")
      then ok ((codes "jobs" ∷ []) ++ codes "a1" ∷ [])
      else err not_found)
job_dir-own_example =
    job_dir-own (λ path. path) (codes "jobs" ∷ []) (codes "uploads" ∷ []) (codes "a1") refl refl

is_safe-clip_output_basename_example :
    is_safe (clip_output_basename (codes "../a b") (pos 3) (pos 120)) ≡ true
is_safe-clip_output_basename_example =
    is_safe-clip_output_basename (codes "../a b") (pos 3) (pos 120)
