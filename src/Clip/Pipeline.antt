-- ===== src/Clip/Pipeline.antt =====
-- backend/app/clip_processing/pipeline.py: the command line of ffmpeg for a clip, and the run of a
-- clip. Times are whole seconds, as time codes give them.
pub mod Checked
use ai_video_clip_processing.Base.{
  ℕ, ◌-◌, ◌*◌, Bool, true, false, ◌&&◌, Option, none, some, List, [], ◌∷◌, ◌++◌, if◌then◌else◌,
  Text, text_eq, codes, is_some,
}
use ai_video_clip_processing.Errors.{Result, ok, err, unknown_error, ◌>>=◌}
use ai_video_clip_processing.Timecode.Decimal.{decimal}
use ai_video_clip_processing.Schemas.ProcessingConfig.{
  WatermarkMode, authorized_overlay, ProcessingConfig,
}
use ai_video_clip_processing.Schemas.Validated.{ValidatedClip}
use ai_video_clip_processing.Jobs.Models.{VideoMetadata}
use ai_video_clip_processing.Storage.Paths.{FilePath}
use ai_video_clip_processing.Publishing.Enqueue.{path_text}
use ai_video_clip_processing.Output.Naming.{clip_output_basename}
use ai_video_clip_processing.Output.Check.{Expected, validate_output_clip}
use ai_video_clip_processing.Clip.Filters.{bracket, build_filter_complex}
use ai_video_clip_processing.Clip.Progress.{Process, run_ffmpeg_with_progress}

-- `f"{n:.3f}"` of a whole number
unfoldable pub seconds_text : ℕ → Text
unfolding decimal
seconds_text n = decimal n ++ codes ".000"

-- where the decoder starts
abbrev pub coarse_seek : ℕ → ℕ
coarse_seek start_seconds = start_seconds - 2

-- what it then skips
abbrev pub residual_seek : ℕ → ℕ
residual_seek start_seconds = start_seconds - coarse_seek start_seconds

abbrev pub is_overlay : WatermarkMode → Bool
is_overlay authorized_overlay = true
is_overlay _ = false

-- `source_audio_codec == config.audio_codec`
abbrev same_codec : Option Text → Text → Bool
same_codec none codec = false
same_codec (some source) codec = text_eq source codec

-- the options on sound
abbrev pub audio_args : Bool → Option Text → Text → List Text
audio_args source_audio_present source_audio_codec codec =
    if source_audio_present
    then codes "-map"
      ∷ codes "0:a?"
      ∷ (if same_codec source_audio_codec codec
          then codes "-c:a" ∷ codes "copy" ∷ []
          else codes "-c:a" ∷ codec ∷ codes "-b:a" ∷ codes "192k" ∷ [])
    else codes "-an" ∷ []

-- the second input, if the watermark is an overlay
abbrev pub overlay_args : WatermarkMode → Option Text → List Text
overlay_args authorized_overlay (some path) = codes "-i" ∷ path ∷ []
overlay_args _ _ = []

-- the options on the picture, the output file and the progress
abbrev pub output_args : ProcessingConfig → Text → List Text
output_args config output_path =
    codes "-c:v"
    ∷ config.video_codec
    ∷ codes "-crf"
    ∷ decimal config.crf
    ∷ codes "-preset"
    ∷ codes "veryfast"
    ∷ codes "-pix_fmt"
    ∷ codes "yuv420p"
    ∷ codes "-avoid_negative_ts"
    ∷ codes "make_zero"
    ∷ codes "-movflags"
    ∷ codes "+faststart"
    ∷ output_path
    ∷ codes "-progress"
    ∷ codes "pipe:1"
    ∷ codes "-nostats"
    ∷ []

-- The source, as the pipeline reads it.
pub record Source : Type 0 where
  pub path : Text
  pub metadata : VideoMetadata

-- the options from the graph on
abbrev pub graph_args : ProcessingConfig → Source → Text → Option (Text × Text) → Option (List Text)
graph_args config source output_path none = none
graph_args config source output_path (some (graph, label)) = some (
    codes "-filter_complex"
    ∷ graph
    ∷ codes "-map"
    ∷ bracket label
    ∷ (audio_args source.metadata.audio_present source.metadata.audio_codec config.audio_codec
        ++ output_args config output_path))

-- the options up to the graph
abbrev pub input_args : Source → ℕ → ℕ → WatermarkMode → Option Text → List Text
input_args source start_seconds duration_seconds mode overlay_path =
    (codes "-hide_banner"
      ∷ codes "-y"
      ∷ codes "-ss"
      ∷ seconds_text (coarse_seek start_seconds)
      ∷ codes "-i"
      ∷ source.path
      ∷ [])
    ++ (overlay_args mode overlay_path
        ++ (codes "-ss"
            ∷ seconds_text (residual_seek start_seconds)
            ∷ codes "-t"
            ∷ seconds_text duration_seconds
            ∷ []))

abbrev pub prepend : List Text → Option (List Text) → Option (List Text)
prepend front none = none
prepend front (some rest) = some (front ++ rest)

-- what the rendered clip must be
abbrev pub expected_of : Source → ValidatedClip → ProcessingConfig → Expected
expected_of source clip config = record {
  duration_microseconds = clip.duration_seconds * 1000000;
  width = config.output_width;
  height = config.output_height;
  source_audio_present = source.metadata.audio_present;
}

-- the file that a clip is written to
unfoldable pub output_path_of : FilePath → ValidatedClip → Text
unfolding path_text clip_output_basename
output_path_of job_dir clip =
    path_text (
      job_dir
      ++ (clip_output_basename clip.clip_id clip.rank clip.viral_score ++ codes ".mp4") ∷ [])

module _ (float_text : ℕ → Text) where
  -- `build_ffmpeg_args`; `none` is the `AssertionError` of the filter that removes a region
  unfoldable pub build_ffmpeg_args :
      Source → Text → ℕ → ℕ → ProcessingConfig → Option Text → Option (List Text)
  unfolding seconds_text decimal build_filter_complex text_eq
  build_ffmpeg_args source output_path start_seconds duration_seconds config overlay_path =
      prepend (input_args source start_seconds duration_seconds config.watermark.mode overlay_path)
        (graph_args config source output_path (
          build_filter_complex float_text config
            (is_overlay config.watermark.mode && is_some overlay_path)))

  -- What a clip meets outside the code: ffmpeg on a list of options, the size of a file that is
  -- there, and ffprobe on a file.
  module _ (ffmpeg : List Text → Process) (size : Text → Option ℕ)
      (probe : Text → Result VideoMetadata) where
    -- after the options: the reports of progress, and the path or an error
    unfoldable pub render :
        Source → Text → ValidatedClip → ProcessingConfig → Option (List Text) → List ℕ × Result Text
    unfolding run_ffmpeg_with_progress validate_output_clip
    render source output_path clip config none = ([], err unknown_error)
    render source output_path clip config (some args) =
        let (reports, ending) = run_ffmpeg_with_progress clip.duration_seconds (ffmpeg args) in
        (
          reports,
          do
            _ ← ending
            _ ←
                validate_output_clip (size output_path) (probe output_path)
                  (expected_of source clip config)
            ok output_path,
        )

    -- `process_clip`
    unfoldable pub process_clip :
        FilePath → Source → ValidatedClip → ProcessingConfig → Option Text → List ℕ × Result Text
    unfolding render build_ffmpeg_args output_path_of
    process_clip job_dir source clip config overlay_path =
        let output_path = output_path_of job_dir clip in
        render source output_path clip config (
          build_ffmpeg_args source output_path clip.start_seconds clip.duration_seconds config
            overlay_path)
