-- ===== src/Clip/Examples.antt =====
-- The theorems about the rendering of a clip at one clip.
use ai_video_clip_processing.Base.{
  ℕ, ◌≡◌, refl, Option, none, some, List, [], ◌∷◌, Text, codes, pos, strip_by, drop_while, is_space,
}
use ai_video_clip_processing.Errors.{Result, ok}
use ai_video_clip_processing.Samples.{sample_clip, sample_config, sample_video}
use ai_video_clip_processing.Schemas.Validated.{ValidatedClip}
use ai_video_clip_processing.Jobs.Models.{VideoMetadata}
use ai_video_clip_processing.Storage.Paths.{FilePath}
use ai_video_clip_processing.Clip.Progress.{Process, read_stdout_progress}
use ai_video_clip_processing.Clip.Pipeline.{Source, build_ffmpeg_args, output_path_of, process_clip}
use ai_video_clip_processing.Clip.Pipeline.Checked.{IsChecked, process_clip-IsChecked}

abbrev float_text : ℕ → Text
float_text n = codes "0.5"

abbrev source : Source
source = record { path = codes "/jobs/a1/source.mp4"; metadata = sample_video 40000000 }

abbrev clip : ValidatedClip
clip = sample_clip (codes "1") 35

-- ffmpeg reports its progress and ends with 0
abbrev ffmpeg : List Text → Process
ffmpeg args = record {
  lines = codes "out_time_ms=15000000" ∷ codes "progress=end" ∷ [];
  returncode = some (pos 0);
}

abbrev size : Text → Option ℕ
size path = some 9

abbrev probe : Text → Result VideoMetadata
probe path = ok (sample_video 30100000)

abbrev jobs_dir : FilePath
jobs_dir = codes "jobs" ∷ codes "a1" ∷ []

clip_runs :
    (process_clip float_text ffmpeg size probe jobs_dir source clip sample_config none).1
    ≡ ok (output_path_of jobs_dir clip)
unfolding process_clip
clip_runs = refl

process_clip-IsChecked_example :
    (output_path_of jobs_dir clip ≡ output_path_of jobs_dir clip)
    × (args : List Text) × (build_ffmpeg_args float_text source
          (output_path_of jobs_dir clip)
          5
          30
          sample_config
          none
        ≡ some args)
    × IsChecked float_text ffmpeg size probe source clip sample_config args
        (output_path_of jobs_dir clip)
process_clip-IsChecked_example =
    process_clip-IsChecked float_text ffmpeg size probe jobs_dir source clip sample_config none
      (output_path_of jobs_dir clip) clip_runs

-- half of the clip reads as fifty percent
half_read :
    read_stdout_progress 30 (codes "out_time_ms=15000000\n" ∷ codes "frame=3" ∷ []) ≡ 50000000 ∷ []
unfolding read_stdout_progress strip_by drop_while is_space
half_read = refl
