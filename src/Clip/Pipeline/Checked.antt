-- ===== src/Clip/Pipeline/Checked.antt =====
-- What a clip that `process_clip` returns has passed, and what its command line depends on.
use ai_video_clip_processing.Base.{
  ℕ, ◌+◌, ◌-◌, ◌≤◌, ◌≡◌, ◌≢◌, refl, ap, ◌∙◌, ◌&&◌, is_some, Option, none, some, List, [], ◌∷◌, ◌++◌,
  Text, codes, ℤ, pos, zero, suc, negsuc, arith, inl, inr,
}
use ai_video_clip_processing.Errors.{Result, ok, Result-cases}
use ai_video_clip_processing.Schemas.ProcessingConfig.{ProcessingConfig}
use ai_video_clip_processing.Schemas.Validated.{ValidatedClip}
use ai_video_clip_processing.Jobs.Models.{VideoMetadata}
use ai_video_clip_processing.Storage.Paths.{FilePath}
use ai_video_clip_processing.Output.Check.{
  IsRendered, validate_output_clip, validate_output_clip-exact,
}
use ai_video_clip_processing.Clip.Filters.{build_filter_complex}
use ai_video_clip_processing.Clip.Progress.{Process, ending, run_ffmpeg_with_progress}
use ai_video_clip_processing.Clip.Pipeline.{
  Source, seconds_text, overlay_args, graph_args, input_args, prepend, is_overlay,
  build_ffmpeg_args, expected_of, output_path_of, render, process_clip,
}

ending-ok : (code : Option ℤ) → ending code ≡ ok tt → code ≡ some (pos 0)
ending-ok none e = cc
ending-ok (some (pos zero)) e = refl
ending-ok (some (pos (suc n))) e = cc
ending-ok (some (negsuc n)) e = cc

output_path_of-ignores :
    (job_dir : FilePath) (clip other : ValidatedClip)
    → clip.clip_id ≡ other.clip_id
    → clip.rank ≡ other.rank
    → clip.viral_score ≡ other.viral_score
    → output_path_of job_dir clip ≡ output_path_of job_dir other
unfolding output_path_of
output_path_of-ignores job_dir clip other a b c = rw (a, b, c) refl

module _ (float_text : ℕ → Text) where
  prepend-some :
      (front : List Text) (o : Option (List Text)) (args : List Text)
      → prepend front o ≡ some args
      → (rest : List Text) × (args ≡ front ++ rest)
  prepend-some front none args e = cc
  prepend-some front (some rest) args e = (rest, cc)

  -- The command line of a clip starts with a coarse seek before the source, at most two seconds short
  -- of the start, goes on with the overlay if there is one, and then seeks the rest and gives the
  -- duration: the two seeks add up to the start.
  pub build_ffmpeg_args-seeks :
      (source : Source) (output_path : Text) (start_seconds duration_seconds : ℕ)
      → (config : ProcessingConfig) (overlay_path : Option Text) (args : List Text)
      → build_ffmpeg_args float_text source output_path start_seconds duration_seconds config
          overlay_path
        ≡ some args
      → (coarse residual : ℕ) × (rest : List Text) × (coarse + residual ≡ start_seconds)
        × (residual ≤ 2)
        × (args
            ≡ ((codes "-hide_banner"
                  ∷ codes "-y"
                  ∷ codes "-ss"
                  ∷ seconds_text coarse
                  ∷ codes "-i"
                  ∷ source.path
                  ∷ [])
                ++ (overlay_args config.watermark.mode overlay_path
                    ++ (codes "-ss"
                        ∷ seconds_text residual
                        ∷ codes "-t"
                        ∷ seconds_text duration_seconds
                        ∷ [])))
              ++ rest)
  unfolding build_ffmpeg_args
  build_ffmpeg_args-seeks source output_path start_seconds duration_seconds config overlay_path args
        e =
      let (rest, k) =
        prepend-some
          (input_args source start_seconds duration_seconds config.watermark.mode overlay_path)
          (graph_args config source output_path (
            build_filter_complex float_text config
              (is_overlay config.watermark.mode && is_some overlay_path)))
          args e in
      (start_seconds - 2, start_seconds - (start_seconds - 2), rest, omega arith, omega arith, k)

  module _ (ffmpeg : List Text → Process) (size : Text → Option ℕ)
      (probe : Text → Result VideoMetadata) where
    -- what is known of a clip that was returned
    pub record IsChecked (source : Source) (clip : ValidatedClip) (config : ProcessingConfig)
        (args : List Text) (path : Text) : Type 0 where
      pub exit_code : (ffmpeg args).returncode ≡ some (pos 0)
      pub bytes : ℕ
      pub found : size path ≡ some bytes
      pub not_empty : bytes ≢ 0
      pub metadata : VideoMetadata
      pub probed : probe path ≡ ok metadata
      pub rendered : IsRendered (expected_of source clip config) metadata

    validated :
        (source : Source) (out : Text) (clip : ValidatedClip) (config : ProcessingConfig)
        → (args : List Text) (metadata : VideoMetadata) → (ffmpeg args).returncode ≡ some (pos 0)
        → validate_output_clip (size out) (probe out) (expected_of source clip config) ≡ ok metadata
        → IsChecked source clip config args out
    validated source out clip config args metadata code e =
        let exact =
          validate_output_clip-exact (size out) (probe out) (expected_of source clip config)
            metadata in
        let (n, there, full, probed, rendered) = exact.0 e in
        record {
          exit_code = code;
          bytes = n;
          found = there;
          not_empty = full;
          metadata = metadata;
          probed = probed;
          rendered = rendered;
        }

    render-IsChecked :
        (source : Source) (out : Text) (clip : ValidatedClip) (config : ProcessingConfig)
        → (o : Option (List Text)) (path : Text)
        → (render float_text ffmpeg size probe source out clip config o).1 ≡ ok path
        → (path ≡ out)
          × (args : List Text) × (o ≡ some args)
          × IsChecked source clip config args out
    unfolding render run_ffmpeg_with_progress
    render-IsChecked source out clip config none path e = cc
    render-IsChecked source out clip config (some args) path e =
        elim (Result-cases (ending (ffmpeg args).returncode)) [
          | inl (x, h) ↦ cc
          | inr (t, h) ↦
              elim (Result-cases
                (validate_output_clip (size out) (probe out) (expected_of source clip config))) [
                  | inl (x, k) ↦ cc
                  | inr (metadata, k) ↦ (
                    cc,
                    args,
                    refl,
                    validated source out clip config args metadata
                        (ending-ok (ffmpeg args).returncode h) k,
                  )
                ]
        ]

    -- A clip is returned only under its own path, after ffmpeg ended with 0 on the command line of the
    -- clip, left a file there that is not empty, and ffprobe found in it what the clip must be.
    pub process_clip-IsChecked :
        (job_dir : FilePath) (source : Source) (clip : ValidatedClip) (config : ProcessingConfig)
        → (overlay_path : Option Text) (path : Text)
        → (process_clip float_text ffmpeg size probe job_dir source clip config overlay_path).1
          ≡ ok path
        → (path ≡ output_path_of job_dir clip)
          × (args : List Text) × (build_ffmpeg_args float_text source
                (output_path_of job_dir clip)
                clip.start_seconds
                clip.duration_seconds
                config
                overlay_path
              ≡ some args)
          × IsChecked source clip config args (output_path_of job_dir clip)
    unfolding process_clip
    process_clip-IsChecked job_dir source clip config overlay_path path e =
        render-IsChecked source (output_path_of job_dir clip) clip config
          (build_ffmpeg_args float_text source (output_path_of job_dir clip) clip.start_seconds
            clip.duration_seconds config overlay_path)
          path e

    render-ignores :
        (source : Source) (out : Text) (clip other : ValidatedClip) (config : ProcessingConfig)
        → (o : Option (List Text)) → clip.duration_seconds ≡ other.duration_seconds
        → render float_text ffmpeg size probe source out clip config o
          ≡ render float_text ffmpeg size probe source out other config o
    unfolding render
    render-ignores source out clip other config none e = refl
    render-ignores source out clip other config (some args) e = rw e refl

    -- Two clips with the same identifier, rank, score, start and duration run alike: no other field of
    -- a clip, such as its texts, reaches ffmpeg or the name of the file.
    pub process_clip-ignores :
        (job_dir : FilePath) (source : Source) (clip other : ValidatedClip)
        → (config : ProcessingConfig) (overlay_path : Option Text) → clip.clip_id ≡ other.clip_id
        → clip.rank ≡ other.rank
        → clip.viral_score ≡ other.viral_score
        → clip.start_seconds ≡ other.start_seconds
        → clip.duration_seconds ≡ other.duration_seconds
        → process_clip float_text ffmpeg size probe job_dir source clip config overlay_path
          ≡ process_clip float_text ffmpeg size probe job_dir source other config overlay_path
    unfolding process_clip
    process_clip-ignores job_dir source clip other config overlay_path a b c d e =
        let run : Text → ℕ → ℕ → List ℕ × Result Text = λ out start duration.
          render float_text ffmpeg size probe source out other config
            (build_ffmpeg_args float_text source out start duration config overlay_path) in
        let out = output_path_of job_dir other in
        render-ignores source (output_path_of job_dir clip) clip other config
          (build_ffmpeg_args float_text source (output_path_of job_dir clip) clip.start_seconds
            clip.duration_seconds config overlay_path)
          e
        ∙ ap (λ o. run o clip.start_seconds clip.duration_seconds)
            (output_path_of-ignores job_dir clip other a b c)
        ∙ ap (λ s. run out s clip.duration_seconds) d
        ∙ ap (run out other.start_seconds) e
