-- ===== src/Routes/Queue/Within.antt =====
-- Which clips `generate_and_queue` puts into its job, and which it reports as skipped.
use ai_video_clip_processing.Base.{
  ℕ, ◌≡◌, ◌∙◌, refl, ap, sym, Bool, true, not, none, some, arith, if◌then◌else◌, Text, In, ltb, ◌*◌,
  select, dict_get, inl, inr, ◌⊎◌,
}
use ai_video_clip_processing.Errors.{Result, ok, err}
use ai_video_clip_processing.Schemas.Validated.{ValidatedClip, ValidatedAnalysis}
use ai_video_clip_processing.Analysis.Bounds.{check_all_clips, check_all_clips-exact, has_error}
use ai_video_clip_processing.Storage.Paths.{FilePath}
use ai_video_clip_processing.Jobs.Models.{ProcessingJob, VideoMetadata}
use ai_video_clip_processing.Jobs.Manager.{JobManager, new_clip}
use ai_video_clip_processing.Routes.{
  Host, raw_of, validated_of, find_upload_source, create_keyed_job,
}
use ai_video_clip_processing.Routes.Selected.{
  create_keyed_job-new, new_clips-select, validated_of-IsDistinct,
}
use ai_video_clip_processing.Routes.Queue.{
  GenerateAndQueueRequest, Generation, Generated, generation_of, answer_of, with_generation,
  generate_and_queue,
}

swapped :
    {A : Type 0} (x y : A) (b b' : Bool) → b ≡ b' → (if not b then x else y) ≡ (if b' then y else x)
swapped x y b b' e = ground (arith, e)

-- the selection of a request whose document, source and video are known
abbrev generation_for : ValidatedAnalysis → VideoMetadata → FilePath → Generation
generation_for validated video source = record {
  selected =
      select (λ c. not (has_error c.clip_id (check_all_clips validated.clips video)))
        validated.clips;
  skipped = check_all_clips validated.clips video;
  source_path = source;
}

module _ (host : Host) (payload : GenerateAndQueueRequest) (job_id : Text) (now : ℕ)
    (m : JobManager) where
  -- what is answered comes from the job that was given
  answer_of-ok :
      (generation : Generation) (created : Result ProcessingJob × JobManager)
      (generated : Generated)
      → (answer_of payload generation created).0 ≡ ok generated
      → (created.0 ≡ ok generated.job) × (generated.skipped_clips ≡ generation.skipped)
  answer_of-ok generation (err e, m') generated h = absurd (cc)
  answer_of-ok generation (ok job, m') generated h = ground (arith, h)

  generation_of-known :
      (validated : ValidatedAnalysis) (source : FilePath) (video : VideoMetadata)
      → validated_of host payload.json_data payload.json_text ≡ ok validated
      → find_upload_source host payload.upload_id ≡ ok source
      → host.probe_video source ≡ ok video
      → generation_of host payload ≡ ok (generation_for validated video source)
  unfolding generation_of
  generation_of-known validated source video v f p = rw (v, f, p) refl

  -- If the document of a request is valid, its video is found and ffprobe reads it, and
  -- `generate_and_queue` gives a job, then each clip of the document that ends within the video is in
  -- that job, unless the job is an earlier one that is reused, and is not reported as skipped; and each
  -- other clip is not in it, unless it is such a job, and is reported.
  pub generate_and_queue-within :
      (validated : ValidatedAnalysis) (source : FilePath) (video : VideoMetadata)
      (generated : Generated) (clip : ValidatedClip)
      → validated_of host payload.json_data payload.json_text ≡ ok validated
      → find_upload_source host payload.upload_id ≡ ok source
      → host.probe_video source ≡ ok video
      → (generate_and_queue host payload job_id now m).0 ≡ ok generated
      → In clip validated.clips
      → ((generated.job.reused ≡ true)
          ⊎ (dict_get clip.clip_id generated.job.clips ≡ (
              if ltb video.duration_seconds (clip.end_seconds * 1000000)
              then none
              else some (new_clip clip))))
        × (has_error clip.clip_id generated.skipped_clips
            ≡ ltb video.duration_seconds (clip.end_seconds * 1000000))
  unfolding generate_and_queue
  generate_and_queue-within validated source video generated clip v f p h k =
      let distinct =
        validated_of-IsDistinct host (raw_of payload.json_data payload.json_text) validated v in
      let exact = check_all_clips-exact clip validated.clips video distinct k in
      let generation = generation_for validated video source in
      let created = create_keyed_job host job_id source generation.selected payload.config now m in
      let (given, skipped) = answer_of-ok generation created generated (
        ap (λ g. (with_generation host payload job_id now m g).0)
          (sym (generation_of-known validated source video v f p))
        ∙ h) in
      (
        elim (create_keyed_job-new host job_id source generation.selected payload.config now m
            generated.job given) [
              | inl reused ↦ inl reused
              | inr clips ↦ inr (
                  ap (dict_get clip.clip_id) clips
                  ∙ new_clips-select
                      (λ c. not (has_error c.clip_id (check_all_clips validated.clips video))) clip
                      validated.clips distinct k
                  ∙ swapped _ _ (has_error clip.clip_id (check_all_clips validated.clips video)) _
                      exact)
            ],
        ap (has_error clip.clip_id) skipped ∙ exact,
      )
