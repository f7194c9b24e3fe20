-- ===== src/Jobs/Run/Outcome.antt =====
-- How the run of a job leaves its clips: each by itself.
use mathlib.Core.Option
use ai_video_clip_processing.Base.{
  ◌≡◌, refl, sym, ap, ◌∙◌, true, Option, some, List, [], ◌∷◌, if◌then◌else◌, Text, map, arith,
  dict_values, dict_get, text_eq, text_eq_iff, All, In, inl, inr, Bool-cases,
}
use ai_video_clip_processing.Errors.{AppError, ok, timestamp_out_of_range}
use ai_video_clip_processing.Schemas.Validated.{ValidatedClip}
use ai_video_clip_processing.Publishing.Rows.{Unique}
use ai_video_clip_processing.Analysis.Bounds.{
  check_all_clips, check_from, put_error, check_clip_within_video, has_error, out_of_range,
  check_all_clips-exact,
}
use ai_video_clip_processing.Jobs.Models.{queued, failed, VideoMetadata, ClipJob, ProcessingJob}
use ai_video_clip_processing.Jobs.Run.{
  got, JobRun, is_queued, run_one_clip, gather_clips, mark_failed, writes_of, fail_out_of_range,
  overlay_of, run_clips, settle_job, after_gather, after_probe, after_obtain, obtain_local, run_job,
}

-- A job as it is created: its clips are keyed by their identifiers, distinct and QUEUED.
abbrev IsKeyed : Text × ClipJob → Type 0
IsKeyed (id, cj) = (id ≡ cj.clip.clip_id) × (cj.status ≡ queued)

pub record IsFresh (clips : List (Text × ClipJob)) : Type 0 where
  pub keyed : All IsKeyed clips
  pub distinct :
      Unique
        (λ (c : ValidatedClip). c.clip_id)
        (map (λ (cj : ClipJob). cj.clip) (dict_values clips))

abbrev failed_with : AppError → ClipJob → ClipJob
failed_with e cj = record cj { status = failed; error = some e }

module _ (run : JobRun) where
  abbrev own_result : Option Text → ClipJob → ClipJob
  own_result overlay cj = if is_queued cj.status then (run_one_clip run overlay cj).1 else cj

  get-gather_clips :
      (overlay : Option Text) (j : Text) (clips : List (Text × ClipJob))
      → dict_get j (gather_clips run overlay clips).1
        ≡ Option.map (own_result overlay) (dict_get j clips)
  unfolding gather_clips dict_get
  get-gather_clips overlay j [] = refl
  get-gather_clips overlay j ((id, cj) ∷ rest) = ground (arith, get-gather_clips overlay j rest)

  get-mark_failed :
      (clip_id j : Text) (e : AppError) (clips : List (Text × ClipJob))
      → dict_get j (mark_failed clip_id e clips) ≡ (
          if text_eq clip_id j
          then Option.map (failed_with e) (dict_get j clips)
          else dict_get j clips)
  unfolding mark_failed dict_get
  get-mark_failed clip_id j e [] = ground arith
  get-mark_failed clip_id j e ((id, cj) ∷ rest) = ground (
    arith,
    get-mark_failed clip_id j e rest,
    text_eq_iff id clip_id,
    text_eq_iff clip_id j,
    text_eq_iff id j,
  )

  module _ (writes : (cj : ClipJob) → run.writes cj ≡ true) where
    writes_of-true : (j : Text) (clips : List (Text × ClipJob)) → writes_of run j clips ≡ true
    unfolding writes_of
    writes_of-true j [] = refl
    writes_of-true j ((id, cj) ∷ rest) = ground (arith, writes cj, writes_of-true j rest)

    pub fail_out_of_range-written :
        (bad : List (Text × AppError)) (clips : List (Text × ClipJob))
        → (fail_out_of_range run bad clips).0 ≡ true
    unfolding fail_out_of_range
    fail_out_of_range-written [] clips = refl
    fail_out_of_range-written ((id, e) ∷ bad) clips = ground (
      arith,
      writes_of-true id (mark_failed id e clips),
      fail_out_of_range-written bad (mark_failed id e clips),
    )

    get-fail_out_of_range :
        (bad : List (Text × AppError)) (j : Text) (clips : List (Text × ClipJob))
        → All (λ (b : Text × AppError). b.1 ≡ timestamp_out_of_range) bad
        → dict_get j (fail_out_of_range run bad clips).1 ≡ (
            if has_error j bad
            then Option.map (failed_with timestamp_out_of_range) (dict_get j clips)
            else dict_get j clips)
    unfolding fail_out_of_range
    get-fail_out_of_range [] j clips h = refl
    get-fail_out_of_range ((id, e) ∷ bad) j clips h = ground (
      arith,
      h,
      writes_of-true id (mark_failed id e clips),
      get-fail_out_of_range bad j (mark_failed id e clips) h.1,
      get-mark_failed id j e clips,
    )

put_error-out_of_range :
    (id : Text) (bad : List (Text × AppError))
    → All (λ (b : Text × AppError). b.1 ≡ timestamp_out_of_range) bad
    → All
        (λ (b : Text × AppError). b.1 ≡ timestamp_out_of_range)
        (put_error id timestamp_out_of_range bad)
unfolding put_error
put_error-out_of_range id [] h = (refl, tt)
put_error-out_of_range id ((k, e) ∷ bad) h = ground (arith, h, put_error-out_of_range id bad h.1)

check_from-out_of_range :
    (clips : List ValidatedClip) (video : VideoMetadata) (bad : List (Text × AppError))
    → All (λ (b : Text × AppError). b.1 ≡ timestamp_out_of_range) bad
    → All (λ (b : Text × AppError). b.1 ≡ timestamp_out_of_range) (check_from clips video bad)
unfolding check_from check_clip_within_video
check_from-out_of_range [] video bad h = h
check_from-out_of_range (c ∷ clips) video bad h = elim (Bool-cases (out_of_range c video)) [
  | inl e ↦ rw e (check_from-out_of_range clips video _ (put_error-out_of_range c.clip_id bad h))
  | inr e ↦ rw e (check_from-out_of_range clips video bad h)
]

get_clip-In :
    (id : Text) (cj : ClipJob) (clips : List (Text × ClipJob))
    → dict_get id clips ≡ some cj
    → All IsKeyed clips
    → In cj.clip (map (λ (c : ClipJob). c.clip) (dict_values clips))
      × (id ≡ cj.clip.clip_id)
      × (cj.status ≡ queued)
unfolding dict_get
get_clip-In id cj [] e h = ground arith
get_clip-In id cj ((k, c) ∷ clips) e h = elim (Bool-cases (text_eq k id)) [
  | inl s ↦
      let same : c ≡ cj = ground (arith, e, s) in
      (
        inl (ap (λ (q : ClipJob). q.clip) (sym same)),
        rw (← same) (sym ((text_eq_iff k id).0 s) ∙ h.0.0),
        rw (← same) h.0.1,
      )
  | inr s ↦
      let (member, own, waits) = get_clip-In id cj clips (ground (arith, e, s)) h.1 in
      (inr member, own, waits)
]

module _ (run : JobRun) (job : ProcessingJob) (meta : VideoMetadata)
    (there : run.upload_exists ≡ true) (copied : run.copies ≡ true) (probed : run.probed ≡ got meta)
    (overlay : Option Text)
    (found : overlay_of run job.config.watermark.overlay_asset_id ≡ ok overlay)
    (writes : (cj : ClipJob) → run.writes cj ≡ true) (fresh : IsFresh job.clips) where
  abbrev bad_clips : List (Text × AppError)
  bad_clips = check_all_clips (map (λ (cj : ClipJob). cj.clip) (dict_values job.clips)) meta

  abbrev clips_to_run : List (Text × ClipJob)
  clips_to_run = (fail_out_of_range run bad_clips job.clips).1

  run_job-clips : (run_job run job).1.clips ≡ (gather_clips run overlay clips_to_run).1
  unfolding run_job obtain_local after_obtain after_probe run_clips after_gather settle_job
  run_job-clips = ground (
    arith,
    there,
    copied,
    probed,
    found,
    fail_out_of_range-written run writes bad_clips job.clips,
  )

  -- If the upload is there and can be copied, ffprobe reads it, the search for the overlay image raises
  -- nothing, and every file can be written, then of a job as it was created, with distinct clips that
  -- are all QUEUED, the fate of a clip is its own: if it ends after the video does it is FAILED for
  -- that, and otherwise it is as its own call of the pipeline left it, whatever happens to the other
  -- clips of the job.
  pub run_job-isolates :
      (id : Text) (cj : ClipJob)
      → dict_get id job.clips ≡ some cj
      → dict_get id (run_job run job).1.clips
        ≡ some (
            if out_of_range cj.clip meta
            then record cj { status = failed; error = some timestamp_out_of_range }
            else (run_one_clip run overlay cj).1)
  unfolding check_all_clips
  run_job-isolates id cj e =
      let (member, own, waits) = get_clip-In id cj job.clips e fresh.keyed in
      let exact = check_all_clips-exact cj.clip _ meta fresh.distinct member in
      let late = get-fail_out_of_range run writes bad_clips id job.clips (
        check_from-out_of_range (map (λ (c : ClipJob). c.clip) (dict_values job.clips)) meta []
          tt) in
      ground (
        arith,
        run_job-clips,
        get-gather_clips run overlay id clips_to_run,
        late,
        exact,
        own,
        waits,
        e,
      )
