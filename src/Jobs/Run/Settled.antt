-- ===== src/Jobs/Run/Settled.antt =====
-- That a run which is not interrupted settles the job and all its clips.
use ai_video_clip_processing.Base.{
  ◌≡◌, ◌≢◌, refl, Bool, true, false, ◌||◌, Option, some, List, [], ◌∷◌, if◌then◌else◌, Text, all,
  any, map, arith, dict_values, All, inl, inr, Bool-cases,
}
use ai_video_clip_processing.Errors.{AppError, ok}
use ai_video_clip_processing.Analysis.Bounds.{check_all_clips}
use ai_video_clip_processing.Jobs.Models.{
  ClipStatus, JobStatus, processing, completed, failed, VideoMetadata, ClipJob, ProcessingJob,
  clip_completed,
}
use ai_video_clip_processing.Jobs.Run.{
  Awaited, got, threw, interrupted, JobRun, is_queued, fail_clip, after_process, run_one_clip,
  gather_clips, mark_failed, fail_out_of_range, overlay_of, run_clips, settle_job, after_gather,
  after_probe, after_obtain, obtain_local, run_job,
}
use ai_video_clip_processing.Jobs.Run.Outcome.{fail_out_of_range-written}

-- COMPLETED or FAILED
abbrev pub is_settled : ClipStatus → Bool
is_settled completed = true
is_settled failed = true
is_settled _ = false

abbrev pub Waits : Text × ClipJob → Type 0
Waits (_, cj) = (is_queued cj.status || is_settled cj.status) ≡ true

abbrev pub Settled : Text × ClipJob → Type 0
Settled (_, cj) = is_settled cj.status ≡ true

mark_failed-Waits :
    (id : Text) (e : AppError) (clips : List (Text × ClipJob))
    → All Waits clips
    → All Waits (mark_failed id e clips)
unfolding mark_failed
mark_failed-Waits id e [] h = h
mark_failed-Waits id e ((k, cj) ∷ rest) h = ground (arith, h, mark_failed-Waits id e rest h.1)

fail_out_of_range-Waits :
    (run : JobRun) (bad : List (Text × AppError)) (clips : List (Text × ClipJob))
    → All Waits clips
    → All Waits (fail_out_of_range run bad clips).1
unfolding fail_out_of_range
fail_out_of_range-Waits run [] clips h = h
fail_out_of_range-Waits run ((id, e) ∷ bad) clips h =
    let marked = mark_failed-Waits id e clips h in
    ground (arith, marked, fail_out_of_range-Waits run bad (mark_failed id e clips) marked)

-- COMPLETED as soon as one clip is, and for no clips at all
abbrev pub status_of : List ClipJob → JobStatus
status_of [] = completed
status_of (cj ∷ cjs) = if any (λ c. clip_completed c.status) (cj ∷ cjs) then completed else failed

settle_values :
    (cjs : List ClipJob)
    → (if all (λ c. clip_completed c.status) cjs
        then completed
        else if any (λ c. clip_completed c.status) cjs
        then completed
        else failed)
      ≡ status_of cjs
settle_values [] = refl
settle_values (cj ∷ cjs) = elim (Bool-cases (clip_completed cj.status)) [
  | inl e ↦ rw e (ground arith)
  | inr e ↦ rw e refl
]

settle_job-status :
    (job : ProcessingJob) → (settle_job job).status ≡ status_of (dict_values job.clips)
unfolding settle_job
settle_job-status job = ground (arith, settle_values (dict_values job.clips))

settle_job-clips : (job : ProcessingJob) → (settle_job job).clips ≡ job.clips
unfolding settle_job
settle_job-clips job = ground arith

module _ (run : JobRun) (writes : (cj : ClipJob) → run.writes cj ≡ true)
    (runs : (overlay : Option Text) (cj : ClipJob) → run.processed overlay cj ≢ interrupted) where
  after_process-Settled :
      (result : Awaited Text) (cj : ClipJob)
      → result ≢ interrupted
      → ((after_process run result cj).0 ≡ got tt)
        × (is_settled (after_process run result cj).1.status ≡ true)
  unfolding after_process fail_clip
  after_process-Settled (got name) cj h =
      rw
        (writes
          (record cj { status = completed; output_file = some name; progress_pct = 100000000 }))
        (refl, refl)
  after_process-Settled (threw e) cj h =
      rw (writes (record cj { status = failed; error = some e })) (refl, refl)
  after_process-Settled (interrupted) cj h = absurd (h refl)

  run_one_clip-Settled :
      (overlay : Option Text) (cj : ClipJob)
      → ((run_one_clip run overlay cj).0 ≡ got tt)
        × (is_settled (run_one_clip run overlay cj).1.status ≡ true)
  unfolding run_one_clip
  run_one_clip-Settled overlay cj =
      after_process-Settled (run.processed overlay (record cj { status = processing }))
        (record cj {
          status = processing;
          progress_pct = run.progress (record cj { status = processing });
        })
        (runs overlay (record cj { status = processing }))

  gather_clips-Settled :
      (overlay : Option Text) (clips : List (Text × ClipJob))
      → All Waits clips
      → ((gather_clips run overlay clips).0 ≡ got tt)
        × All Settled (gather_clips run overlay clips).1
  unfolding gather_clips
  gather_clips-Settled overlay [] h = (refl, tt)
  gather_clips-Settled overlay ((id, cj) ∷ rest) h =
      let own = run_one_clip-Settled overlay cj in
      let others = gather_clips-Settled overlay rest h.1 in
      elim (Bool-cases (is_queued cj.status)) [
        | inl q ↦ rw (q, own.0, others.0) (refl, (own.1, others.1))
        | inr q ↦ rw (q, others.0) (refl, (ground (arith, h, q), others.1))
      ]

  -- If the upload is there and can be copied, ffprobe reads it, the search for the overlay image raises
  -- nothing, every file can be written, and no call of the pipeline is interrupted, then the run of a
  -- job whose clips are QUEUED, COMPLETED or FAILED returns, leaves each of its clips COMPLETED or
  -- FAILED, and is itself COMPLETED if one clip is or if there is none, and FAILED otherwise.
  pub run_job-settles :
      (job : ProcessingJob) (meta : VideoMetadata) (overlay : Option Text)
      → run.upload_exists ≡ true
      → run.copies ≡ true
      → run.probed ≡ got meta
      → overlay_of run job.config.watermark.overlay_asset_id ≡ ok overlay
      → All Waits job.clips
      → let (ending, job') = run_job run job in
        (ending ≡ got tt)
        × All Settled job'.clips
        × (job'.status ≡ status_of (dict_values job'.clips))
  unfolding run_job obtain_local after_obtain after_probe run_clips after_gather
  run_job-settles job meta overlay there copied probed found h =
      let bad = check_all_clips (map (λ (cj : ClipJob). cj.clip) (dict_values job.clips)) meta in
      let written = fail_out_of_range-written run writes bad job.clips in
      let all_run =
        gather_clips-Settled overlay (fail_out_of_range run bad job.clips).1
          (fail_out_of_range-Waits run bad job.clips h) in
      let ran : ProcessingJob = record job {
        source_video = some meta;
        clips = (gather_clips run overlay (fail_out_of_range run bad job.clips).1).1;
        status = processing;
      } in
      let same : run_job run job ≡ (got tt, settle_job ran) =
        ground (arith, there, copied, probed, written, found, all_run.0) in
      rw (same, settle_job-clips ran) (refl, all_run.1, settle_job-status ran)
