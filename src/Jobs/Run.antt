-- ===== src/Jobs/Run.antt =====
-- The execution of a job in backend/app/jobs/manager.py, and the source of it in
-- backend/app/video_ingestion/local_source.py. A run is followed to the end of all its clips: the
-- statuses that it shows in between are written where an error can leave them.
pub mod Outcome
pub mod Settled
use ai_video_clip_processing.Base.{
  ℕ, ◌*◌, Bool, true, false, Option, none, some, List, [], ◌∷◌, ◌++◌, if◌then◌else◌, Text, codes,
  all, any, map, dict_values, text_eq,
}
use ai_video_clip_processing.Errors.{
  AppError, Result, ok, err, unknown_error, all_clips_failed, video_not_found, ◌>>=◌,
}
use ai_video_clip_processing.Storage.Paths.{validate_id}
use ai_video_clip_processing.Analysis.Bounds.{check_all_clips}
use ai_video_clip_processing.Jobs.Models.{
  JobStatus, ClipStatus, queued, downloading, downloaded, validating, processing, completed, failed,
  cancelled, VideoMetadata, ClipJob, ProcessingJob, clip_completed,
}

-- How an awaited call ends: with a value, with an exception by its code, or with `CancelledError`.
pub data Awaited (A : Type 0) : Type 0 where
  got : A → Awaited A
  threw : AppError → Awaited A
  interrupted : Awaited A

-- What the run of a job meets outside its own code. `processed` is `process_clip` with its overlay,
-- `progress` the last percentage that it reported, and `writes` says whether the metadata file of a
-- clip can be written.
pub record JobRun : Type 0 where
  pub upload_exists : Bool
  pub copies : Bool
  pub probed : Awaited VideoMetadata
  pub asset_exists : Text → Bool
  pub processed : Option Text → ClipJob → Awaited Text
  pub progress : ClipJob → ℕ
  pub writes : ClipJob → Bool

-- `LocalFileSource.obtain`; a failing copy is no `AppError`
unfoldable pub obtain_local : JobRun → Result (Unit {0})
obtain_local run =
    if run.upload_exists
    then (if run.copies then ok tt else err unknown_error)
    else err video_not_found

abbrev pub is_queued : ClipStatus → Bool
is_queued queued = true
is_queued _ = false

-- a first exception goes before those that come after it
abbrev pub first_ending : Awaited (Unit {0}) → Awaited (Unit {0}) → Awaited (Unit {0})
first_ending (got _) e = e
first_ending (threw e) _ = threw e
first_ending (interrupted) _ = interrupted

-- `clip_job.status = FAILED` and its error, for the clip of an identifier
unfoldable pub mark_failed : Text → AppError → List (Text × ClipJob) → List (Text × ClipJob)
mark_failed clip_id e [] = []
mark_failed clip_id e ((id, cj) ∷ rest) =
    if text_eq id clip_id
    then (id, record cj { status = failed; error = some e }) ∷ rest
    else (id, cj) ∷ mark_failed clip_id e rest

-- the handlers of `_run_job`
abbrev pub fail_job : AppError → ProcessingJob → Awaited (Unit {0}) × ProcessingJob
fail_job e job = (got tt, record job { status = failed; error = some e })

abbrev pub interrupt_job : ProcessingJob → Awaited (Unit {0}) × ProcessingJob
interrupt_job job = (interrupted, record job { status = cancelled })

-- the job's status from those of its clips
unfoldable pub settle_job : ProcessingJob → ProcessingJob
settle_job job =
    let clips = dict_values job.clips in
    if all (λ cj. clip_completed cj.status) clips
    then record job { status = completed }
    else if any (λ cj. clip_completed cj.status) clips
    then record job { status = completed }
    else record job { status = failed; error = some all_clips_failed }

unfoldable pub after_gather :
    ProcessingJob → Awaited (Unit {0}) → Awaited (Unit {0}) × ProcessingJob
unfolding settle_job
after_gather job (got _) = (got tt, settle_job job)
after_gather job (threw e) = fail_job e job
after_gather job (interrupted) = interrupt_job job

module _ (run : JobRun) where
  -- the handler of an exception in `_run_one_clip`
  unfoldable pub fail_clip : AppError → ClipJob → Awaited (Unit {0}) × ClipJob
  fail_clip e cj =
      let cj' : ClipJob = record cj { status = failed; error = some e } in
      (if run.writes cj' then got tt else threw unknown_error, cj')

  -- `_run_one_clip` after the call of `process_clip`
  unfoldable pub after_process : Awaited Text → ClipJob → Awaited (Unit {0}) × ClipJob
  unfolding fail_clip
  after_process (got name) cj =
      let cj' : ClipJob = record cj {
        status = completed;
        output_file = some name;
        progress_pct = 100 * 1000000;
      } in
      if run.writes cj' then (got tt, cj') else fail_clip unknown_error cj'
  after_process (threw e) cj = fail_clip e cj
  after_process (interrupted) cj = (interrupted, record cj { status = cancelled })

  -- `_run_one_clip`
  unfoldable pub run_one_clip : Option Text → ClipJob → Awaited (Unit {0}) × ClipJob
  unfolding after_process
  run_one_clip overlay cj =
      let cj' : ClipJob = record cj { status = processing } in
      after_process (run.processed overlay cj') (record cj' { progress_pct = run.progress cj' })

  -- `asyncio.gather` over the clips that are QUEUED; the others stay. An exception of one clip does
  -- not end the others.
  unfoldable pub gather_clips :
      Option Text → List (Text × ClipJob) → Awaited (Unit {0}) × List (Text × ClipJob)
  unfolding run_one_clip
  gather_clips overlay [] = (got tt, [])
  gather_clips overlay ((id, cj) ∷ rest) =
      let (ending, rest') = gather_clips overlay rest in
      let (own, cj') = run_one_clip overlay cj in
      if is_queued cj.status
      then (first_ending own ending, (id, cj') ∷ rest')
      else (ending, (id, cj) ∷ rest')

  -- whether the metadata file of that clip can be written
  unfoldable pub writes_of : Text → List (Text × ClipJob) → Bool
  writes_of clip_id [] = true
  writes_of clip_id ((id, cj) ∷ rest) =
      if text_eq id clip_id then run.writes cj else writes_of clip_id rest

  -- The loop over `out_of_range.items()`, which a failing write leaves.
  unfoldable pub fail_out_of_range :
      List (Text × AppError) → List (Text × ClipJob) → Bool × List (Text × ClipJob)
  unfolding mark_failed writes_of
  fail_out_of_range [] clips = (true, clips)
  fail_out_of_range ((clip_id, e) ∷ rest) clips =
      let clips' = mark_failed clip_id e clips in
      let more = fail_out_of_range rest clips' in
      if writes_of clip_id clips' then more else (false, clips')

  -- The overlay, where one is asked for and its file is there.
  abbrev overlay_file : Text → Option Text
  overlay_file asset_id =
      if run.asset_exists asset_id then some (asset_id ++ codes ".png") else none

  unfoldable pub overlay_of : Option Text → Result (Option Text)
  unfolding validate_id
  overlay_of none = ok none
  overlay_of (some []) = ok none
  overlay_of (some (c ∷ s)) = do asset_id ← validate_id (c ∷ s); ok (overlay_file asset_id)

  unfoldable pub run_clips :
      ProcessingJob → Result (Option Text) → Awaited (Unit {0}) × ProcessingJob
  unfolding gather_clips after_gather
  run_clips job (err e) = fail_job e job
  run_clips job (ok overlay) =
      let (ending, clips) = gather_clips overlay job.clips in
      after_gather (record job { clips = clips }) ending

  -- from `source_meta` on
  unfoldable pub after_probe :
      ProcessingJob → Awaited VideoMetadata → Awaited (Unit {0}) × ProcessingJob
  unfolding fail_out_of_range overlay_of run_clips check_all_clips
  after_probe job (threw e) = fail_job e job
  after_probe job (interrupted) = interrupt_job job
  after_probe job (got source_meta) =
      let bad = check_all_clips (map (λ cj. cj.clip) (dict_values job.clips)) source_meta in
      let (written, clips) = fail_out_of_range bad job.clips in
      let job' : ProcessingJob = record job { source_video = some source_meta; clips = clips } in
      let rest =
        run_clips (record job' { status = processing })
          (overlay_of job.config.watermark.overlay_asset_id) in
      if written then rest else fail_job unknown_error job'

  unfoldable pub after_obtain :
      ProcessingJob → Result (Unit {0}) → Awaited (Unit {0}) × ProcessingJob
  unfolding after_probe
  after_obtain job (err e) = fail_job e job
  after_obtain job (ok _) = after_probe (record job { status = validating }) run.probed

  -- `_run_job` up to the index of completed jobs
  unfoldable pub run_job : ProcessingJob → Awaited (Unit {0}) × ProcessingJob
  unfolding obtain_local after_obtain
  run_job job = after_obtain (record job { status = downloading }) (obtain_local run)
