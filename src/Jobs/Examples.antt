-- ===== src/Jobs/Examples.antt =====
-- The theorems about jobs at a manager with one job.
use ai_video_clip_processing.Base.{
  ◌≡◌, ◌⊎◌, refl, Bool, true, false, none, some, List, [], ◌∷◌, if◌then◌else◌, All, Text, codes,
  text_eq, map, dict_get, dict_pop, dict_set, dict_values,
}
use ai_video_clip_processing.Errors.{Result, ok, timestamp_out_of_range}
use ai_video_clip_processing.Samples.{sample_clip, sample_config, sample_video}
use ai_video_clip_processing.Schemas.Validated.{ValidatedClip}
use ai_video_clip_processing.Storage.Paths.{FilePath, validate_id}
use ai_video_clip_processing.Analysis.Bounds.{out_of_range}
use ai_video_clip_processing.Jobs.Models.{ProcessingJob, failed, cancelled}
use ai_video_clip_processing.Jobs.Run.{got, JobRun, overlay_of, run_one_clip, run_job}
use ai_video_clip_processing.Jobs.Run.Outcome.{IsFresh, run_job-isolates}
use ai_video_clip_processing.Jobs.Run.Settled.{Settled, Waits, status_of, run_job-settles}
use ai_video_clip_processing.Jobs.Manager.{
  JobManager, start_manager, new_job, new_clip, create_job, add_job, end_task, cancel_job,
  cancel_clip, is_completed,
}
use ai_video_clip_processing.Jobs.Manager.Invariant.{IsManager, IsNew}
use ai_video_clip_processing.Jobs.Manager.Reach.{Reach, created, ended, here, next, Reach-IsManager}
use ai_video_clip_processing.Jobs.Manager.Reuse.{IsOnDisk, create_job_sound, cancel-create_forgets}

-- the world of the manager: every file is there
abbrev jobs_dir : Text → Result FilePath
jobs_dir id = ok (codes "jobs" ∷ id ∷ [])

abbrev exists : FilePath → Text → Bool
exists path name = true

abbrev mkdir : FilePath → Bool
mkdir path = true

-- one clip within a video of 40 seconds, and one that ends after it
abbrev clips : List ValidatedClip
clips = sample_clip (codes "1") 35 ∷ sample_clip (codes "2") 50 ∷ []

abbrev one_job : JobManager
one_job =
    (create_job jobs_dir exists mkdir (codes "a1") (codes "key") clips sample_config 7
      (start_manager none)).1

no_jobs-IsNew : IsNew (codes "a1") (start_manager none)
unfolding start_manager dict_get
no_jobs-IsNew = record { no_job = refl; no_entry = λ key e. cc e }

one_job-Reach : Reach (jobs_dir, exists, mkdir) (start_manager none) one_job
one_job-Reach =
    next here
      (created (codes "a1") (codes "key") clips sample_config 7 (start_manager none) no_jobs-IsNew)

Reach-IsManager_example : IsManager one_job
Reach-IsManager_example = Reach-IsManager none one_job-Reach

abbrev job : ProcessingJob
job = new_job (codes "a1") (codes "key") clips sample_config 7

-- ffmpeg renders every clip
abbrev run : JobRun
run = record {
  upload_exists = true;
  copies = true;
  probed = got (sample_video 40000000);
  asset_exists = λ asset. false;
  processed = λ overlay cj. got (codes "1.mp4");
  progress = λ cj. 0;
  writes = λ cj. true;
}

abbrev ended_job : ProcessingJob
ended_job = (run_job run job).1

abbrev job_done : JobManager
job_done = end_task true ended_job one_job

job_found : dict_get (codes "a1") one_job.jobs ≡ some job
unfolding create_job dict_get start_manager text_eq
job_found = refl

job_done-Reach : Reach (jobs_dir, exists, mkdir) (start_manager none) job_done
unfolding new_job
job_done-Reach = next one_job-Reach (ended run true job one_job job_found)

abbrev reused_job : ProcessingJob
reused_job = record ended_job { reused = true }

job_reused :
    (create_job jobs_dir exists mkdir (codes "b2") (codes "key") clips sample_config 8 job_done).0
    ≡ ok reused_job
unfolding create_job start_manager dict_get end_task run_job text_eq
job_reused = refl

create_job_sound_example :
    (reused_job ≡ new_job (codes "b2") (codes "key") clips sample_config 8)
    ⊎ ((reused_job.idempotency_key ≡ codes "key")
        × (is_completed reused_job.status ≡ true)
        × (jdir : FilePath) × (jobs_dir reused_job.job_id ≡ ok jdir)
        × All (IsOnDisk (exists jdir)) (dict_values reused_job.clips))
create_job_sound_example =
    create_job_sound jobs_dir exists mkdir none job_done (codes "b2") (codes "key") clips
      sample_config 8 reused_job job_done-Reach job_reused

abbrev cancelled_job : ProcessingJob
cancelled_job = record ended_job { status = cancelled; clips = map cancel_clip ended_job.clips }

abbrev job_cancelled : JobManager
job_cancelled = record job_done { jobs = dict_set (codes "a1") cancelled_job job_done.jobs }

job_entry : dict_get (codes "key") job_done.index ≡ some (codes "a1")
unfolding end_task run_job create_job start_manager dict_get text_eq
job_entry = refl

job_cancels : cancel_job (codes "a1") job_done ≡ ok (cancelled_job, job_cancelled)
unfolding cancel_job end_task run_job create_job start_manager dict_get dict_set text_eq validate_id
job_cancels = refl

cancel-create_forgets_example :
    create_job jobs_dir exists mkdir (codes "b2") (codes "key") clips sample_config 8 job_cancelled
    ≡ add_job jobs_dir exists mkdir
        (codes "b2")
        (codes "key")
        clips
        sample_config
        8
        (record job_cancelled { index = dict_pop (codes "key") job_cancelled.index })
cancel-create_forgets_example =
    cancel-create_forgets jobs_dir exists mkdir (codes "a1") (codes "key") cancelled_job job_done
      job_cancelled (codes "b2") clips sample_config 8 job_entry job_cancels

no_overlay : overlay_of run job.config.watermark.overlay_asset_id ≡ ok none
unfolding overlay_of new_job
no_overlay = refl

job-IsFresh : IsFresh job.clips
unfolding new_job dict_set text_eq
job-IsFresh = record { keyed = ((refl, refl), ((refl, refl), tt)); distinct = (refl, (refl, tt)) }

late_clip : dict_get (codes "2") job.clips ≡ some (new_clip (sample_clip (codes "2") 50))
unfolding new_job dict_set dict_get text_eq
late_clip = refl

run_job-isolates_example :
    dict_get (codes "2") ended_job.clips
    ≡ some (
        if out_of_range (sample_clip (codes "2") 50) (sample_video 40000000)
        then record (new_clip (sample_clip (codes "2") 50)) {
          status = failed;
          error = some timestamp_out_of_range;
        }
        else (run_one_clip run none (new_clip (sample_clip (codes "2") 50))).1)
run_job-isolates_example =
    run_job-isolates run job (sample_video 40000000) refl refl refl none no_overlay (λ cj. refl)
      job-IsFresh (codes "2") (new_clip (sample_clip (codes "2") 50)) late_clip

clips_wait : All Waits job.clips
unfolding new_job dict_set text_eq
clips_wait = (refl, (refl, tt))

run_job-settles_example :
    ((run_job run job).0 ≡ got tt)
    × All Settled ended_job.clips
    × (ended_job.status ≡ status_of (dict_values ended_job.clips))
run_job-settles_example =
    run_job-settles run (λ cj. refl) (λ overlay cj e. cc e) job (sample_video 40000000) none refl
      refl refl no_overlay clips_wait
