-- ===== src/Jobs/Manager/Reach.antt =====
-- What holds of the manager of jobs in every state that it can reach.
use ai_video_clip_processing.Base.{
  ℕ, ◌≡◌, refl, Bool, Option, some, List, Text, arith, dict_get, dict_set,
}
use ai_video_clip_processing.Errors.{Result, ok}
use ai_video_clip_processing.Schemas.Validated.{ValidatedClip}
use ai_video_clip_processing.Schemas.ProcessingConfig.{ProcessingConfig}
use ai_video_clip_processing.Storage.Paths.{FilePath}
use ai_video_clip_processing.Storage.Cleanup.{Entry}
use ai_video_clip_processing.Jobs.Models.{ProcessingJob}
use ai_video_clip_processing.Jobs.Run.{
  JobRun, run_job, interrupt_job, after_obtain, after_probe, run_clips, after_gather, settle_job,
}
use ai_video_clip_processing.Jobs.Manager.{
  JobManager, start_manager, cancel_job, create_job, end_task, purge_expired,
}
use ai_video_clip_processing.Jobs.Manager.Invariant.{
  IsManager, IsNew, create_job-IsManager, start_manager-IsManager, put_job-IsManager,
  cancel_job-IsManager, end_task-IsManager, forget_jobs-IsManager,
}

-- A step of the manager: a call of one of its operations, a change that a running task makes to its
-- job, and the end of a task.
pub data Step (env : (Text → Result FilePath) × (FilePath → Text → Bool) × (FilePath → Bool))
    : JobManager → JobManager → Type 0 where
  created :
      (job_id key : Text) (clips : List ValidatedClip) (config : ProcessingConfig) (now : ℕ)
      (m : JobManager)
      → IsNew job_id m
      → Step env m (create_job env.0 env.1 env.2 job_id key clips config now m).1
  cancelled_by :
      {m m' : JobManager} (job_id : Text) (job : ProcessingJob)
      → cancel_job job_id m ≡ ok (job, m')
      → Step env m m'
  progressed :
      (id : Text) (job job' : ProcessingJob) (m : JobManager)
      → dict_get id m.jobs ≡ some job
      → job'.job_id ≡ job.job_id
      → job'.idempotency_key ≡ job.idempotency_key
      → Step env m (record m { jobs = dict_set id job' m.jobs })
  ended :
      (run : JobRun) (saves : Bool) (job : ProcessingJob) (m : JobManager)
      → dict_get job.job_id m.jobs ≡ some job
      → Step env m (end_task saves (run_job run job).1 m)
  interrupted_in :
      (saves : Bool) (job : ProcessingJob) (m : JobManager)
      → dict_get job.job_id m.jobs ≡ some job
      → Step env m (end_task saves (interrupt_job job).1 m)
  purged :
      (rmtree : Entry → Bool) (max_age now : ℕ) (entries : List Entry) (m : JobManager)
      → Step env m (purge_expired rmtree max_age now entries m).2

pub data Reach (env : (Text → Result FilePath) × (FilePath → Text → Bool) × (FilePath → Bool))
    (s : JobManager) : JobManager → Type 0 where
  here : Reach env s s
  next : {t u : JobManager} → Reach env s t → Step env t u → Reach env s u

run_job-keeps :
    (run : JobRun) (job : ProcessingJob)
    → ((run_job run job).1.job_id ≡ job.job_id)
      × ((run_job run job).1.idempotency_key ≡ job.idempotency_key)
unfolding run_job after_obtain after_probe run_clips after_gather settle_job
run_job-keeps run job = ground arith

Step-IsManager :
    {env : (Text → Result FilePath) × (FilePath → Text → Bool) × (FilePath → Bool)}
    {m m' : JobManager}
    → Step env m m'
    → IsManager m
    → IsManager m'
unfolding purge_expired
Step-IsManager {env} (created job_id key clips config now m new) i =
    create_job-IsManager env.0 env.1 env.2 job_id key clips config now m i new
Step-IsManager {m = m} {m' = m'} (cancelled_by job_id job e) i =
    cancel_job-IsManager job_id m m' job i e
Step-IsManager (progressed id job job' m found same_id same_key) i =
    put_job-IsManager m id job job' i found same_id same_key
Step-IsManager (ended run saves job m found) i =
    let (same_id, same_key) = run_job-keeps run job in
    end_task-IsManager saves m job (run_job run job).1 i (rw same_id found) same_key
Step-IsManager (interrupted_in saves job m found) i =
    end_task-IsManager saves m job (interrupt_job job).1 i found refl
Step-IsManager (purged rmtree max_age now entries m) i = forget_jobs-IsManager _ m i

-- In every state that the manager reaches from its start, whatever the file of the index held, each
-- job stands under its own identifier, and the index leads only to jobs that were made for its key.
pub Reach-IsManager :
    {env : (Text → Result FilePath) × (FilePath → Text → Bool) × (FilePath → Bool)}
    (index : Option (List (Text × Text))) {m : JobManager}
    → Reach env (start_manager index) m
    → IsManager m
Reach-IsManager index here = start_manager-IsManager index
Reach-IsManager index (next r s) = Step-IsManager s (Reach-IsManager index r)
