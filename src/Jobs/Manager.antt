-- ===== src/Jobs/Manager.antt =====
-- `JobManager` of backend/app/jobs/manager.py. A call between two awaits is one step; the semaphore,
-- which bounds how many clips run at once, and the lock of the index file are left out.
pub mod Invariant
pub mod Reach
pub mod Reuse
pub mod Purge
use ai_video_clip_processing.Base.{
  ℕ, leb, Bool, true, false, not, ◌&&◌, ◌||◌, Option, none, some, List, [], ◌∷◌, ◌++◌,
  if◌then◌else◌, Text, text_eq, map, any, select, is_some, sorted, dict_get, dict_set, dict_pop,
  dict_pop_all, dict_values,
}
use ai_video_clip_processing.Errors.{Result, ok, err, not_found, unknown_error, ◌>>=◌, ◌>>◌}
use ai_video_clip_processing.Schemas.Validated.{ValidatedClip}
use ai_video_clip_processing.Schemas.ProcessingConfig.{ProcessingConfig}
use ai_video_clip_processing.Storage.Paths.{FilePath, validate_id}
use ai_video_clip_processing.Storage.Cleanup.{Entry, cleanup_old_dirs}
use ai_video_clip_processing.Jobs.Models.{
  JobStatus, ClipStatus, queued, processing, completed, failed, cancelled, ClipJob, ProcessingJob,
  clip_completed,
}
use ai_video_clip_processing.Jobs.Run.{Awaited, JobRun, run_job, fail_job}

-- whether the task of a job is done
pub data TaskState : Type 0 where
  running cancelling done : TaskState

abbrev pub is_done : TaskState → Bool
is_done done = true
is_done _ = false

-- `index` is `_idempotency_index`, and `saved` the file that keeps it.
pub record JobManager : Type 0 where
  pub jobs : List (Text × ProcessingJob)
  pub tasks : List (Text × TaskState)
  pub index : List (Text × Text)
  pub saved : List (Text × Text)

-- `__init__`: what `_load_index` reads is the file's index, and nothing where it cannot be read
unfoldable pub start_manager : Option (List (Text × Text)) → JobManager
start_manager none = record { jobs = []; tasks = []; index = []; saved = [] }
start_manager (some index) = record { jobs = []; tasks = []; index = index; saved = index }

abbrev found_job : Option ProcessingJob → Result ProcessingJob
found_job none = err not_found
found_job (some job) = ok job

unfoldable pub get_job : Text → JobManager → Result ProcessingJob
unfolding validate_id dict_get
get_job job_id m = do id ← validate_id job_id; found_job (dict_get id m.jobs)

-- `sorted(..., reverse=True)` keeps the order of equal jobs
unfoldable pub list_jobs : JobManager → List ProcessingJob
list_jobs m = sorted (λ a b. leb b.created_at a.created_at) (dict_values m.jobs)

abbrev pub is_completed : JobStatus → Bool
is_completed completed = true
is_completed _ = false

-- a status that `cancel_job` takes away from a clip
abbrev pub is_open : ClipStatus → Bool
is_open queued = true
is_open processing = true
is_open _ = false

abbrev pub cancel_clip : Text × ClipJob → Text × ClipJob
cancel_clip (id, cj) = (id, if is_open cj.status then record cj { status = cancelled } else cj)

-- a running task is asked to end; one that is done, or missing, is left
abbrev pub cancel_task : Text → Option TaskState → List (Text × TaskState) → List (Text × TaskState)
cancel_task job_id (some running) tasks = dict_set job_id cancelling tasks
cancel_task job_id _ tasks = tasks

unfoldable pub cancel_job : Text → JobManager → Result (ProcessingJob × JobManager)
unfolding get_job dict_get dict_set
cancel_job job_id m = do
  job ← get_job job_id m
  let job' : ProcessingJob = record job { status = cancelled; clips = map cancel_clip job.clips }
  ok (
    job',
    record m {
      jobs = dict_set job_id job' m.jobs;
      tasks = cancel_task job_id (dict_get job_id m.tasks) m.tasks;
    },
  )

-- The output of a completed clip, in the directory of its job. An absent or empty name counts as gone.
abbrev has_output : (Text → Bool) → Option Text → Bool
has_output exists none = false
has_output exists (some []) = false
has_output exists (some (c ∷ s)) = exists (c ∷ s)

abbrev pub output_there : (Text → Bool) → ClipJob → Bool
output_there exists cj = not (clip_completed cj.status) || has_output exists cj.output_file

unfoldable pub all_outputs : (Text → Bool) → List ClipJob → Bool
all_outputs exists [] = true
all_outputs exists (cj ∷ rest) =
    let more = all_outputs exists rest in if output_there exists cj then more else false

-- `{c.clip_id: ClipJob(clip=c) for c in selected_clips}`
abbrev pub new_clip : ValidatedClip → ClipJob
new_clip c = record {
  clip = c;
  status = queued;
  progress_pct = 0;
  output_file = none;
  error = none;
}

unfoldable pub clips_from : List (Text × ClipJob) → List ValidatedClip → List (Text × ClipJob)
unfolding dict_set
clips_from d [] = d
clips_from d (c ∷ rest) = clips_from (dict_set c.clip_id (new_clip c) d) rest

unfoldable pub new_job : Text → Text → List ValidatedClip → ProcessingConfig → ℕ → ProcessingJob
unfolding clips_from
new_job job_id key selected_clips config now = record {
  job_id = job_id;
  idempotency_key = key;
  config = config;
  clips = clips_from [] selected_clips;
  status = queued;
  source_video = none;
  created_at = now;
  error = none;
  reused = false;
}

-- `existing_job_id and existing_job_id in self._jobs`
abbrev existing_in : List (Text × ProcessingJob) → Option Text → Option ProcessingJob
existing_in jobs none = none
existing_in jobs (some []) = none
existing_in jobs (some (c ∷ s)) = dict_get (c ∷ s) jobs

-- What `create_job` finds for a key, if anything.
unfoldable pub existing_job : Text → JobManager → Option ProcessingJob
unfolding dict_get
existing_job key m = existing_in m.jobs (dict_get key m.index)

abbrev pub reuse_job : ProcessingJob → JobManager → Result ProcessingJob × JobManager
reuse_job existing m =
    let job : ProcessingJob = record existing { reused = true } in
    (ok job, record m { jobs = dict_set existing.job_id job m.jobs })

abbrev pub drop_key : Text → JobManager → JobManager
drop_key key m = record m { index = dict_pop key m.index }

-- by the answer of `_outputs_still_on_disk`
abbrev reuse_or :
    ProcessingJob
    → Result ProcessingJob × JobManager
    → JobManager
    → Result Bool
    → Result ProcessingJob × JobManager
reuse_or existing anew m (err e) = (err e, m)
reuse_or existing anew m (ok there) = if there then reuse_job existing m else anew

-- Here `job_dir` is `job_dir` of storage/paths.py, `exists` looks for a file in such a directory, and
-- `mkdir` says whether the directory can be made.
module _ (job_dir : Text → Result FilePath) (exists : FilePath → Text → Bool)
    (mkdir : FilePath → Bool) where
  unfoldable pub outputs_still_on_disk : ProcessingJob → Result Bool
  unfolding all_outputs
  outputs_still_on_disk job = do
    jdir ← job_dir job.job_id
    ok (all_outputs (exists jdir) (dict_values job.clips))

  -- the part of `create_job` that makes a job under a new identifier
  abbrev add_in : ProcessingJob → JobManager → Result FilePath → Result ProcessingJob × JobManager
  add_in job m (err e) = (err e, m)
  add_in job m (ok jdir) =
      if mkdir jdir
      then (
        ok job,
        record m {
          jobs = dict_set job.job_id job m.jobs;
          tasks = dict_set job.job_id running m.tasks;
        },
      )
      else (err unknown_error, m)

  unfoldable pub add_job :
      Text
      → Text
      → List ValidatedClip
      → ProcessingConfig
      → ℕ
      → JobManager
      → Result ProcessingJob × JobManager
  unfolding new_job dict_set
  add_job job_id key selected_clips config now m =
      add_in (new_job job_id key selected_clips config now) m (job_dir job_id)

  unfoldable pub create_from :
      Option ProcessingJob
      → Text
      → Text
      → List ValidatedClip
      → ProcessingConfig
      → ℕ
      → JobManager
      → Result ProcessingJob × JobManager
  unfolding add_job outputs_still_on_disk
  create_from none job_id key selected_clips config now m =
      add_job job_id key selected_clips config now m
  create_from (some existing) job_id key selected_clips config now m =
      let anew = add_job job_id key selected_clips config now (drop_key key m) in
      if is_completed existing.status
      then reuse_or existing anew m (outputs_still_on_disk existing)
      else anew

  -- `create_job` with the key of its inputs, under the identifier and at the time that it would draw
  unfoldable pub create_job :
      Text
      → Text
      → List ValidatedClip
      → ProcessingConfig
      → ℕ
      → JobManager
      → Result ProcessingJob × JobManager
  unfolding create_from existing_job
  create_job job_id key selected_clips config now m =
      create_from (existing_job key m) job_id key selected_clips config now m

-- The end of a task: what `_run_job` does with its job and, for a completed one, the index. `saves`
-- says whether the index can be written.
abbrev keep_completed : Bool → ProcessingJob → JobManager → JobManager
keep_completed saves job m =
    let index = dict_set job.idempotency_key job.job_id m.index in
    if saves
    then record m { jobs = dict_set job.job_id job m.jobs; index = index; saved = index }
    else record m {
      jobs = dict_set job.job_id (fail_job unknown_error job).1 m.jobs;
      index = index;
    }

unfoldable pub end_task : Bool → ProcessingJob → JobManager → JobManager
unfolding dict_set
end_task saves job m =
    let ended : JobManager = record m { tasks = dict_set job.job_id done m.tasks } in
    if is_completed job.status
    then keep_completed saves job ended
    else record ended { jobs = dict_set job.job_id job ended.jobs }

-- the identifiers of the tasks that are not done
unfoldable pub active_ids : List (Text × TaskState) → List Text
active_ids [] = []
active_ids ((id, t) ∷ rest) = if is_done t then active_ids rest else id ∷ active_ids rest

-- `stale_keys`: the keys of the index whose job is among the removed ones
unfoldable pub stale_keys : List Text → List (Text × Text) → List Text
stale_keys removed [] = []
stale_keys removed ((key, id) ∷ rest) =
    if any (λ r. text_eq r id) removed
    then key ∷ stale_keys removed rest
    else stale_keys removed rest

abbrev saved_after : List Text → List (Text × Text) → List (Text × Text) → List (Text × Text)
saved_after [] index saved = saved
saved_after (_ ∷ _) index saved = index

-- `purge_expired` after the clean-up of the directories; the index is saved if it had a stale key
unfoldable pub forget_jobs : List Text → JobManager → JobManager
unfolding dict_pop_all stale_keys
forget_jobs removed m =
    let stale = stale_keys removed m.index in
    let index = dict_pop_all stale m.index in
    record m {
      jobs = dict_pop_all removed m.jobs;
      tasks = dict_pop_all removed m.tasks;
      index = index;
      saved = saved_after stale index m.saved;
    }

-- `purge_expired`, with the entries of the directory of jobs before and after
unfoldable pub purge_expired :
    (Entry → Bool)
    → (max_age now : ℕ) → List Entry
    → JobManager
    → List Text × List Entry × JobManager
unfolding active_ids cleanup_old_dirs forget_jobs
purge_expired rmtree max_age now entries m =
    let (removed, left) = cleanup_old_dirs rmtree (active_ids m.tasks) max_age now entries in
    (removed, left, forget_jobs removed m)
