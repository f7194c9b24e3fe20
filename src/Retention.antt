-- ===== src/Retention.antt =====
-- backend/app/jobs/retention.py and backend/scripts/cleanup_expired.py, over the directories of the jobs
-- and of the uploads, the manager of jobs and the ingestions. `rmtree` says whether the removal of a
-- directory works. Ages are seconds.
use ai_video_clip_processing.Base.{
  ℕ, ◌*◌, ◌≡◌, ◌≤◌, Bool, true, false, some, List, [], arith, Text, text_eq, In, any, dict_get,
}
use ai_video_clip_processing.Storage.Cleanup.{Entry, is_removable, is_stale, cleanup_old_dirs}
use ai_video_clip_processing.Storage.Cleanup.Protected.{
  cleanup_old_dirs-gone, cleanup_old_dirs-reported,
}
use ai_video_clip_processing.Jobs.Manager.{JobManager, TaskState, purge_expired, is_done}
use ai_video_clip_processing.Jobs.Manager.Purge.{
  purge_expired-keeps_active, purge_expired-leaves_active,
}
use ai_video_clip_processing.Ingestion.Manager.{States, purge_old}

-- what the sweeps work on
pub record Swept : Type 0 where
  pub jobs_dir : List Entry
  pub uploads_dir : List Entry
  pub job_manager : JobManager
  pub ingests : States

-- `run_once`: the job and upload directories that it reports
unfoldable pub run_once :
    (Entry → Bool) → (retention_hours now : ℕ) → Swept → (List Text × List Text) × Swept
unfolding purge_expired cleanup_old_dirs purge_old
run_once rmtree retention_hours now s =
    let (removed_jobs, jobs_dir, manager) =
      purge_expired rmtree (retention_hours * 3600) now s.jobs_dir s.job_manager in
    let (removed_uploads, uploads_dir) =
      cleanup_old_dirs rmtree [] (retention_hours * 3600) now s.uploads_dir in
    let (_, ingests) = purge_old 3600 now s.ingests in
    (
      (removed_jobs, removed_uploads),
      record {
        jobs_dir = jobs_dir;
        uploads_dir = uploads_dir;
        job_manager = manager;
        ingests = ingests;
      },
    )

-- `main` of the script, a process of its own: it sees the directories alone
unfoldable pub cleanup_main :
    (Entry → Bool)
    → (retention_hours now : ℕ) → List Entry
    → List Entry
    → (List Text × List Text) × (List Entry × List Entry)
unfolding cleanup_old_dirs
cleanup_main rmtree retention_hours now jobs_dir uploads_dir =
    let (removed_jobs, jobs_left) =
      cleanup_old_dirs rmtree [] (retention_hours * 3600) now jobs_dir in
    let (removed_uploads, uploads_left) =
      cleanup_old_dirs rmtree [] (retention_hours * 3600) now uploads_dir in
    ((removed_jobs, removed_uploads), (jobs_left, uploads_left))

-- For a retention time of at least one hour, and a job whose task runs and whose directory is older than
-- that time and can be removed: `run_once` keeps the directory, does not report it, and keeps the job as
-- it is, whereas the script reports the directory and leaves nothing of it.
pub cleanup_main-active :
    (rmtree : Entry → Bool) (retention_hours now : ℕ) (s : Swept) (entry : Entry) (t : TaskState)
    → 1 ≤ retention_hours
    → In entry s.jobs_dir
    → entry.is_dir ≡ true
    → is_stale (retention_hours * 3600) now entry.st_mtime ≡ true
    → rmtree entry ≡ true
    → dict_get entry.name s.job_manager.tasks ≡ some t
    → is_done t ≡ false
    → (¬ (In entry (cleanup_main rmtree retention_hours now s.jobs_dir s.uploads_dir).1.0))
      × In entry.name (cleanup_main rmtree retention_hours now s.jobs_dir s.uploads_dir).0.0
      × In entry (run_once rmtree retention_hours now s).1.jobs_dir
      × (any (λ r. text_eq r entry.name) (run_once rmtree retention_hours now s).0.0 ≡ false)
      × (dict_get entry.name (run_once rmtree retention_hours now s).1.job_manager.jobs
          ≡ dict_get entry.name s.job_manager.jobs)
unfolding cleanup_main run_once
cleanup_main-active rmtree retention_hours now s entry t positive k d stale works running active =
    let max_age = retention_hours * 3600 in
    let (unreported, kept, _) =
      purge_expired-keeps_active rmtree max_age now s.jobs_dir s.job_manager entry.name t running
        active in
    let removable : is_removable [] max_age now entry ≡ true = ground (arith, d, stale) in
    (
      cleanup_old_dirs-gone rmtree [] max_age now entry s.jobs_dir (omega (arith, positive))
          removable works,
      cleanup_old_dirs-reported rmtree [] max_age now entry s.jobs_dir (omega (arith, positive)) k
          removable,
      purge_expired-leaves_active rmtree max_age now s.jobs_dir s.job_manager entry t running active
          k,
      unreported,
      kept,
    )
