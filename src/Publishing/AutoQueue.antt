-- ===== src/Publishing/AutoQueue.antt =====
-- backend/app/publishing/auto_queue.py: the watch over a job that queues its clips once it has ended.
-- `polls n` is what `get_job` gives or raises at the poll number `n`; between the last poll and the
-- queueing nothing is awaited, so that both read the same job.
pub mod Watched
use ai_video_clip_processing.Base.{
  ℕ, zero, suc, ◌+◌, Bool, true, false, not, ◌&&◌, ◌||◌, Option, none, some, List, [], ◌∷◌,
  if◌then◌else◌, Text, all, any, dict_values,
}
use ai_video_clip_processing.Errors.{Result, ok, err, ◌>>=◌}
use ai_video_clip_processing.Jobs.Models.{
  JobStatus, ClipStatus, completed, failed, cancelled, ClipJob, ProcessingJob, clip_completed,
}
use ai_video_clip_processing.Storage.Paths.{FilePath}
use ai_video_clip_processing.Publishing.Rows.{Db}
use ai_video_clip_processing.Publishing.Settings.{Settings}
use ai_video_clip_processing.Publishing.Enqueue.{QueueSummary, create_queue_from_job}

-- `_MAX_WAIT_SECONDS / _POLL_SECONDS`, the number of rounds of the loop
abbrev pub max_polls : ℕ
max_polls = 10800

abbrev pub is_ended : JobStatus → Bool
is_ended completed = true
is_ended failed = true
is_ended cancelled = true
is_ended _ = false

abbrev pub is_resolved : ClipStatus → Bool
is_resolved completed = true
is_resolved failed = true
is_resolved cancelled = true
is_resolved _ = false

-- `all_clips_resolved and job.clips`
abbrev pub all_resolved : List ClipJob → Bool
all_resolved [] = false
all_resolved (cj ∷ rest) = all (λ c. is_resolved c.status) (cj ∷ rest)

-- what ends the wait
abbrev pub is_over : ProcessingJob → Bool
is_over job = is_ended job.status || all_resolved (dict_values job.clips)

-- The loop: the job at the poll that ends it, or `none` after the last round.
unfoldable pub wait_for_job :
    (ℕ → Result ProcessingJob) → (rounds n : ℕ) → Result (Option ProcessingJob)
wait_for_job polls zero n = ok none
wait_for_job polls (suc rounds) n =
    let rest = wait_for_job polls rounds (suc n) in
    polls n >>= λ job. if is_over job then ok (some job) else rest

abbrev pub some_completed : ProcessingJob → Bool
some_completed job = any (λ cj. clip_completed cj.status) (dict_values job.clips)

module _ (uuid : ℕ → Text) (job_dir : Text → Result FilePath) (settings : Settings) where
  -- after the loop, where the service reads its clock at `now`
  unfoldable pub enqueue_watched :
      List Text
      → Option ℕ
      → (now drawn : ℕ) → Db
      → Option ProcessingJob
      → Result (Option (QueueSummary × Db × ℕ))
  unfolding create_queue_from_job
  enqueue_watched enabled_platforms interval_minutes now drawn db none = ok none
  enqueue_watched enabled_platforms interval_minutes now drawn db (some job) =
      let summary =
        create_queue_from_job uuid job_dir settings job enabled_platforms interval_minutes none now
          drawn db in
      if some_completed job then (summary >>= λ s. ok (some s)) else ok none

  -- `watch_job_and_enqueue`; `none` is a return without a call of `create_queue_from_job`
  unfoldable pub watch_job_and_enqueue :
      (ℕ → Result ProcessingJob)
      → List Text
      → Option ℕ
      → (now drawn : ℕ) → Db
      → Result (Option (QueueSummary × Db × ℕ))
  unfolding wait_for_job enqueue_watched
  watch_job_and_enqueue polls enabled_platforms interval_minutes now drawn db =
      wait_for_job polls max_polls 0
      >>= enqueue_watched enabled_platforms interval_minutes now drawn db
