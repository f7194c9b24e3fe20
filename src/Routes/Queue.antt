-- ===== src/Routes/Queue.antt =====
-- backend/app/api/routes_publishing.py: `generate_and_queue`, `get_capabilities` and the routes on the
-- items of the queue. A job, a report and an item are given as they are, in place of their dicts.
pub mod Within
pub mod Latest
use ai_video_clip_processing.Base.{
  ℕ, Bool, true, false, not, Option, none, some, List, [], ◌∷◌, Text, select, any, dict_set,
}
use ai_video_clip_processing.Errors.{AppError, Result, ok, err, not_found, ◌>>=◌}
use ai_video_clip_processing.Schemas.Json.{Fields}
use ai_video_clip_processing.Schemas.Validated.{ValidatedClip}
use ai_video_clip_processing.Schemas.ProcessingConfig.{ProcessingConfig}
use ai_video_clip_processing.Analysis.Bounds.{check_all_clips, has_error}
use ai_video_clip_processing.Storage.Paths.{FilePath}
use ai_video_clip_processing.Jobs.Models.{ProcessingJob}
use ai_video_clip_processing.Jobs.Manager.{JobManager}
use ai_video_clip_processing.Publishing.Rows.{SocialAccount, PublishQueueItem, Db}
use ai_video_clip_processing.Publishing.CostGuard.{
  Credentials, CapabilityReport, full_capability_report,
}
use ai_video_clip_processing.Publishing.Enqueue.{is_platform}
use ai_video_clip_processing.Routes.{Host, validated_of, find_upload_source, create_keyed_job}

pub record GenerateAndQueueRequest : Type 0 where
  pub upload_id : Text
  pub json_text : Option Text
  pub json_data : Option Fields
  pub config : ProcessingConfig
  pub platforms : List Text
  pub interval_minutes : Option ℕ

-- what the request comes to before the job: its clips, those that are skipped, and the source
pub record Generation : Type 0 where
  pub selected : List ValidatedClip
  pub skipped : List (Text × AppError)
  pub source_path : FilePath

-- the answer; `watched` are the platforms of the task that watches the job, where there is one
pub record Generated : Type 0 where
  pub job : ProcessingJob
  pub skipped_clips : List (Text × AppError)
  pub publishing_platforms : List Text
  pub watched : Option (List Text)

unfoldable pub generation_of : Host → GenerateAndQueueRequest → Result Generation
unfolding find_upload_source check_all_clips
generation_of host payload = do
  validated ← validated_of host payload.json_data payload.json_text
  source_path ← find_upload_source host payload.upload_id
  video_meta ← host.probe_video source_path
  let bounds_errors = check_all_clips validated.clips video_meta
  ok (record {
    selected = select (λ c. not (has_error c.clip_id bounds_errors)) validated.clips;
    skipped = bounds_errors;
    source_path = source_path;
  })

-- `asyncio.create_task(watch_job_and_enqueue(...))`
abbrev watched_by : List Text → Option (List Text)
watched_by [] = none
watched_by (p ∷ platforms) = some (p ∷ platforms)

abbrev pub answer_of :
    GenerateAndQueueRequest
    → Generation
    → Result ProcessingJob × JobManager
    → Result Generated × JobManager
answer_of payload generation (err e, m) = (err e, m)
answer_of payload generation (ok job, m) =
    let platforms = select is_platform payload.platforms in
    (
      ok (record {
        job = job;
        skipped_clips = generation.skipped;
        publishing_platforms = platforms;
        watched = watched_by platforms;
      }),
      m,
    )

abbrev pub with_generation :
    Host
    → GenerateAndQueueRequest
    → Text
    → ℕ
    → JobManager
    → Result Generation
    → Result Generated × JobManager
with_generation host payload job_id now m (err e) = (err e, m)
with_generation host payload job_id now m (ok generation) =
    answer_of payload generation
      (create_keyed_job host job_id generation.source_path generation.selected payload.config now m)

-- `generate_and_queue`
unfoldable pub generate_and_queue :
    Host → GenerateAndQueueRequest → Text → ℕ → JobManager → Result Generated × JobManager
unfolding generation_of create_keyed_job
generate_and_queue host payload job_id now m =
    with_generation host payload job_id now m (generation_of host payload)

-- `latest_by_platform`: the rows in the order in which the database gives them, where a later one
-- replaces an earlier one
unfoldable pub latest_by_platform :
    List (Text × Option SocialAccount) → List SocialAccount → List (Text × Option SocialAccount)
unfolding dict_set
latest_by_platform latest [] = latest
latest_by_platform latest (account ∷ accounts) =
    latest_by_platform (dict_set account.platform (some account) latest) accounts

-- `get_capabilities`
unfoldable pub get_capabilities : Credentials → Db → List CapabilityReport
unfolding latest_by_platform full_capability_report
get_capabilities settings db =
    full_capability_report settings (latest_by_platform [] db.social_accounts)

-- `retry_queue_item`, `skip_queue_item`, `cancel_queue_item` and `publish_now_queue_item`, by what the
-- call of the manager of the queue gives
abbrev pub item_route : Option PublishQueueItem × Db → Result PublishQueueItem × Db
item_route (none, db) = (err not_found, db)
item_route (some item, db) = (ok item, db)
