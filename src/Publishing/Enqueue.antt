-- ===== src/Publishing/Enqueue.antt =====
-- `create_queue_from_job` of backend/app/publishing/queue_manager.py. `now` is the reading of the
-- clock in it, and `uuid n` the n-th identifier that `uuid.uuid4().hex` gives.
pub mod Fresh
pub mod Key
pub mod Transaction
use ai_video_clip_processing.Base.{
  ℕ, zero, suc, ◌+◌, leb, Bool, true, false, not, ◌&&◌, ◌||◌, Option, none, some, List, [], ◌∷◌,
  ◌++◌, map, if◌then◌else◌, Text, text_eq, codes, any, select, is_some, length, sorted, default_to,
}
use ai_video_clip_processing.Errors.{Result, ok, err, unknown_error, ◌>>=◌}
use ai_video_clip_processing.Storage.Paths.{FilePath}
use ai_video_clip_processing.Schemas.Validated.{ValidatedClip}
use ai_video_clip_processing.Jobs.Models.{ClipJob, ProcessingJob, clip_completed}
use ai_video_clip_processing.Publishing.Rows.{
  QueueStatus, waiting, publishing, published, failed, retrying, paused, cancelled, not_supported,
  auth_required, quota_wait, is_due, status_eq, PublishQueueItem, Snapshot, Db, get_row,
  update_rows, write_row, key_taken,
}
use ai_video_clip_processing.Publishing.Settings.{Settings}
use ai_video_clip_processing.Publishing.Scheduler.{order_clips, assign_slots, reschedule_from_now}
use ai_video_clip_processing.Publishing.Metadata.{build_publish_metadata, or_else}

-- `PLATFORMS`, the keys of `PROVIDERS`
abbrev pub platforms : List Text
platforms = codes "youtube" ∷ codes "facebook" ∷ codes "instagram" ∷ []

-- `p in PLATFORMS`
abbrev pub is_platform : Text → Bool
is_platform p = any (λ q. text_eq q p) platforms

-- `_idempotency_key`
abbrev pub idempotency_key : Text → Text → Text → Text
idempotency_key job_id clip_id platform =
    job_id ++ (codes ":" ++ (clip_id ++ (codes ":" ++ platform)))

-- A session in its transaction: the rows before it, and those that it has flushed and not committed.
pub record Session : Type 0 where
  pub committed : List PublishQueueItem
  pub flushed : List PublishQueueItem
  pub drawn : ℕ  -- how many identifiers were drawn
  pub created_count : ℕ

-- `session.add(item)` and `session.flush()`. The constraint is checked against all rows that the
-- transaction sees; `session.rollback()` after the refusal undoes the whole transaction.
unfoldable pub add_item : PublishQueueItem → Session → Bool × Session
add_item item s =
    if key_taken item.idempotency_key (s.committed ++ s.flushed)
    then (false, record s { flushed = []; drawn = suc s.drawn })
    else (
      true,
      record s {
        flushed = s.flushed ++ item ∷ [];
        drawn = suc s.drawn;
        created_count = suc s.created_count;
      },
    )

-- One clip of the job with the path of its output and its date.
pub record Plan : Type 0 where
  pub clip : ValidatedClip
  pub output_path : Text
  pub scheduled_at : ℕ

-- The result of `create_queue_from_job`; a blocked clip comes with its warning.
pub record QueueSummary : Type 0 where
  pub queued_clips : List Text
  pub blocked_clips : List (Text × Text)
  pub items_created : ℕ

module _ (uuid : ℕ → Text) where
  -- the `PublishQueueItem(...)` of a clip and a platform
  unfoldable pub new_item : Text → Plan → Text → ℕ → PublishQueueItem
  unfolding build_publish_metadata
  new_item job_id plan platform n =
      let snapshot = build_publish_metadata plan.clip in
      record {
        id = uuid n;
        job_id = job_id;
        clip_id = plan.clip.clip_id;
        platform = platform;
        idempotency_key = idempotency_key job_id plan.clip.clip_id platform;
        scheduled_at = plan.scheduled_at;
        status = waiting;
        attempt_count = 0;
        last_error = none;
        external_post_id = none;
        published_at = none;
        output_file_path = plan.output_path;
        metadata_json = record {
          title = snapshot.title;
          caption = snapshot.caption;
          hashtags = snapshot.hashtags;
          context_warning = plan.clip.context_warning;
          rank = plan.clip.rank;
          viral_score = plan.clip.viral_score;
        };
      }

  -- `for platform in enabled_platforms`: the flag is `any_created_for_clip`
  unfoldable pub add_platforms : Text → Plan → List Text → Bool → Session → Bool × Session
  unfolding new_item add_item
  add_platforms job_id plan [] any_created s = (any_created, s)
  add_platforms job_id plan (platform ∷ rest) any_created s =
      let (created, s') = add_item (new_item job_id plan platform s.drawn) s in
      add_platforms job_id plan rest (any_created || created) s'

  -- `for clip in eligible`, with `queued_clip_ids`
  unfoldable pub add_plans : Text → List Text → List Plan → Session → List Text × Session
  unfolding add_platforms
  add_plans job_id enabled [] s = ([], s)
  add_plans job_id enabled (plan ∷ plans) s =
      let (any_created, s') = add_platforms job_id plan enabled false s in
      let (queued, s'') = add_plans job_id enabled plans s' in
      (if any_created then plan.clip.clip_id ∷ queued else queued, s'')

-- `clip.copyright_warning`, where it is no empty text
abbrev pub warning_of : ValidatedClip → Option Text
warning_of c = or_else c.copyright_warning none

-- `block_warnings and clip.copyright_warning`
abbrev pub is_blocked : Bool → ValidatedClip → Bool
is_blocked block_warnings c = block_warnings && is_some (warning_of c)

abbrev blocked_reason : ValidatedClip → Text × Text
blocked_reason c = (c.clip_id, codes "copyright_warning: " ++ default_to [] c.copyright_warning)

-- `[cj.clip for cj in job.clips.values() if cj.status == ClipStatus.COMPLETED]`
unfoldable pub completed_clips : List (Text × ClipJob) → List ValidatedClip
completed_clips [] = []
completed_clips ((_, cj) ∷ rest) =
    if clip_completed cj.status then cj.clip ∷ completed_clips rest else completed_clips rest

-- `job.clips[clip_id].output_file`
unfoldable pub output_file_of : Text → List (Text × ClipJob) → Option Text
output_file_of clip_id [] = none
output_file_of clip_id ((k, cj) ∷ rest) =
    if text_eq k clip_id then cj.output_file else output_file_of clip_id rest

-- `str(path)` of an absolute path
unfoldable pub path_text : FilePath → Text
path_text [] = []
path_text (c ∷ path) = b'/' ∷ (c ++ path_text path)

abbrev from_option : {A : Type 0} → Option A → Result A
from_option none = err unknown_error
from_option (some a) = ok a

-- The clips with their paths and dates. A clip without an output file is a `TypeError` of `/`, and a
-- clip without a slot a `KeyError`; each leaves the function before anything is committed.
unfoldable pub plan_clips :
    FilePath → List (Text × ClipJob) → (Text → Option ℕ) → List ValidatedClip → Result (List Plan)
unfolding output_file_of path_text
plan_clips jdir clips slots [] = ok []
plan_clips jdir clips slots (clip ∷ rest) = do
  output_file ← from_option (output_file_of clip.clip_id clips)
  date ← from_option (slots clip.clip_id)
  plans ← plan_clips jdir clips slots rest
  ok (
      record {
        clip = clip;
        output_path = path_text (jdir ++ output_file ∷ []);
        scheduled_at = date;
      }
      ∷ plans)

abbrev pub start_session : Db → ℕ → Session
start_session db drawn = record {
  committed = db.publishing_queue;
  flushed = [];
  drawn = drawn;
  created_count = 0;
}

-- the commit at the end of `session_scope`
abbrev pub commit : Session → Db → Db
commit s db = record db { publishing_queue = s.committed ++ s.flushed }

module _ (uuid : ℕ → Text) where
  -- the session of `create_queue_from_job`, over the clips that may be queued, and the identifiers
  -- drawn by its end
  unfoldable pub enqueue_plans :
      Text → List Text → List Plan → List (Text × Text) → ℕ → Db → QueueSummary × Db × ℕ
  unfolding add_plans
  enqueue_plans job_id enabled plans blocked drawn db =
      let (queued, s) = add_plans uuid job_id enabled plans (start_session db drawn) in
      (
        record { queued_clips = queued; blocked_clips = blocked; items_created = s.created_count },
        commit s db,
        s.drawn,
      )

module _ (uuid : ℕ → Text) (job_dir : Text → Result FilePath) (settings : Settings) where
  -- `drawn` identifiers were drawn before the call; the last result counts those drawn after it.
  unfoldable pub create_queue_from_job :
      ProcessingJob
      → List Text
      → Option ℕ
      → Option Bool
      → (now drawn : ℕ) → Db
      → Result (QueueSummary × Db × ℕ)
  unfolding completed_clips plan_clips enqueue_plans
  create_queue_from_job job enabled_platforms interval_minutes block_warnings now drawn db = do
    let interval = default_to settings.publish_interval_minutes interval_minutes
    let block = default_to settings.block_warnings block_warnings
    let enabled = select is_platform enabled_platforms
    let ordered = order_clips (completed_clips job.clips)
    let blocked = map blocked_reason (select (is_blocked block) ordered)
    let eligible = select (λ c. not (is_blocked block c)) ordered
    jdir ← job_dir job.job_id
    plans ← plan_clips jdir job.clips (assign_slots eligible now interval) eligible
    ok (enqueue_plans uuid job.job_id enabled plans blocked drawn db)
