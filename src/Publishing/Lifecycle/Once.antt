-- ===== src/Publishing/Lifecycle/Once.antt =====
-- That no clip is queued twice for a platform, over the whole life of the queue.
use ai_video_clip_processing.Base.{◌≡◌, Bool, true, false, ◌&&◌, Text, text_eq}
use ai_video_clip_processing.Publishing.Rows.{PublishQueueItem}
use ai_video_clip_processing.Publishing.Settings.{Settings}
use ai_video_clip_processing.Publishing.Enqueue.{is_platform, idempotency_key}
use ai_video_clip_processing.Publishing.Enqueue.Key.{has_colon}

-- an item for that clip of that job, on that platform
abbrev pub is_about : Text → Text → Text → PublishQueueItem → Bool
is_about job_id clip_id platform row =
    text_eq row.job_id job_id && text_eq row.clip_id clip_id && text_eq row.platform platform

-- an item for a known platform, of a job whose identifier has no colon
pub record IsOrdinary (row : PublishQueueItem) : Type 0 where
  pub known : is_platform row.platform ≡ true
  pub plain : has_colon row.job_id ≡ false

module _ (job_id clip_id platform : Text) (known : is_platform platform ≡ true)
    (plain : has_colon job_id ≡ false) where
  abbrev own_key : Text
  own_key = idempotency_key job_id clip_id platform
