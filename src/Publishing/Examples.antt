-- ===== src/Publishing/Examples.antt =====
-- The theorems about the publishing queue at a small one: two items that are due, and one that is
-- published.
mod Queue
mod Service
mod Providers
mod Oauth
use ai_video_clip_processing.Base.{
  ℕ, suc, ◌+◌, ◌≡◌, ◌≢◌, ◌≤◌, ◌<◌, ◌⊎◌, ◌↔◌, refl, Bool, true, false, Option, none, some, List, [],
  ◌∷◌, ◌++◌, map, arith, if◌then◌else◌, Text, text_eq, text_eq_iff, codes, any, In, inl, inr,
  length, ℤ, pos, sorted, default_to, take, select, Ascending, count_if,
}
use ai_video_clip_processing.Errors.{ok}
use ai_video_clip_processing.Schemas.Json.{Fields, end}
use ai_video_clip_processing.Schemas.Validated.{ValidatedClip}
use ai_video_clip_processing.Jobs.Models.{VideoMetadata}
use ai_video_clip_processing.Publishing.Rows.{
  QueueStatus, waiting, publishing, published, retrying, status_eq, PublishError, transient,
  SocialAccount, connected, PublishQueueItem, Snapshot, Db, get_row, update_rows, IsTable, Unique,
}
use ai_video_clip_processing.Publishing.Settings.{Settings}
use ai_video_clip_processing.Publishing.Scheduler.{
  clip_le, order_clips, assign_slots, reschedule_from_now,
}
use ai_video_clip_processing.Publishing.Scheduler.Order.{order_clips-sorts}
use ai_video_clip_processing.Publishing.Scheduler.Slots.{
  assign_slots-spaced, reschedule_from_now-later,
}
use ai_video_clip_processing.Publishing.Enqueue.{Plan, enqueue_plans}
use ai_video_clip_processing.Publishing.Enqueue.Transaction.{enqueue_plans-IsTable, Drawn}
use ai_video_clip_processing.Publishing.Enqueue.Fresh.{
  plan_key, wanted_rows, enqueue-fresh, enqueue-last_taken,
}
use ai_video_clip_processing.Publishing.Manager.{
  has_already_published, pausable, pause_job_queue, resumable, resume_slots, resume_job_queue,
  retried, retry_item, cancel_item, publish_now,
}
use ai_video_clip_processing.Publishing.Manager.Items.{
  published_kept, has_already_published-own, cancel-retry_forgets,
}
use ai_video_clip_processing.Publishing.Manager.Resume.{pause-resume, resume_job_queue-reschedules}
use ai_video_clip_processing.Publishing.Worker.{
  Round, refused, claimable, due_candidates, claim_first, claim_due_item, set_publishing,
  process_item, run_worker_cycle,
}
use ai_video_clip_processing.Publishing.Worker.Exclusive.{
  claim_exclusive, claim_due_item_sound, claim_due_item-none,
}
use ai_video_clip_processing.Publishing.Worker.Process.{
  process_item-resolves, process_item-attempts, process_item-isolates, process_item-IsTable,
}
use ai_video_clip_processing.Publishing.Worker.Cycle.{due_count, run_worker_cycle-drains}

abbrev no_snapshot : Snapshot
no_snapshot = record {
  title = none;
  caption = none;
  hashtags = [];
  context_warning = none;
  rank = pos 1;
  viral_score = pos 9;
}

abbrev row_of : Text → Text → ℕ → QueueStatus → PublishQueueItem
row_of id clip_id date status = record {
  id = id;
  job_id = codes "j";
  clip_id = clip_id;
  platform = codes "youtube";
  idempotency_key = codes "j:" ++ (clip_id ++ codes ":youtube");
  scheduled_at = date;
  status = status;
  attempt_count = 0;
  last_error = none;
  external_post_id = none;
  published_at = none;
  output_file_path = codes "/o";
  metadata_json = no_snapshot;
}

abbrev pub first_row : PublishQueueItem
first_row = row_of (codes "a") (codes "1") 50 waiting

abbrev second_row : PublishQueueItem
second_row = row_of (codes "b") (codes "2") 90 retrying

abbrev pub published_row : PublishQueueItem
published_row = row_of (codes "c") (codes "3") 10 published

abbrev pub account : SocialAccount
account = record {
  id = codes "s";
  platform = codes "youtube";
  account_id = codes "x";
  account_name = codes "x";
  access_token_encrypted = codes "t";
  refresh_token_encrypted = none;
  token_expires_at = none;
  account_status = connected;
  page_id = none;
  ig_business_account_id = none;
  updated_at = 0;
}

abbrev pub queue : Db
queue = record {
  publishing_queue = second_row ∷ first_row ∷ published_row ∷ [];
  publishing_attempts = [];
  social_accounts = account ∷ [];
}

pub queue-IsTable : IsTable queue.publishing_queue
unfolding text_eq
queue-IsTable = record {
  unique_ids = (refl, (refl, (refl, tt)));
  unique_keys = (refl, (refl, (refl, tt)));
}

-- the queue after a claim at 100, and after a second one
abbrev once_claimed : Db
once_claimed = record queue {
  publishing_queue = second_row ∷ set_publishing first_row ∷ published_row ∷ [];
}

abbrev twice_claimed : Db
twice_claimed = record queue {
  publishing_queue = set_publishing second_row ∷ set_publishing first_row ∷ published_row ∷ [];
}

first_claim : claim_due_item 100 queue ≡ (some (set_publishing first_row), once_claimed)
unfolding claim_due_item sorted text_eq status_eq
first_claim = refl

claim_exclusive_example : (set_publishing first_row).id ≢ (set_publishing second_row).id
unfolding claim_due_item sorted text_eq status_eq
claim_exclusive_example =
    claim_exclusive 100 100 queue queue queue once_claimed twice_claimed (set_publishing first_row)
      (set_publishing second_row) queue-IsTable refl refl

claim_due_item_sound_example :
    (row : PublishQueueItem) × (get_row (codes "a") queue.publishing_queue ≡ some row)
    × (claimable 100 row ≡ true)
    × ((r : PublishQueueItem)
        → In r queue.publishing_queue
        → claimable 100 r ≡ true
        → row.scheduled_at ≤ r.scheduled_at)
    × (set_publishing first_row ≡ set_publishing row)
    × ((j : Text)
        → get_row j once_claimed.publishing_queue ≡ (
            if text_eq (codes "a") j
            then some (set_publishing first_row)
            else get_row j queue.publishing_queue))
claim_due_item_sound_example =
    claim_due_item_sound 100 queue once_claimed (set_publishing first_row) queue-IsTable first_claim

abbrev pub settings : Settings
settings = record {
  publish_interval_minutes = 60;
  block_warnings = true;
  max_publish_attempts = 3;
  default_quota_wait_minutes = 60;
  public_base_url = [];
}

abbrev metadata : VideoMetadata
metadata = record {
  duration_seconds = 30000000;
  width = 1080;
  height = 1920;
  fps = (30, 1);
  video_codec = codes "h264";
  audio_codec = none;
  audio_present = false;
  size_bytes = 9;
}

-- a round at 100 in which the platform is down for a moment
abbrev pub round : Round
round = record {
  claimed_at = 100;
  started_at = 100;
  finished_at = 101;
  resolved_at = 101;
  exists = λ path. true;
  is_file = λ path. true;
  st_size = λ path. 9;
  probe_video = λ path. ok metadata;
  publish = λ account metadata path url.
      refused (record { message = codes "busy"; error_class = transient; http_status = some 503 });
  meanwhile = λ db. db;
}

abbrev after_round : Db
after_round = process_item settings round (set_publishing first_row) once_claimed

abbrev retried_row : PublishQueueItem
retried_row = record first_row {
  status = retrying;
  scheduled_at = 401;
  attempt_count = 1;
  last_error = some (codes "busy");
}

after_round-row : get_row (codes "a") after_round.publishing_queue ≡ some retried_row
unfolding process_item get_row sorted text_eq status_eq
after_round-row = refl

process_item-resolves_example :
    (retried_row.status ≢ publishing)
    × ((later : ℕ) → later < 401 → claimable later retried_row ≡ false)
process_item-resolves_example =
    process_item-resolves settings round (omega arith) (set_publishing first_row) once_claimed
      retried_row after_round-row

two_due : due_count 100 queue < 3
unfolding status_eq
two_due = omega arith

run_worker_cycle-drains_example :
    (total : ℕ) × (db' : Db) × (last : ℕ) × (run_worker_cycle settings (λ n. round) 3 0 0 queue
      ≡ some (total, db'))
    × (total ≤ 0 + due_count 100 queue)
    × (claim_due_item 100 db' ≡ (none, db'))
run_worker_cycle-drains_example =
    run_worker_cycle-drains settings (λ n. round) 100 (omega arith) (λ n db. refl)
      (λ n. omega arith) (λ n. omega arith) 3 0 0 queue queue-IsTable two_due
