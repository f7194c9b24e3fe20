-- ===== src/Publishing/Manager.antt =====
-- The queue's other operations in backend/app/publishing/queue_manager.py. Each is one session that
-- commits, and `now` is the reading of the clock in it.
pub mod Items
pub mod Resume
use ai_video_clip_processing.Base.{
  ℕ, leb, Bool, true, false, not, ◌&&◌, ◌||◌, Option, none, some, List, [], ◌∷◌, ◌++◌, map,
  if◌then◌else◌, Text, text_eq, codes, any, select, length, sorted, default_to,
}
use ai_video_clip_processing.Publishing.Rows.{
  QueueStatus, waiting, publishing, published, paused, cancelled, is_due, status_eq,
  PublishQueueItem, Db, get_row, update_rows, write_row,
}
use ai_video_clip_processing.Publishing.Scheduler.{reschedule_from_now}

-- `ORDER BY scheduled_at`; rows of one date come in the order of their creation
abbrev pub by_date : PublishQueueItem → PublishQueueItem → Bool
by_date a b = leb a.scheduled_at b.scheduled_at

unfoldable pub list_queue : Option Text → Db → List PublishQueueItem
list_queue none db = sorted by_date db.publishing_queue
list_queue (some []) db = sorted by_date db.publishing_queue
list_queue (some (c ∷ s)) db =
    sorted by_date (select (λ row. text_eq row.job_id (c ∷ s)) db.publishing_queue)

unfoldable pub get_item : Text → Db → Option PublishQueueItem
unfolding get_row
get_item item_id db = get_row item_id db.publishing_queue

-- `scalar_one_or_none() is not None`, where `none` is `MultipleResultsFound`
abbrev scalar_one_or_none : List PublishQueueItem → Option Bool
scalar_one_or_none [] = some false
scalar_one_or_none (_ ∷ []) = some true
scalar_one_or_none (_ ∷ _ ∷ _) = none

unfoldable pub has_already_published : Text → Db → Option Bool
has_already_published key db = scalar_one_or_none (
    select (λ row. text_eq row.idempotency_key key && status_eq row.status published)
      db.publishing_queue)

-- the rows that `pause_job_queue` takes
abbrev pub pausable : Text → PublishQueueItem → Bool
pausable job_id row = text_eq row.job_id job_id && is_due row.status

abbrev pub set_paused : PublishQueueItem → PublishQueueItem
set_paused row = record row { status = paused }

-- Returns the count of the rows that it changed.
unfoldable pub pause_job_queue : Text → Db → ℕ × Db
unfolding update_rows
pause_job_queue job_id db = (
  length (select (pausable job_id) db.publishing_queue),
  record db { publishing_queue = update_rows (pausable job_id) set_paused db.publishing_queue },
)

-- `clip_order`: each clip once, at its first item
unfoldable pub clip_order : List Text → List PublishQueueItem → List Text
clip_order seen [] = []
clip_order seen (row ∷ rows) =
    let later = clip_order (row.clip_id ∷ seen) rows in
    let same = clip_order seen rows in
    if any (λ c. text_eq c row.clip_id) seen then same else row.clip_id ∷ later

-- the rows that `resume_job_queue` takes
abbrev pub resumable : Text → PublishQueueItem → Bool
resumable job_id row = text_eq row.job_id job_id && status_eq row.status paused

-- `item.scheduled_at = slots[item.clip_id]` and the status; every clip of a taken row has a slot
abbrev pub resumed : Option ℕ → PublishQueueItem → PublishQueueItem
resumed none row = record row { status = waiting }
resumed (some date) row = record row { status = waiting; scheduled_at = date }

abbrev pub pending_rows : Text → Db → List PublishQueueItem
pending_rows job_id db = sorted by_date (select (resumable job_id) db.publishing_queue)

-- the dates of the clips whose items resume
unfoldable pub resume_slots : Text → ℕ → (now : ℕ) → Db → Text → Option ℕ
unfolding clip_order
resume_slots job_id interval_minutes now db =
    reschedule_from_now (clip_order [] (pending_rows job_id db)) now interval_minutes

-- Returns the count of the rows that it changed.
unfoldable pub resume_job_queue : Text → Option ℕ → (default now : ℕ) → Db → ℕ × Db
unfolding update_rows resume_slots
resume_job_queue job_id interval_minutes default now db =
    let slots = resume_slots job_id (default_to default interval_minutes) now db in
    (
      length (pending_rows job_id db),
      record db {
        publishing_queue =
            update_rows (resumable job_id) (λ row. resumed (slots row.clip_id) row)
              db.publishing_queue;
      },
    )

-- An operation on one item: a row that it does not find, or may not touch, stays as it is.
abbrev edit_found :
    Text
    → (PublishQueueItem → Bool)
    → (PublishQueueItem → PublishQueueItem)
    → Option PublishQueueItem
    → Db
    → Option PublishQueueItem × Db
edit_found item_id allowed set none db = (none, db)
edit_found item_id allowed set (some row) db =
    if allowed row then (some (set row), write_row item_id set db) else (some row, db)

unfoldable pub edit_item :
    Text
    → (PublishQueueItem → Bool)
    → (PublishQueueItem → PublishQueueItem)
    → Db
    → Option PublishQueueItem × Db
unfolding get_row write_row
edit_item item_id allowed set db =
    edit_found item_id allowed set (get_row item_id db.publishing_queue) db

-- `item.status != QueueStatus.PUBLISHED.value`
abbrev pub may_retry : PublishQueueItem → Bool
may_retry row = not (status_eq row.status published)

abbrev pub retried : ℕ → PublishQueueItem → PublishQueueItem
retried now row = record row {
  status = waiting;
  scheduled_at = now;
  attempt_count = 0;
  last_error = none;
}

unfoldable pub retry_item : Text → ℕ → Db → Option PublishQueueItem × Db
unfolding edit_item
retry_item item_id now db = edit_item item_id may_retry (retried now) db

abbrev pub skipped : PublishQueueItem → PublishQueueItem
skipped row = record row { status = cancelled; last_error = some (codes "Skipped by user.") }

unfoldable pub skip_item : Text → Db → Option PublishQueueItem × Db
unfolding edit_item
skip_item item_id db = edit_item item_id (λ row. true) skipped db

abbrev pub set_cancelled : PublishQueueItem → PublishQueueItem
set_cancelled row = record row { status = cancelled }

unfoldable pub cancel_item : Text → Db → Option PublishQueueItem × Db
unfolding edit_item
cancel_item item_id db = edit_item item_id (λ row. true) set_cancelled db

abbrev pub may_publish_now : PublishQueueItem → Bool
may_publish_now row = is_due row.status || status_eq row.status paused

abbrev pub brought_forward : ℕ → PublishQueueItem → PublishQueueItem
brought_forward now row = record row { scheduled_at = now; status = waiting }

unfoldable pub publish_now : Text → ℕ → Db → Option PublishQueueItem × Db
unfolding edit_item
publish_now item_id now db = edit_item item_id may_publish_now (brought_forward now) db
