-- ===== src/Publishing/Rows.antt =====
-- backend/app/publishing/states.py, backend/app/db/models.py and the part of a database session
-- that the queue uses. A table is the list of its rows in the order of their creation, and a
-- date is a number of seconds.
pub mod Laws
use ai_video_clip_processing.Base.{
  ℕ, ◌≡◌, ◌↔◌, Bool, true, false, Option, none, some, List, [], ◌∷◌, arith, if◌then◌else◌, Text,
  text_eq, any, ℤ,
}

pub data QueueStatus : Type 0 where
  waiting publishing published failed retrying paused cancelled not_supported : QueueStatus
  auth_required quota_wait : QueueStatus

pub QueueStatus-discrete : Discrete QueueStatus
QueueStatus-discrete = hlevel

-- `a == b` on statuses
unfoldable pub status_eq : QueueStatus → QueueStatus → Bool
unfolding QueueStatus-discrete
status_eq a b = elim (QueueStatus-discrete a b) [ yes _ ↦ true | no _ ↦ false ]

pub status_eq_iff : (a b : QueueStatus) → (status_eq a b ≡ true) ↔ (a ≡ b)
unfolding status_eq
status_eq_iff a b = ground arith

-- `status in QueueStatus.due_statuses()`
abbrev pub is_due : QueueStatus → Bool
is_due waiting = true
is_due retrying = true
is_due quota_wait = true
is_due _ = false

-- `status in QueueStatus.terminal_statuses()`
abbrev pub is_terminal : QueueStatus → Bool
is_terminal published = true
is_terminal failed = true
is_terminal cancelled = true
is_terminal not_supported = true
is_terminal _ = false

pub data ErrorClass : Type 0 where
  transient auth quota unsupported permanent : ErrorClass

pub record PublishError : Type 0 where
  pub message : Text
  pub error_class : ErrorClass
  pub http_status : Option ℕ

pub data AccountStatus : Type 0 where
  connected expired revoked : AccountStatus

pub record SocialAccount : Type 0 where
  pub id : Text
  pub platform : Text
  pub account_id : Text
  pub account_name : Text
  pub access_token_encrypted : Text
  pub refresh_token_encrypted : Option Text
  pub token_expires_at : Option ℕ
  pub account_status : AccountStatus
  pub page_id : Option Text  -- extra["page_id"]
  pub ig_business_account_id : Option Text  -- extra["ig_business_account_id"]
  pub updated_at : ℕ

-- the JSON column `metadata_json`, written once when the item is created
pub record Snapshot : Type 0 where
  pub title : Option Text
  pub caption : Option Text
  pub hashtags : List Text
  pub context_warning : Option Text
  pub rank : ℤ
  pub viral_score : ℤ

-- `created_at` and `updated_at` of an item are never read, and are left out.
pub record PublishQueueItem : Type 0 where
  pub id : Text
  pub job_id : Text
  pub clip_id : Text
  pub platform : Text
  pub idempotency_key : Text
  pub scheduled_at : ℕ
  pub status : QueueStatus
  pub attempt_count : ℕ
  pub last_error : Option Text
  pub external_post_id : Option Text
  pub published_at : Option ℕ
  pub output_file_path : Text
  pub metadata_json : Snapshot

pub data Outcome : Type 0 where
  success failure : Outcome

pub record PublishingAttempt : Type 0 where
  pub queue_item_id : Text
  pub attempt_number : ℕ
  pub started_at : ℕ
  pub finished_at : ℕ
  pub outcome : Outcome
  pub error : Option Text
  pub http_status : Option ℕ

pub record Db : Type 0 where
  pub publishing_queue : List PublishQueueItem
  pub publishing_attempts : List PublishingAttempt
  pub social_accounts : List SocialAccount

-- `session.get(PublishQueueItem, item_id)`
unfoldable pub get_row : Text → List PublishQueueItem → Option PublishQueueItem
get_row item_id [] = none
get_row item_id (row ∷ rows) = if text_eq row.id item_id then some row else get_row item_id rows

-- `UPDATE publishing_queue SET ... WHERE ...`
unfoldable pub update_rows :
    (PublishQueueItem → Bool)
    → (PublishQueueItem → PublishQueueItem)
    → List PublishQueueItem
    → List PublishQueueItem
update_rows where' set [] = []
update_rows where' set (row ∷ rows) =
    (if where' row then set row else row) ∷ update_rows where' set rows

-- The commit of a session that loaded the row of `item_id` and wrote to its attributes.
unfoldable pub write_row : Text → (PublishQueueItem → PublishQueueItem) → Db → Db
unfolding update_rows
write_row item_id set db = record db {
  publishing_queue = update_rows (λ row. text_eq row.id item_id) set db.publishing_queue;
}

-- the constraint `uq_publishing_queue_idempotency_key` would refuse this key
abbrev pub key_taken : Text → List PublishQueueItem → Bool
key_taken key = any (λ row. text_eq row.idempotency_key key)

-- no two elements have the same text
abbrev pub Unique : {A : Type 0} → (A → Text) → List A → Type 0
Unique text [] = Unit
Unique text (x ∷ xs) = (any (λ y. text_eq (text y) (text x)) xs ≡ false) × Unique text xs

-- What the schema of the table enforces: a primary key and the unique constraint.
pub record IsTable (rows : List PublishQueueItem) : Type 0 where
  pub unique_ids : Unique (λ row. row.id) rows
  pub unique_keys : Unique (λ row. row.idempotency_key) rows
