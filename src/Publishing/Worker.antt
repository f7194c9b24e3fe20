-- ===== src/Publishing/Worker.antt =====
-- backend/app/publishing/worker.py.
pub mod Claim
pub mod Resolve
pub mod Cycle
pub mod Process
pub mod Exclusive
use ai_video_clip_processing.Base.{
  ℕ, zero, suc, ◌+◌, ◌*◌, ◌-◌, min, leb, ltb, ◌==◌, Bool, true, false, not, ◌&&◌, ◌||◌, Option,
  none, some, List, [], ◌∷◌, ◌++◌, if◌then◌else◌, Text, text_eq, codes, select, length, sorted,
  take, reverse, drop_while,
}
use ai_video_clip_processing.Errors.{AppError, Result, ok, err}
use ai_video_clip_processing.Jobs.Models.{VideoMetadata}
use ai_video_clip_processing.Publishing.Rows.{
  QueueStatus, waiting, publishing, published, failed, retrying, paused, cancelled, not_supported,
  auth_required, quota_wait, is_due, status_eq, ErrorClass, transient, auth, quota, unsupported,
  permanent, PublishError, SocialAccount, AccountStatus, connected, PublishQueueItem, Outcome,
  success, failure, PublishingAttempt, Db, get_row, update_rows, write_row,
}
use ai_video_clip_processing.Publishing.Settings.{Settings, retry_delays_minutes}
use ai_video_clip_processing.Publishing.Metadata.{PublishMetadata}
use ai_video_clip_processing.Publishing.Manager.{by_date, has_already_published}
use ai_video_clip_processing.Publishing.Enqueue.{is_platform}

-- How a call of `provider.publish` ends: with the post's identifier, with a `PublishError`, or with
-- any other exception and its text.
pub data PublishResult : Type 0 where
  posted : Text → PublishResult
  refused : PublishError → PublishResult
  crashed : Text → PublishResult

-- What one round of the worker meets outside its own code: the clock at its four readings, the
-- files, ffprobe, the platform, and what other tasks do to the database while the platform is
-- awaited.
pub record Round : Type 0 where
  pub claimed_at : ℕ
  pub started_at : ℕ
  pub finished_at : ℕ
  pub resolved_at : ℕ
  pub exists : Text → Bool
  pub is_file : Text → Bool
  pub st_size : Text → ℕ
  pub probe_video : Text → Result VideoMetadata
  pub publish : SocialAccount → PublishMetadata → Text → Option Text → PublishResult
  pub meanwhile : Db → Db

-- `status.in_(due_statuses())` and `scheduled_at <= now`
abbrev pub claimable : ℕ → PublishQueueItem → Bool
claimable now row = is_due row.status && leb row.scheduled_at now

-- the rows that the claiming statement matches for a candidate
abbrev pub is_candidate : PublishQueueItem → PublishQueueItem → Bool
is_candidate candidate row = text_eq row.id candidate.id && status_eq row.status candidate.status

abbrev pub set_publishing : PublishQueueItem → PublishQueueItem
set_publishing row = record row { status = publishing }

-- `SELECT ... WHERE status IN due AND scheduled_at <= now ORDER BY scheduled_at LIMIT 5`
unfoldable pub due_candidates : ℕ → Db → List PublishQueueItem
due_candidates now db = take 5 (sorted by_date (select (claimable now) db.publishing_queue))

-- The loop over the candidates: the first whose `UPDATE` changes one row is the claimed one.
unfoldable pub claim_first : List PublishQueueItem → Db → Option PublishQueueItem × Db
unfolding update_rows
claim_first [] db = (none, db)
claim_first (candidate ∷ rest) db =
    let matched = length (select (is_candidate candidate) db.publishing_queue) in
    let db' = record db {
      publishing_queue = update_rows (is_candidate candidate) set_publishing db.publishing_queue;
    } in
    let next = claim_first rest db' in
    if matched == 1 then (some (set_publishing candidate), db') else next

-- `_claim_due_item`
unfoldable pub claim_due_item : ℕ → Db → Option PublishQueueItem × Db
unfolding claim_first due_candidates
claim_due_item now db = claim_first (due_candidates now db) db

-- `_set_status`
unfoldable pub set_status : Text → QueueStatus → Text → Db → Db
unfolding write_row
set_status item_id status error db =
    write_row item_id (λ row. record row { status = status; last_error = some error }) db

-- `_get_connected_account`: the first of the connected accounts, the last updated first
abbrev pub later_update : SocialAccount → SocialAccount → Bool
later_update a b = leb b.updated_at a.updated_at

abbrev pub is_connected : AccountStatus → Bool
is_connected connected = true
is_connected _ = false

abbrev pub first : List SocialAccount → Option SocialAccount
first [] = none
first (a ∷ _) = some a

unfoldable pub get_connected_account : Text → Db → Option SocialAccount
get_connected_account platform db = first (
    sorted later_update (
      select (λ a. text_eq a.platform platform && is_connected a.account_status)
        db.social_accounts))

-- `Path(path).name` of a path that ends in no slash: what stands behind the last slash
unfoldable pub path_name_from : Text → Text → Text
path_name_from word [] = word
path_name_from word (c ∷ s) = path_name_from (if c == b'/' then [] else word ++ c ∷ []) s

abbrev invalid_output : Option Text
invalid_output = some (codes "Output file has invalid duration or dimensions.")

abbrev check_metadata : Result VideoMetadata → Option Text
check_metadata (err e) = some (codes "Output file failed validation: ")
check_metadata (ok meta) =
    if meta.duration_seconds == 0 || meta.width == 0 || meta.height == 0
    then invalid_output
    else none

-- `_pre_publish_validate`: `none` is a file that may be published. The text of an `AppError` is left
-- out, as everywhere.
unfoldable pub pre_publish_validate : Round → Text → Option Text
unfolding path_name_from
pre_publish_validate round video_path =
    if not (round.exists video_path)
    then some (codes "Output file no longer exists: " ++ path_name_from [] video_path)
    else if not (round.is_file video_path) || round.st_size video_path == 0
    then some (codes "Output file is empty or unreadable: " ++ path_name_from [] video_path)
    else check_metadata (round.probe_video video_path)

-- `delays[min(attempt_number, len(delays) - 1)]`
abbrev element : ℕ → List ℕ → ℕ
element n [] = 0
element zero (d ∷ _) = d
element (suc n) (_ ∷ ds) = element n ds

abbrev pub retry_delay : ℕ → ℕ
retry_delay attempt_number =
    element (min attempt_number (length retry_delays_minutes - 1)) retry_delays_minutes

-- the branches of `_handle_failure` on the error's class
abbrev pub failed_row :
    Settings → ErrorClass → (attempt_number now : ℕ) → PublishQueueItem → PublishQueueItem
failed_row settings auth n now row = record row { status = auth_required }
failed_row settings unsupported n now row = record row { status = not_supported }
failed_row settings quota n now row = record row {
  status = quota_wait;
  scheduled_at = now + 60 * settings.default_quota_wait_minutes;
}
failed_row settings transient n now row =
    if ltb n settings.max_publish_attempts
    then record row { status = retrying; scheduled_at = now + 60 * retry_delay n }
    else record row { status = failed }
failed_row settings permanent n now row = record row { status = failed }

-- `_handle_failure`
unfoldable pub handle_failure : Settings → Text → PublishError → (attempt_number now : ℕ) → Db → Db
unfolding write_row
handle_failure settings item_id exc attempt_number now db =
    write_row item_id
      (λ row.
        failed_row settings exc.error_class attempt_number now
          (record row { attempt_count = attempt_number; last_error = some exc.message }))
      db

-- `_record_attempt`
unfoldable pub record_attempt : PublishingAttempt → Db → Db
record_attempt attempt db = record db {
  publishing_attempts = db.publishing_attempts ++ attempt ∷ [];
}

-- the session after a success
unfoldable pub mark_published : Text → Text → (attempt_number now : ℕ) → Db → Db
unfolding write_row
mark_published item_id external_post_id attempt_number now db =
    write_row item_id
      (λ row. record row {
        status = published;
        external_post_id = some external_post_id;
        published_at = some now;
        attempt_count = attempt_number;
        last_error = none;
      })
      db

-- `base.rstrip('/')`
abbrev rstrip_slash : Text → Text
rstrip_slash base = reverse (drop_while (λ c. c == b'/') (reverse base))

-- `_public_url_for`
unfoldable pub public_url_for : Settings → PublishQueueItem → Option Text
unfolding drop_while
public_url_for settings item =
    if text_eq settings.public_base_url []
    then none
    else some (
        rstrip_slash settings.public_base_url
        ++ (codes "/api/jobs/"
            ++ (item.job_id ++ (codes "/clips/" ++ (item.clip_id ++ codes "/file")))))

-- A function that returns, or raises an exception that is no `PublishError`.
pub data Ending : Type 0 where
  returned raised : Ending

module _ (settings : Settings) (round : Round) where
  -- an attempt of this round
  abbrev pub attempt_row : PublishQueueItem → Outcome → Option Text → Option ℕ → PublishingAttempt
  attempt_row item outcome error http_status = record {
    queue_item_id = item.id;
    attempt_number = item.attempt_count + 1;
    started_at = round.started_at;
    finished_at = round.finished_at;
    outcome = outcome;
    error = error;
    http_status = http_status;
  }

  -- What follows the call of the provider, in the database as the call left it.
  unfoldable pub record_result : PublishQueueItem → PublishResult → Db → Db
  unfolding record_attempt handle_failure mark_published
  record_result item (posted external_post_id) db =
      mark_published item.id external_post_id (item.attempt_count + 1) round.resolved_at
        (record_attempt (attempt_row item success none none) db)
  record_result item (refused exc) db =
      handle_failure settings item.id exc (item.attempt_count + 1) round.resolved_at
        (record_attempt (attempt_row item failure (some exc.message) exc.http_status) db)
  record_result item (crashed message) db =
      let exc : PublishError = record {
        message = message;
        error_class = transient;
        http_status = none;
      } in
      handle_failure settings item.id exc (item.attempt_count + 1) round.resolved_at
        (record_attempt (attempt_row item failure (some message) none) db)

  -- from the connected account on: `get_provider` raises for a platform that it does not know
  unfoldable pub publish_with : PublishQueueItem → Option SocialAccount → Db → Ending × Db
  unfolding set_status public_url_for record_result
  publish_with item none db = (
    returned,
    set_status item.id auth_required (codes "No connected " ++ (item.platform ++ codes " account."))
        db,
  )
  publish_with item (some account) db =
      let metadata : PublishMetadata = record {
        title = item.metadata_json.title;
        caption = item.metadata_json.caption;
        hashtags = item.metadata_json.hashtags;
      } in
      let public_url =
        if text_eq item.platform (codes "instagram") then public_url_for settings item else none in
      let result = round.publish account metadata item.output_file_path public_url in
      if is_platform item.platform
      then (returned, record_result item result (round.meanwhile db))
      else (raised, db)

  -- after the idempotency check
  unfoldable pub publish_checked : PublishQueueItem → Option Text → Db → Ending × Db
  unfolding set_status get_connected_account publish_with
  publish_checked item (some validation_error) db =
      (returned, set_status item.id failed validation_error db)
  publish_checked item none db = publish_with item (get_connected_account item.platform db) db

  -- `_publish_one`, by what `has_already_published` answers
  unfoldable pub publish_unless : PublishQueueItem → Option Bool → Db → Ending × Db
  unfolding set_status pre_publish_validate publish_checked
  publish_unless item none db = (raised, db)
  publish_unless item (some true) db =
      (returned, set_status item.id cancelled (codes "Already published (idempotency skip).") db)
  publish_unless item (some false) db =
      publish_checked item (pre_publish_validate round item.output_file_path) db

  unfoldable pub publish_one : PublishQueueItem → Db → Ending × Db
  unfolding has_already_published publish_unless
  publish_one item db = publish_unless item (has_already_published item.idempotency_key db) db

  -- the handler of `_process_item`
  abbrev pub after_ending : PublishQueueItem → Ending × Db → Db
  after_ending item (returned, db) = db
  after_ending item (raised, db) =
      set_status item.id failed (codes "Internal error while processing this item.") db

  unfoldable pub process_item : PublishQueueItem → Db → Db
  unfolding publish_one set_status
  process_item item db = after_ending item (publish_one item db)

module _ (settings : Settings) (rounds : ℕ → Round) where
  -- `run_worker_cycle` from its n-th round, with the count of the items that it processed; `none`
  -- where the fuel runs out.
  unfoldable pub run_worker_cycle : (fuel n processed : ℕ) → Db → Option (ℕ × Db)
  run_worker_cycle zero n processed db = none
  run_worker_cycle (suc fuel) n processed db =
      let (claimed, db') = claim_due_item (rounds n).claimed_at db in
      elim claimed [
        | none ↦ some (processed, db')
        | some item ↦
            run_worker_cycle fuel (suc n) (suc processed)
              (process_item settings (rounds n) item db')
      ]
