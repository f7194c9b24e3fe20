-- ===== src/Publishing/Worker/Resolve.antt =====
-- Every branch of `_process_item` ends in one write to the row of its own item.
use ai_video_clip_processing.Base.{
  ℕ, zero, suc, min, ltb, ◌+◌, ◌≡◌, ◌≢◌, ◌≤◌, ◌<◌, refl, Bool, true, false, Option, none, some,
  arith, Text, text_eq, Bool-cases, inl, inr, ◌⊎◌,
}
use ai_video_clip_processing.Publishing.Rows.{
  PublishQueueItem, QueueStatus, publishing, published, failed, failure, cancelled, retrying,
  auth_required, Db, update_rows, SocialAccount, PublishError, ErrorClass, transient, auth,
  unsupported, quota, permanent, not_supported, quota_wait,
}
use ai_video_clip_processing.Publishing.Rows.Laws.{KeepsText}
use ai_video_clip_processing.Publishing.Machine.{Same, Same-trans, Same-written, is_settled}
use ai_video_clip_processing.Publishing.Settings.{Settings}
use ai_video_clip_processing.Publishing.Manager.{has_already_published}
use ai_video_clip_processing.Publishing.Enqueue.{is_platform}
use ai_video_clip_processing.Publishing.Worker.{
  Round, claimable, PublishResult, posted, refused, crashed, set_status, failed_row, retry_delay,
  handle_failure, record_attempt, record_result, publish_with, publish_checked, publish_unless,
  process_item, pre_publish_validate, get_connected_account, Ending, attempt_row, after_ending,
}

-- How the worker leaves an item that it is done with: for five minutes it does not come due.
abbrev pub Resolved : ℕ → PublishQueueItem → Type 0
Resolved now row =
    (row.status ≢ publishing) × ((later : ℕ) → later < now + 300 → claimable later row ≡ false)

module _ (settings : Settings) (round : Round) (item : PublishQueueItem) (db : Db) where
  pub record Resolves (result : Db) : Type 0 where
    pub set : PublishQueueItem → PublishQueueItem
    pub base : Db
    pub result_eq :
        result.publishing_queue
        ≡ update_rows (λ row. text_eq row.id item.id) set base.publishing_queue
    pub base_eq : (base ≡ db) ⊎ (base ≡ round.meanwhile db)
    pub resolves : (row : PublishQueueItem) → Resolved round.resolved_at (set row)
    pub bounded :
        (row : PublishQueueItem)
        → (set row).status ≡ retrying
        → ((set row).attempt_count ≡ item.attempt_count + 1)
          × (item.attempt_count + 1 < settings.max_publish_attempts)
    pub keeps_id : KeepsText (λ row. row.id) set
    pub keeps_key : KeepsText (λ row. row.idempotency_key) set
    pub keeps_content : (row : PublishQueueItem) → Same row (set row)
    pub settles : (row : PublishQueueItem) → is_settled (set row).status ≡ true

abbrev settled : QueueStatus → Bool
settled failed = true
settled cancelled = true
settled auth_required = true
settled _ = false

module _ (settings : Settings) (round : Round) (wait : 5 ≤ settings.default_quota_wait_minutes)
    (item : PublishQueueItem) (db : Db) where
  set_status-Resolves :
      (status : QueueStatus) (error : Text)
      → settled status ≡ true
      → Resolves settings round item db (set_status item.id status error db)
  unfolding set_status
  set_status-Resolves status error h = record {
    set = λ row. record row { status = status; last_error = some error };
    base = db;
    result_eq = refl;
    base_eq = inl refl;
    resolves = λ row. (ground arith, λ later k. ground arith);
    bounded = λ row e. ground (arith, e, h);
    keeps_id = λ row. refl;
    keeps_key = λ row. refl;
    keeps_content = λ row.
        Same-written row row.scheduled_at status row.attempt_count (some error) row.external_post_id
          row.published_at;
    settles = λ row. ground (arith, h);
  }

  retry_delay-ge : (n : ℕ) → 0 < n → 5 ≤ retry_delay n
  retry_delay-ge zero h = absurd (omega arith)
  retry_delay-ge (suc zero) h = omega arith
  retry_delay-ge (suc (suc n)) h =
      let e : min (suc (suc n)) 2 ≡ 2 = omega arith in rw e (omega arith)

  failed_row-Resolved :
      (class : ErrorClass) (n now : ℕ) (row : PublishQueueItem)
      → 0 < n
      → Resolved now (failed_row settings class n now row)
  failed_row-Resolved transient n now row h =
      let delay = retry_delay-ge n h in
      elim (Bool-cases (ltb n settings.max_publish_attempts)) [
        | inl e ↦ rw e (λ p. cc, λ later k. ground (arith, delay))
        | inr e ↦ rw e (λ p. cc, λ later k. refl)
      ]
  failed_row-Resolved class n now row h = (ground arith, λ later k. ground arith)

  abbrev noted : PublishError → PublishQueueItem → PublishQueueItem
  noted exc row = record row {
    attempt_count = item.attempt_count + 1;
    last_error = some exc.message;
  }

  -- the row of a failed attempt
  abbrev failure_set : PublishError → PublishQueueItem → PublishQueueItem
  failure_set exc row =
      failed_row settings exc.error_class (item.attempt_count + 1) round.resolved_at
        (record row { attempt_count = item.attempt_count + 1; last_error = some exc.message })

  failed_row-bounded :
      (class : ErrorClass) (n now : ℕ) (row : PublishQueueItem)
      → (failed_row settings class n now (record row { attempt_count = n })).status ≡ retrying
      → ((failed_row settings class n now (record row { attempt_count = n })).attempt_count ≡ n)
        × (n < settings.max_publish_attempts)
  failed_row-bounded transient n now row h = ground (arith, h)
  failed_row-bounded class n now row h = ground (arith, h)

  failed_row-id :
      (class : ErrorClass) (n now : ℕ) (row : PublishQueueItem)
      → (failed_row settings class n now row).id ≡ row.id
  failed_row-id transient n now row = ground arith
  failed_row-id class n now row = ground arith

  failed_row-key :
      (class : ErrorClass) (n now : ℕ) (row : PublishQueueItem)
      → (failed_row settings class n now row).idempotency_key ≡ row.idempotency_key
  failed_row-key transient n now row = ground arith
  failed_row-key class n now row = ground arith

  failed_row-Same :
      (class : ErrorClass) (n now : ℕ) (row : PublishQueueItem)
      → Same row (failed_row settings class n now row)
  failed_row-Same transient n now row = elim (Bool-cases (ltb n settings.max_publish_attempts)) [
    | inl e ↦ rw e (Same-written row _ retrying _ _ _ _)
    | inr e ↦ rw e (Same-written row _ failed _ _ _ _)
  ]
  failed_row-Same auth n now row = Same-written row _ auth_required _ _ _ _
  failed_row-Same unsupported n now row = Same-written row _ not_supported _ _ _ _
  failed_row-Same quota n now row = Same-written row _ quota_wait _ _ _ _
  failed_row-Same permanent n now row = Same-written row _ failed _ _ _ _

  failed_row-settles :
      (class : ErrorClass) (n now : ℕ) (row : PublishQueueItem)
      → is_settled (failed_row settings class n now row).status ≡ true
  failed_row-settles transient n now row = ground arith
  failed_row-settles class n now row = ground arith

  failure-Resolves :
      (exc : PublishError) (outcome : Option Text) (http : Option ℕ)
      → Resolves settings round item db (
          handle_failure settings item.id exc (item.attempt_count + 1) round.resolved_at (
            record_attempt
              (attempt_row settings round item failure outcome http)
              (round.meanwhile db)))
  unfolding handle_failure record_attempt
  failure-Resolves exc outcome http = record {
    set = failure_set exc;
    base = round.meanwhile db;
    result_eq = refl;
    base_eq = inr refl;
    resolves = λ row.
        failed_row-Resolved exc.error_class (item.attempt_count + 1) round.resolved_at _
          (omega arith);
    bounded = λ row.
        failed_row-bounded exc.error_class (item.attempt_count + 1) round.resolved_at
          (record row { last_error = some exc.message });
    keeps_id = λ row. failed_row-id exc.error_class (item.attempt_count + 1) round.resolved_at _;
    keeps_key = λ row. failed_row-key exc.error_class (item.attempt_count + 1) round.resolved_at _;
    keeps_content = λ row.
        Same-trans row (noted exc row) (failure_set exc row)
          (Same-written row row.scheduled_at row.status (item.attempt_count + 1) (some exc.message)
            row.external_post_id row.published_at)
          (failed_row-Same exc.error_class (item.attempt_count + 1) round.resolved_at
            (noted exc row));
    settles = λ row.
        failed_row-settles exc.error_class (item.attempt_count + 1) round.resolved_at
          (noted exc row);
  }

  record_result-Resolves :
      (result : PublishResult)
      → Resolves settings round item db
          (record_result settings round item result (round.meanwhile db))
  unfolding record_result
  record_result-Resolves (posted external_post_id) = record {
    set = λ row. record row {
      status = published;
      external_post_id = some external_post_id;
      published_at = some round.resolved_at;
      attempt_count = item.attempt_count + 1;
      last_error = none;
    };
    base = round.meanwhile db;
    result_eq = refl;
    base_eq = inr refl;
    resolves = λ row. (λ p. cc, λ later k. refl);
    bounded = λ row e. absurd (cc e);
    keeps_id = λ row. refl;
    keeps_key = λ row. refl;
    keeps_content = λ row.
        Same-written row row.scheduled_at published (item.attempt_count + 1) none
          (some external_post_id) (some round.resolved_at);
    settles = λ row. refl;
  }
  record_result-Resolves (refused exc) = failure-Resolves exc (some exc.message) exc.http_status
  record_result-Resolves (crashed message) =
      failure-Resolves (record { message = message; error_class = transient; http_status = none })
        (some message) none

  abbrev Done : Ending × Db → Type 0
  Done e = Resolves settings round item db (after_ending settings round item e)

  publish_with-Resolves :
      (account : Option SocialAccount) → Done (publish_with settings round item account db)
  unfolding publish_with
  publish_with-Resolves none = set_status-Resolves auth_required _ refl
  publish_with-Resolves (some account) = elim (Bool-cases (is_platform item.platform)) [
    | inl e ↦ rw e (record_result-Resolves _)
    | inr e ↦ rw e (set_status-Resolves failed _ refl)
  ]

  publish_checked-Resolves :
      (error : Option Text) → Done (publish_checked settings round item error db)
  unfolding publish_checked
  publish_checked-Resolves none = publish_with-Resolves (get_connected_account item.platform db)
  publish_checked-Resolves (some error) = set_status-Resolves failed error refl

  publish_unless-Resolves :
      (published_already : Option Bool)
      → Done (publish_unless settings round item published_already db)
  unfolding publish_unless
  publish_unless-Resolves none = set_status-Resolves failed _ refl
  publish_unless-Resolves (some true) = set_status-Resolves cancelled _ refl
  publish_unless-Resolves (some false) =
      publish_checked-Resolves (pre_publish_validate round item.output_file_path)

  pub process_item-Resolves : Resolves settings round item db (process_item settings round item db)
  unfolding process_item
  process_item-Resolves = publish_unless-Resolves (has_already_published item.idempotency_key db)
