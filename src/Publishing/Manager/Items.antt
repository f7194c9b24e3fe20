-- ===== src/Publishing/Manager/Items.antt =====
-- What the operations on one item, and the pause of a job, do to the rows of the queue.
use ai_video_clip_processing.Base.{
  ℕ, ◌≡◌, refl, Bool, true, false, ◌&&◌, Option, none, some, List, [], ◌∷◌, arith, if◌then◌else◌,
  Text, text_eq, text_eq_iff, text_eq_sym, text_eq_self, In, select, any, any-In, Bool-cases, inl,
  inr, Option-cases, default_to,
}
use ai_video_clip_processing.Publishing.Rows.{
  PublishQueueItem, published, status_eq, Db, get_row, update_rows, Unique, IsTable,
}
use ai_video_clip_processing.Publishing.Rows.Laws.{
  KeepsText, get_row-update_rows, get_row-In, get_row-of_In, update_rows-IsTable,
}
use ai_video_clip_processing.Publishing.Manager.{
  has_already_published, pausable, pause_job_queue, resumable, resume_job_queue, retry_item,
  skip_item, cancel_item, publish_now, edit_item, may_retry, retried, skipped, set_cancelled,
  may_publish_now, brought_forward, resumed, set_paused, resume_slots,
}

-- An edit is seen in the row of its item alone, and there only where it is allowed.
edit_item-rows :
    (item_id : Text) (allowed : PublishQueueItem → Bool) (set : PublishQueueItem → PublishQueueItem)
    → KeepsText (λ r. r.id) set
    → (db : Db) (j : Text) {row : PublishQueueItem} → get_row j db.publishing_queue ≡ some row
    → get_row j (edit_item item_id allowed set db).1.publishing_queue
      ≡ some (if text_eq item_id j && allowed row then set row else row)
unfolding edit_item
edit_item-rows item_id allowed set keeps db j {row = row} found =
    elim (Option-cases (get_row item_id db.publishing_queue)) [
      | inl e ↦ ground (arith, e, text_eq_iff item_id j)
      | inr (r, e) ↦ ground (
        arith,
        e,
        text_eq_iff item_id j,
        get_row-update_rows set keeps item_id j db.publishing_queue,
      )
    ]

module _ (now : ℕ) (db : Db) (row : PublishQueueItem) (j : Text)
    (found : get_row j db.publishing_queue ≡ some row) where
  -- The row of any item after an operation on the item `item_id`.
  pub retry_item-row :
      (item_id : Text)
      → get_row j (retry_item item_id now db).1.publishing_queue
        ≡ some (if text_eq item_id j && may_retry row then retried now row else row)
  unfolding retry_item
  retry_item-row item_id = edit_item-rows item_id may_retry (retried now) (λ r. refl) db j found

  pub skip_item-row :
      (item_id : Text)
      → get_row j (skip_item item_id db).1.publishing_queue
        ≡ some (if text_eq item_id j then skipped row else row)
  unfolding skip_item
  skip_item-row item_id =
      ground (arith, edit_item-rows item_id (λ r. true) skipped (λ r. refl) db j found)

  pub cancel_item-row :
      (item_id : Text)
      → get_row j (cancel_item item_id db).1.publishing_queue
        ≡ some (if text_eq item_id j then set_cancelled row else row)
  unfolding cancel_item
  cancel_item-row item_id =
      ground (arith, edit_item-rows item_id (λ r. true) set_cancelled (λ r. refl) db j found)

  pub publish_now-row :
      (item_id : Text)
      → get_row j (publish_now item_id now db).1.publishing_queue
        ≡ some (if text_eq item_id j && may_publish_now row then brought_forward now row else row)
  unfolding publish_now
  publish_now-row item_id =
      edit_item-rows item_id may_publish_now (brought_forward now) (λ r. refl) db j found

-- A statement on rows of any kind, seen from one row.
pub update_rows-row :
    (where' : PublishQueueItem → Bool) (set : PublishQueueItem → PublishQueueItem)
    → KeepsText (λ r. r.id) set
    → (rows : List PublishQueueItem) (j : Text) (row : PublishQueueItem) → get_row j rows ≡ some row
    → get_row j (update_rows where' set rows) ≡ some (if where' row then set row else row)
unfolding get_row update_rows
update_rows-row where' set keeps [] j row found = cc
update_rows-row where' set keeps (r ∷ rows) j row found =
    ground (arith, keeps r, text_eq_iff r.id j, update_rows-row where' set keeps rows j row)

resumed-id : (date : Option ℕ) (row : PublishQueueItem) → (resumed date row).id ≡ row.id
resumed-id none row = refl
resumed-id (some d) row = refl

module _ (now default : ℕ) (interval_minutes : Option ℕ) (db : Db) (row : PublishQueueItem)
    (j : Text) (found : get_row j db.publishing_queue ≡ some row) where
  pub resume_job_queue-row :
      (job_id : Text)
      → let slots = resume_slots job_id (default_to default interval_minutes) now db in
        get_row j (resume_job_queue job_id interval_minutes default now db).1.publishing_queue
        ≡ some (if resumable job_id row then resumed (slots row.clip_id) row else row)
  unfolding resume_job_queue
  resume_job_queue-row job_id =
      let slots = resume_slots job_id (default_to default interval_minutes) now db in
      update_rows-row (resumable job_id) (λ r. resumed (slots r.clip_id) r)
        (λ r. resumed-id (slots r.clip_id) r) db.publishing_queue j row found

module _ (now default : ℕ) (interval_minutes : Option ℕ) (db : Db) (row : PublishQueueItem)
    (j : Text) (found : get_row j db.publishing_queue ≡ some row)
    (done : row.status ≡ published) where
  -- Retrying, publishing now, pausing and resuming leave the row of a PUBLISHED item as it is.
  pub published_kept :
      (item_id job_id : Text)
      → (get_row j (retry_item item_id now db).1.publishing_queue ≡ some row)
        × (get_row j (publish_now item_id now db).1.publishing_queue ≡ some row)
        × (get_row j (pause_job_queue job_id db).1.publishing_queue ≡ some row)
        × (get_row j (resume_job_queue job_id interval_minutes default now db).1.publishing_queue
            ≡ some row)
  unfolding pause_job_queue status_eq
  published_kept item_id job_id = (
    ground (arith, retry_item-row now db row j found item_id),
    ground (arith, publish_now-row now db row j found item_id),
    ground (
      arith,
      update_rows-row (pausable job_id) set_paused (λ r. refl) db.publishing_queue j row found,
    ),
    ground (arith, resume_job_queue-row now default interval_minutes db row j found job_id),
  )

unpublished :
    (key : Text) (rows : List PublishQueueItem)
    → any (λ r. text_eq r.idempotency_key key) rows ≡ false
    → select (λ r. text_eq r.idempotency_key key && status_eq r.status published) rows ≡ []
unpublished key [] h = refl
unpublished key (r ∷ rows) h = ground (arith, unpublished key rows)

own_published :
    (row : PublishQueueItem) (rows : List PublishQueueItem)
    → Unique (λ r. r.idempotency_key) rows
    → In row rows
    → select
        (λ r. text_eq r.idempotency_key row.idempotency_key && status_eq r.status published)
        rows
      ≡ (if status_eq row.status published then row ∷ [] else [])
own_published row [] u h = elim h [ ]
own_published row (r ∷ rows) u (inl e) =
    let absent = unpublished row.idempotency_key rows (rw e u.0) in
    rw (← e) (ground (arith, absent, text_eq_self row.idempotency_key))
own_published row (r ∷ rows) u (inr k) = ground (
  arith,
  own_published row rows u.1 k,
  text_eq_sym r.idempotency_key row.idempotency_key,
  any-In (λ q. text_eq q.idempotency_key r.idempotency_key) row rows k,
)

-- The guard before a publish looks for a PUBLISHED row of the same key, and the table holds one row
-- of a key: it says no of every item whose own row has another status.
pub has_already_published-own :
    (db : Db) (row : PublishQueueItem)
    → IsTable db.publishing_queue
    → In row db.publishing_queue
    → has_already_published row.idempotency_key db ≡ some (status_eq row.status published)
unfolding has_already_published
has_already_published-own db row t h =
    ground (arith, own_published row db.publishing_queue t.unique_keys h)

edit_item-IsTable :
    (item_id : Text) (allowed : PublishQueueItem → Bool) (set : PublishQueueItem → PublishQueueItem)
    → KeepsText (λ r. r.id) set
    → KeepsText (λ r. r.idempotency_key) set
    → (db : Db) → IsTable db.publishing_queue
    → IsTable (edit_item item_id allowed set db).1.publishing_queue
unfolding edit_item
edit_item-IsTable item_id allowed set keeps_id keeps_key db t =
    elim (Option-cases (get_row item_id db.publishing_queue)) [
      | inl e ↦ rw e t
      | inr (r, e) ↦ elim (Bool-cases (allowed r)) [
        | inl a ↦ rw (e, a) (update_rows-IsTable _ set keeps_id keeps_key db.publishing_queue t)
        | inr a ↦ rw (e, a) t
      ]
    ]

pub retry_item-IsTable :
    (item_id : Text) (now : ℕ) (db : Db)
    → IsTable db.publishing_queue
    → IsTable (retry_item item_id now db).1.publishing_queue
unfolding retry_item
retry_item-IsTable item_id now =
    edit_item-IsTable item_id may_retry (retried now) (λ r. refl) (λ r. refl)

pub cancel_item-IsTable :
    (item_id : Text) (db : Db)
    → IsTable db.publishing_queue
    → IsTable (cancel_item item_id db).1.publishing_queue
unfolding cancel_item
cancel_item-IsTable item_id =
    edit_item-IsTable item_id (λ r. true) set_cancelled (λ r. refl) (λ r. refl)

-- An item of any status, PUBLISHED included, that is cancelled and then retried is as `retried` makes
-- it, WAITING and due at once, and the guard before a publish answers no for it.
pub cancel-retry_forgets :
    (now : ℕ) (db : Db) (row : PublishQueueItem)
    → IsTable db.publishing_queue
    → In row db.publishing_queue
    → let (_, cancelled_db) = cancel_item row.id db in
      let (_, retried_db) = retry_item row.id now cancelled_db in
      (get_row row.id retried_db.publishing_queue ≡ some (retried now row))
      × (has_already_published row.idempotency_key retried_db ≡ some false)
unfolding status_eq
cancel-retry_forgets now db row t h =
    let found = get_row-of_In row db.publishing_queue t.unique_ids h in
    let cancelled_db = (cancel_item row.id db).1 in
    let retried_db = (retry_item row.id now cancelled_db).1 in
    let after_cancel = cancel_item-row now db row row.id found row.id in
    let found' : get_row row.id cancelled_db.publishing_queue ≡ some (set_cancelled row) =
      ground (arith, after_cancel, text_eq_self row.id) in
    let after_retry = retry_item-row now cancelled_db (set_cancelled row) row.id found' row.id in
    let found'' : get_row row.id retried_db.publishing_queue ≡ some (retried now row) =
      ground (arith, after_retry, text_eq_self row.id) in
    (
      found'',
      has_already_published-own retried_db (retried now row)
          (retry_item-IsTable row.id now cancelled_db (cancel_item-IsTable row.id db t))
          (get_row-In row.id retried_db.publishing_queue (retried now row) found''),
    )
