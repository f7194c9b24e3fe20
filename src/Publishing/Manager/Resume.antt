-- ===== src/Publishing/Manager/Resume.antt =====
-- What `resume_job_queue` does to the items that a pause has stopped.
use ai_video_clip_processing.Base.{
  ℕ, ◌≡◌, ◌≤◌, refl, ap, true, false, Option, some, List, [], ◌∷◌, arith, Text, text_eq,
  text_eq_iff, text_eq_self, any, In, select, In-of_select, In-of_sorted, inl, inr, default_to,
}
use ai_video_clip_processing.Publishing.Rows.{PublishQueueItem, waiting, status_eq, Db, get_row}
use ai_video_clip_processing.Publishing.Rows.Laws.{get_row-In}
use ai_video_clip_processing.Publishing.Scheduler.Slots.{reschedule_from_now-later}
use ai_video_clip_processing.Publishing.Manager.{
  by_date, clip_order, resumable, pending_rows, resume_slots, resume_job_queue, pausable,
  pause_job_queue, set_paused,
}
use ai_video_clip_processing.Publishing.Manager.Items.{resume_job_queue-row, update_rows-row}

-- every clip of a row is in the order, unless it was seen before
clip_order_complete :
    (seen : List Text) (rows : List PublishQueueItem) (row : PublishQueueItem)
    → In row rows
    → any (λ c. text_eq c row.clip_id) seen ≡ false
    → any (λ c. text_eq c row.clip_id) (clip_order seen rows) ≡ true
unfolding clip_order
clip_order_complete seen [] row h new = elim h [ ]
clip_order_complete seen (r ∷ rows) row (inl e) new =
    ground (arith, ap (λ (q : PublishQueueItem). q.clip_id) e, text_eq_self r.clip_id)
clip_order_complete seen (r ∷ rows) row (inr k) new = ground (
  arith,
  text_eq_iff r.clip_id row.clip_id,
  clip_order_complete seen rows row k,
  clip_order_complete (r.clip_id ∷ seen) rows row k,
)

module _ (now default : ℕ) (interval_minutes : Option ℕ) (db : Db) (row : PublishQueueItem)
    (j job_id : Text) (found : get_row j db.publishing_queue ≡ some row) where
  -- A paused item of the job becomes WAITING at the slot of its clip, which is not before the time of
  -- the call, and keeps all else.
  pub resume_job_queue-reschedules :
      resumable job_id row ≡ true
      → (date : ℕ) × (resume_slots job_id (default_to default interval_minutes) now db row.clip_id
          ≡ some date)
        × (get_row j (resume_job_queue job_id interval_minutes default now db).1.publishing_queue
            ≡ some (record row { status = waiting; scheduled_at = date }))
        × (now ≤ date)
  unfolding resume_slots
  resume_job_queue-reschedules h =
      let interval = default_to default interval_minutes in
      let pending = In-of_sorted by_date row (select (resumable job_id) db.publishing_queue) (
        In-of_select (resumable job_id) row db.publishing_queue
          (get_row-In j db.publishing_queue row found) h) in
      let known = clip_order_complete [] (pending_rows job_id db) row pending refl in
      let (date, at, later) =
        reschedule_from_now-later (clip_order [] (pending_rows job_id db)) now interval row.clip_id
          known in
      (
        date,
        at,
        ground (arith, at, resume_job_queue-row now default interval_minutes db row j found job_id),
        later,
      )

-- An item of the job that is WAITING, RETRYING or in QUOTA_WAIT is, after a pause and a resume,
-- WAITING with a date not before the resume, and otherwise as it was.
pub pause-resume :
    (now default : ℕ) (interval_minutes : Option ℕ) (db : Db) (row : PublishQueueItem)
    (j job_id : Text)
    → get_row j db.publishing_queue ≡ some row
    → pausable job_id row ≡ true
    → let (_, paused_db) = pause_job_queue job_id db in
      let (_, resumed_db) = resume_job_queue job_id interval_minutes default now paused_db in
      (date : ℕ) × (get_row j resumed_db.publishing_queue
        ≡ some (record row { status = waiting; scheduled_at = date }))
      × (now ≤ date)
unfolding pause_job_queue status_eq
pause-resume now default interval_minutes db row j job_id found h =
    let (_, paused_db) = pause_job_queue job_id db in
    let found' : get_row j paused_db.publishing_queue ≡ some (set_paused row) = ground (
      arith,
      update_rows-row (pausable job_id) set_paused (λ r. refl) db.publishing_queue j row found,
    ) in
    let (date, _, after, later) =
      resume_job_queue-reschedules now default interval_minutes paused_db (set_paused row) j job_id
        found' (ground arith) in
    (date, after, later)
