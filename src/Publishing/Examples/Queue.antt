-- ===== src/Publishing/Examples/Queue.antt =====
-- The theorems about the operations on the queue at the same small queue.
use ai_video_clip_processing.Base.{
  ℕ, ◌≡◌, ◌≤◌, refl, false, none, some, List, [], ◌∷◌, ◌++◌, Text, text_eq, codes, inl, inr, pos,
}
use ai_video_clip_processing.Schemas.Json.{end}
use ai_video_clip_processing.Schemas.Validated.{ValidatedClip}
use ai_video_clip_processing.Publishing.Rows.{
  waiting, published, paused, status_eq, PublishQueueItem, Db, get_row, Unique,
}
use ai_video_clip_processing.Publishing.Enqueue.{Plan, new_item, enqueue_plans}
use ai_video_clip_processing.Publishing.Enqueue.Fresh.{
  wanted_rows, enqueue-fresh, enqueue-last_taken,
}
use ai_video_clip_processing.Publishing.Manager.{
  has_already_published, resume_slots, resume_job_queue, retried, retry_item, cancel_item,
}
use ai_video_clip_processing.Publishing.Manager.Items.{
  has_already_published-own, cancel-retry_forgets,
}
use ai_video_clip_processing.Publishing.Manager.Resume.{resume_job_queue-reschedules}
use ai_video_clip_processing.Publishing.Examples.{first_row, published_row, queue, queue-IsTable}

abbrev clip_of : Text → ℕ → ℕ → ValidatedClip
clip_of clip_id rank viral_score = record {
  clip_id = clip_id;
  rank = pos rank;
  start_time = codes "00:00:01";
  end_time = codes "00:00:09";
  start_seconds = 1;
  end_seconds = 9;
  duration_seconds = 8;
  ai_reported_duration_seconds = pos 8;
  duration_mismatch = false;
  viral_score = pos viral_score;
  category = [];
  speaker = [];
  hook = codes "hook";
  title_options = [];
  caption = [];
  hashtags = [];
  reason = [];
  payoff = [];
  context_warning = none;
  copyright_warning = none;
  extra = end;
}

abbrev clip1 : ValidatedClip
clip1 = clip_of (codes "1") 2 7

abbrev clip4 : ValidatedClip
clip4 = clip_of (codes "4") 1 7

abbrev uuid : ℕ → Text
uuid n = n ∷ []

abbrev drawn_queue : Db
drawn_queue = record queue { publishing_queue = record first_row { id = uuid 0 } ∷ [] }

abbrev youtube : List Text
youtube = codes "youtube" ∷ []

abbrev plan1 : Plan
plan1 = record { clip = clip1; output_path = codes "/o/1"; scheduled_at = 500 }

abbrev plan4 : Plan
plan4 = record { clip = clip4; output_path = codes "/o/4"; scheduled_at = 900 }

new_keys :
    Unique
      (λ (r : PublishQueueItem). r.idempotency_key)
      (drawn_queue.publishing_queue ++ wanted_rows uuid (codes "j") youtube (plan4 ∷ []) 1)
unfolding text_eq new_item
new_keys = (refl, (refl, tt))

enqueue-fresh_example :
    let (summary, db', drawn') =
      enqueue_plans uuid (codes "j") youtube (plan4 ∷ []) [] 1 drawn_queue in
    (db'.publishing_queue
      ≡ drawn_queue.publishing_queue ++ wanted_rows uuid (codes "j") youtube (plan4 ∷ []) 1)
    × (summary.items_created ≡ 1)
    × (summary.queued_clips ≡ codes "4" ∷ [])
enqueue-fresh_example =
    enqueue-fresh uuid (codes "j") youtube (plan4 ∷ []) [] 1 drawn_queue new_keys

enqueue-last_taken_example :
    (enqueue_plans uuid (codes "j") youtube (plan4 ∷ plan1 ∷ []) [] 1 drawn_queue).1 ≡ drawn_queue
unfolding text_eq
enqueue-last_taken_example =
    enqueue-last_taken uuid (codes "j") [] (codes "youtube") (plan4 ∷ []) plan1 [] 1 drawn_queue
      refl

abbrev paused_row : PublishQueueItem
paused_row = record first_row { status = paused }

abbrev paused_queue : Db
paused_queue = record queue { publishing_queue = paused_row ∷ [] }

paused_found : get_row (codes "a") paused_queue.publishing_queue ≡ some paused_row
unfolding get_row text_eq
paused_found = refl

resume_job_queue-reschedules_example :
    (date : ℕ) × (resume_slots (codes "j") 60 100 paused_queue (codes "1") ≡ some date)
    × (get_row
          (codes "a")
          (resume_job_queue (codes "j") none 60 100 paused_queue).1.publishing_queue
        ≡ some (record paused_row { status = waiting; scheduled_at = date }))
    × (100 ≤ date)
unfolding text_eq status_eq
resume_job_queue-reschedules_example =
    resume_job_queue-reschedules 100 60 none paused_queue paused_row (codes "a") (codes "j")
      paused_found refl

has_already_published-own_example :
    has_already_published published_row.idempotency_key queue ≡ some (status_eq published published)
has_already_published-own_example =
    has_already_published-own queue published_row queue-IsTable (inr (inr (inl refl)))

cancel-retry_forgets_example :
    let (_, cancelled_db) = cancel_item (codes "c") queue in
    let (_, retried_db) = retry_item (codes "c") 100 cancelled_db in
    (get_row (codes "c") retried_db.publishing_queue ≡ some (retried 100 published_row))
    × (has_already_published published_row.idempotency_key retried_db ≡ some false)
cancel-retry_forgets_example =
    cancel-retry_forgets 100 queue published_row queue-IsTable (inr (inr (inl refl)))
