-- ===== src/Publishing/Lifecycle.antt =====
-- The publishing queue as a whole: what a service does that starts with an empty queue, in steps of the
-- operations of backend/app/publishing/queue_manager.py and of the sessions of worker.py.
pub mod Constraints
pub mod Log
pub mod Moved
pub mod Once
pub mod Published
pub mod Queued
pub mod Refinement
use ai_video_clip_processing.Base.{ℕ, suc, List, Option, Text}
use ai_video_clip_processing.Publishing.Rows.{PublishQueueItem, Db}
use ai_video_clip_processing.Publishing.Settings.{Settings}
use ai_video_clip_processing.Publishing.Enqueue.{Plan, enqueue_plans}
use ai_video_clip_processing.Publishing.Manager.{
  pause_job_queue, resume_job_queue, retry_item, skip_item, cancel_item, publish_now,
}
use ai_video_clip_processing.Publishing.Worker.{Round, claim_due_item, process_item}

-- The database, and how many identifiers have been drawn.
abbrev pub State : Type 0
State = Db × ℕ

module _ (settings : Settings) (uuid : ℕ → Text) where
  mutual
    -- One step of the service. While the worker awaits the platform, the others go on: what they commit
    -- meanwhile is itself a sequence of steps.
    pub data Step : State → State → Type 0 where
      enqueued :
          (job_id : Text) (enabled : List Text) (plans : List Plan) (blocked : List (Text × Text))
          (db : Db) (drawn : ℕ)
          → Step
              (db, drawn)
              (
                (enqueue_plans uuid job_id enabled plans blocked drawn db).1,
                (enqueue_plans uuid job_id enabled plans blocked drawn db).2,
              )
      paused_by :
          (job_id : Text) (db : Db) (drawn : ℕ)
          → Step (db, drawn) ((pause_job_queue job_id db).1, drawn)
      resumed_by :
          (job_id : Text) (interval_minutes : Option ℕ) (default now : ℕ) (db : Db) (drawn : ℕ)
          → Step (db, drawn) ((resume_job_queue job_id interval_minutes default now db).1, drawn)
      retried_by :
          (item_id : Text) (now : ℕ) (db : Db) (drawn : ℕ)
          → Step (db, drawn) ((retry_item item_id now db).1, drawn)
      skipped_by :
          (item_id : Text) (db : Db) (drawn : ℕ)
          → Step (db, drawn) ((skip_item item_id db).1, drawn)
      cancelled_by :
          (item_id : Text) (db : Db) (drawn : ℕ)
          → Step (db, drawn) ((cancel_item item_id db).1, drawn)
      brought_forward_by :
          (item_id : Text) (now : ℕ) (db : Db) (drawn : ℕ)
          → Step (db, drawn) ((publish_now item_id now db).1, drawn)
      claimed :
          (now : ℕ) (db : Db) (drawn : ℕ) → Step (db, drawn) ((claim_due_item now db).1, drawn)
      processed :
          (round : Round) (item : PublishQueueItem) (db : Db) (drawn drawn' : ℕ)
          → Reach (db, drawn) (round.meanwhile db, drawn')
          → Step (db, drawn) (process_item settings round item db, drawn')

    pub data Reach : State → State → Type 0 where
      here : {s : State} → Reach s s
      next : {s t u : State} → Reach s t → Step t u → Reach s u
