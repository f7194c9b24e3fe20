-- ===== src/Publishing/Examples/Service.antt =====
-- The theorems about the whole service at one clip, and about the watch over one job.
use ai_video_clip_processing.Base.{
  ℕ, zero, suc, ◌≡◌, ◌<◌, true, All, text_eq, refl, false, none, some, List, [], ◌∷◌, if◌then◌else◌,
  Text, codes, arith,
}
use ai_video_clip_processing.Errors.{Result, ok, ◌>>=◌}
use ai_video_clip_processing.Samples.{sample_clip, sample_config}
use ai_video_clip_processing.Storage.Paths.{FilePath}
use ai_video_clip_processing.Jobs.Models.{ProcessingJob, completed, processing, ClipJob}
use ai_video_clip_processing.Publishing.Rows.{Db, PublishQueueItem, published, get_row}
use ai_video_clip_processing.Publishing.Enqueue.{Plan, enqueue_plans, create_queue_from_job}
use ai_video_clip_processing.Publishing.Manager.{retry_item, pause_job_queue}
use ai_video_clip_processing.Publishing.Worker.{claim_due_item, process_item}
use ai_video_clip_processing.Publishing.Lifecycle.{
  State, Reach, here, next, enqueued, claimed, processed, retried_by, paused_by,
}
use ai_video_clip_processing.Publishing.Machine.{Evolves}
use ai_video_clip_processing.Publishing.Lifecycle.Log.{log_of}
use ai_video_clip_processing.Publishing.Lifecycle.Published.{spares, Reach-keeps_published}
use ai_video_clip_processing.Publishing.Lifecycle.Refinement.{Reach-Evolves}
use ai_video_clip_processing.Publishing.AutoQueue.{some_completed, watch_job_and_enqueue}
use ai_video_clip_processing.Publishing.AutoQueue.Watched.{GoesOn, watch_job_and_enqueue-queues}
use ai_video_clip_processing.Publishing.Examples.{settings, round, first_row}

abbrev uuid : ℕ → Text
uuid n = n ∷ []

uuid-injective : (m n : ℕ) → uuid m ≡ uuid n → m ≡ n
uuid-injective m n e = ground (arith, e)

abbrev empty_queue : Db
empty_queue = record { publishing_queue = []; publishing_attempts = []; social_accounts = [] }

abbrev plan : Plan
plan = record { clip = sample_clip (codes "1") 35; output_path = codes "/o/1"; scheduled_at = 500 }

abbrev both_platforms : List Text
both_platforms = codes "youtube" ∷ codes "facebook" ∷ []

-- the clip is queued for two platforms, and the first item is claimed and processed
abbrev after_enqueue : State
after_enqueue =
    let (_, db, drawn) =
      enqueue_plans uuid (codes "j") both_platforms (plan ∷ []) [] 0 empty_queue in
    (db, drawn)

abbrev after_claim : State
after_claim = ((claim_due_item 600 after_enqueue.0).1, after_enqueue.1)

abbrev after_processing : State
after_processing = (process_item settings round first_row after_claim.0, after_claim.1)

service_runs : Reach settings uuid (empty_queue, 0) after_processing
service_runs =
    next
      (next (next here (enqueued (codes "j") both_platforms (plan ∷ []) [] empty_queue 0))
        (claimed 600 after_enqueue.0 after_enqueue.1))
      (processed round first_row after_claim.0 after_claim.1 after_claim.1 here)

abbrev clip_job : ClipJob
clip_job = record {
  clip = sample_clip (codes "1") 35;
  status = completed;
  progress_pct = 100000000;
  output_file = some (codes "1.mp4");
  error = none;
}

abbrev ended_job : ProcessingJob
ended_job = record {
  job_id = codes "j";
  idempotency_key = codes "key";
  config = sample_config;
  clips = (codes "1", clip_job) ∷ [];
  status = completed;
  source_video = none;
  created_at = 7;
  error = none;
  reused = false;
}

abbrev running_job : ProcessingJob
running_job = record ended_job {
  clips = (codes "1", record clip_job { status = processing }) ∷ [];
  status = processing;
}

-- the job is still running at the first poll
abbrev polls : ℕ → Result ProcessingJob
polls zero = ok running_job
polls (suc n) = ok ended_job

first-GoesOn : (i : ℕ) → i < 1 → GoesOn (polls i)
first-GoesOn zero h = (running_job, refl, refl)
first-GoesOn (suc i) h = absurd (omega (arith, h))

abbrev job_dir_of : Text → Result FilePath
job_dir_of id = ok (codes "jobs" ∷ id ∷ [])

watch_job_and_enqueue-queues_example :
    watch_job_and_enqueue uuid job_dir_of settings polls both_platforms none 100 0 empty_queue ≡ (
      if some_completed ended_job
      then (create_queue_from_job uuid job_dir_of settings ended_job both_platforms none none 100 0
            empty_queue
          >>= λ s. ok (some s))
      else ok none)
watch_job_and_enqueue-queues_example =
    watch_job_and_enqueue-queues uuid job_dir_of settings polls both_platforms none 100 0
      empty_queue 1 ended_job (omega arith) first-GoesOn refl refl

Reach-Evolves_example :
    Evolves
      (log_of settings uuid service_runs)
      empty_queue.publishing_queue
      after_processing.0.publishing_queue
Reach-Evolves_example =
    Reach-Evolves uuid uuid-injective settings (omega arith) empty_queue after_processing.0 0
      after_processing.1
      (record { table = record { unique_ids = tt; unique_keys = tt }; ids_drawn = tt }) service_runs

abbrev posted_row : PublishQueueItem
posted_row = record first_row { id = uuid 0; status = published }

abbrev posted_queue : Db
posted_queue = record empty_queue { publishing_queue = posted_row ∷ [] }

abbrev after_retry : Db
after_retry = (retry_item (uuid 0) 100 posted_queue).1

-- a retry of the published item, and a pause of its job
abbrev user_acts :
    Reach settings uuid (posted_queue, 1) ((pause_job_queue (codes "j") after_retry).1, 1)
user_acts =
    next (next here (retried_by (uuid 0) 100 posted_queue 1)) (paused_by (codes "j") after_retry 1)

posted_found : get_row (uuid 0) posted_queue.publishing_queue ≡ some posted_row
unfolding get_row text_eq
posted_found = refl

item_spared : All (λ a. spares (uuid 0) a ≡ true) (log_of settings uuid user_acts)
unfolding log_of
item_spared = (refl, (refl, tt))

Reach-keeps_published_example :
    (row' : PublishQueueItem) × (get_row
        (uuid 0)
        (pause_job_queue (codes "j") after_retry).1.publishing_queue
      ≡ some row')
    × (row'.status ≡ published)
Reach-keeps_published_example =
    Reach-keeps_published uuid uuid-injective settings (omega arith) posted_queue
      (pause_job_queue (codes "j") after_retry).1 1 1 (uuid 0) posted_row
      (record {
        table = record { unique_ids = (refl, tt); unique_keys = (refl, tt) };
        ids_drawn = ((0, omega arith, refl), tt);
      })
      posted_found refl user_acts item_spared
