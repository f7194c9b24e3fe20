-- ===== src/Publishing/AutoQueue/Watched.antt =====
-- When the watch over a job ends, and what it then queues.
use ai_video_clip_processing.Base.{
  ℕ, zero, suc, ◌+◌, ◌<◌, ◌≡◌, refl, subst, true, false, Option, none, some, List, if◌then◌else◌,
  Text, arith,
}
use ai_video_clip_processing.Errors.{Result, ok, ◌>>=◌}
use ai_video_clip_processing.Jobs.Models.{ProcessingJob}
use ai_video_clip_processing.Storage.Paths.{FilePath}
use ai_video_clip_processing.Publishing.Rows.{Db}
use ai_video_clip_processing.Publishing.Settings.{Settings}
use ai_video_clip_processing.Publishing.Enqueue.{create_queue_from_job}
use ai_video_clip_processing.Publishing.AutoQueue.{
  max_polls, is_over, wait_for_job, some_completed, enqueue_watched, watch_job_and_enqueue,
}

-- the poll shows a job that goes on
abbrev pub GoesOn : Result ProcessingJob → Type 0
GoesOn poll = (job : ProcessingJob) × (poll ≡ ok job) × (is_over job ≡ false)

wait_for_job-over :
    (polls : ℕ → Result ProcessingJob) (rounds n k : ℕ) (job : ProcessingJob)
    → k < rounds
    → ((i : ℕ) → i < k → GoesOn (polls (n + i)))
    → polls (n + k) ≡ ok job
    → is_over job ≡ true
    → wait_for_job polls rounds n ≡ ok (some job)
unfolding wait_for_job
wait_for_job-over polls zero n k job h earlier e o = absurd (omega (arith, h))
wait_for_job-over polls (suc rounds) n zero job h earlier e o =
    let e' : polls n ≡ ok job = subst (λ m. polls m ≡ ok job) (omega arith) e in
    ground (arith, e', o)
wait_for_job-over polls (suc rounds) n (suc k) job h earlier e o =
    let (first, f, g) = earlier 0 (omega arith) in
    let f' : polls n ≡ ok first = subst (λ m. polls m ≡ ok first) (omega arith) f in
    let shift : (i : ℕ) → n + suc i ≡ suc n + i = λ i. omega arith in
    let rest =
      wait_for_job-over polls rounds (suc n) k job (omega (arith, h))
        (λ i l. subst (λ m. GoesOn (polls m)) (shift i) (earlier (suc i) (omega (arith, l))))
        (subst (λ m. polls m ≡ ok job) (shift k) e) o in
    ground (arith, f', g, rest)

wait_for_job-none :
    (polls : ℕ → Result ProcessingJob) (rounds n : ℕ)
    → ((i : ℕ) → i < rounds → GoesOn (polls (n + i)))
    → wait_for_job polls rounds n ≡ ok none
unfolding wait_for_job
wait_for_job-none polls zero n goes = refl
wait_for_job-none polls (suc rounds) n goes =
    let (first, f, g) = goes 0 (omega arith) in
    let f' : polls n ≡ ok first = subst (λ m. polls m ≡ ok first) (omega arith) f in
    let shift : (i : ℕ) → n + suc i ≡ suc n + i = λ i. omega arith in
    let rest =
      wait_for_job-none polls rounds (suc n)
        (λ i l. subst (λ m. GoesOn (polls m)) (shift i) (goes (suc i) (omega (arith, l)))) in
    ground (arith, f', g, rest)

module _ (uuid : ℕ → Text) (job_dir : Text → Result FilePath) (settings : Settings)
    (polls : ℕ → Result ProcessingJob) (enabled_platforms : List Text)
    (interval_minutes : Option ℕ) where
  -- If the job is over at a poll before the last, and not at those before it, the watch does not give
  -- up: it queues the job as that poll shows it if one of its clips is completed, and nothing if none
  -- is.
  pub watch_job_and_enqueue-queues :
      (now drawn : ℕ) (db : Db) (k : ℕ) (job : ProcessingJob)
      → k < max_polls
      → ((i : ℕ) → i < k → GoesOn (polls i))
      → polls k ≡ ok job
      → is_over job ≡ true
      → watch_job_and_enqueue uuid job_dir settings polls enabled_platforms interval_minutes now
          drawn db
        ≡ (if some_completed job
            then (create_queue_from_job uuid job_dir settings job enabled_platforms interval_minutes
                  none now drawn db
                >>= λ s. ok (some s))
            else ok none)
  unfolding watch_job_and_enqueue enqueue_watched
  watch_job_and_enqueue-queues now drawn db k job h earlier e o =
      rw
        (wait_for_job-over polls max_polls 0 k job h
          (λ i l. subst (λ m. GoesOn (polls m)) (omega arith) (earlier i l))
          (subst (λ m. polls m ≡ ok job) (omega arith) e) o)
        refl

  -- If the job goes on at every poll, nothing is queued.
  pub watch_job_and_enqueue-gives_up :
      (now drawn : ℕ) (db : Db)
      → ((i : ℕ) → i < max_polls → GoesOn (polls i))
      → watch_job_and_enqueue uuid job_dir settings polls enabled_platforms interval_minutes now
          drawn db
        ≡ ok none
  unfolding watch_job_and_enqueue enqueue_watched
  watch_job_and_enqueue-gives_up now drawn db goes =
      rw
        (wait_for_job-none polls max_polls 0
          (λ i l. subst (λ m. GoesOn (polls m)) (omega arith) (goes i l)))
        refl
