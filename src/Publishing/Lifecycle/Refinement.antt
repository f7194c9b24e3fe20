-- ===== src/Publishing/Lifecycle/Refinement.antt =====
-- That the queue does what `Publishing.Machine` promises of it.
use ai_video_clip_processing.Base.{
  ℕ, ◌≡◌, ◌≤◌, List, [], ◌∷◌, subst, text_eq_iff, Text, text_eq, true, inl, inr, default_to,
}
use ai_video_clip_processing.Publishing.Rows.{PublishQueueItem, Db}
use ai_video_clip_processing.Publishing.Machine.{
  Action, pauses, resumes, retries, brings_forward, cancels, resolves, Move, settle, stay,
  then_move, Evolves, Evolves-refl, Evolves-trans, update_rows-Evolves,
}
use ai_video_clip_processing.Publishing.Settings.{Settings}
use ai_video_clip_processing.Publishing.Manager.{
  pause_job_queue, resume_job_queue, retry_item, skip_item, cancel_item, publish_now, set_paused,
  pausable, resumable, resumed, resume_slots, may_retry, retried, skipped, set_cancelled,
  may_publish_now, brought_forward,
}
use ai_video_clip_processing.Publishing.Worker.{Round, process_item}
use ai_video_clip_processing.Publishing.Worker.Resolve.{process_item-Resolves}
use ai_video_clip_processing.Publishing.Lifecycle.{
  State, Step, Reach, enqueued, paused_by, resumed_by, retried_by, skipped_by, cancelled_by,
  brought_forward_by, claimed, processed, here, next,
}
use ai_video_clip_processing.Publishing.Lifecycle.Log.{step_log, log_of}
use ai_video_clip_processing.Publishing.Lifecycle.Constraints.{IsQueue, Reach-Keeps}
use ai_video_clip_processing.Publishing.Lifecycle.Moved.{
  Later, set_paused-Follows, resumed-Follows, retried-Follows, brought_forward-Follows,
  skipped-Follows, set_cancelled-Follows, edit_item-Later, claim_due_item-Later,
}
use ai_video_clip_processing.Publishing.Lifecycle.Queued.{enqueue_plans-Later}

module _ (uuid : ℕ → Text) (injective : (m n : ℕ) → uuid m ≡ uuid n → m ≡ n) (settings : Settings)
    (wait : 5 ≤ settings.default_quota_wait_minutes) where
  abbrev Holds : State → Type 0
  Holds (db, drawn) = IsQueue uuid injective db drawn

  -- the worker settles an item, in the table that it finds when the platform has answered
  processed-Later :
      (log : List Action) (round : Round) (item : PublishQueueItem) (db : Db)
      → Later log db (round.meanwhile db)
      → Later (resolves item.id ∷ log) db (process_item settings round item db)
  processed-Later log round item db others =
      let r = process_item-Resolves settings round wait item db in
      let settled =
        update_rows-Evolves (resolves item.id ∷ []) (λ row. text_eq row.id item.id) r.set
          r.base.publishing_queue
          (λ row k h. (
            r.keeps_content row,
            then_move stay (
                subst (λ id. Move row.id (resolves id) row.status (r.set row).status)
                  ((text_eq_iff row.id item.id).0 h) (settle (r.settles row))),
          )) in
      let base : Later log db r.base = elim r.base_eq [
        | inl e ↦ rw e (Evolves-refl log db.publishing_queue)
        | inr e ↦ rw e others
      ] in
      rw r.result_eq (
        Evolves-trans log (resolves item.id ∷ []) db.publishing_queue r.base.publishing_queue _ base
          settled)

  mutual
    unfolding retry_item skip_item cancel_item publish_now pause_job_queue resume_job_queue step_log
        log_of

    Step-Later :
        {s t : State} (step : Step settings uuid s t)
        → Holds s
        → Later (step_log settings uuid step) s.0 t.0
    Step-Later (enqueued job_id enabled plans blocked db drawn) q =
        enqueue_plans-Later uuid job_id enabled plans blocked drawn db
    Step-Later (paused_by job_id db drawn) q =
        update_rows-Evolves (pauses ∷ []) (pausable job_id) set_paused db.publishing_queue
          (λ row k h. set_paused-Follows job_id row h)
    Step-Later (resumed_by job_id interval_minutes default now db drawn) q =
        let slots = resume_slots job_id (default_to default interval_minutes) now db in
        update_rows-Evolves (resumes ∷ []) (resumable job_id) (λ r. resumed (slots r.clip_id) r)
          db.publishing_queue (λ row k h. resumed-Follows job_id (slots row.clip_id) row h)
    Step-Later (retried_by item_id now db drawn) q =
        edit_item-Later retries item_id may_retry (retried now) (retried-Follows now) db q.table
    Step-Later (skipped_by item_id db drawn) q =
        edit_item-Later cancels item_id (λ r. true) skipped (λ row h. skipped-Follows row) db
          q.table
    Step-Later (cancelled_by item_id db drawn) q =
        edit_item-Later cancels item_id (λ r. true) set_cancelled
          (λ row h. set_cancelled-Follows row) db q.table
    Step-Later (brought_forward_by item_id now db drawn) q =
        edit_item-Later brings_forward item_id may_publish_now (brought_forward now)
          (brought_forward-Follows now) db q.table
    Step-Later (claimed now db drawn) q = claim_due_item-Later now db
    Step-Later (processed round item db drawn drawn' others) q =
        processed-Later (log_of settings uuid others) round item db (Reach-Later others q)

    Reach-Later :
        {s t : State} (r : Reach settings uuid s t)
        → Holds s
        → Later (log_of settings uuid r) s.0 t.0
    Reach-Later {s = s} here q = Evolves-refl [] s.0.publishing_queue
    Reach-Later {s = s} {t = u} (next {t = t} r step) q =
        let (q', _) = Reach-Keeps uuid injective settings wait r q in
        Evolves-trans (log_of settings uuid r) (step_log settings uuid step) s.0.publishing_queue
          t.0.publishing_queue u.0.publishing_queue (Reach-Later r q) (Step-Later step q')

  -- With a quota wait of at least five minutes, and no identifier drawn twice: from a state whose table
  -- meets its constraints, and whatever the order of the service's steps, each item keeps its place in
  -- the table and what it is about; its status goes the way that `Publishing.Machine` allows for the
  -- actions of the run, in their order; and the items that are new stand behind the others, began
  -- WAITING, and have a key that says their job, clip and platform.
  pub Reach-Evolves :
      (db db' : Db) (drawn drawn' : ℕ)
      → IsQueue uuid injective db drawn
      → (r : Reach settings uuid (db, drawn) (db', drawn'))
      → Evolves (log_of settings uuid r) db.publishing_queue db'.publishing_queue
  Reach-Evolves db db' drawn drawn' q r = Reach-Later r q
