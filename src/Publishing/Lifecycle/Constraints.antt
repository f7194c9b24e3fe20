-- ===== src/Publishing/Lifecycle/Constraints.antt =====
-- That the table of the queue meets its constraints in every state that the service reaches.
use ai_video_clip_processing.Base.{
  ℕ, suc, ◌≡◌, ◌≤◌, ◌∙◌, refl, Bool, true, false, Option, none, some, List, [], ◌∷◌, arith, Text,
  text_eq, Bool-cases, Option-cases, inl, inr, length, select, ◌==◌, default_to,
}
use ai_video_clip_processing.Publishing.Rows.{PublishQueueItem, Db, IsTable, update_rows, get_row}
use ai_video_clip_processing.Publishing.Rows.Laws.{KeepsText, update_rows-IsTable}
use ai_video_clip_processing.Publishing.Settings.{Settings}
use ai_video_clip_processing.Publishing.Enqueue.{
  Session, Plan, add_item, new_item, add_platforms, add_plans, start_session, enqueue_plans,
}
use ai_video_clip_processing.Publishing.Enqueue.Transaction.{Drawn, enqueue_plans-IsTable}
use ai_video_clip_processing.Publishing.Manager.{
  pause_job_queue, resume_job_queue, retry_item, skip_item, cancel_item, publish_now, edit_item,
  set_paused, pausable, resumable, resumed, resume_slots, may_retry, retried, skipped,
  set_cancelled, may_publish_now, brought_forward,
}
use ai_video_clip_processing.Publishing.Worker.{
  Round, claim_first, claim_due_item, due_candidates, is_candidate, set_publishing, process_item,
}
use ai_video_clip_processing.Publishing.Worker.Resolve.{process_item-Resolves}
use ai_video_clip_processing.Publishing.Lifecycle.{
  State, Step, Reach, enqueued, paused_by, resumed_by, retried_by, skipped_by, cancelled_by,
  brought_forward_by, claimed, processed, here, next,
}

module _ (uuid : ℕ → Text) (injective : (m n : ℕ) → uuid m ≡ uuid n → m ≡ n) where
  -- The table meets the primary key and the unique constraint, and its identifiers were drawn.
  pub record IsQueue (db : Db) (drawn : ℕ) : Type 0 where
    pub table : IsTable db.publishing_queue
    pub ids_drawn : Drawn uuid injective drawn db.publishing_queue

  Drawn-more :
      (n m : ℕ) (rows : List PublishQueueItem)
      → n ≤ m
      → Drawn uuid injective n rows
      → Drawn uuid injective m rows
  Drawn-more n m [] h d = tt
  Drawn-more n m (row ∷ rows) h ((k, l, e), d) = ((k, omega arith, e), Drawn-more n m rows h d)

  update_rows-Drawn :
      (where' : PublishQueueItem → Bool) (set : PublishQueueItem → PublishQueueItem)
      → KeepsText (λ r. r.id) set
      → (n : ℕ) (rows : List PublishQueueItem) → Drawn uuid injective n rows
      → Drawn uuid injective n (update_rows where' set rows)
  unfolding update_rows
  update_rows-Drawn where' set keeps n [] d = tt
  update_rows-Drawn where' set keeps n (row ∷ rows) ((k, l, e), d) =
      elim (Bool-cases (where' row)) [
        | inl h ↦ rw h ((k, l, keeps row ∙ e), update_rows-Drawn where' set keeps n rows d)
        | inr h ↦ rw h ((k, l, e), update_rows-Drawn where' set keeps n rows d)
      ]

  -- a statement that leaves identifiers and keys alone
  update_rows-IsQueue :
      (where' : PublishQueueItem → Bool) (set : PublishQueueItem → PublishQueueItem)
      → KeepsText (λ r. r.id) set
      → KeepsText (λ r. r.idempotency_key) set
      → (db : Db) (drawn : ℕ) → IsQueue db drawn
      → IsQueue (record db { publishing_queue = update_rows where' set db.publishing_queue }) drawn
  update_rows-IsQueue where' set keeps_id keeps_key db drawn q = record {
    table = update_rows-IsTable where' set keeps_id keeps_key db.publishing_queue q.table;
    ids_drawn = update_rows-Drawn where' set keeps_id drawn db.publishing_queue q.ids_drawn;
  }

  edit_item-IsQueue :
      (item_id : Text) (allowed : PublishQueueItem → Bool)
      (set : PublishQueueItem → PublishQueueItem)
      → KeepsText (λ r. r.id) set
      → KeepsText (λ r. r.idempotency_key) set
      → (db : Db) (drawn : ℕ) → IsQueue db drawn
      → IsQueue (edit_item item_id allowed set db).1 drawn
  unfolding edit_item
  edit_item-IsQueue item_id allowed set keeps_id keeps_key db drawn q =
      elim (Option-cases (get_row item_id db.publishing_queue)) [
        | inl e ↦ rw e q
        | inr (r, e) ↦ elim (Bool-cases (allowed r)) [
          | inl a ↦
              rw (e, a)
                (update_rows-IsQueue (λ row. text_eq row.id item_id) set keeps_id keeps_key db drawn
                  q)
          | inr a ↦ rw (e, a) q
        ]
      ]

  resumed_keeps :
      (date : Option ℕ) (row : PublishQueueItem)
      → ((resumed date row).id ≡ row.id)
        × ((resumed date row).idempotency_key ≡ row.idempotency_key)
  resumed_keeps none row = (refl, refl)
  resumed_keeps (some d) row = (refl, refl)

  resume_job_queue-IsQueue :
      (job_id : Text) (interval_minutes : Option ℕ) (default now : ℕ) (db : Db) (drawn : ℕ)
      → IsQueue db drawn
      → IsQueue (resume_job_queue job_id interval_minutes default now db).1 drawn
  unfolding resume_job_queue
  resume_job_queue-IsQueue job_id interval_minutes default now db drawn q =
      let slots = resume_slots job_id (default_to default interval_minutes) now db in
      update_rows-IsQueue (resumable job_id) (λ r. resumed (slots r.clip_id) r)
        (λ r. (resumed_keeps (slots r.clip_id) r).0) (λ r. (resumed_keeps (slots r.clip_id) r).1) db
        drawn q

  claim_first-IsQueue :
      (candidates : List PublishQueueItem) (db : Db) (drawn : ℕ)
      → IsQueue db drawn
      → IsQueue (claim_first candidates db).1 drawn
  unfolding claim_first
  claim_first-IsQueue [] db drawn q = q
  claim_first-IsQueue (c ∷ rest) db drawn q =
      let db' : Db = record db {
        publishing_queue = update_rows (is_candidate c) set_publishing db.publishing_queue;
      } in
      let updated =
        update_rows-IsQueue (is_candidate c) set_publishing (λ r. refl) (λ r. refl) db drawn q in
      elim (Bool-cases (length (select (is_candidate c) db.publishing_queue) == 1)) [
        | inl h ↦ rw h updated
        | inr h ↦ rw h (claim_first-IsQueue rest db' drawn updated)
      ]

  -- identifiers are only ever drawn anew
  add_item-drawn : (item : PublishQueueItem) (s : Session) → (add_item item s).1.drawn ≡ suc s.drawn
  unfolding add_item
  add_item-drawn item s = ground arith

  add_platforms-drawn :
      (job_id : Text) (plan : Plan) (enabled : List Text) (created : Bool) (s : Session)
      → s.drawn ≤ (add_platforms uuid job_id plan enabled created s).1.drawn
  unfolding add_platforms
  add_platforms-drawn job_id plan [] created s = omega arith
  add_platforms-drawn job_id plan (p ∷ rest) created s =
      let item = new_item uuid job_id plan p s.drawn in
      omega
        (arith, add_item-drawn item s, add_platforms-drawn job_id plan rest _ (add_item item s).1)

  add_plans-drawn :
      (job_id : Text) (enabled : List Text) (plans : List Plan) (s : Session)
      → s.drawn ≤ (add_plans uuid job_id enabled plans s).1.drawn
  unfolding add_plans
  add_plans-drawn job_id enabled [] s = omega arith
  add_plans-drawn job_id enabled (plan ∷ plans) s = omega (
    arith,
    add_platforms-drawn job_id plan enabled false s,
    add_plans-drawn job_id enabled plans (add_platforms uuid job_id plan enabled false s).1,
  )

  enqueue_plans-drawn :
      (job_id : Text) (enabled : List Text) (plans : List Plan) (blocked : List (Text × Text))
      (db : Db) (drawn : ℕ)
      → drawn ≤ (enqueue_plans uuid job_id enabled plans blocked drawn db).2
  unfolding enqueue_plans
  enqueue_plans-drawn job_id enabled plans blocked db drawn =
      add_plans-drawn job_id enabled plans (start_session db drawn)

  abbrev pub Holds : State → Type 0
  Holds (db, drawn) = IsQueue db drawn

  -- what a step from one state to another keeps
  abbrev pub Keeps : State → State → Type 0
  Keeps s t = Holds t × (s.1 ≤ t.1)

  module _ (settings : Settings) (wait : 5 ≤ settings.default_quota_wait_minutes) where
    processed-IsQueue :
        (round : Round) (item : PublishQueueItem) (db : Db) (drawn drawn' : ℕ)
        → IsQueue db drawn
        → IsQueue (round.meanwhile db) drawn'
        → drawn ≤ drawn'
        → IsQueue (process_item settings round item db) drawn'
    processed-IsQueue round item db drawn drawn' q m h =
        let r = process_item-Resolves settings round wait item db in
        let base : IsQueue r.base drawn' = elim r.base_eq [
          | inl e ↦
              rw e (record { table = q.table; ids_drawn = Drawn-more drawn drawn' _ h q.ids_drawn })
          | inr e ↦ rw e m
        ] in
        let done =
          update_rows-IsQueue (λ row. text_eq row.id item.id) r.set r.keeps_id r.keeps_key r.base
            drawn' base in
        record { table = rw r.result_eq done.table; ids_drawn = rw r.result_eq done.ids_drawn }

    mutual
      unfolding retry_item skip_item cancel_item publish_now pause_job_queue resume_job_queue
          claim_due_item

      Step-Keeps : {s t : State} → Step settings uuid s t → Holds s → Keeps s t
      Step-Keeps (enqueued job_id enabled plans blocked db drawn) q =
          let (table, ids) =
            enqueue_plans-IsTable uuid injective job_id enabled plans blocked drawn db q.table
              q.ids_drawn in
          (
            record { table = table; ids_drawn = ids },
            enqueue_plans-drawn job_id enabled plans blocked db drawn,
          )
      Step-Keeps (paused_by job_id db drawn) q = (
        update_rows-IsQueue (pausable job_id) set_paused (λ r. refl) (λ r. refl) db drawn q,
        omega arith,
      )
      Step-Keeps (resumed_by job_id interval_minutes default now db drawn) q =
          (resume_job_queue-IsQueue job_id interval_minutes default now db drawn q, omega arith)
      Step-Keeps (retried_by item_id now db drawn) q = (
        edit_item-IsQueue item_id may_retry (retried now) (λ r. refl) (λ r. refl) db drawn q,
        omega arith,
      )
      Step-Keeps (skipped_by item_id db drawn) q = (
        edit_item-IsQueue item_id (λ r. true) skipped (λ r. refl) (λ r. refl) db drawn q,
        omega arith,
      )
      Step-Keeps (cancelled_by item_id db drawn) q = (
        edit_item-IsQueue item_id (λ r. true) set_cancelled (λ r. refl) (λ r. refl) db drawn q,
        omega arith,
      )
      Step-Keeps (brought_forward_by item_id now db drawn) q = (
        edit_item-IsQueue item_id may_publish_now (brought_forward now) (λ r. refl) (λ r. refl) db
            drawn q,
        omega arith,
      )
      Step-Keeps (claimed now db drawn) q =
          (claim_first-IsQueue (due_candidates now db) db drawn q, omega arith)
      Step-Keeps (processed round item db drawn drawn' others) q =
          let (m, h) = Reach-Keeps others q in
          (processed-IsQueue round item db drawn drawn' q m h, h)

      pub Reach-Keeps : {s t : State} → Reach settings uuid s t → Holds s → Keeps s t
      Reach-Keeps here q = (q, omega arith)
      Reach-Keeps (next r s) q =
          let (q', h) = Reach-Keeps r q in
          let (q'', k) = Step-Keeps s q' in (q'', omega (arith, h, k))

    -- With a quota wait of at least five minutes, and no identifier drawn twice: in every state that
    -- the service reaches from an empty queue, however its steps interleave, the table meets the
    -- primary key and the unique constraint, and each identifier in it was drawn.
    pub Reach-IsQueue :
        (db : Db) (t : State)
        → db.publishing_queue ≡ []
        → Reach settings uuid (db, 0) t
        → IsQueue t.0 t.1
    Reach-IsQueue db t empty r =
        let start : IsQueue db 0 = record {
          table = rw empty (record { unique_ids = tt; unique_keys = tt });
          ids_drawn = rw empty tt;
        } in
        (Reach-Keeps r start).0
