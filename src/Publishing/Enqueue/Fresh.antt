-- ===== src/Publishing/Enqueue/Fresh.antt =====
-- Which rows `create_queue_from_job` adds: those that it is asked for where all are new, none where
-- all are there, and none either where the last one is there.
use ai_video_clip_processing.Base.{
  ℕ, suc, ◌+◌, ◌≡◌, ◌∙◌, refl, ap, Bool, true, false, ◌||◌, List, [], ◌∷◌, ◌++◌, arith,
  if◌then◌else◌, Text, text_eq, text_eq_sym, any, append-nil, append_assoc, any-append,
  length-append, map, length,
}
use ai_video_clip_processing.Publishing.Rows.{PublishQueueItem, Db, key_taken, Unique}
use ai_video_clip_processing.Publishing.Enqueue.{
  Session, Plan, idempotency_key, add_item, new_item, add_platforms, add_plans, start_session,
  enqueue_plans,
}
use ai_video_clip_processing.Publishing.Enqueue.Transaction.{
  add_item-taken, add_item-new, rolled_back, flushed_with,
}

-- the key of a plan's row for a platform
abbrev pub plan_key : Text → Plan → Text → Text
plan_key job_id plan platform = idempotency_key job_id plan.clip.clip_id platform

Unique-middle :
    (text : PublishQueueItem → Text) (xs : List PublishQueueItem) (x : PublishQueueItem)
    (ys : List PublishQueueItem)
    → Unique text (xs ++ x ∷ ys)
    → any (λ r. text_eq (text r) (text x)) xs ≡ false
Unique-middle text [] x ys u = refl
Unique-middle text (r ∷ xs) x ys u = ground (
  arith,
  any-append (λ q. text_eq (text q) (text r)) xs (x ∷ ys),
  text_eq_sym (text r) (text x),
  Unique-middle text xs x ys u.1,
)

Unique-prefix :
    (text : PublishQueueItem → Text) (xs ys : List PublishQueueItem)
    → Unique text (xs ++ ys)
    → Unique text xs
Unique-prefix text [] ys u = tt
Unique-prefix text (x ∷ xs) ys u = (
  ground (arith, any-append (λ q. text_eq (text q) (text x)) xs ys, u.0),
  Unique-prefix text xs ys u.1,
)

abbrev nonempty : List Text → Bool
nonempty [] = false
nonempty (_ ∷ _) = true

module _ (uuid : ℕ → Text) (job_id : Text) where
  -- the rows that the call is asked for, in their order, with identifiers from the n-th on
  abbrev pub platform_rows : Plan → List Text → ℕ → List PublishQueueItem
  platform_rows plan [] n = []
  platform_rows plan (p ∷ ps) n = new_item uuid job_id plan p n ∷ platform_rows plan ps (suc n)

  abbrev pub wanted_rows : List Text → List Plan → ℕ → List PublishQueueItem
  wanted_rows enabled [] n = []
  wanted_rows enabled (plan ∷ plans) n =
      platform_rows plan enabled n ++ wanted_rows enabled plans (n + length enabled)

  add_item-committed :
      (item : PublishQueueItem) (s : Session) → (add_item item s).1.committed ≡ s.committed
  unfolding add_item
  add_item-committed item s = ground arith

  length-platform_rows :
      (plan : Plan) (ps : List Text) (n : ℕ) → length (platform_rows plan ps n) ≡ length ps
  length-platform_rows plan [] n = refl
  length-platform_rows plan (p ∷ ps) n = ap suc (length-platform_rows plan ps (suc n))

  add_platforms-committed :
      (plan : Plan) (ps : List Text) (b : Bool) (s : Session)
      → (add_platforms uuid job_id plan ps b s).1.committed ≡ s.committed
  unfolding add_platforms
  add_platforms-committed plan [] b s = refl
  add_platforms-committed plan (p ∷ ps) b s =
      let item = new_item uuid job_id plan p s.drawn in
      add_platforms-committed plan ps _ (add_item item s).1 ∙ add_item-committed item s

  add_plans-committed :
      (enabled : List Text) (plans : List Plan) (s : Session)
      → (add_plans uuid job_id enabled plans s).1.committed ≡ s.committed
  unfolding add_plans
  add_plans-committed enabled [] s = refl
  add_plans-committed enabled (plan ∷ plans) s =
      add_plans-committed enabled plans (add_platforms uuid job_id plan enabled false s).1
      ∙ add_platforms-committed plan enabled false s

  -- A refused row leaves nothing of the transaction.
  taken_loses :
      (plan : Plan) (p : Text) (s : Session)
      → key_taken (plan_key job_id plan p) s.committed ≡ true
      → add_item (new_item uuid job_id plan p s.drawn) s ≡ (false, rolled_back s)
  unfolding new_item
  taken_loses plan p s h = add_item-taken (new_item uuid job_id plan p s.drawn) s (
      rw (
        any-append (λ r. text_eq r.idempotency_key (plan_key job_id plan p)) s.committed s.flushed,
        h,
      ))

  last_platform_loses :
      (plan : Plan) (ps : List Text) (p : Text) (b : Bool) (s : Session)
      → key_taken (plan_key job_id plan p) s.committed ≡ true
      → (add_platforms uuid job_id plan (ps ++ p ∷ []) b s).1.flushed ≡ []
  unfolding add_platforms
  last_platform_loses plan [] p b s h = rw (taken_loses plan p s h)
  last_platform_loses plan (q ∷ ps) p b s h =
      last_platform_loses plan ps p _ (add_item (new_item uuid job_id plan q s.drawn) s).1
        (rw (add_item-committed (new_item uuid job_id plan q s.drawn) s) h)

  last_plan_loses :
      (ps : List Text) (p : Text) (plans : List Plan) (plan : Plan) (s : Session)
      → key_taken (plan_key job_id plan p) s.committed ≡ true
      → (add_plans uuid job_id (ps ++ p ∷ []) (plans ++ plan ∷ []) s).1.flushed ≡ []
  unfolding add_plans
  last_plan_loses ps p [] plan s h = last_platform_loses plan ps p false s h
  last_plan_loses ps p (q ∷ plans) plan s h =
      last_plan_loses ps p plans plan (add_platforms uuid job_id q (ps ++ p ∷ []) false s).1
        (rw (add_platforms-committed q (ps ++ p ∷ []) false s) h)

  -- If the key of the last row of the call is already queued, the call adds no row at all, whatever
  -- came before it: the rollback takes every row of the call back.
  pub enqueue-last_taken :
      (ps : List Text) (p : Text) (plans : List Plan) (plan : Plan) (blocked : List (Text × Text))
      (drawn : ℕ) (db : Db)
      → key_taken (plan_key job_id plan p) db.publishing_queue ≡ true
      → (enqueue_plans uuid job_id (ps ++ p ∷ []) (plans ++ plan ∷ []) blocked drawn db).1 ≡ db
  unfolding enqueue_plans
  enqueue-last_taken ps p plans plan blocked drawn db h =
      let lost = last_plan_loses ps p plans plan (start_session db drawn) h in
      let kept = add_plans-committed (ps ++ p ∷ []) (plans ++ plan ∷ []) (start_session db drawn) in
      rw (lost, kept, append-nil)

  -- the session after rows that are all new
  abbrev extended : Session → List PublishQueueItem → Session
  extended s rows = record s {
    flushed = s.flushed ++ rows;
    drawn = s.drawn + length rows;
    created_count = s.created_count + length rows;
  }

  shifted :
      (item : PublishQueueItem) (s : Session) (rest : List PublishQueueItem)
      → (s.committed ++ (s.flushed ++ item ∷ [])) ++ rest
        ≡ (s.committed ++ s.flushed) ++ item ∷ rest
  shifted item s rest = simp append_assoc

  shifted_Unique :
      (item : PublishQueueItem) (s : Session) (rest : List PublishQueueItem)
      → Unique (λ r. r.idempotency_key) ((s.committed ++ s.flushed) ++ item ∷ rest)
      → Unique (λ r. r.idempotency_key) ((s.committed ++ (s.flushed ++ item ∷ [])) ++ rest)
  shifted_Unique item s rest u = rw (shifted item s rest) u

  add_platforms-fresh :
      (plan : Plan) (ps : List Text) (b : Bool) (s : Session)
      → Unique
          (λ r. r.idempotency_key)
          ((s.committed ++ s.flushed) ++ platform_rows plan ps s.drawn)
      → add_platforms uuid job_id plan ps b s
        ≡ (b || nonempty ps, extended s (platform_rows plan ps s.drawn))
  unfolding add_platforms
  add_platforms-fresh plan [] b s u = ground (arith, append-nil s.flushed)
  add_platforms-fresh plan (p ∷ ps) b s u =
      let item = new_item uuid job_id plan p s.drawn in
      let seen = s.committed ++ s.flushed in
      let rest = platform_rows plan ps (suc s.drawn) in
      let new = add_item-new item s (Unique-middle (λ r. r.idempotency_key) seen item rest u) in
      let more =
        add_platforms-fresh plan ps (b || true) (flushed_with item s)
          (shifted_Unique item s rest u) in
      rw new (more ∙ ground (arith, append_assoc s.flushed (item ∷ []) rest))

  add_plans-fresh :
      (enabled : List Text) (plans : List Plan) (s : Session)
      → Unique
          (λ r. r.idempotency_key)
          ((s.committed ++ s.flushed) ++ wanted_rows enabled plans s.drawn)
      → add_plans uuid job_id enabled plans s ≡ (
        if nonempty enabled then map (λ q. q.clip.clip_id) plans else [],
        extended s (wanted_rows enabled plans s.drawn),
      )
  unfolding add_plans
  add_plans-fresh enabled [] s u = ground (arith, append-nil s.flushed)
  add_plans-fresh enabled (plan ∷ plans) s u =
      let seen = s.committed ++ s.flushed in
      let rows = platform_rows plan enabled s.drawn in
      let rest = wanted_rows enabled plans (s.drawn + length enabled) in
      let first =
        add_platforms-fresh plan enabled false s
          (Unique-prefix _ (seen ++ rows) rest (rw (append_assoc seen rows rest) u)) in
      let more = add_plans-fresh enabled plans (extended s rows) (
        rw
          (
            length-platform_rows plan enabled s.drawn,
            ← append_assoc s.committed s.flushed rows,
            append_assoc seen rows rest,
          )
          u) in
      rw first (
        ground (
          arith,
          more,
          length-platform_rows plan enabled s.drawn,
          append_assoc s.flushed rows rest,
          length-append rows rest,
        ))

  -- If the keys of all rows that the call is asked for are new and differ, it adds exactly those
  -- rows, in their order and behind the old ones, and reports their number and, if any platform is
  -- enabled, every clip.
  pub enqueue-fresh :
      (enabled : List Text) (plans : List Plan) (blocked : List (Text × Text)) (drawn : ℕ) (db : Db)
      → Unique (λ r. r.idempotency_key) (db.publishing_queue ++ wanted_rows enabled plans drawn)
      → let (summary, db', drawn') = enqueue_plans uuid job_id enabled plans blocked drawn db in
        (db'.publishing_queue ≡ db.publishing_queue ++ wanted_rows enabled plans drawn)
        × (summary.items_created ≡ length (wanted_rows enabled plans drawn))
        × (summary.queued_clips
            ≡ (if nonempty enabled then map (λ q. q.clip.clip_id) plans else []))
  unfolding enqueue_plans
  enqueue-fresh enabled plans blocked drawn db u =
      let e = add_plans-fresh enabled plans (start_session db drawn) (rw append-nil u) in
      (rw e, rw e (omega arith), rw e)
