-- ===== src/Publishing/Worker/Process.antt =====
-- What processing an item does to the queue: it settles that item and touches no other.
use mathlib.Core.Option
use ai_video_clip_processing.Base.{
  ℕ, ap, ◌≡◌, ◌≢◌, ◌<◌, ◌≤◌, ◌+◌, false, Option, none, some, arith, if◌then◌else◌, Text, text_eq,
  text_eq_iff, text_eq_self, inl, inr, ◌⊎◌, Option-cases,
}
use ai_video_clip_processing.Publishing.Rows.{
  PublishQueueItem, publishing, retrying, Db, get_row, IsTable,
}
use ai_video_clip_processing.Publishing.Rows.Laws.{get_row-update_rows, update_rows-IsTable}
use ai_video_clip_processing.Publishing.Settings.{Settings}
use ai_video_clip_processing.Publishing.Worker.{Round, claimable, process_item}
use ai_video_clip_processing.Publishing.Worker.Resolve.{Resolved, process_item-Resolves}

Resolved-of_map :
    (now : ℕ) (set : PublishQueueItem → PublishQueueItem)
    → ((row : PublishQueueItem) → Resolved now (set row))
    → (found : Option PublishQueueItem) (row : PublishQueueItem) → Option.map set found ≡ some row
    → Resolved now row
Resolved-of_map now set resolves none row e = absurd (cc)
Resolved-of_map now set resolves (some r) row e =
    let same : row ≡ set r = cc in rw same (resolves r)

module _ (settings : Settings) (round : Round) (wait : 5 ≤ settings.default_quota_wait_minutes)
    (item : PublishQueueItem) (db : Db) where
  abbrev after : Db
  after = process_item settings round item db

  -- the row of any item after processing, from the database that the last session found
  processed_row :
      (j : Text)
      → let r = process_item-Resolves settings round wait item db in
        get_row j after.publishing_queue ≡ (
          if text_eq item.id j
          then Option.map r.set (get_row j r.base.publishing_queue)
          else get_row j r.base.publishing_queue)
  processed_row j =
      let r = process_item-Resolves settings round wait item db in
      rw r.result_eq (get_row-update_rows r.set r.keeps_id item.id j r.base.publishing_queue)

  -- With a quota wait of at least five minutes: whatever happens to an item, an unexpected exception
  -- included, its row, if there is one, is then not PUBLISHING and does not come due within five
  -- minutes of its last session.
  pub process_item-resolves :
      (row : PublishQueueItem)
      → get_row item.id after.publishing_queue ≡ some row
      → (row.status ≢ publishing)
        × ((later : ℕ) → later < round.resolved_at + 300 → claimable later row ≡ false)
  process_item-resolves row h =
      let r = process_item-Resolves settings round wait item db in
      Resolved-of_map round.resolved_at r.set r.resolves (get_row item.id r.base.publishing_queue)
        row (ground (arith, processed_row item.id, text_eq_self item.id))

  -- A row that is to be retried afterwards counts this attempt, and attempts are left for it.
  pub process_item-attempts :
      (row : PublishQueueItem)
      → get_row item.id after.publishing_queue ≡ some row
      → row.status ≡ retrying
      → (row.attempt_count ≡ item.attempt_count + 1)
        × (row.attempt_count < settings.max_publish_attempts)
  process_item-attempts row h e =
      let r = process_item-Resolves settings round wait item db in
      elim (Option-cases (get_row item.id r.base.publishing_queue)) [
        | inl k ↦ ground (arith, processed_row item.id, text_eq_self item.id, h, k)
        | inr (before, k) ↦
            let same : r.set before ≡ row =
              ground (arith, processed_row item.id, text_eq_self item.id, h, k) in
            let bound = r.bounded before (cc (same, e)) in rw (← same) (bound.0, rw bound.0 bound.1)
      ]

  -- The row of any other item is what the platform's call left, or what was there before.
  pub process_item-isolates :
      (j : Text)
      → item.id ≢ j
      → (get_row j after.publishing_queue ≡ get_row j db.publishing_queue)
        ⊎ (get_row j after.publishing_queue ≡ get_row j (round.meanwhile db).publishing_queue)
  process_item-isolates j h =
      let r = process_item-Resolves settings round wait item db in
      let seen = processed_row j in
      elim r.base_eq [
        | inl e ↦ inl (
            ground
              (arith, seen, text_eq_iff item.id j, ap (λ (d : Db). get_row j d.publishing_queue) e))
        | inr e ↦ inr (
            ground
              (arith, seen, text_eq_iff item.id j, ap (λ (d : Db). get_row j d.publishing_queue) e))
      ]

  -- Processing an item keeps the primary key and the unique constraint, where what is committed
  -- while the platform is awaited keeps them.
  pub process_item-IsTable :
      IsTable db.publishing_queue
      → IsTable (round.meanwhile db).publishing_queue
      → IsTable after.publishing_queue
  process_item-IsTable t m =
      let r = process_item-Resolves settings round wait item db in
      let base : IsTable r.base.publishing_queue = elim r.base_eq [
        | inl e ↦ rw e t
        | inr e ↦ rw e m
      ] in
      rw r.result_eq (update_rows-IsTable _ r.set r.keeps_id r.keeps_key _ base)
