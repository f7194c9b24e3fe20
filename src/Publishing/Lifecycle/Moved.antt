-- ===== src/Publishing/Lifecycle/Moved.antt =====
-- Each operation of the queue, seen as moves of the items that it touches.
use ai_video_clip_processing.Base.{
  ℕ, ◌≡◌, ◌≢◌, ◌∙◌, refl, ap, subst, Bool, true, false, ◌||◌, Option, none, some, List, [], ◌∷◌,
  arith, Text, text_eq, text_eq_iff, In, Bool-cases, Option-cases, inl, inr, length, select, ◌==◌,
  All, In-take, In-sorted, select-test,
}
use ai_video_clip_processing.Publishing.Rows.{
  QueueStatus, waiting, publishing, published, failed, retrying, paused, cancelled, not_supported,
  auth_required, quota_wait, is_due, status_eq, status_eq_iff, PublishQueueItem, Db, IsTable,
  update_rows, get_row,
}
use ai_video_clip_processing.Publishing.Machine.{
  Action, pauses, resumes, claims, retries, brings_forward, cancels, pause, claim, resume, retry,
  bring_forward, cancel, stay, then_move, Same-written, Follows, Evolves, Evolves-refl,
  Evolves-trans, Evolves-claims, update_rows-Evolves,
}
use ai_video_clip_processing.Publishing.Rows.Laws.{get_row-of_In}
use ai_video_clip_processing.Publishing.Manager.{
  edit_item, set_paused, pausable, resumable, resumed, may_retry, retried, skipped, set_cancelled,
  may_publish_now, brought_forward, by_date,
}
use ai_video_clip_processing.Publishing.Worker.{
  claimable, claim_first, claim_due_item, due_candidates, is_candidate, set_publishing,
}

-- the table of one database, and after the actions
abbrev pub Later : List Action → Db → Db → Type 0
Later log db db' = Evolves log db.publishing_queue db'.publishing_queue

differs_from : (s : QueueStatus) → status_eq s published ≡ false → s ≢ published
differs_from s h e = ground (arith, h, e, status_eq_iff s published)

-- an item that is due or PAUSED is not PUBLISHED
unpublished :
    (s : QueueStatus) → is_due s || status_eq s paused ≡ true → status_eq s published ≡ false
unfolding status_eq
unpublished published h = absurd (cc)
unpublished waiting h = refl
unpublished publishing h = refl
unpublished failed h = refl
unpublished retrying h = refl
unpublished paused h = refl
unpublished cancelled h = refl
unpublished not_supported h = refl
unpublished auth_required h = refl
unpublished quota_wait h = refl

pub set_paused-Follows :
    (job_id : Text) (row : PublishQueueItem)
    → pausable job_id row ≡ true
    → Follows (pauses ∷ []) row (set_paused row)
set_paused-Follows job_id row h = (
  Same-written row row.scheduled_at paused row.attempt_count row.last_error row.external_post_id
      row.published_at,
  then_move stay (pause (ground (arith, h))),
)

pub resumed-Follows :
    (job_id : Text) (date : Option ℕ) (row : PublishQueueItem)
    → resumable job_id row ≡ true
    → Follows (resumes ∷ []) row (resumed date row)
resumed-Follows job_id none row h = (
  Same-written row row.scheduled_at waiting row.attempt_count row.last_error row.external_post_id
      row.published_at,
  then_move stay (resume (differs_from row.status (unpublished row.status (ground (arith, h))))),
)
resumed-Follows job_id (some date) row h = (
  Same-written row date waiting row.attempt_count row.last_error row.external_post_id
      row.published_at,
  then_move stay (resume (differs_from row.status (unpublished row.status (ground (arith, h))))),
)

pub retried-Follows :
    (now : ℕ) (row : PublishQueueItem)
    → may_retry row ≡ true
    → Follows (retries row.id ∷ []) row (retried now row)
retried-Follows now row h = (
  Same-written row now waiting 0 none row.external_post_id row.published_at,
  then_move stay (retry (differs_from row.status (ground (arith, h)))),
)

pub brought_forward-Follows :
    (now : ℕ) (row : PublishQueueItem)
    → may_publish_now row ≡ true
    → Follows (brings_forward row.id ∷ []) row (brought_forward now row)
brought_forward-Follows now row h = (
  Same-written row now waiting row.attempt_count row.last_error row.external_post_id
      row.published_at,
  then_move stay (bring_forward (differs_from row.status (unpublished row.status h))),
)

pub skipped-Follows : (row : PublishQueueItem) → Follows (cancels row.id ∷ []) row (skipped row)
skipped-Follows row = (
  Same-written row row.scheduled_at cancelled row.attempt_count _ row.external_post_id
      row.published_at,
  then_move stay cancel,
)

pub set_cancelled-Follows :
    (row : PublishQueueItem) → Follows (cancels row.id ∷ []) row (set_cancelled row)
set_cancelled-Follows row = (
  Same-written row row.scheduled_at cancelled row.attempt_count row.last_error row.external_post_id
      row.published_at,
  then_move stay cancel,
)

set_publishing-Follows :
    (row : PublishQueueItem)
    → is_due row.status ≡ true
    → Follows (claims ∷ []) row (set_publishing row)
set_publishing-Follows row h = (
  Same-written row row.scheduled_at publishing row.attempt_count row.last_error row.external_post_id
      row.published_at,
  then_move stay (claim h),
)

-- a row with that identifier is the one that is found
only_row :
    (item_id : Text) (found row : PublishQueueItem) (db : Db)
    → get_row item_id db.publishing_queue ≡ some found
    → IsTable db.publishing_queue
    → In row db.publishing_queue
    → text_eq row.id item_id ≡ true
    → row ≡ found
only_row item_id found row db g t k h =
    ground
      (arith, g, text_eq_iff row.id item_id, get_row-of_In row db.publishing_queue t.unique_ids k)

-- the action on an item is one on its identifier
Follows-named :
    (act : Text → Action) (item_id : Text) (row row' : PublishQueueItem)
    → text_eq row.id item_id ≡ true
    → Follows (act row.id ∷ []) row row'
    → Follows (act item_id ∷ []) row row'
Follows-named act item_id row row' h f =
    subst (λ id. Follows (act id ∷ []) row row') ((text_eq_iff row.id item_id).0 h) f

-- an operation on one item, where no two rows have its identifier
pub edit_item-Later :
    (act : Text → Action) (item_id : Text) (allowed : PublishQueueItem → Bool)
    (set : PublishQueueItem → PublishQueueItem)
    → ((row : PublishQueueItem) → allowed row ≡ true → Follows (act row.id ∷ []) row (set row))
    → (db : Db) → IsTable db.publishing_queue
    → Later (act item_id ∷ []) db (edit_item item_id allowed set db).1
unfolding edit_item
edit_item-Later act item_id allowed set f db t =
    let log = act item_id ∷ [] in
    elim (Option-cases (get_row item_id db.publishing_queue)) [
      | inl n ↦ rw n (Evolves-refl log db.publishing_queue)
      | inr (found, g) ↦ elim (Bool-cases (allowed found)) [
        | inr a ↦ rw (g, a) (Evolves-refl log db.publishing_queue)
        | inl a ↦
            rw (g, a)
              (update_rows-Evolves log (λ row. text_eq row.id item_id) set db.publishing_queue
                (λ row k h.
                  Follows-named act item_id row (set row) h
                    (f row (ap allowed (only_row item_id found row db g t k h) ∙ a))))
      ]
    ]

candidate_is_due :
    (c row : PublishQueueItem)
    → is_due c.status ≡ true
    → is_candidate c row ≡ true
    → is_due row.status ≡ true
candidate_is_due c row d h =
    let same : status_eq row.status c.status ≡ true = ground (arith, h) in
    ap is_due ((status_eq_iff row.status c.status).0 same) ∙ d

-- the claim of an item that is due
claim_first-Later :
    (candidates : List PublishQueueItem) (db : Db)
    → All (λ c. is_due c.status ≡ true) candidates
    → Later (claims ∷ []) db (claim_first candidates db).1
unfolding claim_first
claim_first-Later [] db d = Evolves-refl (claims ∷ []) db.publishing_queue
claim_first-Later (c ∷ rest) db d =
    let db' : Db = record db {
      publishing_queue = update_rows (is_candidate c) set_publishing db.publishing_queue;
    } in
    let updated =
      update_rows-Evolves (claims ∷ []) (is_candidate c) set_publishing db.publishing_queue
        (λ row k h. set_publishing-Follows row (candidate_is_due c row d.0 h)) in
    elim (Bool-cases (length (select (is_candidate c) db.publishing_queue) == 1)) [
      | inl h ↦ rw h updated
      | inr h ↦ rw h (
          Evolves-claims db.publishing_queue _ (
            Evolves-trans (claims ∷ []) (claims ∷ []) db.publishing_queue db'.publishing_queue _
              updated (claim_first-Later rest db' d.1)))
    ]

All-of_In :
    (P : PublishQueueItem → Type 0) (rows : List PublishQueueItem)
    → ((row : PublishQueueItem) → In row rows → P row)
    → All P rows
All-of_In P [] f = tt
All-of_In P (row ∷ rows) f = (f row (inl refl), All-of_In P rows (λ r k. f r (inr k)))

pub claim_due_item-Later : (now : ℕ) (db : Db) → Later (claims ∷ []) db (claim_due_item now db).1
unfolding claim_due_item due_candidates
claim_due_item-Later now db = claim_first-Later (due_candidates now db) db (
    All-of_In (λ c. is_due c.status ≡ true) (due_candidates now db)
      (λ c k.
        let sorted_in = In-take 5 c _ k in
        let selected = In-sorted by_date c _ sorted_in in
        let due : claimable now c ≡ true =
          select-test (claimable now) c db.publishing_queue selected in
        ground (arith, due)))
