-- ===== src/Publishing/Worker/Claim.antt =====
-- The atomic claim of `_claim_due_item`.
use ai_video_clip_processing.Base.{
  ℕ, ◌≡◌, ◌≤◌, refl, true, false, some, List, [], ◌∷◌, arith, if◌then◌else◌, Text, text_eq,
  text_eq_iff, text_eq_self, text_eq_sym, any, In, select, length, Bool-cases, inl, inr, any-In,
  In-take, In-sorted, In-select, select-test,
}
use ai_video_clip_processing.Publishing.Rows.{
  PublishQueueItem, status_eq_iff, Db, get_row, update_rows, Unique,
}
use ai_video_clip_processing.Publishing.Worker.{
  claimable, is_candidate, set_publishing, due_candidates,
}
use ai_video_clip_processing.Publishing.Manager.{by_date}

pub select_absent :
    (c : PublishQueueItem) (rows : List PublishQueueItem)
    → any (λ r. text_eq r.id c.id) rows ≡ false
    → length (select (is_candidate c) rows) ≡ 0
select_absent c [] h = refl
select_absent c (r ∷ rows) h = ground (arith, select_absent c rows)

-- A row's claiming statement matches that row alone.
pub matched_once :
    (c : PublishQueueItem) (rows : List PublishQueueItem)
    → Unique (λ r. r.id) rows
    → In c rows
    → length (select (is_candidate c) rows) ≡ 1
matched_once c [] u h = elim h [ ]
matched_once c (r ∷ rows) u (inl e) =
    let absent = select_absent c rows (rw e u.0) in
    rw (← e) (ground (arith, text_eq_self c.id, status_eq_iff c.status c.status, absent))
matched_once c (r ∷ rows) u (inr k) = ground (
  arith,
  matched_once c rows u.1 k,
  text_eq_iff r.id c.id,
  text_eq_sym r.id c.id,
  any-In (λ s. text_eq s.id r.id) c rows k,
  text_eq_self c.id,
)

-- Every candidate is a due row.
pub candidate-In :
    (now : ℕ) (db : Db) (c : PublishQueueItem)
    → In c (due_candidates now db)
    → In c db.publishing_queue × (claimable now c ≡ true)
unfolding due_candidates
candidate-In now db c h =
    let k = In-sorted by_date c _ (In-take 5 c _ h) in
    (
      In-select (claimable now) c db.publishing_queue k,
      select-test (claimable now) c db.publishing_queue k,
    )

pub matched_le_one :
    (c : PublishQueueItem) (rows : List PublishQueueItem)
    → Unique (λ r. r.id) rows
    → length (select (is_candidate c) rows) ≤ 1
matched_le_one c [] u = omega arith
matched_le_one c (r ∷ rows) u = elim (Bool-cases (text_eq r.id c.id)) [
  | inl e ↦
      let same = (text_eq_iff r.id c.id).0 e in
      ground (arith, select_absent c rows (rw (← same) u.0))
  | inr e ↦ ground (arith, matched_le_one c rows u.1)
]

pub unmatched_update :
    (c : PublishQueueItem) (rows : List PublishQueueItem)
    → length (select (is_candidate c) rows) ≡ 0
    → update_rows (is_candidate c) set_publishing rows ≡ rows
unfolding update_rows
unmatched_update c [] h = refl
unmatched_update c (r ∷ rows) h = ground (arith, unmatched_update c rows)

pub matched_row :
    (c : PublishQueueItem) (rows : List PublishQueueItem)
    → length (select (is_candidate c) rows) ≡ 1
    → Unique (λ r. r.id) rows
    → (row : PublishQueueItem) × (get_row c.id rows ≡ some row) × (row.status ≡ c.status)
unfolding get_row
matched_row c [] h u = absurd (omega arith)
matched_row c (r ∷ rows) h u = elim (Bool-cases (text_eq r.id c.id)) [
  | inl e ↦
      let same = (text_eq_iff r.id c.id).0 e in
      let absent = select_absent c rows (rw (← same) u.0) in
      (r, rw e, ground (arith, status_eq_iff r.status c.status))
  | inr e ↦
      let (row, found, status) = matched_row c rows (ground arith) u.1 in (row, rw e found, status)
]

pub get_row-claim :
    (c : PublishQueueItem) (j : Text) (row : PublishQueueItem) (rows : List PublishQueueItem)
    → get_row c.id rows ≡ some row
    → row.status ≡ c.status
    → Unique (λ r. r.id) rows
    → get_row j (update_rows (is_candidate c) set_publishing rows)
      ≡ (if text_eq c.id j then some (set_publishing row) else get_row j rows)
unfolding get_row update_rows
get_row-claim c j row [] h k u = cc
get_row-claim c j row (r ∷ rows) h k u = elim (Bool-cases (text_eq r.id c.id)) [
  | inl e ↦
      let same = (text_eq_iff r.id c.id).0 e in
      ground (
        arith,
        text_eq_iff c.id j,
        text_eq_iff r.id j,
        unmatched_update c rows (select_absent c rows (rw (← same) u.0)),
        status_eq_iff r.status c.status,
      )
  | inr e ↦ ground (
    arith,
    text_eq_iff c.id j,
    text_eq_iff r.id j,
    text_eq_iff r.id c.id,
    get_row-claim c j row rows,
  )
]
