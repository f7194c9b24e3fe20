-- ===== src/Publishing/Worker/Exclusive.antt =====
-- What a claim promises: the oldest due row, by one worker only.
use ai_video_clip_processing.Base.{
  ℕ, suc, ◌≡◌, ◌≢◌, ◌≤◌, refl, sym, true, false, none, some, List, [], ◌∷◌, arith, if◌then◌else◌,
  Text, text_eq, text_eq_iff, In, select, length, Bool-cases, inl, inr, ◌⊎◌, sorted, take, All-at,
  ◌==◌, In-of_sorted, In-of_select, sorted-Ascending, Ascending, List-cases, ◌↔◌, ◌∙◌, false≢true,
}
use ai_video_clip_processing.Publishing.Rows.{PublishQueueItem, Db, get_row, update_rows, IsTable}
use ai_video_clip_processing.Publishing.Rows.Laws.{get_row-of_In, update_rows-IsTable}
use ai_video_clip_processing.Publishing.Worker.{
  claimable, is_candidate, set_publishing, due_candidates, claim_first, claim_due_item,
}
use ai_video_clip_processing.Publishing.Manager.{by_date}
use ai_video_clip_processing.Publishing.Worker.Claim.{
  candidate-In, matched_once, matched_row, get_row-claim, matched_le_one, unmatched_update,
}

abbrev pub claimed_db : PublishQueueItem → Db → Db
claimed_db c db = record db {
  publishing_queue = update_rows (is_candidate c) set_publishing db.publishing_queue;
}

-- Either no candidate is claimed and nothing changes, or one is.
abbrev Claims : List PublishQueueItem → Db → PublishQueueItem → Type 0
Claims cs db c =
    In c cs
    × (length (select (is_candidate c) db.publishing_queue) ≡ 1)
    × (claim_first cs db ≡ (some (set_publishing c), claimed_db c db))

claim_first-cases :
    (cs : List PublishQueueItem) (db : Db)
    → IsTable db.publishing_queue
    → (claim_first cs db ≡ (none, db)) ⊎ ((c : PublishQueueItem) × Claims cs db c)
unfolding claim_first
claim_first-cases [] db t = inl refl
claim_first-cases (c ∷ cs) db t =
    elim (Bool-cases (length (select (is_candidate c) db.publishing_queue) == 1)) [
      | inl e ↦ inr (c, (inl refl, ground arith, ground arith))
      | inr e ↦
          let same =
            unmatched_update c db.publishing_queue
              (ground (arith, matched_le_one c db.publishing_queue t.unique_ids)) in
          elim (claim_first-cases cs db t) [
            | inl f ↦ inl (ground (arith, same))
            | inr (d, h) ↦ inr (d, (inr h.0, h.1, ground (arith, same)))
          ]
    ]

-- A candidate that was claimed had its status in the table, and has the new one in the result.
claimed_rows :
    (cs : List PublishQueueItem) (db : Db) {a : PublishQueueItem} {db' : Db}
    → IsTable db.publishing_queue
    → claim_first cs db ≡ (some a, db')
    → (c : PublishQueueItem) × (row : PublishQueueItem) × In c cs
      × (a ≡ set_publishing c)
      × (get_row c.id db.publishing_queue ≡ some row)
      × (row.status ≡ c.status)
      × IsTable db'.publishing_queue
      × ((j : Text)
          → get_row j db'.publishing_queue
            ≡ (if text_eq c.id j then some (set_publishing row) else get_row j db.publishing_queue))
claimed_rows cs db {db' = db'} t e = elim (claim_first-cases cs db t) [
  | inl f ↦ absurd (cc)
  | inr (c, (member, once, f)) ↦
      let (row, found, status) = matched_row c db.publishing_queue once t.unique_ids in
      (
        c,
        row,
        member,
        ground arith,
        found,
        status,
        let same : db' ≡ claimed_db c db = ground arith in
            rw same (
              update_rows-IsTable (is_candidate c) set_publishing (λ r. refl) (λ r. refl)
                db.publishing_queue t),
        λ j.
            let g = get_row-claim c j row db.publishing_queue found status t.unique_ids in
            ground (arith, g),
      )
]

-- Over a table that meets its constraints, two workers that read their candidates from any two
-- databases, and claim one right after the other, never claim the same item.
pub claim_exclusive :
    (now now' : ℕ) (seen seen' db db' db'' : Db) (a b : PublishQueueItem)
    → IsTable db.publishing_queue
    → claim_first (due_candidates now seen) db ≡ (some a, db')
    → claim_first (due_candidates now' seen') db' ≡ (some b, db'')
    → a.id ≢ b.id
claim_exclusive now now' seen seen' db db' db'' a b t e f same =
    let (c, row, member, is_c, found, status, t', after) =
      claimed_rows (due_candidates now seen) db t e in
    let (d, row', member', is_d, found', status', _, _) =
      claimed_rows (due_candidates now' seen') db' t' f in
    let due = (candidate-In now' seen' d member').1 in
    ground (arith, after d.id, text_eq_iff c.id d.id)

by_date-Ascending : (rows : List PublishQueueItem) → Ascending by_date (sorted by_date rows)
by_date-Ascending = sorted-Ascending by_date (λ x y h. ground arith) (λ x y z h k. ground arith)

-- The oldest candidate heads the list.
oldest_first :
    (n : ℕ) (rows : List PublishQueueItem) (c r : PublishQueueItem) (cs : List PublishQueueItem)
    → Ascending by_date rows
    → take (suc n) rows ≡ c ∷ cs
    → In r rows
    → c.scheduled_at ≤ r.scheduled_at
oldest_first n [] c r cs asc e h = elim h [ ]
oldest_first n (x ∷ rows) c r cs asc e (inl k) = ground (arith, e, k)
oldest_first n (x ∷ rows) c r cs asc e (inr k) =
    let above = All-at (λ y. by_date x y ≡ true) r rows asc.0 k in ground (arith, e, above)

-- The first candidate is claimed.
pub head_claimed :
    (now : ℕ) (db : Db) (c : PublishQueueItem) (cs : List PublishQueueItem)
    → IsTable db.publishing_queue
    → due_candidates now db ≡ c ∷ cs
    → claim_due_item now db ≡ (some (set_publishing c), claimed_db c db)
unfolding claim_due_item claim_first
head_claimed now db c cs t e =
    let member : In c (due_candidates now db) = rw e (inl refl) in
    let once = matched_once c db.publishing_queue t.unique_ids (candidate-In now db c member).0 in
    rw (e, once)

pub none_claimed :
    (now : ℕ) (db : Db) → due_candidates now db ≡ [] → claim_due_item now db ≡ (none, db)
unfolding claim_due_item claim_first
none_claimed now db e = rw e

oldest_due :
    (now : ℕ) (db : Db) (c r : PublishQueueItem) (cs : List PublishQueueItem)
    → due_candidates now db ≡ c ∷ cs
    → In r db.publishing_queue
    → claimable now r ≡ true
    → c.scheduled_at ≤ r.scheduled_at
unfolding due_candidates
oldest_due now db c r cs e h k =
    let due = select (claimable now) db.publishing_queue in
    oldest_first 4 (sorted by_date due) c r cs (by_date-Ascending due) e
      (In-of_sorted by_date r due (In-of_select (claimable now) r db.publishing_queue h k))

take_nonempty :
    (n : ℕ) (r : PublishQueueItem) (rows : List PublishQueueItem)
    → take (suc n) rows ≡ []
    → ¬ In r rows
take_nonempty n r [] e h = h
take_nonempty n r (x ∷ rows) e h = cc

-- A due row leads to a claim.
due_claimed :
    (now : ℕ) (db : Db) (r : PublishQueueItem)
    → IsTable db.publishing_queue
    → In r db.publishing_queue
    → claimable now r ≡ true
    → ¬ (claim_due_item now db ≡ (none, db))
unfolding due_candidates
due_claimed now db r t h k e = elim (List-cases (due_candidates now db)) [
  | inl f ↦ take_nonempty 4 r (sorted by_date (select (claimable now) db.publishing_queue)) f (
      In-of_sorted by_date r (select (claimable now) db.publishing_queue)
        (In-of_select (claimable now) r db.publishing_queue h k))
  | inr (c, cs, f) ↦ cc (head_claimed now db c cs t f, e)
]

-- Over a table that meets its constraints, a claim takes a due item whose date has come, none of which is older, sets it to PUBLISHING, and
-- leaves every other row as it was.
pub claim_due_item_sound :
    (now : ℕ) (db db' : Db) (a : PublishQueueItem)
    → IsTable db.publishing_queue
    → claim_due_item now db ≡ (some a, db')
    → (row : PublishQueueItem) × (get_row a.id db.publishing_queue ≡ some row)
      × (claimable now row ≡ true)
      × ((r : PublishQueueItem)
          → In r db.publishing_queue
          → claimable now r ≡ true
          → row.scheduled_at ≤ r.scheduled_at)
      × (a ≡ set_publishing row)
      × ((j : Text)
          → get_row j db'.publishing_queue
            ≡ (if text_eq a.id j then some a else get_row j db.publishing_queue))
claim_due_item_sound now db db' a t e = elim (List-cases (due_candidates now db)) [
  | inl f ↦ absurd (cc (none_claimed now db f, e))
  | inr (c, cs, f) ↦
      let claimed = head_claimed now db c cs t f in
      let member : In c (due_candidates now db) = rw f (inl refl) in
      let (present, due) = candidate-In now db c member in
      let found = get_row-of_In c db.publishing_queue t.unique_ids present in
      (
        c,
        ground (arith, claimed, found),
        due,
        λ r h k. oldest_due now db c r cs f h k,
        ground (arith, claimed),
        λ j.
            ground
              (arith, claimed, get_row-claim c j c db.publishing_queue found refl t.unique_ids),
      )
]

-- A claim finds nothing exactly when no item is due, and then changes nothing.
pub claim_due_item-none :
    (now : ℕ) (db : Db)
    → IsTable db.publishing_queue
    → (claim_due_item now db ≡ (none, db))
      ↔ ((r : PublishQueueItem) → In r db.publishing_queue → claimable now r ≡ false)
claim_due_item-none now db t = (
  λ e r h. elim (Bool-cases (claimable now r)) [
    | inl k ↦ absurd (due_claimed now db r t h k e)
    | inr k ↦ k
  ],
  λ h. elim (List-cases (due_candidates now db)) [
    | inl f ↦ none_claimed now db f
    | inr (c, cs, f) ↦
        let member : In c (due_candidates now db) = rw f (inl refl) in
        let (present, due) = candidate-In now db c member in
        absurd (false≢true (sym (h c present) ∙ due))
  ],
)
