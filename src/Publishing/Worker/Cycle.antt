-- ===== src/Publishing/Worker/Cycle.antt =====
-- The cycle of the worker ends, and leaves nothing due.
use ai_video_clip_processing.Base.{
  ℕ, zero, suc, ◌+◌, ◌≡◌, ◌≤◌, ◌<◌, refl, Bool, true, false, none, some, List, [], ◌∷◌, arith, ◌∙◌,
  text_eq, In, inl, inr, count_if, List-cases, text_eq_self,
}
use ai_video_clip_processing.Publishing.Rows.{
  PublishQueueItem, Db, update_rows, IsTable, status_eq_iff,
}
use ai_video_clip_processing.Publishing.Rows.Laws.{update_rows-IsTable}
use ai_video_clip_processing.Publishing.Settings.{Settings}
use ai_video_clip_processing.Publishing.Worker.{
  Round, claimable, is_candidate, set_publishing, due_candidates, claim_due_item, process_item,
  run_worker_cycle,
}
use ai_video_clip_processing.Publishing.Worker.Claim.{candidate-In}
use ai_video_clip_processing.Publishing.Worker.Exclusive.{claimed_db, head_claimed, none_claimed}
use ai_video_clip_processing.Publishing.Worker.Resolve.{process_item-Resolves}
use ai_video_clip_processing.Publishing.Worker.Process.{process_item-IsTable}

-- how many rows are due by a time
abbrev pub due_count : ℕ → Db → ℕ
due_count limit db = count_if (claimable limit) db.publishing_queue

update_rows-count_le :
    (where' : PublishQueueItem → Bool) (set : PublishQueueItem → PublishQueueItem) (limit : ℕ)
    → ((row : PublishQueueItem) → claimable limit (set row) ≡ false)
    → (rows : List PublishQueueItem)
    → count_if (claimable limit) (update_rows where' set rows) ≤ count_if (claimable limit) rows
unfolding update_rows
update_rows-count_le where' set limit h [] = omega arith
update_rows-count_le where' set limit h (row ∷ rows) =
    ground (arith, h row, update_rows-count_le where' set limit h rows)

claimed-count_lt :
    (c : PublishQueueItem) (limit : ℕ) (rows : List PublishQueueItem)
    → In c rows
    → claimable limit c ≡ true
    → count_if (claimable limit) (update_rows (is_candidate c) set_publishing rows)
      < count_if (claimable limit) rows
unfolding update_rows
claimed-count_lt c limit [] h k = elim h [ ]
claimed-count_lt c limit (r ∷ rows) (inl e) k =
    let rest = update_rows-count_le (is_candidate c) set_publishing limit (λ row. refl) rows in
    let itself = text_eq_self c.id in
    let same = (status_eq_iff c.status c.status).1 refl in rw (← e) (ground (arith, rest))
claimed-count_lt c limit (r ∷ rows) (inr m) k = ground (arith, claimed-count_lt c limit rows m k)

module _ (settings : Settings) (rounds : ℕ → Round) (fuel n processed : ℕ) (db : Db) where
  cycle-none :
      claim_due_item (rounds n).claimed_at db ≡ (none, db)
      → run_worker_cycle settings rounds (suc fuel) n processed db ≡ some (processed, db)
  unfolding run_worker_cycle
  cycle-none e = ground (arith, e)

  cycle-some :
      {item : PublishQueueItem} {db' : Db}
      → claim_due_item (rounds n).claimed_at db ≡ (some item, db')
      → run_worker_cycle settings rounds (suc fuel) n processed db
        ≡ run_worker_cycle settings rounds fuel
            (suc n)
            (suc processed)
            (process_item settings (rounds n) item db')
  unfolding run_worker_cycle
  cycle-some e = ground (arith, e)

module _ (settings : Settings) (rounds : ℕ → Round) (limit : ℕ)
    (wait : 5 ≤ settings.default_quota_wait_minutes)
    (alone : (n : ℕ) (db : Db) → (rounds n).meanwhile db ≡ db)
    (claimed_by : (n : ℕ) → (rounds n).claimed_at ≤ limit)
    (resolved_near : (n : ℕ) → limit < (rounds n).resolved_at + 300) where
  -- One round lowers the count of the rows that are due by the end of the cycle.
  round-due_count :
      (n : ℕ) (c : PublishQueueItem) (db : Db)
      → In c db.publishing_queue
      → claimable (rounds n).claimed_at c ≡ true
      → due_count limit (process_item settings (rounds n) (set_publishing c) (claimed_db c db))
        < due_count limit db
  round-due_count n c db member due =
      let item = set_publishing c in
      let r = process_item-Resolves settings (rounds n) wait item (claimed_db c db) in
      let base : r.base ≡ claimed_db c db = elim r.base_eq [
        | inl e ↦ e
        | inr e ↦ e ∙ alone n (claimed_db c db)
      ] in
      let lower =
        claimed-count_lt c limit db.publishing_queue member (ground (arith, claimed_by n)) in
      let no_more =
        update_rows-count_le (λ row. text_eq row.id item.id) r.set limit
          (λ row. (r.resolves row).1 limit (resolved_near n)) (claimed_db c db).publishing_queue in
      rw (r.result_eq, base) (omega (arith, lower, no_more))

  round-IsTable :
      (n : ℕ) (c : PublishQueueItem) (db : Db)
      → IsTable db.publishing_queue
      → IsTable
          (process_item settings (rounds n) (set_publishing c) (claimed_db c db)).publishing_queue
  round-IsTable n c db t =
      let claimed =
        update_rows-IsTable (is_candidate c) set_publishing (λ r. refl) (λ r. refl)
          db.publishing_queue t in
      process_item-IsTable settings (rounds n) wait (set_publishing c) (claimed_db c db) claimed
        (rw (alone n (claimed_db c db)) claimed)

  -- With a quota wait of at least five minutes, no other task at work, and all its readings of the
  -- clock within five minutes, a cycle ends once its fuel exceeds the number of items that come due
  -- by the last claim's time limit. It processes no more than that number, and ends on a claim that
  -- finds nothing due.
  pub run_worker_cycle-drains :
      (fuel n processed : ℕ) (db : Db)
      → IsTable db.publishing_queue
      → due_count limit db < fuel
      → (total : ℕ) × (db' : Db) × (last : ℕ) × (run_worker_cycle settings rounds fuel n processed
            db
          ≡ some (total, db'))
        × (total ≤ processed + due_count limit db)
        × (claim_due_item (rounds last).claimed_at db' ≡ (none, db'))
  run_worker_cycle-drains zero n processed db t h = absurd (omega arith)
  run_worker_cycle-drains (suc fuel) n processed db t h =
      elim (List-cases (due_candidates (rounds n).claimed_at db)) [
        | inl e ↦
            let nothing = none_claimed (rounds n).claimed_at db e in
            (
              processed,
              db,
              n,
              cycle-none settings rounds fuel n processed db nothing,
              omega arith,
              nothing,
            )
        | inr (c, cs, e) ↦
            let claimed = head_claimed (rounds n).claimed_at db c cs t e in
            let member : In c (due_candidates (rounds n).claimed_at db) = rw e (inl refl) in
            let (present, due) = candidate-In (rounds n).claimed_at db c member in
            let lower = round-due_count n c db present due in
            let (total, db', last, ended, bound, nothing) =
              run_worker_cycle-drains fuel (suc n) (suc processed)
                (process_item settings (rounds n) (set_publishing c) (claimed_db c db))
                (round-IsTable n c db t) (omega (arith, lower)) in
            (
              total,
              db',
              last,
              cycle-some settings rounds fuel n processed db claimed ∙ ended,
              omega (arith, lower, bound),
              nothing,
            )
      ]
