-- ===== src/Publishing/Enqueue/Transaction.antt =====
-- What the transaction of `create_queue_from_job` keeps, and what its rollback loses.
use ai_video_clip_processing.Base.{
  ℕ, suc, ◌≡◌, ◌<◌, refl, Bool, true, false, List, [], ◌∷◌, ◌++◌, arith, Text, text_eq, text_eq_iff,
  text_eq_sym, any, All, Bool-cases, inl, inr, append-nil, append_assoc, any-append, All-append,
}
use ai_video_clip_processing.Publishing.Rows.{PublishQueueItem, Db, key_taken, Unique, IsTable}
use ai_video_clip_processing.Publishing.Enqueue.{
  Session, Plan, add_item, new_item, add_platforms, add_plans, start_session, enqueue_plans,
}

-- a row with a new text, behind the others
Unique-snoc :
    (text : PublishQueueItem → Text) (rows : List PublishQueueItem) (row : PublishQueueItem)
    → Unique text rows
    → any (λ r. text_eq (text r) (text row)) rows ≡ false
    → Unique text (rows ++ row ∷ [])
Unique-snoc text [] row u h = (refl, tt)
Unique-snoc text (r ∷ rows) row u h = (
  rw (any-append (λ q. text_eq (text q) (text r)) rows (row ∷ []))
      (ground (arith, u.0, text_eq_sym (text r) (text row))),
  Unique-snoc text rows row u.1 (ground arith),
)

-- a session after a refused and after an accepted row
abbrev pub rolled_back : Session → Session
rolled_back s = record s { flushed = []; drawn = suc s.drawn }

abbrev pub flushed_with : PublishQueueItem → Session → Session
flushed_with item s = record s {
  flushed = s.flushed ++ item ∷ [];
  drawn = suc s.drawn;
  created_count = suc s.created_count;
}

module _ (item : PublishQueueItem) (s : Session) where
  pub add_item-taken :
      key_taken item.idempotency_key (s.committed ++ s.flushed) ≡ true
      → add_item item s ≡ (false, rolled_back s)
  unfolding add_item
  add_item-taken h = rw h

  pub add_item-new :
      key_taken item.idempotency_key (s.committed ++ s.flushed) ≡ false
      → add_item item s ≡ (true, flushed_with item s)
  unfolding add_item
  add_item-new h = rw h

module _ (uuid : ℕ → Text) (injective : (m n : ℕ) → uuid m ≡ uuid n → m ≡ n) where
  -- the identifiers of the rows are among those that were drawn
  abbrev pub Drawn : ℕ → List PublishQueueItem → Type 0
  Drawn drawn = All (λ row. (k : ℕ) × (k < drawn) × (row.id ≡ uuid k))

  Drawn-later : (n : ℕ) (rows : List PublishQueueItem) → Drawn n rows → Drawn (suc n) rows
  Drawn-later n [] d = tt
  Drawn-later n (row ∷ rows) ((k, h, e), d) = ((k, omega arith, e), Drawn-later n rows d)

  Drawn-new :
      (n : ℕ) (rows : List PublishQueueItem)
      → Drawn n rows
      → any (λ r. text_eq r.id (uuid n)) rows ≡ false
  Drawn-new n [] d = refl
  Drawn-new n (row ∷ rows) ((k, h, e), d) =
      ground (arith, text_eq_iff row.id (uuid n), injective k n, Drawn-new n rows d)

  -- What holds of a session between two of its flushes.
  pub record IsSession (s : Session) : Type 0 where
    pub committed_table : IsTable s.committed
    pub seen_table : IsTable (s.committed ++ s.flushed)
    pub committed_drawn : Drawn s.drawn s.committed
    pub seen_drawn : Drawn s.drawn (s.committed ++ s.flushed)

  taken-IsSession : (s : Session) → IsSession s → IsSession (rolled_back s)
  taken-IsSession s i = record {
    committed_table = i.committed_table;
    seen_table = rw append-nil i.committed_table;
    committed_drawn = Drawn-later s.drawn s.committed i.committed_drawn;
    seen_drawn = rw append-nil (Drawn-later s.drawn s.committed i.committed_drawn);
  }

  new-IsSession :
      (item : PublishQueueItem) (s : Session)
      → item.id ≡ uuid s.drawn
      → key_taken item.idempotency_key (s.committed ++ s.flushed) ≡ false
      → IsSession s
      → IsSession (flushed_with item s)
  new-IsSession item s e new i =
      let seen = s.committed ++ s.flushed in
      record {
        committed_table = i.committed_table;
        seen_table = rw (← append_assoc s.committed s.flushed (item ∷ [])) (record {
          unique_ids =
              Unique-snoc (λ r. r.id) seen item i.seen_table.unique_ids
                (rw e (Drawn-new s.drawn seen i.seen_drawn));
          unique_keys = Unique-snoc (λ r. r.idempotency_key) seen item i.seen_table.unique_keys new;
        });
        committed_drawn = Drawn-later s.drawn s.committed i.committed_drawn;
        seen_drawn = rw (← append_assoc s.committed s.flushed (item ∷ [])) (
            All-append _ seen (item ∷ []) (Drawn-later s.drawn seen i.seen_drawn)
              ((s.drawn, omega arith, e), tt));
      }

  add_item-IsSession :
      (item : PublishQueueItem) (s : Session)
      → item.id ≡ uuid s.drawn
      → IsSession s
      → IsSession (add_item item s).1
  add_item-IsSession item s e i =
      elim (Bool-cases (key_taken item.idempotency_key (s.committed ++ s.flushed))) [
        | inl taken ↦ rw (add_item-taken item s taken) (taken-IsSession s i)
        | inr new ↦ rw (add_item-new item s new) (new-IsSession item s e new i)
      ]

  add_platforms-IsSession :
      (job_id : Text) (plan : Plan) (enabled : List Text) (b : Bool) (s : Session)
      → IsSession s
      → IsSession (add_platforms uuid job_id plan enabled b s).1
  unfolding add_platforms
  add_platforms-IsSession job_id plan [] b s i = i
  add_platforms-IsSession job_id plan (p ∷ ps) b s i =
      add_platforms-IsSession job_id plan ps _ _
        (add_item-IsSession (new_item uuid job_id plan p s.drawn) s refl i)

  add_plans-IsSession :
      (job_id : Text) (enabled : List Text) (plans : List Plan) (s : Session)
      → IsSession s
      → IsSession (add_plans uuid job_id enabled plans s).1
  unfolding add_plans
  add_plans-IsSession job_id enabled [] s i = i
  add_plans-IsSession job_id enabled (plan ∷ plans) s i =
      add_plans-IsSession job_id enabled plans _
        (add_platforms-IsSession job_id plan enabled false s i)

  -- If no identifier is drawn twice, the table meets both constraints, and its identifiers were
  -- drawn, then whatever the call is asked to queue, it leaves a table of which the same is true.
  pub enqueue_plans-IsTable :
      (job_id : Text) (enabled : List Text) (plans : List Plan) (blocked : List (Text × Text))
      (drawn : ℕ) (db : Db)
      → IsTable db.publishing_queue
      → Drawn drawn db.publishing_queue
      → let (_, db', drawn') = enqueue_plans uuid job_id enabled plans blocked drawn db in
        IsTable db'.publishing_queue × Drawn drawn' db'.publishing_queue
  unfolding enqueue_plans
  enqueue_plans-IsTable job_id enabled plans blocked drawn db t d =
      let start : IsSession (start_session db drawn) = record {
        committed_table = t;
        seen_table = rw append-nil t;
        committed_drawn = d;
        seen_drawn = rw append-nil d;
      } in
      let i = add_plans-IsSession job_id enabled plans (start_session db drawn) start in
      (i.seen_table, i.seen_drawn)
