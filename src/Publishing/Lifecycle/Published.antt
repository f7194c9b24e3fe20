-- ===== src/Publishing/Lifecycle/Published.antt =====
-- What `Publishing.Machine` means for an item that is published.
use ai_video_clip_processing.Base.{
  ℕ, ◌≡◌, ◌≤◌, refl, subst, Bool, true, not, some, List, [], ◌∷◌, arith, Text, text_eq, text_eq_iff,
  text_eq_self, All, Bool-cases, inl, inr,
}
use ai_video_clip_processing.Publishing.Rows.{QueueStatus, published, PublishQueueItem, Db, get_row}
use ai_video_clip_processing.Publishing.Machine.{
  Action, cancels, resolves, Move, pause, claim, resume, retry, bring_forward, cancel, settle,
  Moves, stay, idle, then_move, Evolves,
}
use ai_video_clip_processing.Publishing.Settings.{Settings}
use ai_video_clip_processing.Publishing.Lifecycle.{Reach}
use ai_video_clip_processing.Publishing.Lifecycle.Log.{log_of}
use ai_video_clip_processing.Publishing.Lifecycle.Constraints.{IsQueue}
use ai_video_clip_processing.Publishing.Lifecycle.Refinement.{Reach-Evolves}

-- an action that neither cancels or skips the item nor ends a round of the worker on it
abbrev pub spares : Text → Action → Bool
spares id (cancels i) = not (text_eq i id)
spares id (resolves i) = not (text_eq i id)
spares id _ = true

-- the item with that identifier later on
Evolves-get :
    (log : List Action) (id : Text) (row : PublishQueueItem) (rows rows' : List PublishQueueItem)
    → get_row id rows ≡ some row
    → Evolves log rows rows'
    → (row' : PublishQueueItem) × (get_row id rows' ≡ some row')
      × Moves id log row.status row'.status
unfolding get_row
Evolves-get log id row [] rows' g e = absurd (cc)
Evolves-get log id row (x ∷ rows) [] g e = absurd e
Evolves-get log id row (x ∷ rows) (y ∷ rows') g ((same, moves), e) =
    elim (Bool-cases (text_eq x.id id)) [
      | inl h ↦
          let named : x.id ≡ id = (text_eq_iff x.id id).0 h in
          let found : x ≡ row = ground (arith, g, h) in
          (
            y,
            rw (same.id, h) refl,
            subst (λ (r : PublishQueueItem). Moves id log r.status y.status) found
                (subst (λ i. Moves i log x.status y.status) named moves),
          )
      | inr h ↦
          let there : get_row id rows ≡ some row = ground (arith, g, h) in
          rw (same.id, h) (Evolves-get log id row rows rows' there e)
    ]

Move-published :
    (id : Text) (a : Action) (s t : QueueStatus)
    → spares id a ≡ true
    → s ≡ published
    → Move id a s t
    → t ≡ published
Move-published id a s t h e (pause d) = absurd (cc)
Move-published id a s t h e (claim d) = absurd (cc)
Move-published id a s t h e (resume n) = absurd (n e)
Move-published id a s t h e (retry n) = absurd (n e)
Move-published id a s t h e (bring_forward n) = absurd (n e)
Move-published id a s t h e cancel = absurd (ground (arith, h, text_eq_self id))
Move-published id a s t h e (settle d) = absurd (ground (arith, h, text_eq_self id))

Moves-published :
    (id : Text) (log : List Action) (s t : QueueStatus)
    → All (λ a. spares id a ≡ true) log
    → s ≡ published
    → Moves id log s t
    → t ≡ published
Moves-published id log s t k e stay = e
Moves-published id log s t k e (idle p) = Moves-published id _ s t k.1 e p
Moves-published id log s u k e (then_move {t = t} p m) =
    Move-published id _ t u k.0 (Moves-published id _ s t k.1 e p) m

module _ (uuid : ℕ → Text) (injective : (m n : ℕ) → uuid m ≡ uuid n → m ≡ n) (settings : Settings)
    (wait : 5 ≤ settings.default_quota_wait_minutes) where
  -- With a quota wait of at least five minutes, and no identifier drawn twice: from a state whose table
  -- meets its constraints, an item that is PUBLISHED is there and PUBLISHED after every run of the
  -- service in which it is not cancelled or skipped and no round of the worker on it ends.
  pub Reach-keeps_published :
      (db db' : Db) (drawn drawn' : ℕ) (item_id : Text) (row : PublishQueueItem)
      → IsQueue uuid injective db drawn
      → get_row item_id db.publishing_queue ≡ some row
      → row.status ≡ published
      → (r : Reach settings uuid (db, drawn) (db', drawn'))
      → All (λ a. spares item_id a ≡ true) (log_of settings uuid r)
      → (row' : PublishQueueItem) × (get_row item_id db'.publishing_queue ≡ some row')
        × (row'.status ≡ published)
  Reach-keeps_published db db' drawn drawn' item_id row q g p r k =
      let (row', found, moves) =
        Evolves-get (log_of settings uuid r) item_id row db.publishing_queue db'.publishing_queue g
          (Reach-Evolves uuid injective settings wait db db' drawn drawn' q r) in
      (
        row',
        found,
        Moves-published item_id (log_of settings uuid r) row.status row'.status k p moves,
      )
