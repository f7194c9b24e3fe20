-- ===== src/Publishing/Machine.antt =====
-- What the publishing queue promises of its items, without dates, attempts, accounts and posts: an item
-- keeps its place and what it is about, and only its status moves. The moves are those of
-- backend/app/publishing/queue_manager.py and worker.py, on statuses alone.
use ai_video_clip_processing.Base.{
  ℕ, Option, Text, codes, ◌≡◌, ◌≢◌, ◌∙◌, refl, Bool, true, false, List, [], ◌∷◌, ◌++◌, All,
  All-implied, In, Bool-cases, subst, sym, inl, inr,
}
use ai_video_clip_processing.Publishing.Rows.{
  QueueStatus, waiting, publishing, published, paused, cancelled, is_due, PublishQueueItem,
  update_rows,
}

-- how the worker leaves an item that it is done with
abbrev pub is_settled : QueueStatus → Bool
is_settled waiting = false
is_settled publishing = false
is_settled paused = false
is_settled _ = true

-- what the service does, on one item where an identifier is given
pub data Action : Type 0 where
  enqueues pauses resumes claims : Action
  retries brings_forward cancels resolves : (id : Text) → Action

-- what an action may do to the status of the item `id`
pub data Move : (id : Text) → Action → QueueStatus → QueueStatus → Type 0 where
  pause : {id : Text} {s : QueueStatus} → is_due s ≡ true → Move id pauses s paused
  claim : {id : Text} {s : QueueStatus} → is_due s ≡ true → Move id claims s publishing
  resume : {id : Text} {s : QueueStatus} → s ≢ published → Move id resumes s waiting
  retry : {id : Text} {s : QueueStatus} → s ≢ published → Move id (retries id) s waiting
  bring_forward :
      {id : Text} {s : QueueStatus} → s ≢ published → Move id (brings_forward id) s waiting
  cancel : {id : Text} {s : QueueStatus} → Move id (cancels id) s cancelled
  settle : {id : Text} {s t : QueueStatus} → is_settled t ≡ true → Move id (resolves id) s t

-- The way of an item through the actions of a run, the last of which is the first of the list: each of
-- them moves the item once, as far as it may, or not at all.
pub data Moves (id : Text) : List Action → QueueStatus → QueueStatus → Type 0 where
  stay : {s : QueueStatus} → Moves id [] s s
  idle :
      {s t : QueueStatus} {a : Action} {log : List Action}
      → Moves id log s t
      → Moves id (a ∷ log) s t
  then_move :
      {s t u : QueueStatus} {a : Action} {log : List Action}
      → Moves id log s t
      → Move id a t u
      → Moves id (a ∷ log) s u

-- no action of the run moves the item
pub unmoved : {id : Text} {s : QueueStatus} (log : List Action) → Moves id log s s
unmoved [] = stay
unmoved (a ∷ log) = idle (unmoved log)

pub Moves-trans :
    {id : Text} {s t u : QueueStatus} {log log' : List Action}
    → Moves id log s t
    → Moves id log' t u
    → Moves id (log' ++ log) s u
Moves-trans p stay = p
Moves-trans p (idle q) = idle (Moves-trans p q)
Moves-trans p (then_move q m) = then_move (Moves-trans p q) m

-- what an item is about
pub record Same (row row' : PublishQueueItem) : Type 0 where
  pub id : row'.id ≡ row.id
  pub job_id : row'.job_id ≡ row.job_id
  pub clip_id : row'.clip_id ≡ row.clip_id
  pub platform : row'.platform ≡ row.platform
  pub idempotency_key : row'.idempotency_key ≡ row.idempotency_key
  pub output_file_path : row'.output_file_path ≡ row.output_file_path
  pub metadata_json : row'.metadata_json ≡ row.metadata_json

pub Same-refl : (row : PublishQueueItem) → Same row row
Same-refl row = record {
  id = refl;
  job_id = refl;
  clip_id = refl;
  platform = refl;
  idempotency_key = refl;
  output_file_path = refl;
  metadata_json = refl;
}

-- a write to the other columns
pub Same-written :
    (row : PublishQueueItem) (date : ℕ) (status : QueueStatus) (attempts : ℕ) (error : Option Text)
    (post : Option Text) (instant : Option ℕ)
    → Same row (record row {
      scheduled_at = date;
      status = status;
      attempt_count = attempts;
      last_error = error;
      external_post_id = post;
      published_at = instant;
    })
Same-written row date status attempts error post instant = record {
  id = refl;
  job_id = refl;
  clip_id = refl;
  platform = refl;
  idempotency_key = refl;
  output_file_path = refl;
  metadata_json = refl;
}

pub Same-trans : (a b c : PublishQueueItem) → Same a b → Same b c → Same a c
Same-trans a b c s t = record {
  id = t.id ∙ s.id;
  job_id = t.job_id ∙ s.job_id;
  clip_id = t.clip_id ∙ s.clip_id;
  platform = t.platform ∙ s.platform;
  idempotency_key = t.idempotency_key ∙ s.idempotency_key;
  output_file_path = t.output_file_path ∙ s.output_file_path;
  metadata_json = t.metadata_json ∙ s.metadata_json;
}

abbrev pub Follows : List Action → PublishQueueItem → PublishQueueItem → Type 0
Follows log row row' = Same row row' × Moves row.id log row.status row'.status

-- the key of an item says its job, its clip and its platform
abbrev pub IsKeyed : PublishQueueItem → Type 0
IsKeyed row =
    row.idempotency_key ≡ row.job_id ++ (codes ":" ++ (row.clip_id ++ (codes ":" ++ row.platform)))

IsKeyed-same : (a b : PublishQueueItem) → Same a b → IsKeyed a → IsKeyed b
IsKeyed-same a b s k = rw (s.idempotency_key, s.job_id, s.clip_id, s.platform) k

-- a new item has its key and begins WAITING
abbrev pub IsBorn : List Action → PublishQueueItem → Type 0
IsBorn log row = IsKeyed row × Moves row.id log waiting row.status

-- The table after the actions of a run: each row in its place, and new rows behind them.
abbrev pub Evolves : List Action → List PublishQueueItem → List PublishQueueItem → Type 0
Evolves log [] rows' = All (IsBorn log) rows'
Evolves log (row ∷ rows) [] = ⊥
Evolves log (row ∷ rows) (row' ∷ rows') = Follows log row row' × Evolves log rows rows'

pub Evolves-refl : (log : List Action) (rows : List PublishQueueItem) → Evolves log rows rows
Evolves-refl log [] = tt
Evolves-refl log (row ∷ rows) = ((Same-refl row, unmoved log), Evolves-refl log rows)

Follows-trans :
    {log log' : List Action} (a b c : PublishQueueItem)
    → Follows log a b
    → Follows log' b c
    → Follows (log' ++ log) a c
Follows-trans {log' = log'} a b c (s, p) (t, q) =
    (Same-trans a b c s t, Moves-trans p (subst (λ id. Moves id log' b.status c.status) s.id q))

IsBorn-later :
    (log log' : List Action) (rows rows' : List PublishQueueItem)
    → All (IsBorn log) rows
    → Evolves log' rows rows'
    → All (IsBorn (log' ++ log)) rows'
IsBorn-later log log' [] rows' b e =
    All-implied (IsBorn log') (IsBorn (log' ++ log)) rows'
      (λ row (k, p). (k, Moves-trans (unmoved log) p)) e
IsBorn-later log log' (row ∷ rows) [] b e = tt
IsBorn-later log log' (row ∷ rows) (row' ∷ rows') ((k, p), b) ((same, q), e) = (
  (
    IsKeyed-same row row' same k,
    subst (λ id. Moves id (log' ++ log) waiting row'.status) (sym same.id) (Moves-trans p q),
  ),
  IsBorn-later log log' rows rows' b e,
)

pub Evolves-trans :
    (log log' : List Action) (a b c : List PublishQueueItem)
    → Evolves log a b
    → Evolves log' b c
    → Evolves (log' ++ log) a c
Evolves-trans log log' [] b c e f = IsBorn-later log log' b c e f
Evolves-trans log log' (x ∷ a) [] c e f = absurd e
Evolves-trans log log' (x ∷ a) (y ∷ b) [] e f = absurd f
Evolves-trans log log' (x ∷ a) (y ∷ b) (z ∷ c) e f =
    (Follows-trans x y z e.0 f.0, Evolves-trans log log' a b c e.1 f.1)

-- an item that is claimed is not due, and so two claims move it once at most
claimed_once :
    {id : Text} {s t : QueueStatus}
    → Moves id (claims ∷ claims ∷ []) s t
    → Moves id (claims ∷ []) s t
claimed_once (idle p) = p
claimed_once (then_move (idle stay) m) = then_move stay m
claimed_once (then_move (then_move stay (claim d)) (claim d')) = absurd (cc)

pub Evolves-claims :
    (a b : List PublishQueueItem) → Evolves (claims ∷ claims ∷ []) a b → Evolves (claims ∷ []) a b
Evolves-claims [] b e =
    All-implied (IsBorn (claims ∷ claims ∷ [])) (IsBorn (claims ∷ [])) b
      (λ row (k, p). (k, claimed_once p)) e
Evolves-claims (x ∷ a) [] e = absurd e
Evolves-claims (x ∷ a) (y ∷ b) e = ((e.0.0, claimed_once e.0.1), Evolves-claims a b e.1)

-- a statement that moves the rows that it takes
pub update_rows-Evolves :
    (log : List Action) (where' : PublishQueueItem → Bool)
    (set : PublishQueueItem → PublishQueueItem) (rows : List PublishQueueItem)
    → ((row : PublishQueueItem) → In row rows → where' row ≡ true → Follows log row (set row))
    → Evolves log rows (update_rows where' set rows)
unfolding update_rows
update_rows-Evolves log where' set [] f = tt
update_rows-Evolves log where' set (row ∷ rows) f =
    let rest = update_rows-Evolves log where' set rows (λ r k. f r (inr k)) in
    elim (Bool-cases (where' row)) [
      | inl h ↦ rw h (f row (inl refl) h, rest)
      | inr h ↦ rw h ((Same-refl row, unmoved log), rest)
    ]

-- new rows behind the others
pub append-Evolves :
    (log : List Action) (rows new : List PublishQueueItem)
    → All (IsBorn log) new
    → Evolves log rows (rows ++ new)
append-Evolves log [] new b = b
append-Evolves log (row ∷ rows) new b =
    ((Same-refl row, unmoved log), append-Evolves log rows new b)
