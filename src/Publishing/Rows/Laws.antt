-- ===== src/Publishing/Rows/Laws.antt =====
-- Laws of the tables: what a statement changes, and what it leaves as it was.
use mathlib.Core.Option
use ai_video_clip_processing.Base.{
  ◌≡◌, refl, ap, Bool, some, List, [], ◌∷◌, arith, if◌then◌else◌, Text, text_eq, text_eq_iff,
  text_eq_self, text_eq_sym, any, In, Bool-cases, any-In, inl, inr,
}
use ai_video_clip_processing.Publishing.Rows.{
  PublishQueueItem, get_row, update_rows, Unique, IsTable,
}

-- a statement that leaves a text of each row alone
abbrev pub KeepsText : (PublishQueueItem → Text) → (PublishQueueItem → PublishQueueItem) → Type 0
KeepsText text set = (row : PublishQueueItem) → text (set row) ≡ text row

module _ (text : PublishQueueItem → Text) (where' : PublishQueueItem → Bool)
    (set : PublishQueueItem → PublishQueueItem) (keeps : KeepsText text set) where
  pub any-update_rows :
      (key : Text) (rows : List PublishQueueItem)
      → any (λ row. text_eq (text row) key) (update_rows where' set rows)
        ≡ any (λ row. text_eq (text row) key) rows
  unfolding update_rows
  any-update_rows key [] = refl
  any-update_rows key (row ∷ rows) = ground (arith, keeps row, any-update_rows key rows)

  pub update_rows-Unique :
      (rows : List PublishQueueItem) → Unique text rows → Unique text (update_rows where' set rows)
  unfolding update_rows
  update_rows-Unique [] u = tt
  update_rows-Unique (row ∷ rows) u = elim (Bool-cases (where' row)) [
    | inl e ↦
        rw e (rw (keeps row, any-update_rows (text row) rows) u.0, update_rows-Unique rows u.1)
    | inr e ↦ rw e (rw (any-update_rows (text row) rows) u.0, update_rows-Unique rows u.1)
  ]

-- An update of one row, seen from any row.
pub get_row-update_rows :
    (set : PublishQueueItem → PublishQueueItem)
    → KeepsText (λ row. row.id) set
    → (i j : Text) (rows : List PublishQueueItem)
    → get_row j (update_rows (λ row. text_eq row.id i) set rows)
      ≡ (if text_eq i j then Option.map set (get_row j rows) else get_row j rows)
unfolding get_row update_rows
get_row-update_rows set keeps i j [] = ground arith
get_row-update_rows set keeps i j (row ∷ rows) = ground (
  arith,
  keeps row,
  text_eq_iff row.id i,
  text_eq_iff row.id j,
  text_eq_iff i j,
  get_row-update_rows set keeps i j rows,
)

pub get_row-id :
    (i : Text) (rows : List PublishQueueItem) (row : PublishQueueItem)
    → get_row i rows ≡ some row
    → row.id ≡ i
unfolding get_row
get_row-id i [] row h = cc
get_row-id i (r ∷ rows) row h = ground (arith, text_eq_iff r.id i, get_row-id i rows row)

pub get_row-In :
    (i : Text) (rows : List PublishQueueItem) (row : PublishQueueItem)
    → get_row i rows ≡ some row
    → In row rows
unfolding get_row
get_row-In i [] row h = cc
get_row-In i (r ∷ rows) row h = ground (arith, get_row-In i rows row)

-- a row is found by its identifier, if no other has it
pub get_row-of_In :
    (row : PublishQueueItem) (rows : List PublishQueueItem)
    → Unique (λ r. r.id) rows
    → In row rows
    → get_row row.id rows ≡ some row
unfolding get_row
get_row-of_In row [] u h = elim h [ ]
get_row-of_In row (r ∷ rows) u (inl e) =
    ground (arith, text_eq_self row.id, ap (λ (q : PublishQueueItem). q.id) e)
get_row-of_In row (r ∷ rows) u (inr k) = ground (
  arith,
  text_eq_sym r.id row.id,
  text_eq_iff r.id row.id,
  any-In (λ s. text_eq s.id r.id) row rows k,
  get_row-of_In row rows u.1 k,
)

module _ (where' : PublishQueueItem → Bool) (set : PublishQueueItem → PublishQueueItem)
    (keeps_id : KeepsText (λ r. r.id) set)
    (keeps_key : KeepsText (λ r. r.idempotency_key) set) where
  pub update_rows-IsTable :
      (rows : List PublishQueueItem) → IsTable rows → IsTable (update_rows where' set rows)
  update_rows-IsTable rows t = record {
    unique_ids = update_rows-Unique (λ r. r.id) where' set keeps_id rows t.unique_ids;
    unique_keys =
        update_rows-Unique (λ r. r.idempotency_key) where' set keeps_key rows t.unique_keys;
  }
