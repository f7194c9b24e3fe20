-- ===== src/Ingestion/Manager/Purge.antt =====
-- What a purge of the records of downloads drops, and how a run leaves its record.
use ai_video_clip_processing.Base.{
  ℕ, ◌≡◌, refl, false, none, some, List, [], ◌∷◌, if◌then◌else◌, Text, text_eq, text_eq_iff,
  text_eq_self, any, arith, dict_get, get-pop_all, ◌⊎◌, inl, inr,
}
use ai_video_clip_processing.Publishing.Rows.{Unique}
use ai_video_clip_processing.Errors.{AppError, ok, Result-cases}
use ai_video_clip_processing.Jobs.Models.{VideoMetadata}
use ai_video_clip_processing.Ingestion.Manager.{
  States, IngestState, IngestRun, completed, failed, run_ingest, stored_error, is_old, old_ids,
  purge_old,
}

old_ids-absent :
    (max_age now : ℕ) (id : Text) (states : States)
    → any (λ (e : Text × IngestState). text_eq e.0 id) states ≡ false
    → any (λ i. text_eq i id) (old_ids max_age now states) ≡ false
unfolding old_ids
old_ids-absent max_age now id [] h = refl
old_ids-absent max_age now id ((k, state) ∷ rest) h =
    ground (arith, h, old_ids-absent max_age now id rest)

old_ids-exact :
    (max_age now : ℕ) (id : Text) (state : IngestState) (states : States)
    → Unique (λ (e : Text × IngestState). e.0) states
    → dict_get id states ≡ some state
    → any (λ i. text_eq i id) (old_ids max_age now states) ≡ is_old max_age now state
unfolding old_ids dict_get
old_ids-exact max_age now id state [] u e = ground arith
old_ids-exact max_age now id state ((k, s) ∷ rest) u e = ground (
  arith,
  e,
  u,
  text_eq_iff k id,
  text_eq_self id,
  old_ids-absent max_age now id rest,
  old_ids-exact max_age now id state rest u.1,
)

-- A purge drops a record exactly if its download has ended and it is older than the age: one that is
-- still downloading stays however old it is.
pub purge_old-exact :
    (max_age now : ℕ) (id : Text) (state : IngestState) (states : States)
    → Unique (λ (e : Text × IngestState). e.0) states
    → dict_get id states ≡ some state
    → dict_get id (purge_old max_age now states).1
      ≡ (if is_old max_age now state then none else some state)
unfolding purge_old
purge_old-exact max_age now id state states u e = ground (
  arith,
  e,
  get-pop_all id (old_ids max_age now states) states,
  old_ids-exact max_age now id state states u e,
)

-- A run ends the download: it is completed under the new upload with what ffprobe says of the file,
-- and keeps the files, or it is failed with an error, and no file is left.
pub run_ingest-ends :
    (run : IngestRun) (files : List Text) (state : IngestState)
    → let (state', files') = run_ingest run files state in
      ((state'.status ≡ completed)
        × (state'.upload_id ≡ some run.new_upload_id)
        × (files' ≡ files)
        × (name : Text) × (metadata : VideoMetadata) × (run.obtained ≡ ok name)
        × (run.probed ≡ ok metadata)
        × (state'.video ≡ some metadata))
      ⊎ ((state'.status ≡ failed) × (files' ≡ []) × (e : AppError) × (state'.error ≡ some e))
unfolding run_ingest
run_ingest-ends run files state = elim (Result-cases run.obtained) [
  | inl (e, k) ↦ inr (rw k (refl, refl, stored_error e, refl))
  | inr (name, k) ↦ elim (Result-cases run.probed) [
    | inl (e, l) ↦ inr (rw (k, l) (refl, refl, stored_error e, refl))
    | inr (metadata, l) ↦ inl (rw (k, l) (refl, refl, refl, name, metadata, refl, refl, refl))
  ]
]
