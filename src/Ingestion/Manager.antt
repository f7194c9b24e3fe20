-- ===== src/Ingestion/Manager.antt =====
-- backend/app/video_ingestion/ingest_manager.py. The percentage of a download is left out.
pub mod Purge
use ai_video_clip_processing.Base.{
  ℕ, zero, suc, ◌+◌, ◌*◌, ltb, Bool, true, false, not, ◌&&◌, ◌||◌, Option, none, some, List, [],
  ◌∷◌, ◌++◌, if◌then◌else◌, Text, text_eq, codes, any, default_to, length, dict_get, dict_set,
  dict_pop_all,
}
use ai_video_clip_processing.Errors.{
  AppError, Result, ok, err, not_found, unknown_error, video_download_failed, ◌>>=◌, ◌>>◌,
}
use ai_video_clip_processing.Jobs.Models.{VideoMetadata}
use ai_video_clip_processing.Storage.Cleanup.{check_storage_quota}

pub data IngestStatus : Type 0 where
  downloading completed failed : IngestStatus

pub record IngestState : Type 0 where
  pub ingest_id : Text
  pub status : IngestStatus
  pub created_at : ℕ
  pub downloaded_bytes : ℕ
  pub total_bytes : Option ℕ
  pub upload_id : Option Text
  pub filename : Option Text
  pub source_type : Option Text
  pub video : Option VideoMetadata
  pub error : Option AppError

-- the records by their identifiers
abbrev pub States : Type 0
States = List (Text × IngestState)

abbrev found_state : Option IngestState → Result IngestState
found_state none = err not_found
found_state (some state) = ok state

unfoldable pub get_ingest : Text → States → Result IngestState
unfolding dict_get
get_ingest ingest_id states = found_state (dict_get ingest_id states)

abbrev pub new_ingest : Text → ℕ → IngestState
new_ingest ingest_id now = record {
  ingest_id = ingest_id;
  status = downloading;
  created_at = now;
  downloaded_bytes = 0;
  total_bytes = none;
  upload_id = none;
  filename = none;
  source_type = none;
  video = none;
  error = none;
}

-- `start` under the identifier and at the time that it would draw, with the sizes of all stored files
unfoldable pub start_ingest :
    (sizes : List ℕ) (max_upload quota : ℕ) → Text → ℕ → States → Result (IngestState × States)
unfolding check_storage_quota dict_set
start_ingest sizes max_upload quota ingest_id now states =
    check_storage_quota sizes max_upload quota
    >> ok (new_ingest ingest_id now, dict_set ingest_id (new_ingest ingest_id now) states)

-- What a run meets: the calls of the progress callback in their order, the name of the file that the
-- source obtained, and what ffprobe says of it.
pub record IngestRun : Type 0 where
  pub new_upload_id : Text
  pub source_type : Text
  pub progress : List (ℕ × Option ℕ)
  pub obtained : Result Text
  pub probed : Result VideoMetadata

abbrev pub on_progress : IngestState → ℕ × Option ℕ → IngestState
on_progress state (downloaded, total) = record state {
  downloaded_bytes = downloaded;
  total_bytes = total;
}

unfoldable pub report_all : List (ℕ × Option ℕ) → IngestState → IngestState
report_all [] state = state
report_all (p ∷ ps) state = report_all ps (on_progress state p)

-- the code that is stored for an exception: one that is no `AppError` counts as a failed download
abbrev pub stored_error : AppError → AppError
stored_error unknown_error = video_download_failed
stored_error e = e

-- `state.total_bytes or state.downloaded_bytes`
abbrev known_size : Option ℕ → ℕ → ℕ
known_size none downloaded = downloaded
known_size (some zero) downloaded = downloaded
known_size (some (suc n)) downloaded = suc n

abbrev after_probe : IngestRun → IngestState → Result (Text × VideoMetadata) → IngestState
after_probe run state (err e) = record state { status = failed; error = some (stored_error e) }
after_probe run state (ok (name, metadata)) = record state {
  status = completed;
  upload_id = some run.new_upload_id;
  filename = some name;
  source_type = some run.source_type;
  video = some metadata;
  downloaded_bytes = known_size state.total_bytes state.downloaded_bytes;
}

-- the two awaited calls of `_run`
abbrev pub fetch_and_probe : IngestRun → Result (Text × VideoMetadata)
fetch_and_probe run = run.obtained >>= λ name. run.probed >>= λ metadata. ok (name, metadata)

-- the files of the upload's directory at the end: a failure removes them all
abbrev pub files_after : Result (Text × VideoMetadata) → List Text → List Text
files_after (ok _) files = files
files_after (err _) files = []

-- `_run`, with the files that the source left in the directory of the upload
unfoldable pub run_ingest : IngestRun → List Text → IngestState → IngestState × List Text
unfolding report_all
run_ingest run files state =
    let result = fetch_and_probe run in
    (after_probe run (report_all run.progress state) result, files_after result files)

abbrev pub is_finished : IngestStatus → Bool
is_finished downloading = false
is_finished completed = true
is_finished failed = true

-- a record that `purge_old` drops
abbrev pub is_old : (max_age now : ℕ) → IngestState → Bool
is_old max_age now state = is_finished state.status && ltb (state.created_at + max_age) now

unfoldable pub old_ids : (max_age now : ℕ) → States → List Text
old_ids max_age now [] = []
old_ids max_age now ((id, state) ∷ rest) =
    if is_old max_age now state then id ∷ old_ids max_age now rest else old_ids max_age now rest

-- `purge_old`
unfoldable pub purge_old : (max_age now : ℕ) → States → ℕ × States
unfolding old_ids dict_pop_all
purge_old max_age now states =
    let stale = old_ids max_age now states in (length stale, dict_pop_all stale states)
