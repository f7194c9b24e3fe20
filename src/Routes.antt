-- ===== src/Routes.antt =====
-- backend/app/api: what the handlers of the HTTP routes do with a request, and the jobs, the clips and
-- the files behind them. The framework, which parses a body and renders an answer, is left out.
pub mod Jobs
mod Examples
pub mod Queue
pub mod Selected
pub mod Uploads
use ai_video_clip_processing.Base.{
  ℕ, Bool, Option, none, some, List, [], ◌∷◌, ◌++◌, Text, codes, text_le, starts_with, select,
  sorted,
}
use ai_video_clip_processing.Errors.{Result, ok, err, invalid_json, video_not_found, ◌>>=◌}
use ai_video_clip_processing.Schemas.Json.{Json, obj, Fields}
use ai_video_clip_processing.Schemas.Validated.{AnalysisDocument, ValidatedAnalysis, ValidatedClip}
use ai_video_clip_processing.Schemas.ProcessingConfig.{ProcessingConfig}
use ai_video_clip_processing.Analysis.Document.{Raw, text, parsed}
use ai_video_clip_processing.Analysis.Validator.{validate_analysis_json}
use ai_video_clip_processing.Storage.Paths.{FilePath, job_dir, upload_dir}
use ai_video_clip_processing.Jobs.Models.{VideoMetadata, ProcessingJob}
use ai_video_clip_processing.Jobs.Hashing.{hash_clips, compute_idempotency_key}
use ai_video_clip_processing.Jobs.Manager.{JobManager, create_job}

-- What the routes rely on: `json.loads` and Pydantic's check, Python's text of a value, the file system,
-- ffprobe as `probe_video` reads it, and the hashes of files, clips and configurations.
pub record Host : Type 0 where
  pub loads : Text → Option Json
  pub model_validate : Fields → Option AnalysisDocument
  pub repr_of : Json → Text
  pub resolve : FilePath → FilePath
  pub jobs_dir : FilePath
  pub uploads_dir : FilePath
  pub listing : FilePath → List Text  -- the names in a directory, none if it is missing
  pub exists : FilePath → Text → Bool
  pub mkdir : FilePath → Bool
  pub probe_video : FilePath → Result VideoMetadata
  pub hash_file : FilePath → Result Text
  pub hash_config : ProcessingConfig → Text
  pub sha256 : Text → Text
  pub dumps : Json → Text

-- `payload.json_data if payload.json_data is not None else payload.json_text`
abbrev pub raw_of : Option Fields → Option Text → Result Raw
raw_of (some fields) json_text = ok (parsed (obj fields))
raw_of none (some t) = ok (text t)
raw_of none none = err invalid_json

abbrev pub validated_of : Host → Option Fields → Option Text → Result ValidatedAnalysis
validated_of host json_data json_text = do
  raw ← raw_of json_data json_text
  validate_analysis_json host.loads host.model_validate host.repr_of raw

-- `find_upload_source` of backend/app/storage/paths.py
unfoldable pub find_upload_source : Host → Text → Result FilePath
unfolding upload_dir starts_with text_le sorted
find_upload_source host upload_id = do
  directory ← upload_dir host.resolve host.jobs_dir host.uploads_dir upload_id
  first_of directory
      (sorted text_le (select (starts_with (codes "source.")) (host.listing directory)))
  where
    first_of : FilePath → List Text → Result FilePath
    first_of directory [] = err video_not_found
    first_of directory (name ∷ _) = ok (directory ++ (name ∷ []))

-- by the hash of the source
abbrev keyed :
    Host
    → Text
    → List ValidatedClip
    → ProcessingConfig
    → ℕ
    → JobManager
    → Result Text
    → Result ProcessingJob × JobManager
keyed host job_id clips config now m (err e) = (err e, m)
keyed host job_id clips config now m (ok source_hash) =
    create_job (job_dir host.resolve host.jobs_dir host.uploads_dir) host.exists host.mkdir job_id
      (compute_idempotency_key host.sha256 host.dumps source_hash
        (hash_clips host.sha256 host.dumps clips) (host.hash_config config))
      clips config now m

-- `create_job` of backend/app/jobs/manager.py with the key that it computes, under the identifier and at
-- the time that it would draw
unfoldable pub create_keyed_job :
    Host
    → Text
    → FilePath
    → List ValidatedClip
    → ProcessingConfig
    → ℕ
    → JobManager
    → Result ProcessingJob × JobManager
unfolding create_job hash_clips compute_idempotency_key
create_keyed_job host job_id upload_path clips config now m =
    keyed host job_id clips config now m (host.hash_file upload_path)
