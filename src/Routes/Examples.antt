-- ===== src/Routes/Examples.antt =====
-- The theorems about the routes at one document, whose second clip ends after the video, and at one
-- table of accounts.
mod Files
use ai_video_clip_processing.Base.{
  ℕ, ◌*◌, ◌≡◌, ◌⊎◌, refl, Bool, true, false, Option, none, some, List, [], ◌∷◌, ◌++◌, if◌then◌else◌,
  arith, Text, text_eq, codes, any, In, inl, inr, ltb, dict_get, pos, strip, strip_by, drop_while,
  is_space, sorted, starts_with, text_le,
}
use ai_video_clip_processing.Errors.{AppError, Result, ok, err, not_found, timestamp_out_of_range}
use ai_video_clip_processing.Examples.{document, validated_document, clip1, clip2, video}
use ai_video_clip_processing.Samples.{sample_config}
use ai_video_clip_processing.Schemas.Json.{
  Json, null, str, arr, obj, nil, cons, Fields, end, field, get_field,
}
use ai_video_clip_processing.Schemas.Validated.{AnalysisDocument}
use ai_video_clip_processing.Analysis.Document.{clip_required, analysis_required}
use ai_video_clip_processing.Analysis.Validator.{validate_analysis_json}
use ai_video_clip_processing.Analysis.Bounds.{has_error}
use ai_video_clip_processing.Storage.Paths.{FilePath, job_dir}
use ai_video_clip_processing.Timecode.{validate_clip_range, digit_value, other_zeros}
use ai_video_clip_processing.Jobs.Models.{ProcessingJob, queued}
use ai_video_clip_processing.Jobs.Manager.{JobManager, start_manager, new_clip}
use ai_video_clip_processing.Routes.{Host, validated_of, find_upload_source}
use ai_video_clip_processing.Routes.Jobs.{CreateJobRequest, is_missing, create_job_route}
use ai_video_clip_processing.Routes.Jobs.Wanted.{create_job_route-wanted}
use ai_video_clip_processing.Routes.Queue.{GenerateAndQueueRequest, Generated, generate_and_queue}
use ai_video_clip_processing.Routes.Queue.Within.{generate_and_queue-within}

abbrev host : Host
host = record {
  loads = λ t. none;
  model_validate = λ fields. some document;
  repr_of = λ j. codes "?";
  resolve = λ path. path;
  jobs_dir = codes "jobs" ∷ [];
  uploads_dir = codes "uploads" ∷ [];
  listing = λ path. codes "source.mp4" ∷ [];
  exists = λ path name. true;
  mkdir = λ path. true;
  probe_video = λ path. ok video;
  hash_file = λ path. ok (codes "h");
  hash_config = λ config. codes "c";
  sha256 = λ t. t;
  dumps = λ j. [];
}

-- an object with those keys
abbrev keyed_by : List Text → Fields → Fields
keyed_by [] fields = fields
keyed_by (k ∷ ks) fields = field k null (keyed_by ks fields)

abbrev body : Fields
body = field (codes "schema_version") (str (codes "1.0")) (
    field (codes "analysis") (obj (keyed_by analysis_required end))
      (field (codes "clips") (arr (cons (obj (keyed_by clip_required end)) nil)) end))

body_validated : validated_of host (some body) none ≡ ok validated_document
unfolding validate_analysis_json text_eq get_field validate_clip_range strip strip_by drop_while
    is_space digit_value other_zeros
body_validated = refl

abbrev source : FilePath
source = codes "uploads" ∷ codes "u1" ∷ codes "source.mp4" ∷ []

source_found : find_upload_source host (codes "u1") ≡ ok source
unfolding find_upload_source text_eq
source_found = refl

abbrev generate_request : GenerateAndQueueRequest
generate_request = record {
  upload_id = codes "u1";
  json_text = none;
  json_data = some body;
  config = sample_config;
  platforms = codes "youtube" ∷ codes "tiktok" ∷ [];
  interval_minutes = none;
}

abbrev empty_manager : JobManager
empty_manager = record { jobs = []; tasks = []; index = []; saved = [] }

abbrev created_job : ProcessingJob
created_job = record {
  job_id = codes "j1";
  idempotency_key = codes "h::c";
  config = sample_config;
  clips = (codes "1", new_clip clip1) ∷ [];
  status = queued;
  source_video = none;
  created_at = 7;
  error = none;
  reused = false;
}

abbrev generated : Generated
generated = record {
  job = created_job;
  skipped_clips = (codes "2", timestamp_out_of_range) ∷ [];
  publishing_platforms = codes "youtube" ∷ [];
  watched = some (codes "youtube" ∷ []);
}

generates : (generate_and_queue host generate_request (codes "j1") 7 empty_manager).0 ≡ ok generated
unfolding generate_and_queue validate_analysis_json text_eq get_field validate_clip_range strip
    strip_by drop_while is_space digit_value other_zeros job_dir
generates = refl

generate_and_queue-within_example :
    ((false ≡ true)
      ⊎ (dict_get (codes "2") created_job.clips
          ≡ (if ltb 40000000 (60 * 1000000) then none else some (new_clip clip2))))
    × (has_error (codes "2") generated.skipped_clips ≡ ltb 40000000 (60 * 1000000))
generate_and_queue-within_example =
    generate_and_queue-within host generate_request (codes "j1") 7 empty_manager validated_document
      source video generated clip2 body_validated source_found refl generates (inr (inl refl))

abbrev create_request : CreateJobRequest
create_request = record {
  upload_id = codes "u1";
  json_text = none;
  json_data = some body;
  selected_clip_ids = some (codes "2" ∷ []);
  config = sample_config;
}

create_job_route-wanted_example :
    ((any (is_missing (clip1 ∷ clip2 ∷ [])) (codes "2" ∷ []) ≡ true)
      × (create_job_route host create_request (codes "j1") 7 empty_manager
          ≡ (err not_found, empty_manager)))
    ⊎ ((any (is_missing (clip1 ∷ clip2 ∷ [])) (codes "2" ∷ []) ≡ false)
        × (((e : AppError) × ((create_job_route host create_request (codes "j1") 7 empty_manager).0
                ≡ err e))
            ⊎ ((job : ProcessingJob) × ((create_job_route host create_request
                    (codes "j1")
                    7
                    empty_manager).0
                  ≡ ok job)
                × ((job.reused ≡ true)
                    ⊎ (dict_get (codes "1") job.clips ≡ (
                        if any (λ id. text_eq id (codes "1")) (codes "2" ∷ [])
                        then some (new_clip clip1)
                        else none))))))
create_job_route-wanted_example =
    create_job_route-wanted host create_request (codes "j1") 7 empty_manager validated_document
      source (codes "2" ∷ []) clip1 body_validated refl source_found (inl refl)
