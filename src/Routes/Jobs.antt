-- ===== src/Routes/Jobs.antt =====
-- backend/app/api/routes_jobs.py: `create_job`, `list_jobs`, `get_job`, `cancel_job`, `download_clip` and
-- `download_all`. A job is given as it is, in place of its public dict.
pub mod Wanted
use ai_video_clip_processing.Base.{
  ℕ, Bool, true, false, not, ◌&&◌, ◌||◌, Option, none, some, List, [], ◌∷◌, ◌++◌, if◌then◌else◌,
  Text, text_eq, codes, any, select, dict_get, dict_values,
}
use ai_video_clip_processing.Errors.{Result, ok, err, not_found, ◌>>=◌}
use ai_video_clip_processing.Schemas.Json.{Fields}
use ai_video_clip_processing.Schemas.Validated.{ValidatedClip}
use ai_video_clip_processing.Schemas.ProcessingConfig.{ProcessingConfig}
use ai_video_clip_processing.Storage.Paths.{FilePath, job_dir}
use ai_video_clip_processing.Jobs.Models.{ClipJob, ProcessingJob, clip_completed}
use ai_video_clip_processing.Jobs.Manager.{JobManager, get_job}
use ai_video_clip_processing.Routes.{Host, validated_of, find_upload_source, create_keyed_job}

pub record CreateJobRequest : Type 0 where
  pub upload_id : Text
  pub json_text : Option Text
  pub json_data : Option Fields
  pub selected_clip_ids : Option (List Text)
  pub config : ProcessingConfig

-- `c.clip_id in wanted`, and `wanted - {c.clip_id for c in selected}`
abbrev pub is_wanted : List Text → ValidatedClip → Bool
is_wanted wanted c = any (λ id. text_eq id c.clip_id) wanted

abbrev pub is_missing : List ValidatedClip → Text → Bool
is_missing clips id = not (any (λ c. text_eq c.clip_id id) clips)

-- the clips of the new job
unfoldable pub select_clips : Option (List Text) → List ValidatedClip → Result (List ValidatedClip)
select_clips none clips = ok clips
select_clips (some wanted) clips =
    let selected = select (is_wanted wanted) clips in
    if any (is_missing selected) wanted then err not_found else ok selected

abbrev pub with_source :
    Host
    → CreateJobRequest
    → Text
    → ℕ
    → JobManager
    → Result (List ValidatedClip × FilePath)
    → Result ProcessingJob × JobManager
with_source host payload job_id now m (err e) = (err e, m)
with_source host payload job_id now m (ok (selected, source_path)) =
    create_keyed_job host job_id source_path selected payload.config now m

-- what the job is made of, or the error that is raised before it
abbrev pub selection_of : Host → CreateJobRequest → Result (List ValidatedClip × FilePath)
selection_of host payload = do
  validated ← validated_of host payload.json_data payload.json_text
  selected ← select_clips payload.selected_clip_ids validated.clips
  source_path ← find_upload_source host payload.upload_id
  ok (selected, source_path)

-- `create_job`
unfoldable pub create_job_route :
    Host → CreateJobRequest → Text → ℕ → JobManager → Result ProcessingJob × JobManager
unfolding find_upload_source select_clips create_keyed_job
create_job_route host payload job_id now m =
    with_source host payload job_id now m (selection_of host payload)

-- `clip_job.output_file` of a clip that is completed and has one
abbrev pub output_of : ClipJob → Option Text
output_of cj = if clip_completed cj.status then non_empty cj.output_file else none
  where
    non_empty : Option Text → Option Text
    non_empty none = none
    non_empty (some []) = none
    non_empty (some (c ∷ s)) = some (c ∷ s)

-- `jdir / name`, where the file exists
abbrev existing : Host → FilePath → Text → List Text
existing host jdir name = if host.exists jdir name then name ∷ [] else []

-- `download_clip`: the directory and the name of the file
unfoldable pub download_clip : Host → Text → Text → JobManager → Result (FilePath × Text)
unfolding get_job dict_get
download_clip host job_id clip_id m = do
  job ← get_job job_id m
  jdir ← job_dir host.resolve host.jobs_dir host.uploads_dir job_id
  found jdir (dict_get clip_id job.clips)
  where
    there : FilePath → Option Text → Result (FilePath × Text)
    there jdir none = err not_found
    there jdir (some name) = if host.exists jdir name then ok (jdir, name) else err not_found

    found : FilePath → Option ClipJob → Result (FilePath × Text)
    found jdir none = err not_found
    found jdir (some cj) = there jdir (output_of cj)

abbrev metadata_name : Text → Text
metadata_name clip_id = codes "clip_" ++ (clip_id ++ codes "_metadata.json")

-- the entries of the archive for one clip
abbrev archive_clip : Host → FilePath → ClipJob → List Text
archive_clip host jdir cj = by_output (output_of cj)
  where
    by_output : Option Text → List Text
    by_output none = []
    by_output (some name) =
        existing host jdir name ++ existing host jdir (metadata_name cj.clip.clip_id)

unfoldable pub archive : Host → FilePath → List ClipJob → List Text
archive host jdir [] = []
archive host jdir (cj ∷ rest) = archive_clip host jdir cj ++ archive host jdir rest

-- `download_all`: the names of the files in the archive
unfoldable pub download_all : Host → Text → JobManager → Result (List Text)
unfolding get_job archive
download_all host job_id m = do
  job ← get_job job_id m
  jdir ← job_dir host.resolve host.jobs_dir host.uploads_dir job_id
  ok (archive host jdir (dict_values job.clips))
