-- ===== src/Routes/Selected.antt =====
-- Which clips of a document a new job holds.
use ai_video_clip_processing.Base.{
  ℕ, ◌≡◌, ◌∙◌, refl, sym, ap, Bool, true, false, none, some, List, [], ◌∷◌, arith, if◌then◌else◌,
  Text, text_eq, text_eq_self, text_eq_sym, any, any-In, In, In-of_select, select, dict_get,
  dict_set, get-set, Bool-cases, inl, inr, ◌⊎◌,
}
use ai_video_clip_processing.Errors.{Result, ok, ◌>>=◌, bind-ok, Result-cases}
use ai_video_clip_processing.Schemas.Validated.{ValidatedClip, ValidatedAnalysis}
use ai_video_clip_processing.Schemas.ProcessingConfig.{ProcessingConfig}
use ai_video_clip_processing.Analysis.Document.{Raw}
use ai_video_clip_processing.Analysis.Validator.{validate_analysis_json}
use ai_video_clip_processing.Analysis.Validator.Distinct.{
  IsDistinct, validate_analysis_json-IsDistinct,
}
use ai_video_clip_processing.Publishing.Rows.{Unique}
use ai_video_clip_processing.Storage.Paths.{FilePath}
use ai_video_clip_processing.Jobs.Models.{ProcessingJob, ClipJob}
use ai_video_clip_processing.Jobs.Manager.{JobManager, clips_from, new_clip, new_job}
use ai_video_clip_processing.Storage.Paths.{job_dir}
use ai_video_clip_processing.Jobs.Hashing.{hash_clips, compute_idempotency_key}
use ai_video_clip_processing.Jobs.Manager.Reuse.{create_job-new}
use ai_video_clip_processing.Routes.{Host, keyed, create_keyed_job}

-- a clip of the selection is in the dict of the job, and no other clip
clips_from-absent :
    (id : Text) (d : List (Text × ClipJob)) (clips : List ValidatedClip)
    → any (λ c. text_eq c.clip_id id) clips ≡ false
    → dict_get id (clips_from d clips) ≡ dict_get id d
unfolding clips_from
clips_from-absent id d [] h = refl
clips_from-absent id d (c ∷ clips) h = ground (
  arith,
  h,
  clips_from-absent id (dict_set c.clip_id (new_clip c) d) clips,
  get-set id c.clip_id (new_clip c) d,
)

clips_from-own :
    (clip : ValidatedClip) (d : List (Text × ClipJob)) (clips : List ValidatedClip)
    → Unique (λ c. c.clip_id) clips
    → In clip clips
    → dict_get clip.clip_id (clips_from d clips) ≡ some (new_clip clip)
unfolding clips_from
clips_from-own clip d [] u h = elim h [ ]
clips_from-own clip d (c ∷ clips) u (inl e) =
    let first : dict_get c.clip_id (clips_from (dict_set c.clip_id (new_clip c) d) clips)
        ≡ some (new_clip c) =
      ground (
        arith,
        text_eq_self c.clip_id,
        clips_from-absent c.clip_id (dict_set c.clip_id (new_clip c) d) clips,
        get-set c.clip_id c.clip_id (new_clip c) d,
        u.0,
      ) in
    rw e first
clips_from-own clip d (c ∷ clips) u (inr k) =
    clips_from-own clip (dict_set c.clip_id (new_clip c) d) clips u.1 k

select-absent :
    (test : ValidatedClip → Bool) (id : Text) (clips : List ValidatedClip)
    → any (λ c. text_eq c.clip_id id) clips ≡ false
    → any (λ c. text_eq c.clip_id id) (select test clips) ≡ false
select-absent test id [] h = refl
select-absent test id (c ∷ clips) h = ground (arith, h, select-absent test id clips)

select-Unique :
    (test : ValidatedClip → Bool) (clips : List ValidatedClip)
    → Unique (λ c. c.clip_id) clips
    → Unique (λ c. c.clip_id) (select test clips)
select-Unique test [] u = tt
select-Unique test (c ∷ clips) u = elim (Bool-cases (test c)) [
  | inl e ↦ rw e (select-absent test c.clip_id clips u.0, select-Unique test clips u.1)
  | inr e ↦ rw e (select-Unique test clips u.1)
]

-- of clips with distinct identifiers, one that does not pass leaves its identifier to no other
select-rejected :
    (test : ValidatedClip → Bool) (clip : ValidatedClip) (clips : List ValidatedClip)
    → Unique (λ c. c.clip_id) clips
    → In clip clips
    → test clip ≡ false
    → any (λ c. text_eq c.clip_id clip.clip_id) (select test clips) ≡ false
select-rejected test clip [] u h t = elim h [ ]
select-rejected test clip (c ∷ clips) u (inl e) t =
    rw (← e, t) (select-absent test clip.clip_id clips (rw e u.0))
select-rejected test clip (c ∷ clips) u (inr k) t = ground (
  arith,
  t,
  u.0,
  text_eq_sym c.clip_id clip.clip_id,
  any-In (λ d. text_eq d.clip_id c.clip_id) clip clips k,
  select-rejected test clip clips u.1 k,
)

-- a job that is given is an old one, marked as reused, or a new one with the clips of the selection
pub create_keyed_job-new :
    (host : Host) (job_id : Text) (source : FilePath) (clips : List ValidatedClip)
    (config : ProcessingConfig) (now : ℕ) (m : JobManager) (job : ProcessingJob)
    → (create_keyed_job host job_id source clips config now m).0 ≡ ok job
    → (job.reused ≡ true) ⊎ (job.clips ≡ clips_from [] clips)
unfolding create_keyed_job new_job
create_keyed_job-new host job_id source clips config now m job e =
    elim (Result-cases (host.hash_file source)) [
      | inl (_, k) ↦ absurd (ground (arith, e, k))
      | inr (hash, k) ↦
          let key =
            compute_idempotency_key host.sha256 host.dumps hash
              (hash_clips host.sha256 host.dumps clips) (host.hash_config config) in
          let created =
            create_job-new (job_dir host.resolve host.jobs_dir host.uploads_dir) host.exists
              host.mkdir job_id key clips config now m job in
          elim (created (ap (λ h. (keyed host job_id clips config now m h).0) (sym k) ∙ e)) [
            | inl reused ↦ inl reused
            | inr new ↦ inr (ap (λ (j : ProcessingJob). j.clips) new)
          ]
    ]

-- the clips of a new job, for a selection from clips with distinct identifiers
pub new_clips-select :
    (test : ValidatedClip → Bool) (clip : ValidatedClip) (clips : List ValidatedClip)
    → Unique (λ c. c.clip_id) clips
    → In clip clips
    → dict_get clip.clip_id (clips_from [] (select test clips))
      ≡ (if test clip then some (new_clip clip) else none)
unfolding dict_get
new_clips-select test clip clips u h = elim (Bool-cases (test clip)) [
  | inl t ↦ rw t (
      clips_from-own clip [] (select test clips) (select-Unique test clips u)
        (In-of_select test clip clips h t))
  | inr t ↦ rw t (
      clips_from-absent clip.clip_id [] (select test clips) (select-rejected test clip clips u h t))
]

-- the clips of a valid document have distinct identifiers
pub validated_of-IsDistinct :
    (host : Host) (raw : Result Raw) (validated : ValidatedAnalysis)
    → (raw >>= validate_analysis_json host.loads host.model_validate host.repr_of) ≡ ok validated
    → IsDistinct validated
validated_of-IsDistinct host raw validated h =
    let (r, _, h1) =
      bind-ok raw (validate_analysis_json host.loads host.model_validate host.repr_of) validated
        h in
    validate_analysis_json-IsDistinct host.loads host.model_validate host.repr_of r validated h1
