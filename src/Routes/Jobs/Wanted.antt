-- ===== src/Routes/Jobs/Wanted.antt =====
-- Which clips `create_job` puts into its job, and when it refuses a selection.
use ai_video_clip_processing.Base.{
  ℕ, ◌≡◌, ◌∙◌, refl, ap, true, false, none, some, List, [], ◌∷◌, arith, if◌then◌else◌, Text,
  text_eq, text_eq_iff, text_eq_self, any, any-In, In, select, dict_get, Bool-cases, inl, inr, ◌⊎◌,
}
use ai_video_clip_processing.Errors.{ok, err, not_found, AppError, Result-cases}
use ai_video_clip_processing.Schemas.Validated.{ValidatedClip, ValidatedAnalysis}
use ai_video_clip_processing.Storage.Paths.{FilePath}
use ai_video_clip_processing.Jobs.Models.{ProcessingJob}
use ai_video_clip_processing.Jobs.Manager.{JobManager, new_clip}
use ai_video_clip_processing.Routes.{
  Host, raw_of, validated_of, find_upload_source, create_keyed_job,
}
use ai_video_clip_processing.Routes.Selected.{
  create_keyed_job-new, new_clips-select, validated_of-IsDistinct,
}
use ai_video_clip_processing.Routes.Jobs.{
  CreateJobRequest, is_wanted, is_missing, select_clips, selection_of, create_job_route,
}

-- no clip of the document has that identifier
select-missing :
    (wanted : List Text) (id : Text) (clips : List ValidatedClip)
    → any (λ i. text_eq i id) wanted ≡ true
    → is_missing (select (is_wanted wanted) clips) id ≡ is_missing clips id
select-missing wanted id [] h = refl
select-missing wanted id (c ∷ clips) h =
    ground (arith, text_eq_iff c.clip_id id, select-missing wanted id clips h)

any-missing :
    (wanted : List Text) (clips : List ValidatedClip) (ids : List Text)
    → ((id : Text) → In id ids → In id wanted)
    → any (is_missing (select (is_wanted wanted) clips)) ids ≡ any (is_missing clips) ids
any-missing wanted clips [] h = refl
any-missing wanted clips (id ∷ ids) h =
    let named : any (λ i. text_eq i id) wanted ≡ true =
      any-In (λ i. text_eq i id) id wanted (h id (inl refl)) (text_eq_self id) in
    rw (select-missing wanted id clips named, any-missing wanted clips ids (λ i k. h i (inr k)))
      refl

-- a selection is refused exactly for an identifier that no clip of the document has
select_clips-cases :
    (wanted : List Text) (clips : List ValidatedClip)
    → select_clips (some wanted) clips ≡ (
        if any (is_missing clips) wanted
        then err not_found
        else ok (select (is_wanted wanted) clips))
unfolding select_clips
select_clips-cases wanted clips = rw (any-missing wanted clips wanted (λ i k. k)) refl

module _ (host : Host) (payload : CreateJobRequest) (job_id : Text) (now : ℕ) (m : JobManager) where
  selection_of-known :
      (validated : ValidatedAnalysis) (source : FilePath) (wanted : List Text)
      → validated_of host payload.json_data payload.json_text ≡ ok validated
      → payload.selected_clip_ids ≡ some wanted
      → find_upload_source host payload.upload_id ≡ ok source
      → selection_of host payload ≡ (
          if any (is_missing validated.clips) wanted
          then err not_found
          else ok (select (is_wanted wanted) validated.clips, source))
  selection_of-known validated source wanted v w f =
      let cases = select_clips-cases wanted validated.clips in
      elim (Bool-cases (any (is_missing validated.clips) wanted)) [
        | inl b ↦ rw (v, w, cases, b) refl
        | inr b ↦ rw (v, w, cases, b, f) refl
      ]

  -- If the document of a request with `selected_clip_ids` is valid and its video is found, then
  -- `create_job` raises NOT_FOUND, with the jobs as they were, where an identifier is that of no clip of the
  -- document; and where it gives a job, each clip of the document is in it exactly if its
  -- identifier is selected, unless the job is an earlier one that is reused.
  pub create_job_route-wanted :
      (validated : ValidatedAnalysis) (source : FilePath) (wanted : List Text)
      (clip : ValidatedClip)
      → validated_of host payload.json_data payload.json_text ≡ ok validated
      → payload.selected_clip_ids ≡ some wanted
      → find_upload_source host payload.upload_id ≡ ok source
      → In clip validated.clips
      → ((any (is_missing validated.clips) wanted ≡ true)
          × (create_job_route host payload job_id now m ≡ (err not_found, m)))
        ⊎ ((any (is_missing validated.clips) wanted ≡ false)
            × (((e : AppError) × ((create_job_route host payload job_id now m).0 ≡ err e))
                ⊎ ((job : ProcessingJob) × ((create_job_route host payload job_id now m).0 ≡ ok job)
                    × ((job.reused ≡ true)
                        ⊎ (dict_get clip.clip_id job.clips ≡ (
                            if any (λ id. text_eq id clip.clip_id) wanted
                            then some (new_clip clip)
                            else none))))))
  unfolding create_job_route
  create_job_route-wanted validated source wanted clip v w f k =
      let distinct =
        validated_of-IsDistinct host (raw_of payload.json_data payload.json_text) validated v in
      let known = selection_of-known validated source wanted v w f in
      let selected = select (is_wanted wanted) validated.clips in
      let created = create_keyed_job host job_id source selected payload.config now m in
      elim (Bool-cases (any (is_missing validated.clips) wanted)) [
        | inl b ↦ inl (b, rw (known, b) refl)
        | inr b ↦ inr (
          b,
          rw (known, b)
              (elim (Result-cases created.0) [
                | inl (e, c) ↦ inl (e, c)
                | inr (job, c) ↦ inr (
                  job,
                  c,
                  elim (create_keyed_job-new host job_id source selected payload.config now m job
                      c) [
                        | inl reused ↦ inl reused
                        | inr clips ↦ inr (
                            ap (dict_get clip.clip_id) clips
                            ∙ new_clips-select (is_wanted wanted) clip validated.clips distinct k)
                      ],
                )
              ]),
        )
      ]
