-- ===== src/Jobs/Manager/Reuse.antt =====
-- When a job is reused, and what a cancellation does to that.
use ai_video_clip_processing.Base.{
  ℕ, ◌≡◌, ◌≢◌, Bool, true, false, Option, none, some, refl, List, [], ◌∷◌, Text, text_eq_self,
  arith, dict_get, dict_set, dict_pop, dict_values, get-set, Bool-cases, Option-cases, List-cases,
  inl, inr, ◌⊎◌, All,
}
use ai_video_clip_processing.Errors.{Result, ok, Result-cases}
use ai_video_clip_processing.Schemas.Validated.{ValidatedClip}
use ai_video_clip_processing.Schemas.ProcessingConfig.{ProcessingConfig}
use ai_video_clip_processing.Storage.Paths.{FilePath, validate_id, match_id}
use ai_video_clip_processing.Jobs.Models.{ProcessingJob, ClipJob, completed, clip_completed}
use ai_video_clip_processing.Jobs.Manager.{
  JobManager, start_manager, get_job, cancel_job, existing_job, outputs_still_on_disk, all_outputs,
  output_there, add_job, create_from, create_job, is_completed, new_job,
}
use ai_video_clip_processing.Jobs.Manager.Invariant.{existing_job-found}
use ai_video_clip_processing.Jobs.Manager.Reach.{Reach, Reach-IsManager}

-- A clip that is COMPLETED has a file with a name, which exists.
abbrev pub IsOnDisk : (Text → Bool) → ClipJob → Type 0
IsOnDisk exists cj =
    (cj.status ≢ completed)
    ⊎ ((name : Text) × (cj.output_file ≡ some name) × (name ≢ []) × (exists name ≡ true))

output_there-IsOnDisk :
    (exists : Text → Bool) (cj : ClipJob) → output_there exists cj ≡ true → IsOnDisk exists cj
output_there-IsOnDisk exists cj h = elim (Bool-cases (clip_completed cj.status)) [
  | inr c ↦ inl (λ e. ground (arith, c, e))
  | inl c ↦ by_file cj.output_file refl
]
  where
    by_file : (file : Option Text) → cj.output_file ≡ file → IsOnDisk exists cj
    by_file none f = inl (λ e. ground (arith, h, e, f))
    by_file (some []) f = inl (λ e. ground (arith, h, e, f))
    by_file (some (c ∷ s)) f = elim (Bool-cases (exists (c ∷ s))) [
      | inl d ↦ inr (c ∷ s, f, λ e. cc, d)
      | inr d ↦ inl (λ e. ground (arith, h, e, f, d))
    ]

all_outputs-IsOnDisk :
    (exists : Text → Bool) (cjs : List ClipJob)
    → all_outputs exists cjs ≡ true
    → All (IsOnDisk exists) cjs
unfolding all_outputs
all_outputs-IsOnDisk exists [] h = tt
all_outputs-IsOnDisk exists (cj ∷ cjs) h = (
  output_there-IsOnDisk exists cj (ground (arith, h)),
  all_outputs-IsOnDisk exists cjs (ground (arith, h)),
)

cancel_job-state :
    (id : Text) (m m' : JobManager) (job' : ProcessingJob)
    → cancel_job id m ≡ ok (job', m')
    → (m'.index ≡ m.index)
      × (m'.jobs ≡ dict_set id job' m.jobs)
      × (is_completed job'.status ≡ false)
      × (id ≢ [])
unfolding cancel_job get_job validate_id match_id
cancel_job-state id m m' job' e = elim (Option-cases (dict_get id m.jobs)) [
  | inl n ↦ absurd (ground (arith, e, n))
  | inr (q, s) ↦ (
    ground (arith, e, s),
    ground (arith, e, s),
    ground (arith, e, s),
    λ z. ground (arith, e, s, z),
  )
]

module _ (job_dir : Text → Result FilePath) (exists : FilePath → Text → Bool)
    (mkdir : FilePath → Bool) where
  add_job-fresh :
      (job_id key : Text) (clips : List ValidatedClip) (config : ProcessingConfig) (now : ℕ)
      (m : JobManager) (job : ProcessingJob)
      → (add_job job_dir exists mkdir job_id key clips config now m).0 ≡ ok job
      → job ≡ new_job job_id key clips config now
  unfolding add_job
  add_job-fresh job_id key clips config now m job e = ground (arith, e)

  -- a job that is given is an old one, marked as reused, or a new one
  pub create_job-new :
      (job_id key : Text) (clips : List ValidatedClip) (config : ProcessingConfig) (now : ℕ)
      (m : JobManager) (job : ProcessingJob)
      → (create_job job_dir exists mkdir job_id key clips config now m).0 ≡ ok job
      → (job.reused ≡ true) ⊎ (job ≡ new_job job_id key clips config now)
  unfolding create_job create_from outputs_still_on_disk
  create_job-new job_id key clips config now m job e = elim (Option-cases (existing_job key m)) [
    | inl n ↦ inr (add_job-fresh job_id key clips config now m job (ground (arith, e, n)))
    | inr (old, s) ↦
        let anew =
          λ (h : (add_job job_dir exists mkdir job_id key clips config now
                (record m { index = dict_pop key m.index })).0
              ≡ ok job).
            add_job-fresh job_id key clips config now (record m { index = dict_pop key m.index })
              job h in
        elim (Bool-cases (is_completed old.status)) [
          | inr b ↦ inr (anew (ground (arith, e, s, b)))
          | inl b ↦ elim (Result-cases (job_dir old.job_id)) [
            | inl (_, k) ↦ absurd (ground (arith, e, s, b, k))
            | inr (jdir, k) ↦
                elim (Bool-cases (all_outputs (exists jdir) (dict_values old.clips))) [
                  | inr o ↦ inr (anew (ground (arith, e, s, b, k, o)))
                  | inl o ↦ inl (ground (arith, e, s, b, k, o))
                ]
          ]
        ]
  ]

  -- In a reachable state, what `create_job` gives is either a new QUEUED job of the given key, clips
  -- and configuration, or one that was made for the same key, is COMPLETED, and whose COMPLETED clips
  -- each have an output file with a name, which exists in the job's directory.
  pub create_job_sound :
      (index : Option (List (Text × Text))) (m : JobManager) (job_id key : Text)
      (clips : List ValidatedClip) (config : ProcessingConfig) (now : ℕ) (job : ProcessingJob)
      → Reach (job_dir, exists, mkdir) (start_manager index) m
      → (create_job job_dir exists mkdir job_id key clips config now m).0 ≡ ok job
      → (job ≡ new_job job_id key clips config now)
        ⊎ ((job.idempotency_key ≡ key)
            × (is_completed job.status ≡ true)
            × (jdir : FilePath) × (job_dir job.job_id ≡ ok jdir)
            × All (IsOnDisk (exists jdir)) (dict_values job.clips))
  unfolding create_job create_from outputs_still_on_disk
  create_job_sound index m job_id key clips config now job r e =
      let i = Reach-IsManager index r in
      elim (Option-cases (existing_job key m)) [
        | inl n ↦ inl (add_job-fresh job_id key clips config now m job (ground (arith, e, n)))
        | inr (old, s) ↦
            let (id, entry, found) = existing_job-found key m old s in
            let same_key = i.own_key key id old entry found in
            let anew =
              λ (h : (add_job job_dir exists mkdir job_id key clips config now
                    (record m { index = dict_pop key m.index })).0
                  ≡ ok job).
                add_job-fresh job_id key clips config now
                  (record m { index = dict_pop key m.index }) job h in
            elim (Bool-cases (is_completed old.status)) [
              | inr b ↦ inl (anew (ground (arith, e, s, b)))
              | inl b ↦ elim (Result-cases (job_dir old.job_id)) [
                | inl (_, k) ↦ absurd (ground (arith, e, s, b, k))
                | inr (jdir, k) ↦
                    elim (Bool-cases (all_outputs (exists jdir) (dict_values old.clips))) [
                      | inr o ↦ inl (anew (ground (arith, e, s, b, k, o)))
                      | inl o ↦
                          let same : job ≡ record old { reused = true } =
                            ground (arith, e, s, b, k, o) in
                          inr (
                            rw same (
                              same_key,
                              b,
                              jdir,
                              k,
                              all_outputs-IsOnDisk (exists jdir) (dict_values old.clips) o,
                            ))
                    ]
              ]
            ]
      ]

  -- A job that is cancelled is not reused, a COMPLETED one included: `cancel_job` takes the status
  -- of a job that has ended too. The next job of its key is made anew, and the index forgets the key.
  pub cancel-create_forgets :
      (id key : Text) (job' : ProcessingJob) (m m' : JobManager) (job_id : Text)
      (clips : List ValidatedClip) (config : ProcessingConfig) (now : ℕ)
      → dict_get key m.index ≡ some id
      → cancel_job id m ≡ ok (job', m')
      → create_job job_dir exists mkdir job_id key clips config now m'
        ≡ add_job job_dir exists mkdir job_id key clips config now
            (record m' { index = dict_pop key m'.index })
  unfolding create_job create_from existing_job cancel_job
  cancel-create_forgets id key job' m m' job_id clips config now entry e =
      let (index, jobs, status, named) = cancel_job-state id m m' job' e in
      let entry' : dict_get key m'.index ≡ some id = rw index entry in
      let there : dict_get id m'.jobs ≡ some job' =
        rw jobs (ground (arith, get-set id id job' m.jobs, text_eq_self id)) in
      elim (List-cases id) [
        | inl z ↦ absurd (named z)
        | inr (c, s, z) ↦
            let found : existing_job key m' ≡ some job' = ground (arith, entry', there, z) in
            ground (arith, found, status)
      ]
