-- ===== src/Jobs/Manager/Invariant.antt =====
-- What each operation of the manager of jobs keeps.
use ai_video_clip_processing.Base.{
  ℕ, ◌≡◌, ◌≢◌, refl, sym, ap, ◌∙◌, Bool, true, false, Option, none, some, List, [], ◌∷◌, Text,
  text_eq_iff, text_eq_self, map, arith, dict_get, dict_set, dict_pop, get-set, get-pop,
  get-pop_all, Bool-cases, Option-cases, inl, inr,
}
use ai_video_clip_processing.Errors.{Result, ok, unknown_error, Result-cases}
use ai_video_clip_processing.Schemas.Validated.{ValidatedClip}
use ai_video_clip_processing.Schemas.ProcessingConfig.{ProcessingConfig}
use ai_video_clip_processing.Storage.Paths.{FilePath, validate_id}
use ai_video_clip_processing.Jobs.Models.{ProcessingJob, cancelled}
use ai_video_clip_processing.Jobs.Run.{fail_job}
use ai_video_clip_processing.Jobs.Manager.{
  JobManager, TaskState, start_manager, get_job, cancel_job, cancel_clip, existing_job,
  outputs_still_on_disk, add_job, create_from, create_job, drop_key, is_completed, new_job,
  end_task, forget_jobs, stale_keys,
}

-- Each job stands under its own identifier, and the index leads only to jobs of its key.
pub record IsManager (m : JobManager) : Type 0 where
  pub own_id : (id : Text) (job : ProcessingJob) → dict_get id m.jobs ≡ some job → job.job_id ≡ id
  pub own_key :
      (key id : Text) (job : ProcessingJob)
      → dict_get key m.index ≡ some id
      → dict_get id m.jobs ≡ some job
      → job.idempotency_key ≡ key

-- The identifier is new: no job has it, and the index does not mention it.
pub record IsNew (job_id : Text) (m : JobManager) : Type 0 where
  pub no_job : dict_get job_id m.jobs ≡ none
  pub no_entry : (key : Text) → dict_get key m.index ≢ some job_id

pub start_manager-IsManager :
    (index : Option (List (Text × Text))) → IsManager (start_manager index)
unfolding start_manager dict_get
start_manager-IsManager none = record {
  own_id = λ id job e. cc e;
  own_key = λ key id job e f. cc f;
}
start_manager-IsManager (some index) = record {
  own_id = λ id job e. cc e;
  own_key = λ key id job e f. cc f;
}

-- a job is replaced by one of the same identifier and key
pub put_job-IsManager :
    (m : JobManager) (id : Text) (job job' : ProcessingJob)
    → IsManager m
    → dict_get id m.jobs ≡ some job
    → job'.job_id ≡ job.job_id
    → job'.idempotency_key ≡ job.idempotency_key
    → IsManager (record m { jobs = dict_set id job' m.jobs })
put_job-IsManager m id job job' i found same_id same_key = record {
  own_id = λ j q e.
      ground
        (arith, get-set j id job' m.jobs, text_eq_iff id j, i.own_id id job found, i.own_id j q, e);
  own_key = λ key j q e f. ground (
    arith,
    get-set j id job' m.jobs,
    text_eq_iff id j,
    i.own_key key j q e,
    e,
    f,
    i.own_key key j job e,
  );
}

-- the index keeps a part of its entries, and the jobs a part of theirs
shrink-IsManager :
    (m m' : JobManager)
    → IsManager m
    → ((id : Text) (job : ProcessingJob)
        → dict_get id m'.jobs ≡ some job
        → dict_get id m.jobs ≡ some job)
    → ((key id : Text) → dict_get key m'.index ≡ some id → dict_get key m.index ≡ some id)
    → IsManager m'
shrink-IsManager m m' i jobs index = record {
  own_id = λ id job e. i.own_id id job (jobs id job e);
  own_key = λ key id job e f. i.own_key key id job (index key id e) (jobs id job f);
}

add_new-IsManager :
    (m : JobManager) (job : ProcessingJob)
    → IsManager m
    → IsNew job.job_id m
    → IsManager (record m { jobs = dict_set job.job_id job m.jobs })
add_new-IsManager m job i new = record {
  own_id = λ j q e.
      ground (arith, get-set j job.job_id job m.jobs, text_eq_iff job.job_id j, i.own_id j q, e);
  own_key = λ key j q e f. ground (
    arith,
    get-set j job.job_id job m.jobs,
    text_eq_iff job.job_id j,
    i.own_key key j q e,
    e,
    f,
    new.no_entry key,
  );
}

get_job-found :
    (id : Text) (m : JobManager) (job : ProcessingJob)
    → get_job id m ≡ ok job
    → dict_get id m.jobs ≡ some job
unfolding get_job validate_id
get_job-found id m job e = elim (Option-cases (dict_get id m.jobs)) [
  | inl n ↦ ground (arith, e, n)
  | inr (q, s) ↦ ground (arith, e, s)
]

pub cancel_job-IsManager :
    (id : Text) (m m' : JobManager) (job : ProcessingJob)
    → IsManager m
    → cancel_job id m ≡ ok (job, m')
    → IsManager m'
unfolding cancel_job
cancel_job-IsManager id m m' job i e = elim (Result-cases (get_job id m)) [
  | inl (_, n) ↦ ground (arith, e, n)
  | inr (q, s) ↦
      let kept =
        put_job-IsManager m id q (record q { status = cancelled; clips = map cancel_clip q.clips })
          i (get_job-found id m q s) refl refl in
      let jobs : m'.jobs
          ≡ dict_set id (record q { status = cancelled; clips = map cancel_clip q.clips }) m.jobs =
        ground (arith, e, s) in
      let index : m'.index ≡ m.index = ground (arith, e, s) in
      record {
        own_id = λ j r f. kept.own_id j r (rw (← jobs) f);
        own_key = λ key j r f g. kept.own_key key j r (rw (← index) f) (rw (← jobs) g);
      }
]

-- tasks and the saved file play no part
agree-IsManager :
    (m m' : JobManager) → IsManager m → m'.jobs ≡ m.jobs → m'.index ≡ m.index → IsManager m'
agree-IsManager m m' i jobs index = record {
  own_id = λ id job e. i.own_id id job (rw (← jobs) e);
  own_key = λ key id job e f. i.own_key key id job (rw (← index) e) (rw (← jobs) f);
}

pub existing_job-found :
    (key : Text) (m : JobManager) (job : ProcessingJob)
    → existing_job key m ≡ some job
    → (id : Text) × (dict_get key m.index ≡ some id) × (dict_get id m.jobs ≡ some job)
unfolding existing_job
existing_job-found key m job e = elim (Option-cases (dict_get key m.index)) [
  | inl n ↦ absurd (ground (arith, e, n))
  | inr ([], s) ↦ absurd (ground (arith, e, s))
  | inr (c ∷ id, s) ↦ (c ∷ id, s, ground (arith, e, s))
]

drop_key-IsManager :
    (key : Text) (m : JobManager)
    → IsManager m
    → IsManager (record m { index = dict_pop key m.index })
drop_key-IsManager key m i =
    shrink-IsManager m (record m { index = dict_pop key m.index }) i (λ id job e. e)
      (λ k id e. ground (arith, e, get-pop k key m.index))

drop_key-IsNew :
    (key job_id : Text) (m : JobManager)
    → IsNew job_id m
    → IsNew job_id (record m { index = dict_pop key m.index })
drop_key-IsNew key job_id m n = record {
  no_job = n.no_job;
  no_entry = λ k e. n.no_entry k (ground (arith, e, get-pop k key m.index));
}

module _ (job_dir : Text → Result FilePath) (exists : FilePath → Text → Bool)
    (mkdir : FilePath → Bool) where
  add_job-IsManager :
      (job_id key : Text) (clips : List ValidatedClip) (config : ProcessingConfig) (now : ℕ)
      (m : JobManager)
      → IsManager m
      → IsNew job_id m
      → IsManager (add_job job_dir exists mkdir job_id key clips config now m).1
  unfolding add_job new_job
  add_job-IsManager job_id key clips config now m i new = elim (Result-cases (job_dir job_id)) [
    | inl (_, e) ↦ rw e i
    | inr (jdir, e) ↦ elim (Bool-cases (mkdir jdir)) [
      | inl b ↦
          rw (e, b)
            (agree-IsManager _ _ (add_new-IsManager m (new_job job_id key clips config now) i new)
              refl refl)
      | inr b ↦ rw (e, b) i
    ]
  ]

  pub create_job-IsManager :
      (job_id key : Text) (clips : List ValidatedClip) (config : ProcessingConfig) (now : ℕ)
      (m : JobManager)
      → IsManager m
      → IsNew job_id m
      → IsManager (create_job job_dir exists mkdir job_id key clips config now m).1
  unfolding create_job create_from
  create_job-IsManager job_id key clips config now m i new =
      let anew =
        add_job-IsManager job_id key clips config now (drop_key key m) (drop_key-IsManager key m i)
          (drop_key-IsNew key job_id m new) in
      elim (Option-cases (existing_job key m)) [
        | inl e ↦ rw e (add_job-IsManager job_id key clips config now m i new)
        | inr (old, e) ↦
            let (id, entry, found) = existing_job-found key m old e in
            let own : dict_get old.job_id m.jobs ≡ some old =
              ap (λ j. dict_get j m.jobs) (i.own_id id old found) ∙ found in
            elim (Bool-cases (is_completed old.status)) [
              | inr b ↦ rw (e, b) anew
              | inl b ↦ elim (Result-cases (outputs_still_on_disk job_dir exists mkdir old)) [
                | inl (_, k) ↦ rw (e, b, k) i
                | inr (true, k) ↦
                    rw (e, b, k)
                      (put_job-IsManager m old.job_id old (record old { reused = true }) i own refl
                        refl)
                | inr (false, k) ↦ rw (e, b, k) anew
              ]
            ]
      ]

-- the index leads to a job that was just put
indexed-IsManager :
    (m : JobManager) (job q : ProcessingJob) (tasks : List (Text × TaskState))
    (saved : List (Text × Text))
    → IsManager (record m { jobs = dict_set job.job_id q m.jobs })
    → q.job_id ≡ job.job_id
    → q.idempotency_key ≡ job.idempotency_key
    → IsManager (record {
      jobs = dict_set job.job_id q m.jobs;
      tasks = tasks;
      index = dict_set job.idempotency_key job.job_id m.index;
      saved = saved;
    })
indexed-IsManager m job q tasks saved i same_id same_key = record {
  own_id = i.own_id;
  own_key = λ key id r e f. ground (
    arith,
    e,
    f,
    get-set key job.idempotency_key job.job_id m.index,
    text_eq_iff job.idempotency_key key,
    get-set id job.job_id q m.jobs,
    text_eq_iff job.job_id id,
    same_key,
    i.own_key key id r,
    text_eq_self job.job_id,
  );
}

pub end_task-IsManager :
    (saves : Bool) (m : JobManager) (old job : ProcessingJob)
    → IsManager m
    → dict_get job.job_id m.jobs ≡ some old
    → job.idempotency_key ≡ old.idempotency_key
    → IsManager (end_task saves job m)
unfolding end_task
end_task-IsManager saves m old job i found key =
    let same_id = i.own_id job.job_id old found in
    let put =
      λ (q : ProcessingJob) (same : q.job_id ≡ job.job_id)
          (k : q.idempotency_key ≡ job.idempotency_key).
        put_job-IsManager m job.job_id old q i found (same ∙ sym same_id) (k ∙ key) in
    elim (Bool-cases (is_completed job.status)) [
      | inr c ↦ rw c (agree-IsManager _ _ (put job refl refl) refl refl)
      | inl c ↦ elim (Bool-cases saves) [
        | inl w ↦ rw (c, w) (indexed-IsManager m job job _ _ (put job refl refl) refl refl)
        | inr w ↦
            rw (c, w)
              (indexed-IsManager m job (fail_job unknown_error job).1 _ _ (put _ refl refl) refl
                refl)
      ]
    ]

pub forget_jobs-IsManager :
    (removed : List Text) (m : JobManager) → IsManager m → IsManager (forget_jobs removed m)
unfolding forget_jobs
forget_jobs-IsManager removed m i =
    shrink-IsManager m _ i (λ id job e. ground (arith, e, get-pop_all id removed m.jobs))
      (λ key id e. ground (arith, e, get-pop_all key (stale_keys removed m.index) m.index))
