-- ===== src/Jobs/Manager/Purge.antt =====
-- That a purge keeps the manager consistent with the directories that are left.
use ai_video_clip_processing.Base.{
  ℕ, ◌≡◌, ◌≢◌, Bool, true, false, none, some, List, [], ◌∷◌, Text, text_eq, any, arith, dict_get,
  get-pop_all, Bool-cases, inl, inr, In,
}
use ai_video_clip_processing.Storage.Cleanup.{Entry, cleanup_old_dirs}
use ai_video_clip_processing.Storage.Cleanup.Protected.{
  cleanup_old_dirs-protected, cleanup_old_dirs-left,
}
use ai_video_clip_processing.Jobs.Manager.{
  JobManager, TaskState, is_done, stale_keys, active_ids, forget_jobs, purge_expired,
}

stale_keys_complete :
    (removed : List Text) (key id : Text) (index : List (Text × Text))
    → dict_get key index ≡ some id
    → any (λ r. text_eq r id) removed ≡ true
    → any (λ k. text_eq k key) (stale_keys removed index) ≡ true
unfolding stale_keys dict_get
stale_keys_complete removed key id [] e h = ground arith
stale_keys_complete removed key id ((k, i) ∷ rest) e h = elim (Bool-cases (text_eq k key)) [
  | inl s ↦ ground (arith, e, h, s)
  | inr s ↦ ground (arith, s, stale_keys_complete removed key id rest (ground (arith, e, s)) h)
]

active_ids_complete :
    (id : Text) (t : TaskState) (tasks : List (Text × TaskState))
    → dict_get id tasks ≡ some t
    → is_done t ≡ false
    → any (λ i. text_eq i id) (active_ids tasks) ≡ true
unfolding active_ids dict_get
active_ids_complete id t [] e h = ground arith
active_ids_complete id t ((k, s) ∷ rest) e h = elim (Bool-cases (text_eq k id)) [
  | inl q ↦ ground (arith, e, h, q)
  | inr q ↦ ground (arith, q, active_ids_complete id t rest (ground (arith, e, q)) h)
]

-- Nothing is left of a job whose directory a purge removed: not the job, not its task, and no entry
-- of the index that leads to it.
pub purge_expired-forgets :
    (rmtree : Entry → Bool) (max_age now : ℕ) (entries : List Entry) (m : JobManager) (id : Text)
    → any (λ r. text_eq r id) (purge_expired rmtree max_age now entries m).0 ≡ true
    → let (_, _, m') = purge_expired rmtree max_age now entries m in
      (dict_get id m'.jobs ≡ none)
      × (dict_get id m'.tasks ≡ none)
      × ((key : Text) → dict_get key m'.index ≢ some id)
unfolding purge_expired forget_jobs
purge_expired-forgets rmtree max_age now entries m id h =
    let removed = (cleanup_old_dirs rmtree (active_ids m.tasks) max_age now entries).0 in
    (
      ground (arith, h, get-pop_all id removed m.jobs),
      ground (arith, h, get-pop_all id removed m.tasks),
      λ key e. ground (
        arith,
        h,
        e,
        get-pop_all key (stale_keys removed m.index) m.index,
        stale_keys_complete removed key id m.index,
      ),
    )

-- A purge leaves the directory of a job whose task is not done, however old it is.
pub purge_expired-leaves_active :
    (rmtree : Entry → Bool) (max_age now : ℕ) (entries : List Entry) (m : JobManager)
    (entry : Entry) (t : TaskState)
    → dict_get entry.name m.tasks ≡ some t
    → is_done t ≡ false
    → In entry entries
    → In entry (purge_expired rmtree max_age now entries m).1
unfolding purge_expired
purge_expired-leaves_active rmtree max_age now entries m entry t e h k =
    cleanup_old_dirs-left rmtree (active_ids m.tasks) max_age now entry entries k
      (ground (arith, active_ids_complete entry.name t m.tasks e h))

-- Nor does it report that directory, or forget the job or its task.
pub purge_expired-keeps_active :
    (rmtree : Entry → Bool) (max_age now : ℕ) (entries : List Entry) (m : JobManager) (id : Text)
    (t : TaskState)
    → dict_get id m.tasks ≡ some t
    → is_done t ≡ false
    → let (removed, _, m') = purge_expired rmtree max_age now entries m in
      (any (λ r. text_eq r id) removed ≡ false)
      × (dict_get id m'.jobs ≡ dict_get id m.jobs)
      × (dict_get id m'.tasks ≡ some t)
unfolding purge_expired forget_jobs
purge_expired-keeps_active rmtree max_age now entries m id t e h =
    let removed = (cleanup_old_dirs rmtree (active_ids m.tasks) max_age now entries).0 in
    let kept =
      cleanup_old_dirs-protected rmtree (active_ids m.tasks) max_age now entries id
        (active_ids_complete id t m.tasks e h) in
    (
      kept,
      ground (arith, kept, get-pop_all id removed m.jobs),
      ground (arith, kept, e, get-pop_all id removed m.tasks),
    )
