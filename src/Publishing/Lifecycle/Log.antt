-- ===== src/Publishing/Lifecycle/Log.antt =====
-- The actions of a run of the publishing queue, in the words of `Publishing.Machine`.
use ai_video_clip_processing.Base.{ℕ, List, [], ◌∷◌, ◌++◌, Text}
use ai_video_clip_processing.Publishing.Settings.{Settings}
use ai_video_clip_processing.Publishing.Machine.{
  Action, enqueues, pauses, resumes, claims, retries, brings_forward, cancels, resolves,
}
use ai_video_clip_processing.Publishing.Lifecycle.{
  State, Step, Reach, enqueued, paused_by, resumed_by, retried_by, skipped_by, cancelled_by,
  brought_forward_by, claimed, processed, here, next,
}

module _ (settings : Settings) (uuid : ℕ → Text) where
  unfoldable mutual
    -- What is done while the worker awaits the platform comes before its own write.
    pub step_log : {s t : State} → Step settings uuid s t → List Action
    step_log (enqueued job_id enabled plans blocked db drawn) = enqueues ∷ []
    step_log (paused_by job_id db drawn) = pauses ∷ []
    step_log (resumed_by job_id interval_minutes default now db drawn) = resumes ∷ []
    step_log (retried_by item_id now db drawn) = retries item_id ∷ []
    step_log (skipped_by item_id db drawn) = cancels item_id ∷ []
    step_log (cancelled_by item_id db drawn) = cancels item_id ∷ []
    step_log (brought_forward_by item_id now db drawn) = brings_forward item_id ∷ []
    step_log (claimed now db drawn) = claims ∷ []
    step_log (processed round item db drawn drawn' others) = resolves item.id ∷ log_of others

    -- the last action is the first of the list
    pub log_of : {s t : State} → Reach settings uuid s t → List Action
    log_of here = []
    log_of (next r step) = step_log step ++ log_of r
