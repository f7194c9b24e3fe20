-- ===== src/Publishing/Settings.antt =====
-- backend/app/config.py, as far as the publishing queue reads it.
use ai_video_clip_processing.Base.{ℕ, Bool, List, [], ◌∷◌, Text}

-- `settings`, as far as the queue reads them
pub record Settings : Type 0 where
  pub publish_interval_minutes : ℕ
  pub block_warnings : Bool
  pub max_publish_attempts : ℕ
  pub default_quota_wait_minutes : ℕ
  pub public_base_url : Text

-- `RETRY_DELAYS_MINUTES`
abbrev pub retry_delays_minutes : List ℕ
retry_delays_minutes = 0 ∷ 5 ∷ 30 ∷ []
