-- ===== src/Errors.antt =====
-- backend/app/errors.py. An error is its stable `code`; the text for the reader is left out.
use ai_video_clip_processing.Base.{◌≡◌, refl, ◌⊎◌, inl, inr}

pub data AppError : Type 0 where
  invalid_json invalid_schema unsupported_schema_version missing_required_field : AppError
  duplicate_clip_id invalid_timestamp timestamp_out_of_range invalid_duration : AppError
  video_download_failed video_not_found video_corrupted unsupported_video_format : AppError
  ffprobe_failed ffmpeg_failed no_video_stream storage_error : AppError
  output_validation_failed not_found authorization_required : AppError
  -- `ALL_CLIPS_FAILED` of a job, and the code of an exception that is no `AppError`
  all_clips_failed unknown_error : AppError

-- A call that returns or raises an `AppError`.
pub data Result {ℓ} (A : Type ℓ) : Type ℓ where
  ok : A → Result A
  err : AppError → Result A

infixl 5 ◌>>=◌ ◌>>◌
abbrev pub ◌>>=◌ {ℓ κ} : {A : Type ℓ} {B : Type κ} → Result A → (A → Result B) → Result B
ok a >>= f = f a
err e >>= f = err e

abbrev pub ◌>>◌ {ℓ κ} : {A : Type ℓ} {B : Type κ} → Result A → Result B → Result B
m >> k = m >>= λ _. k

pub Result-cases {ℓ} :
    {A : Type ℓ} (r : Result A) → ((e : AppError) × (r ≡ err e)) ⊎ ((a : A) × (r ≡ ok a))
Result-cases (ok a) = inr (a, refl)
Result-cases (err e) = inl (e, refl)

-- a chain that returns
pub bind-ok {ℓ κ} :
    {A : Type ℓ} {B : Type κ} (r : Result A) (f : A → Result B) (b : B)
    → (r >>= f) ≡ ok b
    → (a : A) × (r ≡ ok a) × (f a ≡ ok b)
bind-ok (ok a) f b e = (a, refl, e)
bind-ok (err x) f b e = absurd (cc)
