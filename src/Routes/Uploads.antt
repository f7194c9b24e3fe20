-- ===== src/Routes/Uploads.antt =====
-- `upload_video` of backend/app/api/routes_video.py and `upload_overlay` of
-- backend/app/api/routes_watermark.py. A body comes in chunks, of which only the sizes count here; its
-- file is its size, or `none` where there is no file.
pub mod Bounded
use ai_video_clip_processing.Base.{
  ℕ, suc, ◌+◌, ◌*◌, ◌==◌, ltb, Bool, true, false, not, Option, none, some, List, [], ◌∷◌,
  if◌then◌else◌, Text, text_eq, codes, any,
}
use ai_video_clip_processing.Errors.{
  AppError, Result, ok, err, unsupported_video_format, storage_error, unknown_error, ◌>>=◌, ◌>>◌,
}
use ai_video_clip_processing.Storage.Cleanup.{check_storage_quota}
use ai_video_clip_processing.Jobs.Models.{VideoMetadata}

-- `ALLOWED_UPLOAD_EXTENSIONS` of backend/app/config.py
abbrev pub allowed_upload_extensions : List Text
allowed_upload_extensions =
    codes ".mp4" ∷ codes ".mov" ∷ codes ".webm" ∷ codes ".mkv" ∷ codes ".m4v" ∷ []

-- what an upload meets; `writes n` says whether the chunk number `n` can be written
pub record UploadRun : Type 0 where
  pub suffix : Text  -- of the file's name, in lower case
  pub stored : List ℕ  -- the sizes of the files below the root of the storage
  pub chunks : List ℕ
  pub writes : ℕ → Bool
  pub probed : ℕ → Result VideoMetadata

-- whether `except AppError` catches it
abbrev pub is_app_error : AppError → Bool
is_app_error unknown_error = false
is_app_error _ = true

-- The loop over the chunks, up to an empty one: the size that was counted, or the error, and the size
-- of the file.
unfoldable pub receive : (limit : ℕ) → (writes : ℕ → Bool) → (n size : ℕ) → List ℕ → Result ℕ × ℕ
receive limit writes n size [] = (ok size, size)
receive limit writes n size (chunk ∷ chunks) =
    let rest = receive limit writes (suc n) (size + chunk) chunks in
    if chunk == 0
    then (ok size, size)
    else if ltb limit (size + chunk)
    then (err storage_error, size)
    else if writes n
    then rest
    else (err unknown_error, size)

-- `dest_path.unlink(missing_ok=True)` on an `AppError`
abbrev pub file_after : AppError → ℕ → Option ℕ
file_after e size = if is_app_error e then none else some size

abbrev pub after_probe : ℕ → Result VideoMetadata → Result VideoMetadata × Option ℕ
after_probe size (err e) = (err e, file_after e size)
after_probe size (ok metadata) = (ok metadata, some size)

abbrev pub after_receive :
    (ℕ → Result VideoMetadata) → Result ℕ × ℕ → Result VideoMetadata × Option ℕ
after_receive probed (err e, written) = (err e, file_after e written)
after_receive probed (ok size, written) = after_probe written (probed written)

abbrev pub after_quota :
    (limit : ℕ) → UploadRun → Result (Unit {0}) → Result VideoMetadata × Option ℕ
after_quota limit run (err e) = (err e, none)
after_quota limit run (ok _) = after_receive run.probed (receive limit run.writes 0 0 run.chunks)

-- `upload_video`, with `MAX_UPLOAD_SIZE_BYTES` and `MAX_TOTAL_STORAGE_BYTES`: the video, and its file
unfoldable pub upload_video :
    (max_upload max_total : ℕ) → UploadRun → Result VideoMetadata × Option ℕ
unfolding receive check_storage_quota text_eq
upload_video max_upload max_total run =
    if not (any (λ e. text_eq e run.suffix) allowed_upload_extensions)
    then (err unsupported_video_format, none)
    else after_quota max_upload run (check_storage_quota run.stored max_upload max_total)

-- `_MAX_OVERLAY_BYTES`
abbrev pub max_overlay_bytes : ℕ
max_overlay_bytes = 10 * 1024 * 1024

-- the loop of `upload_overlay`, which deletes the file of an image that is too large
unfoldable pub receive_overlay :
    (writes : ℕ → Bool) → (n size : ℕ) → List ℕ → Result (Unit {0}) × Option ℕ
receive_overlay writes n size [] = (ok tt, some size)
receive_overlay writes n size (chunk ∷ chunks) =
    let rest = receive_overlay writes (suc n) (size + chunk) chunks in
    if chunk == 0
    then (ok tt, some size)
    else if ltb max_overlay_bytes (size + chunk)
    then (err unsupported_video_format, none)
    else if writes n
    then rest
    else (err unknown_error, some size)

-- `upload_overlay`
unfoldable pub upload_overlay : UploadRun → Result (Unit {0}) × Option ℕ
unfolding receive_overlay text_eq
upload_overlay run =
    if text_eq run.suffix (codes ".png")
    then receive_overlay run.writes 0 0 run.chunks
    else (err unsupported_video_format, none)
