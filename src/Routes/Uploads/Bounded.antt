-- ===== src/Routes/Uploads/Bounded.antt =====
-- How large the files of the uploads are.
use ai_video_clip_processing.Base.{
  ℕ, suc, ◌+◌, ◌≤◌, ◌≡◌, Bool, false, Option, none, some, List, [], ◌∷◌, arith, text_eq, any,
  Bool-cases, inl, inr,
}
use ai_video_clip_processing.Errors.{AppError, Result, ok, err, Result-cases}
use ai_video_clip_processing.Storage.Cleanup.{total_size, check_storage_quota}
use ai_video_clip_processing.Jobs.Models.{VideoMetadata}
use ai_video_clip_processing.Routes.Uploads.{
  UploadRun, allowed_upload_extensions, is_app_error, receive, file_after, after_probe,
  after_receive, upload_video,
}

receive-bounded :
    (limit : ℕ) (writes : ℕ → Bool) (n size : ℕ) (chunks : List ℕ)
    → size ≤ limit
    → (receive limit writes n size chunks).1 ≤ limit
unfolding receive
receive-bounded limit writes n size [] h = h
receive-bounded limit writes n size (chunk ∷ chunks) h =
    ground (arith, receive-bounded limit writes (suc n) (size + chunk) chunks)

-- the file of an upload is not too large, and has room in the storage
abbrev pub Fits : (max_upload max_total : ℕ) → List ℕ → ℕ → Type 0
Fits max_upload max_total stored size = (size ≤ max_upload) × (total_size stored + size ≤ max_total)

-- What is left of an upload: a file for a video that is given, none for an `AppError`, and a file that
-- fits in any case.
abbrev pub LeavesFile : (ℕ → Type 0) → Result VideoMetadata × Option ℕ → Type 0
LeavesFile P (ok metadata, none) = ⊥
LeavesFile P (ok metadata, some size) = P size
LeavesFile P (err e, none) = Unit
LeavesFile P (err e, some size) = (is_app_error e ≡ false) × P size

file_after-LeavesFile :
    (P : ℕ → Type 0) (e : AppError) (size : ℕ) → P size → LeavesFile P (err e, file_after e size)
file_after-LeavesFile P e size p = elim (Bool-cases (is_app_error e)) [
  | inl h ↦ rw h tt
  | inr h ↦ rw h (h, p)
]

after_probe-LeavesFile :
    (P : ℕ → Type 0) (size : ℕ) (probed : Result VideoMetadata)
    → P size
    → LeavesFile P (after_probe size probed)
after_probe-LeavesFile P size (err e) p = file_after-LeavesFile P e size p
after_probe-LeavesFile P size (ok metadata) p = p

after_receive-LeavesFile :
    (P : ℕ → Type 0) (probed : ℕ → Result VideoMetadata) (received : Result ℕ × ℕ)
    → P received.1
    → LeavesFile P (after_receive probed received)
after_receive-LeavesFile P probed (err e, written) p = file_after-LeavesFile P e written p
after_receive-LeavesFile P probed (ok size, written) p =
    after_probe-LeavesFile P written (probed written) p

-- an upload that passes the check of the quota has room for the largest file
quota-room :
    (stored : List ℕ) (max_upload max_total : ℕ)
    → check_storage_quota stored max_upload max_total ≡ ok tt
    → total_size stored + max_upload ≤ max_total
unfolding check_storage_quota
quota-room stored max_upload max_total h = ground (arith, h)

-- `upload_video` gives a video only with a file, an `AppError` only without one, and in every case a file
-- that is left has at most `MAX_UPLOAD_SIZE_BYTES` and, with all that is stored before, at most
-- `MAX_TOTAL_STORAGE_BYTES`.
pub upload_video-bounded :
    (max_upload max_total : ℕ) (run : UploadRun)
    → LeavesFile (Fits max_upload max_total run.stored) (upload_video max_upload max_total run)
unfolding upload_video
upload_video-bounded max_upload max_total run =
    elim (Bool-cases (any (λ e. text_eq e run.suffix) allowed_upload_extensions)) [
      | inr h ↦ rw h tt
      | inl h ↦ rw h (elim (Result-cases (check_storage_quota run.stored max_upload max_total)) [
        | inl (e, q) ↦ rw q tt
        | inr (_, q) ↦
            let small = receive-bounded max_upload run.writes 0 0 run.chunks (omega arith) in
            let room = quota-room run.stored max_upload max_total q in
            rw q (
              after_receive-LeavesFile (Fits max_upload max_total run.stored) run.probed
                (receive max_upload run.writes 0 0 run.chunks) (small, omega (arith, small, room)))
      ])
    ]
