-- ===== src/Analysis/Bounds.antt =====
-- backend/app/json_validation/video_bounds.py.
use ai_video_clip_processing.Base.{
  ◌*◌, ◌≡◌, refl, ltb, Bool, false, ◌&&◌, ◌||◌, List, [], ◌∷◌, arith, if◌then◌else◌, Text, text_eq,
  text_eq_iff, text_eq_sym, text_eq_self, any, any-In, In, inl, inr,
}
use ai_video_clip_processing.Errors.{AppError, Result, ok, err, timestamp_out_of_range}
use ai_video_clip_processing.Schemas.Validated.{ValidatedClip}
use ai_video_clip_processing.Jobs.Models.{VideoMetadata}
use ai_video_clip_processing.Publishing.Rows.{Unique}

-- the test of `check_clip_within_video`; a start is never negative
abbrev pub out_of_range : ValidatedClip → VideoMetadata → Bool
out_of_range clip video = ltb video.duration_seconds (clip.end_seconds * 1000000)

unfoldable pub check_clip_within_video : ValidatedClip → VideoMetadata → Result (Unit {0})
check_clip_within_video clip video =
    if out_of_range clip video then err timestamp_out_of_range else ok tt

-- `errors[clip_id] = exc`, which replaces an entry in its place
unfoldable pub put_error : Text → AppError → List (Text × AppError) → List (Text × AppError)
put_error clip_id exc [] = (clip_id, exc) ∷ []
put_error clip_id exc ((k, e) ∷ rest) =
    if text_eq k clip_id then (k, exc) ∷ rest else (k, e) ∷ put_error clip_id exc rest

abbrev pub collect :
    ValidatedClip → Result (Unit {0}) → List (Text × AppError) → List (Text × AppError)
collect clip (ok _) errors = errors
collect clip (err exc) errors = put_error clip.clip_id exc errors

unfoldable pub check_from :
    List ValidatedClip → VideoMetadata → List (Text × AppError) → List (Text × AppError)
unfolding check_clip_within_video put_error
check_from [] video errors = errors
check_from (clip ∷ clips) video errors =
    check_from clips video (collect clip (check_clip_within_video clip video) errors)

-- `check_all_clips`: the dict from the clips that are out of range to their errors
unfoldable pub check_all_clips : List ValidatedClip → VideoMetadata → List (Text × AppError)
unfolding check_from
check_all_clips clips video = check_from clips video []

-- `clip_id in errors`
abbrev pub has_error : Text → List (Text × AppError) → Bool
has_error clip_id = any (λ entry. text_eq entry.0 clip_id)

has_error-put_error :
    (i j : Text) (exc : AppError) (errors : List (Text × AppError))
    → has_error j (put_error i exc errors) ≡ (text_eq i j || has_error j errors)
unfolding put_error
has_error-put_error i j exc [] = ground arith
has_error-put_error i j exc ((k, e) ∷ rest) =
    ground
      (arith, text_eq_iff k i, text_eq_iff k j, text_eq_iff i j, has_error-put_error i j exc rest)

has_error-check_from :
    (j : Text) (clips : List ValidatedClip) (video : VideoMetadata)
    (errors : List (Text × AppError))
    → has_error j (check_from clips video errors)
      ≡ (has_error j errors || any (λ c. text_eq c.clip_id j && out_of_range c video) clips)
unfolding check_from
has_error-check_from j [] video errors = ground arith
has_error-check_from j (c ∷ clips) video errors = ground (
  arith,
  has_error-check_from j clips video (collect c (check_clip_within_video c video) errors),
  has_error-put_error c.clip_id j timestamp_out_of_range errors,
)

absent_clip :
    (j : Text) (clips : List ValidatedClip) (video : VideoMetadata)
    → any (λ c. text_eq c.clip_id j) clips ≡ false
    → any (λ c. text_eq c.clip_id j && out_of_range c video) clips ≡ false
absent_clip j [] video h = refl
absent_clip j (c ∷ clips) video h = ground (arith, absent_clip j clips video)

own_clip :
    (clip : ValidatedClip) (clips : List ValidatedClip) (video : VideoMetadata)
    → Unique (λ c. c.clip_id) clips
    → In clip clips
    → any (λ c. text_eq c.clip_id clip.clip_id && out_of_range c video) clips
      ≡ out_of_range clip video
own_clip clip [] video u h = elim h [ ]
own_clip clip (c ∷ clips) video u (inl e) =
    let absent = absent_clip clip.clip_id clips video (rw e u.0) in
    rw (← e) (ground (arith, absent, text_eq_self clip.clip_id))
own_clip clip (c ∷ clips) video u (inr k) = ground (
  arith,
  own_clip clip clips video u.1 k,
  text_eq_sym c.clip_id clip.clip_id,
  any-In (λ d. text_eq d.clip_id c.clip_id) clip clips k,
)

-- Of clips with distinct identifiers exactly those have an error that end after the video does.
pub check_all_clips-exact :
    (clip : ValidatedClip) (clips : List ValidatedClip) (video : VideoMetadata)
    → Unique (λ c. c.clip_id) clips
    → In clip clips
    → has_error clip.clip_id (check_all_clips clips video)
      ≡ ltb video.duration_seconds (clip.end_seconds * 1000000)
unfolding check_all_clips
check_all_clips-exact clip clips video u h =
    ground (arith, has_error-check_from clip.clip_id clips video [], own_clip clip clips video u h)
