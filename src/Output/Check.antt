-- ===== src/Output/Check.antt =====
-- backend/app/output/validator.py. Durations are in microseconds; `size` is what `stat` finds under
-- the path, and `probed` what `probe_video` returns or raises.
use ai_video_clip_processing.Base.{
  ℕ, ◌+◌, ◌-◌, ◌*◌, ltb, ◌==◌, ◌≡◌, ◌≤◌, ◌≢◌, ◌↔◌, refl, ap, subst, Bool, true, not, ◌&&◌, ◌||◌,
  Option, none, some, if◌then◌else◌, arith,
}
use ai_video_clip_processing.Errors.{Result, ok, err, output_validation_failed}
use ai_video_clip_processing.Jobs.Models.{VideoMetadata}

-- `abs(a - b)`
abbrev pub distance : ℕ → ℕ → ℕ
distance a b = a - b + (b - a)

-- what the clip must be
pub record Expected : Type 0 where
  pub duration_microseconds : ℕ
  pub width : ℕ
  pub height : ℕ
  pub source_audio_present : Bool

-- the checks of the metadata
unfoldable pub check_rendered : Expected → VideoMetadata → Result VideoMetadata
check_rendered expected metadata =
    if ltb (15 * 100000) (distance metadata.duration_seconds expected.duration_microseconds)
    then err output_validation_failed
    else if ltb 2 (distance metadata.width expected.width)
        || ltb 2 (distance metadata.height expected.height)
    then err output_validation_failed
    else if expected.source_audio_present && not metadata.audio_present
    then err output_validation_failed
    else ok metadata

-- `validate_output_clip`
unfoldable pub validate_output_clip :
    Option ℕ → Result VideoMetadata → Expected → Result VideoMetadata
unfolding check_rendered
validate_output_clip none probed expected = err output_validation_failed
validate_output_clip (some size) (err e) expected =
    if size == 0 then err output_validation_failed else err e
validate_output_clip (some size) (ok metadata) expected =
    if size == 0 then err output_validation_failed else check_rendered expected metadata

-- What a rendered clip must be: within a second and a half of the length, within two pixels of the
-- size each way, and with sound if the source has it.
pub record IsRendered (expected : Expected) (metadata : VideoMetadata) : Type 0 where
  pub length_close : distance metadata.duration_seconds expected.duration_microseconds ≤ 15 * 100000
  pub width_close : distance metadata.width expected.width ≤ 2
  pub height_close : distance metadata.height expected.height ≤ 2
  pub sound : expected.source_audio_present ≡ true → metadata.audio_present ≡ true

check_rendered_sound :
    (expected : Expected) (found metadata : VideoMetadata)
    → check_rendered expected found ≡ ok metadata
    → (found ≡ metadata) × IsRendered expected found
unfolding check_rendered
check_rendered_sound expected found metadata e = (
  ground (arith, e),
  record {
    length_close = ground (arith, e);
    width_close = ground (arith, e);
    height_close = ground (arith, e);
    sound = λ h. ground (arith, e, h);
  },
)

check_rendered_complete :
    (expected : Expected) (metadata : VideoMetadata)
    → IsRendered expected metadata
    → check_rendered expected metadata ≡ ok metadata
unfolding check_rendered
check_rendered_complete expected metadata r =
    ground (arith, r.length_close, r.width_close, r.height_close, r.sound)

-- The check returns metadata exactly if the file is there and not empty, ffprobe gives this metadata,
-- and the clip is what it must be.
pub validate_output_clip-exact :
    (size : Option ℕ) (probed : Result VideoMetadata) (expected : Expected)
    (metadata : VideoMetadata)
    → (validate_output_clip size probed expected ≡ ok metadata) ↔ (
        (n : ℕ) × (size ≡ some n) × (n ≢ 0) × (probed ≡ ok metadata) × IsRendered expected metadata)
unfolding validate_output_clip
validate_output_clip-exact none probed expected metadata = (λ e. cc, λ (n, e, k, l, r). cc)
validate_output_clip-exact (some n) (err e) expected metadata =
    (λ h. ground (arith, h), λ (m, e, k, l, r). cc)
validate_output_clip-exact (some n) (ok found) expected metadata = (
  λ h.
      let k : n ≢ 0 = λ z. ground (arith, h, z) in
      let (e, r) = check_rendered_sound expected found metadata (ground (arith, h, k)) in
      (n, refl, k, ap ok e, subst (IsRendered expected) e r),
  λ (m, e, k, l, r). ground (arith, e, k, l, check_rendered_complete expected metadata r),
)
