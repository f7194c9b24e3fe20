-- ===== src/Analysis/Document.antt =====
-- backend/app/json_validation/v1_0.py. `loads` stands for `json.loads`, which gives `none` where it
-- raises `JSONDecodeError`, and `model_validate` for `AnalysisDocument.model_validate`, which gives
-- `none` where it raises `ValidationError`.
pub mod Valid
use ai_video_clip_processing.Base.{
  ℕ, suc, Bool, true, false, not, ◌&&◌, ◌||◌, Option, none, some, List, [], ◌∷◌, if◌then◌else◌,
  Text, text_eq, codes, any, ℤ, pos, negsuc, ◌==◌, is_some, all,
}
use ai_video_clip_processing.Errors.{
  Result, ok, err, invalid_json, invalid_schema, missing_required_field, duplicate_clip_id, ◌>>=◌,
  ◌>>◌,
}
use ai_video_clip_processing.Schemas.Json.{
  Json, null, bool, int, float, str, arr, obj, Items, nil, cons, Fields, end, field, get_field,
}
use ai_video_clip_processing.Schemas.Validated.{
  AnalysisDocument, ClipIn, ValidatedClip, ValidatedAnalysis,
}
use ai_video_clip_processing.Timecode.{validate_clip_range}

abbrev top_level_required : List Text
top_level_required = codes "schema_version" ∷ codes "analysis" ∷ codes "clips" ∷ []

abbrev pub analysis_required : List Text
analysis_required =
    codes "source_type"
    ∷ codes "language"
    ∷ codes "total_clips_found"
    ∷ codes "analysis_status"
    ∷ []

abbrev pub clip_required : List Text
clip_required =
    codes "clip_id"
    ∷ codes "rank"
    ∷ codes "start_time"
    ∷ codes "end_time"
    ∷ codes "duration_seconds"
    ∷ codes "viral_score"
    ∷ codes "category"
    ∷ codes "speaker"
    ∷ codes "hook"
    ∷ codes "title_options"
    ∷ codes "caption"
    ∷ codes "hashtags"
    ∷ codes "reason"
    ∷ codes "payoff"
    ∷ codes "context_warning"
    ∷ codes "copyright_warning"
    ∷ []

-- `_check_required_fields`
unfoldable pub check_required_fields : Fields → List Text → Result (Unit {0})
check_required_fields raw required =
    if all (λ f. is_some (get_field f raw)) required then ok tt else err missing_required_field

-- the argument of the validator: a text, or a value that was parsed already
pub data Raw : Type 0 where
  text : Text → Raw
  parsed : Json → Raw

abbrev as_object : Json → Result Fields
as_object (obj fields) = ok fields
as_object (null) = err invalid_json
as_object _ = err invalid_json

abbrev decoded : Option Json → Result Fields
decoded none = err invalid_json
decoded (some value) = as_object value

-- `parse_json_only`
unfoldable pub parse_json_only : (Text → Option Json) → Raw → Result Fields
parse_json_only loads (text s) = decoded (loads s)
parse_json_only loads (parsed value) = as_object value

abbrev check_analysis : Option Json → Result (Unit {0})
check_analysis (some (obj fields)) = check_required_fields fields analysis_required
check_analysis (some null) = err missing_required_field
check_analysis _ = err missing_required_field

-- the loop over `clips`
unfoldable pub check_clips : Items → Result (Unit {0})
unfolding check_required_fields
check_clips nil = ok tt
check_clips (cons (obj fields) rest) =
    check_required_fields fields clip_required >> check_clips rest
check_clips (cons _ rest) = err invalid_schema

abbrev check_clips_field : Option Json → Result (Unit {0})
check_clips_field (some (arr (cons clip rest))) = check_clips (cons clip rest)
check_clips_field (some (arr nil)) = err missing_required_field
check_clips_field _ = err missing_required_field

-- `parse_and_check_shape`
unfoldable pub parse_and_check_shape : (Text → Option Json) → Raw → Result Fields
unfolding parse_json_only check_required_fields check_clips
parse_and_check_shape loads raw = do
  fields ← parse_json_only loads raw
  check_required_fields fields top_level_required
  check_analysis (get_field (codes "analysis") fields)
  check_clips_field (get_field (codes "clips") fields)
  ok fields

-- the loop over `seen_ids`
unfoldable pub check_unique_ids : List Text → List ClipIn → Result (Unit {0})
check_unique_ids seen [] = ok tt
check_unique_ids seen (clip ∷ clips) =
    let rest = check_unique_ids (clip.clip_id ∷ seen) clips in
    if any (λ i. text_eq i clip.clip_id) seen then err duplicate_clip_id else rest

-- `a != b` of a computed and a reported duration
abbrev pub differs : ℕ → ℤ → Bool
differs n (pos m) = not (n == m)
differs n (negsuc m) = true

-- the `ValidatedClip(...)` of a clip and its times
abbrev pub validated_clip : ClipIn → ℕ → ℕ → ℕ → ValidatedClip
validated_clip clip start_seconds end_seconds computed_duration = record {
  clip_id = clip.clip_id;
  rank = clip.rank;
  start_time = clip.start_time;
  end_time = clip.end_time;
  start_seconds = start_seconds;
  end_seconds = end_seconds;
  duration_seconds = computed_duration;
  ai_reported_duration_seconds = clip.duration_seconds;
  duration_mismatch = differs computed_duration clip.duration_seconds;
  viral_score = clip.viral_score;
  category = clip.category;
  speaker = clip.speaker;
  hook = clip.hook;
  title_options = clip.title_options;
  caption = clip.caption;
  hashtags = clip.hashtags;
  reason = clip.reason;
  payoff = clip.payoff;
  context_warning = clip.context_warning;
  copyright_warning = clip.copyright_warning;
  extra = clip.extra;
}

unfoldable pub validate_clip : ClipIn → Result ValidatedClip
validate_clip clip = do
  (start, stop, duration) ← validate_clip_range clip.start_time clip.end_time
  ok (validated_clip clip start stop duration)

-- the loop that builds `validated_clips`
unfoldable pub validate_clips : List ClipIn → Result (List ValidatedClip)
unfolding validate_clip
validate_clips [] = ok []
validate_clips (clip ∷ clips) = do
  first ← validate_clip clip
  rest ← validate_clips clips
  ok (first ∷ rest)

-- what `validate` does with the model that pydantic made
unfoldable pub validate_document : AnalysisDocument → Result ValidatedAnalysis
unfolding check_unique_ids validate_clips
validate_document doc = do
  check_unique_ids [] doc.clips
  clips ← validate_clips doc.clips
  ok (record { schema_version = doc.schema_version; analysis = doc.analysis; clips = clips })

abbrev pub modelled : Option AnalysisDocument → Result AnalysisDocument
modelled none = err invalid_schema
modelled (some doc) = ok doc

-- `validate`
unfoldable pub validate :
    (Text → Option Json) → (Fields → Option AnalysisDocument) → Raw → Result ValidatedAnalysis
unfolding parse_and_check_shape validate_document
validate loads model_validate raw = do
  data' ← parse_and_check_shape loads raw
  doc ← modelled (model_validate data')
  validate_document doc
