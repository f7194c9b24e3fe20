-- ===== src/Analysis/Validator.antt =====
-- backend/app/json_validation/validator.py: the dispatch on the version of a document. `loads` and
-- `model_validate` are as in `Analysis.Document`, and `repr_of` as in `Analysis.Foreign`.
pub mod Native
pub mod Distinct
use ai_video_clip_processing.Base.{
  Bool, true, false, Option, none, some, List, [], ◌∷◌, if◌then◌else◌, Text, text_eq, codes, any,
  default_to,
}
use ai_video_clip_processing.Errors.{
  Result, ok, err, unknown_error, unsupported_schema_version, ◌>>=◌, ◌>>◌,
}
use ai_video_clip_processing.Schemas.Json.{Json, null, str, arr, obj, Fields, get_field}
use ai_video_clip_processing.Schemas.Validated.{AnalysisDocument, ValidatedAnalysis}
use ai_video_clip_processing.Analysis.Document.{
  Raw, parsed, parse_json_only, parse_and_check_shape, validate,
}
use ai_video_clip_processing.Analysis.Foreign.{translate_if_foreign}

-- the keys of `_REGISTRY`
abbrev pub versions : List Text
versions = codes "1.0" ∷ []

module _ (loads : Text → Option Json) (model_validate : Fields → Option AnalysisDocument)
    (repr_of : Json → Text) where
  -- `_REGISTRY[version](data)`, and what `version not in _REGISTRY` does: an array or an object has no
  -- hash, which is a `TypeError`
  unfoldable pub validate_version : Json → Fields → Result ValidatedAnalysis
  unfolding validate
  validate_version (str version) data' =
      if any (λ v. text_eq v version) versions
      then validate loads model_validate (parsed (obj data'))
      else err unsupported_schema_version
  validate_version (arr _) data' = err unknown_error
  validate_version (obj _) data' = err unknown_error
  validate_version _ data' = err unsupported_schema_version

  -- the check of the shape where the version is absent or `null`
  unfoldable pub dispatch : Fields → Option Json → Result ValidatedAnalysis
  unfolding validate_version parse_and_check_shape
  dispatch data' none =
      parse_and_check_shape loads (parsed (obj data')) >> validate_version null data'
  dispatch data' (some null) =
      parse_and_check_shape loads (parsed (obj data')) >> validate_version null data'
  dispatch data' (some version) = validate_version version data'

  unfoldable pub validate_analysis_json : Raw → Result ValidatedAnalysis
  unfolding parse_json_only translate_if_foreign dispatch
  validate_analysis_json raw = do
    data' ← parse_json_only loads raw
    translated ← translate_if_foreign repr_of data'
    let chosen = default_to data' translated
    dispatch chosen (get_field (codes "schema_version") chosen)
