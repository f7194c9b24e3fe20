-- ===== src/Analysis/Validator/Native.antt =====
-- What the dispatch does with native and with translated documents.
use ai_video_clip_processing.Base.{◌≡◌, refl, Option, some, Text, text_eq, codes, arith}
use ai_video_clip_processing.Errors.{ok}
use ai_video_clip_processing.Schemas.Json.{Json, str, obj, Fields, get_field}
use ai_video_clip_processing.Schemas.Validated.{AnalysisDocument}
use ai_video_clip_processing.Analysis.Document.{
  Raw, text, parsed, parse_json_only, parse_and_check_shape, validate,
}
use ai_video_clip_processing.Analysis.Foreign.{translate_if_foreign}
use ai_video_clip_processing.Analysis.Foreign.Shape.{translated_version}
use ai_video_clip_processing.Analysis.Validator.{validate_version, dispatch, validate_analysis_json}

validate-read :
    (loads : Text → Option Json) (model_validate : Fields → Option AnalysisDocument) (raw : Raw)
    (data' : Fields)
    → parse_json_only loads raw ≡ ok data'
    → validate loads model_validate raw ≡ validate loads model_validate (parsed (obj data'))
unfolding validate parse_and_check_shape parse_json_only
validate-read loads model_validate (parsed value) data' e = rw e refl
validate-read loads model_validate (text s) data' e = rw e refl

dispatch-native :
    (loads : Text → Option Json) (model_validate : Fields → Option AnalysisDocument)
    (repr_of : Json → Text) (doc : Fields) (version : Option Json)
    → version ≡ some (str (codes "1.0"))
    → dispatch loads model_validate repr_of doc version
      ≡ validate loads model_validate (parsed (obj doc))
unfolding dispatch validate_version text_eq
dispatch-native loads model_validate repr_of doc version e = rw e refl

module _ (loads : Text → Option Json) (model_validate : Fields → Option AnalysisDocument)
    (repr_of : Json → Text) (raw : Raw) (data' : Fields)
    (read : parse_json_only loads raw ≡ ok data') where
  -- A document that says it has version 1.0 is never translated: the dispatch gives what the validator
  -- of that version gives for it.
  pub validate_analysis_json-native :
      get_field (codes "schema_version") data' ≡ some (str (codes "1.0"))
      → validate_analysis_json loads model_validate repr_of raw ≡ validate loads model_validate raw
  unfolding validate_analysis_json translate_if_foreign
  validate_analysis_json-native version =
      let native = dispatch-native loads model_validate repr_of data' _ version in
      ground (arith, validate-read loads model_validate raw data' read, read, version, native)

  -- A document that is translated goes through the validator of version 1.0 like a native one.
  pub validate_analysis_json-translated :
      (doc : Fields)
      → translate_if_foreign repr_of data' ≡ ok (some doc)
      → validate_analysis_json loads model_validate repr_of raw
        ≡ validate loads model_validate (parsed (obj doc))
  unfolding validate_analysis_json
  validate_analysis_json-translated doc e =
      let native =
        dispatch-native loads model_validate repr_of doc _
          (translated_version repr_of loads data' doc e) in
      ground (arith, read, e, native)
