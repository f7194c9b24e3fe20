-- ===== src/Analysis/Examples.antt =====
-- The theorems about the dispatch of documents at a native and at a foreign one.
use ai_video_clip_processing.Base.{
  ◌≡◌, refl, Option, none, some, [], ◌∷◌, Text, codes, text_eq, join,
}
use ai_video_clip_processing.Timecode.Decimal.{decimal}
use ai_video_clip_processing.Errors.{ok}
use ai_video_clip_processing.Schemas.Json.{
  Json, str, arr, obj, Items, nil, cons, Fields, end, field, get_field,
}
use ai_video_clip_processing.Schemas.Validated.{AnalysisDocument}
use ai_video_clip_processing.Analysis.Document.{parsed, parse_json_only, validate}
use ai_video_clip_processing.Analysis.Foreign.{translate_if_foreign, ForeignClip, native_document}
use ai_video_clip_processing.Analysis.Validator.{validate_analysis_json}
use ai_video_clip_processing.Analysis.Validator.Native.{validate_analysis_json-native}

abbrev loads : Text → Option Json
loads s = none

abbrev model_validate : Fields → Option AnalysisDocument
model_validate fields = none

abbrev repr_of : Json → Text
repr_of j = codes "?"

abbrev native : Fields
native = field (codes "schema_version") (str (codes "1.0")) (field (codes "clips") (arr nil) end)

native_read : parse_json_only loads (parsed (obj native)) ≡ ok native
unfolding parse_json_only
native_read = refl

native_version : get_field (codes "schema_version") native ≡ some (str (codes "1.0"))
unfolding get_field text_eq
native_version = refl

validate_analysis_json-native_example :
    validate_analysis_json loads model_validate repr_of (parsed (obj native))
    ≡ validate loads model_validate (parsed (obj native))
validate_analysis_json-native_example =
    validate_analysis_json-native loads model_validate repr_of (parsed (obj native)) native
      native_read native_version

-- a step that trims, and one that is only noted
abbrev steps : Items
steps = cons (obj (field (codes "action") (str (codes "fade")) end)) (
    cons
      (obj (
        field (codes "action") (str (codes "trim")) (
          field (codes "parameters")
            (obj (
              field (codes "start_time") (str (codes "00:00:05"))
                (field (codes "end_time") (str (codes "00:00:35")) end)))
            end)))
      nil)

abbrev foreign : Fields
foreign = field (codes "processing_steps") (arr steps) end

abbrev foreign_clip : ForeignClip
foreign_clip = record {
  clip_id = codes "step_1";
  rank = 1;
  start_time = str (codes "00:00:05");
  end_time = str (codes "00:00:35");
  context_warning =
      codes "Source tool step 'fade' was ignored (not a recognized trim instruction).";
}

foreign_translated :
    translate_if_foreign repr_of foreign ≡ ok (some (native_document (foreign_clip ∷ [])))
unfolding translate_if_foreign get_field text_eq join decimal
foreign_translated = refl
