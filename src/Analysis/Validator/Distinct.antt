-- ===== src/Analysis/Validator/Distinct.antt =====
-- Whatever the version and the form of a document, the clips that come out have distinct identifiers.
use ai_video_clip_processing.Base.{
  ◌≡◌, refl, Option, none, some, List, [], ◌∷◌, map, arith, Text, text_eq, codes, any, default_to,
  Bool-cases, inl, inr,
}
use ai_video_clip_processing.Errors.{Result, ok, ◌>>=◌, ◌>>◌, bind-ok}
use ai_video_clip_processing.Schemas.Json.{
  Json, null, bool, int, float, str, arr, obj, Fields, get_field,
}
use ai_video_clip_processing.Schemas.Validated.{AnalysisDocument, ValidatedAnalysis, ValidatedClip}
use ai_video_clip_processing.Analysis.Document.{
  Raw, parsed, parse_json_only, parse_and_check_shape, modelled, validate, validate_document,
}
use ai_video_clip_processing.Analysis.Document.Valid.{validate_document-valid}
use ai_video_clip_processing.Analysis.Foreign.{translate_if_foreign}
use ai_video_clip_processing.Analysis.Validator.{
  versions, validate_version, dispatch, validate_analysis_json,
}
use ai_video_clip_processing.Publishing.Rows.{Unique}

module _ {A : Type 0} (text : A → Text) where
  any-map :
      (key : Text) (xs : List A)
      → any (λ t. text_eq t key) (map text xs) ≡ any (λ x. text_eq (text x) key) xs
  any-map key [] = refl
  any-map key (x ∷ xs) = ground (arith, any-map key xs)

  -- uniqueness is a property of the texts alone
  Unique-map : (xs : List A) → Unique text xs → Unique (λ t. t) (map text xs)
  Unique-map [] u = tt
  Unique-map (x ∷ xs) u = (rw (any-map (text x) xs) u.0, Unique-map xs u.1)

  Unique-of_map : (xs : List A) → Unique (λ t. t) (map text xs) → Unique text xs
  Unique-of_map [] u = tt
  Unique-of_map (x ∷ xs) u = (rw (← any-map (text x) xs) u.0, Unique-of_map xs u.1)

-- the clips of a validated document
abbrev pub IsDistinct : ValidatedAnalysis → Type 0
IsDistinct result = Unique (λ c. c.clip_id) result.clips

validate_document-IsDistinct :
    (doc : AnalysisDocument) (result : ValidatedAnalysis)
    → validate_document doc ≡ ok result
    → IsDistinct result
validate_document-IsDistinct doc result h =
    let (_, same, unique) = validate_document-valid doc result h in
    Unique-of_map (λ (c : ValidatedClip). c.clip_id) result.clips
      (rw same (Unique-map _ doc.clips unique))

module _ (loads : Text → Option Json) (model_validate : Fields → Option AnalysisDocument)
    (repr_of : Json → Text) where
  validate-IsDistinct :
      (raw : Raw) (result : ValidatedAnalysis)
      → validate loads model_validate raw ≡ ok result
      → IsDistinct result
  unfolding validate
  validate-IsDistinct raw result h =
      let (fields, _, h1) =
        bind-ok (parse_and_check_shape loads raw)
          (λ data'. modelled (model_validate data') >>= validate_document) result h in
      let (doc, _, h2) = bind-ok (modelled (model_validate fields)) validate_document result h1 in
      validate_document-IsDistinct doc result h2

  validate_version-IsDistinct :
      (version : Json) (fields : Fields) (result : ValidatedAnalysis)
      → validate_version loads model_validate repr_of version fields ≡ ok result
      → IsDistinct result
  unfolding validate_version
  validate_version-IsDistinct (str version) fields result h =
      elim (Bool-cases (any (λ v. text_eq v version) versions)) [
        | inl k ↦ validate-IsDistinct (parsed (obj fields)) result (ground (arith, k, h))
        | inr k ↦ absurd (ground (arith, k, h))
      ]
  validate_version-IsDistinct (null) fields result h = absurd (cc)
  validate_version-IsDistinct (bool _) fields result h = absurd (cc)
  validate_version-IsDistinct (int _) fields result h = absurd (cc)
  validate_version-IsDistinct (float _) fields result h = absurd (cc)
  validate_version-IsDistinct (arr _) fields result h = absurd (cc)
  validate_version-IsDistinct (obj _) fields result h = absurd (cc)

  -- after the check of the shape nothing is left to validate
  checked-IsDistinct :
      (fields : Fields) (result : ValidatedAnalysis)
      → (parse_and_check_shape loads (parsed (obj fields))
          >> validate_version loads model_validate repr_of null fields)
        ≡ ok result
      → IsDistinct result
  checked-IsDistinct fields result h =
      let (_, _, h1) =
        bind-ok (parse_and_check_shape loads (parsed (obj fields)))
          (λ _. validate_version loads model_validate repr_of null fields) result h in
      validate_version-IsDistinct null fields result h1

  dispatch-IsDistinct :
      (fields : Fields) (version : Option Json) (result : ValidatedAnalysis)
      → dispatch loads model_validate repr_of fields version ≡ ok result
      → IsDistinct result
  unfolding dispatch
  dispatch-IsDistinct fields none result h = checked-IsDistinct fields result h
  dispatch-IsDistinct fields (some null) result h = checked-IsDistinct fields result h
  dispatch-IsDistinct fields (some (str v)) result h =
      validate_version-IsDistinct (str v) fields result h
  dispatch-IsDistinct fields (some (bool v)) result h =
      validate_version-IsDistinct (bool v) fields result h
  dispatch-IsDistinct fields (some (int v)) result h =
      validate_version-IsDistinct (int v) fields result h
  dispatch-IsDistinct fields (some (float v)) result h =
      validate_version-IsDistinct (float v) fields result h
  dispatch-IsDistinct fields (some (arr v)) result h =
      validate_version-IsDistinct (arr v) fields result h
  dispatch-IsDistinct fields (some (obj v)) result h =
      validate_version-IsDistinct (obj v) fields result h

  -- A document that passes the validator, whatever its version and its form, gives clips with distinct
  -- identifiers.
  pub validate_analysis_json-IsDistinct :
      (raw : Raw) (result : ValidatedAnalysis)
      → validate_analysis_json loads model_validate repr_of raw ≡ ok result
      → IsDistinct result
  unfolding validate_analysis_json
  validate_analysis_json-IsDistinct raw result h =
      let chosen : Fields → Option Fields → Result ValidatedAnalysis = λ data' translated.
        dispatch loads model_validate repr_of (default_to data' translated)
          (get_field (codes "schema_version") (default_to data' translated)) in
      let (data', _, h1) =
        bind-ok (parse_json_only loads raw) (λ d. translate_if_foreign repr_of d >>= chosen d)
          result h in
      let (translated, _, h2) =
        bind-ok (translate_if_foreign repr_of data') (chosen data') result h1 in
      dispatch-IsDistinct (default_to data' translated) _ result h2
