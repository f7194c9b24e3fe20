-- ===== src/Analysis/Foreign/Shape.antt =====
-- That a translated document has the shape of a native one.
use ai_video_clip_processing.Base.{
  ◌≡◌, refl, Option, some, List, [], ◌∷◌, Text, text_eq, codes, arith, ◌⊎◌, inl, inr,
}
use ai_video_clip_processing.Errors.{ok, err, missing_required_field, Result-cases}
use ai_video_clip_processing.Schemas.Json.{Json, str, obj, arr, nil, Fields, get_field}
use ai_video_clip_processing.Analysis.Document.{
  parsed, check_required_fields, check_clips, parse_json_only, parse_and_check_shape,
}
use ai_video_clip_processing.Analysis.Foreign.{
  ForeignClip, steps_of, get, all_clips, clip_json, clip_items, native_document, translate_steps,
  translate_processing_steps, translate_if_foreign,
}

clip_items-shape : (clips : List ForeignClip) → check_clips (clip_items clips) ≡ ok tt
unfolding check_clips check_required_fields clip_items clip_json get_field text_eq
clip_items-shape [] = refl
clip_items-shape (c ∷ clips) = clip_items-shape clips

native_document-shape :
    (loads : Text → Option Json) (c : ForeignClip) (clips : List ForeignClip)
    → let doc = native_document (c ∷ clips) in
      parse_and_check_shape loads (parsed (obj doc)) ≡ ok doc
unfolding parse_and_check_shape parse_json_only check_required_fields check_clips clip_items
    clip_json native_document get_field text_eq
native_document-shape loads c clips = rw (clip_items-shape clips) refl

abbrev HasShape : (Text → Option Json) → Fields → Type 0
HasShape loads doc =
    (parse_and_check_shape loads (parsed (obj doc)) ≡ ok doc)
    ⊎ ((get_field (codes "clips") doc ≡ some (arr nil))
        × (parse_and_check_shape loads (parsed (obj doc)) ≡ err missing_required_field))

native_document-HasShape :
    (loads : Text → Option Json) (clips : List ForeignClip)
    → HasShape loads (native_document clips)
      × (get_field (codes "schema_version") (native_document clips) ≡ some (str (codes "1.0")))
unfolding parse_and_check_shape parse_json_only check_required_fields check_clips clip_items
    native_document get_field text_eq
native_document-HasShape loads [] = (inr (refl, refl), refl)
native_document-HasShape loads (c ∷ clips) = (inl (native_document-shape loads c clips), refl)

pub translated_shape :
    (repr_of : Json → Text) (loads : Text → Option Json) (data' doc : Fields)
    → translate_processing_steps repr_of data' ≡ ok doc
    → HasShape loads doc × (get_field (codes "schema_version") doc ≡ some (str (codes "1.0")))
unfolding translate_processing_steps
translated_shape repr_of loads data' doc e =
    elim (Result-cases (
      translate_steps repr_of (steps_of (get (codes "processing_steps") data'))
        (record { clips = []; warnings = [] }))) [
          | inl (_, k) ↦ absurd (ground (arith, e, k))
          | inr (t, k) ↦
              let same : doc ≡ native_document (all_clips t) = ground (arith, e, k) in
              rw same (native_document-HasShape loads (all_clips t))
        ]

-- A document that is translated has all required fields of the native one if it has a clip, and is
-- refused for a missing field if it has none.
pub translate_if_foreign-shape :
    (repr_of : Json → Text) (loads : Text → Option Json) (data' doc : Fields)
    → translate_if_foreign repr_of data' ≡ ok (some doc)
    → (parse_and_check_shape loads (parsed (obj doc)) ≡ ok doc)
      ⊎ ((get_field (codes "clips") doc ≡ some (arr nil))
          × (parse_and_check_shape loads (parsed (obj doc)) ≡ err missing_required_field))
unfolding translate_if_foreign
translate_if_foreign-shape repr_of loads data' doc e =
    elim (Result-cases (translate_processing_steps repr_of data')) [
      | inl (_, k) ↦ absurd (ground (arith, e, k))
      | inr (d, k) ↦
          let same : doc ≡ d = ground (arith, e, k) in
          rw same (translated_shape repr_of loads data' d k).0
    ]

pub translated_version :
    (repr_of : Json → Text) (loads : Text → Option Json) (data' doc : Fields)
    → translate_if_foreign repr_of data' ≡ ok (some doc)
    → get_field (codes "schema_version") doc ≡ some (str (codes "1.0"))
unfolding translate_if_foreign
translated_version repr_of loads data' doc e =
    elim (Result-cases (translate_processing_steps repr_of data')) [
      | inl (_, k) ↦ absurd (ground (arith, e, k))
      | inr (d, k) ↦
          let same : doc ≡ d = ground (arith, e, k) in
          rw same (translated_shape repr_of loads data' d k).1
    ]
