-- ===== src/Analysis/Document/Valid.antt =====
-- What a document that passes the validator satisfies.
use ai_video_clip_processing.Base.{
  ◌-◌, ◌≡◌, ◌<◌, false, List, [], ◌∷◌, arith, Text, text_eq, text_eq_sym, any, All, map, inl, inr,
}
use ai_video_clip_processing.Errors.{ok, Result-cases}
use ai_video_clip_processing.Schemas.Validated.{
  AnalysisDocument, ClipIn, ValidatedClip, ValidatedAnalysis,
}
use ai_video_clip_processing.Publishing.Rows.{Unique}
use ai_video_clip_processing.Timecode.{parse_timecode, validate_clip_range}
use ai_video_clip_processing.Analysis.Document.{
  differs, check_unique_ids, validate_clip, validate_clips, validate_document,
}

-- A clip whose times agree with each other and with their texts.
pub record IsTimed (c : ValidatedClip) : Type 0 where
  pub start_parsed : parse_timecode c.start_time ≡ ok c.start_seconds
  pub end_parsed : parse_timecode c.end_time ≡ ok c.end_seconds
  pub ordered : c.start_seconds < c.end_seconds
  pub duration : c.duration_seconds ≡ c.end_seconds - c.start_seconds
  pub mismatch : c.duration_mismatch ≡ differs c.duration_seconds c.ai_reported_duration_seconds

validate_clip-IsTimed :
    (clip : ClipIn) (c : ValidatedClip)
    → validate_clip clip ≡ ok c
    → IsTimed c × (c.clip_id ≡ clip.clip_id)
unfolding validate_clip validate_clip_range
validate_clip-IsTimed clip c h = ground arith

validate_clips-valid :
    (clips : List ClipIn) (result : List ValidatedClip)
    → validate_clips clips ≡ ok result
    → All IsTimed result × (map (λ c. c.clip_id) result ≡ map (λ c. c.clip_id) clips)
unfolding validate_clips
validate_clips-valid [] result h = ground arith
validate_clips-valid (clip ∷ clips) result h = elim (Result-cases (validate_clip clip)) [
  | inl (_, e) ↦ ground (arith, e, h)
  | inr (c, e) ↦ elim (Result-cases (validate_clips clips)) [
    | inl (_, k) ↦ ground (arith, e, k, h)
    | inr (cs, k) ↦
        ground (arith, e, k, h, validate_clip-IsTimed clip c e, validate_clips-valid clips cs k)
  ]
]

grown :
    (i : Text) (seen : List Text) (clips : List ClipIn)
    → All (λ c. any (λ j. text_eq j c.clip_id) (i ∷ seen) ≡ false) clips
    → All (λ c. any (λ j. text_eq j c.clip_id) seen ≡ false) clips
      × (any (λ c. text_eq c.clip_id i) clips ≡ false)
grown i seen [] h = ground arith
grown i seen (c ∷ clips) h = ground (arith, grown i seen clips h.1, h.0, text_eq_sym c.clip_id i)

-- the identifiers that the loop has let through
check_unique_ids_sound :
    (seen : List Text) (clips : List ClipIn)
    → check_unique_ids seen clips ≡ ok tt
    → Unique (λ c. c.clip_id) clips × All (λ c. any (λ i. text_eq i c.clip_id) seen ≡ false) clips
unfolding check_unique_ids
check_unique_ids_sound seen [] h = ground arith
check_unique_ids_sound seen (c ∷ clips) h =
    ground (arith, check_unique_ids_sound (c.clip_id ∷ seen) clips, grown c.clip_id seen clips)

-- A document that passes the validator has distinct identifiers, and its clips come out under the
-- same identifiers in the same order, each with a start before its end, with the seconds that its
-- two time texts parse to, with their difference as duration, and with the flag that says whether
-- the reported duration differs from it.
pub validate_document-valid :
    (doc : AnalysisDocument) (result : ValidatedAnalysis)
    → validate_document doc ≡ ok result
    → All IsTimed result.clips
      × (map (λ c. c.clip_id) result.clips ≡ map (λ c. c.clip_id) doc.clips)
      × Unique (λ c. c.clip_id) doc.clips
unfolding validate_document
validate_document-valid doc result h = elim (Result-cases (validate_clips doc.clips)) [
  | inl (_, k) ↦ ground (arith, k, h)
  | inr (cs, k) ↦
      ground (arith, k, h, check_unique_ids_sound [] doc.clips, validate_clips-valid doc.clips cs k)
]
