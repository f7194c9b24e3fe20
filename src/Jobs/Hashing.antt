-- ===== src/Jobs/Hashing.antt =====
-- backend/app/jobs/hashing.py and `to_metadata_dict` of backend/app/schemas/validated.py. `sha256`
-- stands for `hashlib.sha256(...).hexdigest()` of a text's UTF-8, and `dumps` for
-- `json.dumps(..., sort_keys=True)`.
pub mod Order
use ai_video_clip_processing.Base.{
  ℕ, ◌==◌, ltb, Bool, true, false, Option, none, some, List, [], ◌∷◌, ◌++◌, if◌then◌else◌, Text,
  codes, map, text_le, ℤ, pos, sorted,
}
use ai_video_clip_processing.Schemas.Json.{
  Json, null, int, str, arr, obj, Items, nil, cons, Fields, end, field,
}
use ai_video_clip_processing.Schemas.Validated.{ValidatedClip}

unfoldable pub of_texts : List Text → Items
of_texts [] = nil
of_texts (s ∷ rest) = cons (str s) (of_texts rest)

unfoldable pub of_pairs : List (Text × Text) → Fields
of_pairs [] = end
of_pairs ((k, v) ∷ rest) = field k (str v) (of_pairs rest)

abbrev pub of_option : Option Text → Json
of_option none = null
of_option (some s) = str s

-- `to_metadata_dict`
unfoldable pub to_metadata_dict : ValidatedClip → Json
unfolding of_texts of_pairs
to_metadata_dict c = obj (
    field (codes "clip_id") (str c.clip_id) (
      field (codes "rank") (int c.rank) (
        field (codes "start_time") (str c.start_time) (
          field (codes "end_time") (str c.end_time) (
            field (codes "duration_seconds") (int (pos c.duration_seconds)) (
              field (codes "viral_score") (int c.viral_score) (
                field (codes "category") (str c.category) (
                  field (codes "speaker") (str c.speaker) (
                    field (codes "hook") (str c.hook) (
                      field (codes "title_options") (obj (of_pairs c.title_options)) (
                        field (codes "caption") (str c.caption) (
                          field (codes "hashtags") (arr (of_texts c.hashtags)) (
                            field (codes "reason") (str c.reason) (
                              field (codes "payoff") (str c.payoff) (
                                field (codes "context_warning") (of_option c.context_warning) (
                                  field (codes "copyright_warning") (of_option c.copyright_warning)
                                    end))))))))))))))))

unfoldable pub of_items : List Json → Items
of_items [] = nil
of_items (j ∷ rest) = cons j (of_items rest)

-- `c.clip_id <= d.clip_id`
abbrev pub id_le : ValidatedClip → ValidatedClip → Bool
id_le c d = text_le c.clip_id d.clip_id

module _ (sha256 : Text → Text) (dumps : Json → Text) where
  unfoldable pub hash_clips : List ValidatedClip → Text
  unfolding of_items to_metadata_dict
  hash_clips clips = sha256 (dumps (arr (of_items (map to_metadata_dict (sorted id_le clips)))))

  -- `compute_idempotency_key`
  unfoldable pub compute_idempotency_key : Text → Text → Text → Text
  compute_idempotency_key source_hash clips_hash config_hash =
      sha256 (source_hash ++ (codes ":" ++ (clips_hash ++ (codes ":" ++ config_hash))))
