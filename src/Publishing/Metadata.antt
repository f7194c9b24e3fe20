-- ===== src/Publishing/Metadata.antt =====
-- backend/app/publishing/metadata.py.
use ai_video_clip_processing.Base.{
  Option, none, some, List, [], ◌∷◌, ◌++◌, if◌then◌else◌, Text, text_eq, codes, strip, join,
}
use ai_video_clip_processing.Schemas.Validated.{ValidatedClip}

pub record PublishMetadata : Type 0 where
  pub title : Option Text
  pub caption : Option Text
  pub hashtags : List Text

-- `text or None`, and `bool(text)`
abbrev pub non_empty : Text → Option Text
non_empty [] = none
non_empty (c ∷ s) = some (c ∷ s)

-- `dict.get(key)` on `title_options`
unfoldable pub title_option : Text → List (Text × Text) → Option Text
title_option key [] = none
title_option key ((k, v) ∷ rest) = if text_eq k key then some v else title_option key rest

-- `a or b` on optional texts: an empty text is passed over too
abbrev pub or_else : Option Text → Option Text → Option Text
or_else none b = b
or_else (some []) b = b
or_else (some (c ∷ s)) b = some (c ∷ s)

unfoldable pub build_publish_metadata : ValidatedClip → PublishMetadata
unfolding title_option
build_publish_metadata clip = record {
  title =
      or_else (title_option (codes "curiosity") clip.title_options)
        (or_else (title_option (codes "direct") clip.title_options) (non_empty clip.hook));
  caption = non_empty clip.caption;
  hashtags = clip.hashtags;
}

-- `self.caption or ""`
abbrev caption_text : Option Text → Text
caption_text none = []
caption_text (some s) = s

-- the three ways to put a body and tags together
abbrev combine : Text → Text → Text
combine [] tags = tags
combine (c ∷ s) [] = c ∷ s
combine (c ∷ s) (d ∷ t) = (c ∷ s) ++ (10 ∷ 10 ∷ d ∷ t)

unfoldable pub combined_caption : PublishMetadata → Text
unfolding strip join
combined_caption m = combine (strip (caption_text m.caption)) (join (codes " ") m.hashtags)
