-- ===== src/Clip/Filters/Linked.antt =====
-- The labels of the filter graph that `_build_filter_complex` writes.
use ai_video_clip_processing.Base.{
  ℕ, zero, suc, ◌≡◌, refl, sym, ap, ◌∙◌, Bool, true, false, Option, none, some, List, [], ◌∷◌, ◌++◌,
  append_assoc, Text, codes, join,
}
use ai_video_clip_processing.Schemas.ProcessingConfig.{
  CropStrategy, center_crop, fit_with_blur_background, WatermarkMode, unmarked, authorized_overlay,
  authorized_remove, WatermarkConfig, ProcessingConfig,
}
use ai_video_clip_processing.Clip.Filters.{
  bracket, build_crop_filter, center_crop_text, blur_background_text, overlay_text, fps_text,
  center_crop_filter, fit_with_blur_background_filter, build_overlay_filter, build_filter_complex,
  crop_part, overlay_part, fps_part, after_remove, remove_part, finished_graph,
}

join-last :
    (sep : Text) (parts : List Text) (part : Text)
    → (before : Text) × (join sep (parts ++ part ∷ []) ≡ before ++ part)
unfolding join
join-last sep [] part = ([], refl)
join-last sep (p ∷ []) part = (p ++ sep, refl)
join-last sep (p ∷ q ∷ rest) part =
    let (before, e) = join-last sep (q ∷ rest) part in
    ((p ++ sep) ++ before, ap (λ t. (p ++ sep) ++ t) e ∙ sym (append_assoc (p ++ sep) before part))

-- the last part writes to the label
unfoldable IsLinked : List Text → Text → Type 0
IsLinked parts label =
    (before : List Text) × (part : Text) × (parts ≡ before ++ (part ++ bracket label) ∷ [])

build_crop_filter-label :
    (strategy : CropStrategy) (width height : ℕ) (input : Text)
    → (part : Text) × (build_crop_filter strategy width height input
        ≡ part ++ bracket (codes "cropped"))
unfolding build_crop_filter center_crop_filter fit_with_blur_background_filter
build_crop_filter-label center_crop width height input = (center_crop_text width height input, refl)
build_crop_filter-label fit_with_blur_background width height input =
    (blur_background_text width height input, refl)

module _ (float_text : ℕ → Text) where
  crop_part-IsLinked :
      (config : ProcessingConfig) (parts : List Text) (label : Text)
      → let (parts', label') = crop_part float_text config (parts, label) in IsLinked parts' label'
  unfolding IsLinked
  crop_part-IsLinked config parts label =
      let (part, e) =
        build_crop_filter-label config.crop_strategy config.output_width config.output_height
          label in
      (parts, part, ap (λ p. parts ++ p ∷ []) e)

  overlay_part-IsLinked :
      (mode : WatermarkMode) (w : WatermarkConfig) (there : Bool) (parts : List Text) (label : Text)
      → IsLinked parts label
      → let (parts', label') = overlay_part float_text mode w there (parts, label) in
        IsLinked parts' label'
  unfolding build_overlay_filter IsLinked
  overlay_part-IsLinked authorized_overlay w true parts label l =
      (parts, overlay_text float_text w label, refl)
  overlay_part-IsLinked authorized_overlay w false parts label l = l
  overlay_part-IsLinked authorized_remove w there parts label l = l
  overlay_part-IsLinked unmarked w there parts label l = l

  fps_part-IsLinked :
      (fps : Option ℕ) (parts : List Text) (label : Text)
      → IsLinked parts label
      → let (parts', label') = fps_part float_text fps (parts, label) in IsLinked parts' label'
  unfolding IsLinked
  fps_part-IsLinked none parts label l = l
  fps_part-IsLinked (some zero) parts label l = l
  fps_part-IsLinked (some (suc n)) parts label l = (parts, fps_text float_text label (suc n), refl)

  after_remove-IsLinked :
      (config : ProcessingConfig) (there : Bool) (parts : List Text) (label : Text)
      → let (parts', label') = after_remove float_text config there (parts, label) in
        IsLinked parts' label'
  after_remove-IsLinked config there parts label =
      let (cropped, input) = crop_part float_text config (parts, label) in
      let (marked, input') =
        overlay_part float_text config.watermark.mode config.watermark there (cropped, input) in
      fps_part-IsLinked config.fps marked input' (
        overlay_part-IsLinked config.watermark.mode config.watermark there cropped input
          (crop_part-IsLinked config parts label))

  finished_graph-linked :
      (config : ProcessingConfig) (there : Bool) (graph label : Text)
      (start : Option (List Text × Text))
      → finished_graph float_text config there start ≡ some (graph, label)
      → (before : Text) × (graph ≡ before ++ bracket label)
  unfolding IsLinked
  finished_graph-linked config there graph label none e = cc
  finished_graph-linked config there graph label (some (parts, input)) e =
      let (before, part, l) = after_remove-IsLinked config there parts input in
      let out = after_remove float_text config there (parts, input) in
      let (front, j) = join-last (codes ";") before (part ++ bracket out.1) in
      let g : graph ≡ (front ++ part) ++ bracket out.1 =
        cc (e, ap (join (codes ";")) l, j, append_assoc front part (bracket out.1)) in
      (front ++ part, cc (g, e))

  -- The graph ends in the label that is returned with it, in brackets: what ffmpeg is told to map is
  -- the output of the graph's last filter.
  pub build_filter_complex-linked :
      (config : ProcessingConfig) (there : Bool) (graph label : Text)
      → build_filter_complex float_text config there ≡ some (graph, label)
      → (before : Text) × (graph ≡ before ++ bracket label)
  unfolding build_filter_complex
  build_filter_complex-linked config there graph label e =
      finished_graph-linked config there graph label
        (remove_part float_text config.watermark.mode config.watermark) e
