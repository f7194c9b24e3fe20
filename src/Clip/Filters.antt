-- ===== src/Clip/Filters.antt =====
-- The filter graph of ffmpeg: backend/app/cropping/strategies.py, backend/app/watermark/overlay.py and
-- `_build_filter_complex` of backend/app/clip_processing/pipeline.py. `float_text` gives the text of a
-- number of millionths as Python prints it.
pub mod Linked
use ai_video_clip_processing.Base.{
  ℕ, zero, suc, min, Bool, true, false, ◌&&◌, Option, none, some, List, [], ◌∷◌, ◌++◌,
  if◌then◌else◌, Text, text_eq, codes, join, default_to,
}
use ai_video_clip_processing.Timecode.Decimal.{decimal}
use ai_video_clip_processing.Schemas.ProcessingConfig.{
  CropStrategy, center_crop, fit_with_blur_background, WatermarkMode, authorized_overlay,
  authorized_remove, RemoveRegion, WatermarkConfig, ProcessingConfig,
}

-- `[label]`
abbrev pub bracket : Text → Text
bracket label = b'[' ∷ (label ++ codes "]")

abbrev size_text : ℕ → ℕ → Text
size_text width height = decimal width ++ (codes ":" ++ decimal height)

abbrev pub center_crop_text : ℕ → ℕ → Text → Text
center_crop_text width height input_label =
    bracket input_label
    ++ (codes "scale="
        ++ (size_text width height
            ++ (codes ":force_original_aspect_ratio=increase,crop="
                ++ (size_text width height ++ codes ",setsar=1"))))

-- `_center_crop`
unfoldable pub center_crop_filter : ℕ → ℕ → Text → Text
unfolding decimal
center_crop_filter width height input_label =
    center_crop_text width height input_label ++ bracket (codes "cropped")

abbrev pub blur_background_text : ℕ → ℕ → Text → Text
blur_background_text width height input_label =
    bracket input_label
    ++ (codes "split=2[bgsrc][fgsrc];[bgsrc]scale="
        ++ (size_text width height
            ++ (codes ":force_original_aspect_ratio=increase,crop="
                ++ (size_text width height
                    ++ (codes ",gblur=sigma=25,eq=brightness=-0.05[bg];[fgsrc]scale="
                        ++ (size_text width height
                            ++ (codes ":force_original_aspect_ratio=decrease[fg];"
                                ++ codes
                                    "[bg][fg]overlay=(W-w)/2:(H-h)/2:format=auto,setsar=1")))))))

-- `_fit_with_blur_background`
unfoldable pub fit_with_blur_background_filter : ℕ → ℕ → Text → Text
unfolding decimal
fit_with_blur_background_filter width height input_label =
    blur_background_text width height input_label ++ bracket (codes "cropped")

-- `build_crop_filter`
unfoldable pub build_crop_filter : CropStrategy → ℕ → ℕ → Text → Text
unfolding center_crop_filter fit_with_blur_background_filter
build_crop_filter center_crop width height input_label = center_crop_filter width height input_label
build_crop_filter fit_with_blur_background width height input_label =
    fit_with_blur_background_filter width height input_label

-- `build_remove_region_filter`; without a region it is an `AssertionError`, `none` here
abbrev region_filter : Text → RemoveRegion → Text
region_filter input_label r =
    (bracket input_label
      ++ (codes "delogo=x="
          ++ (decimal r.x
              ++ (codes ":y="
                  ++ (decimal r.y
                      ++ (codes ":w="
                          ++ (decimal r.width
                              ++ (codes ":h=" ++ (decimal r.height ++ codes ":show=0")))))))))
    ++ bracket (codes "delogoed")

unfoldable pub build_remove_region_filter : Option RemoveRegion → Text → Option Text
unfolding decimal
build_remove_region_filter none input_label = none
build_remove_region_filter (some r) input_label = some (region_filter input_label r)

-- `_POSITION_EXPR` with the margin put in; an unknown position is `bottom_right`
abbrev pub position_expr : Text → ℕ → Text
position_expr position margin_px =
    let m = decimal margin_px in
    if text_eq position (codes "bottom_left")
    then m ++ (codes ":H-h-" ++ m)
    else if text_eq position (codes "top_right")
    then codes "W-w-" ++ (m ++ (codes ":" ++ m))
    else if text_eq position (codes "top_left")
    then m ++ (codes ":" ++ m)
    else if text_eq position (codes "center")
    then codes "(W-w)/2:(H-h)/2"
    else codes "W-w-" ++ (m ++ (codes ":H-h-" ++ m))

module _ (float_text : ℕ → Text) where
  -- the overlay without its output; the opacity is kept within one
  abbrev pub overlay_text : WatermarkConfig → Text → Text
  overlay_text w base_label =
      codes "[1:v]format=rgba,colorchannelmixer=aa="
      ++ (float_text (min 1000000 w.opacity)
          ++ (codes "[wm];"
              ++ (bracket base_label
                  ++ (codes "[wm]overlay="
                      ++ (position_expr w.position w.margin_px ++ codes ":format=auto")))))

  -- `build_overlay_filter`
  unfoldable pub build_overlay_filter : WatermarkConfig → Text → Text → Text
  unfolding decimal
  build_overlay_filter w base_label output_label = overlay_text w base_label ++ bracket output_label

  -- The parts of the graph so far with the label of the last.
  abbrev pub Graph : Type 0
  Graph = List Text × Text

  abbrev add_part : Graph → Text → Text → Graph
  add_part (parts, _) part label = (parts ++ part ∷ [], label)

  abbrev pub remove_part : WatermarkMode → WatermarkConfig → Option Graph
  remove_part authorized_remove w =
      with_region (build_remove_region_filter w.remove_region (codes "0:v"))
    where
      with_region : Option Text → Option Graph
      with_region none = none
      with_region (some part) = some (part ∷ [], codes "delogoed")
  remove_part _ w = some ([], codes "0:v")

  abbrev pub crop_part : ProcessingConfig → Graph → Graph
  crop_part config (parts, label) =
      add_part (parts, label)
        (build_crop_filter config.crop_strategy config.output_width config.output_height label)
        (codes "cropped")

  abbrev pub overlay_part : WatermarkMode → WatermarkConfig → Bool → Graph → Graph
  overlay_part authorized_overlay w true (parts, label) =
      add_part (parts, label) (build_overlay_filter w label (codes "wmapplied")) (codes "wmapplied")
  overlay_part _ w _ graph = graph

  abbrev pub fps_text : Text → ℕ → Text
  fps_text label n = bracket label ++ (codes "fps=" ++ decimal n)

  abbrev pub fps_part : Option ℕ → Graph → Graph
  fps_part none graph = graph
  fps_part (some zero) graph = graph
  fps_part (some (suc n)) (parts, label) =
      add_part (parts, label) (fps_text label (suc n) ++ bracket (codes "fpsed")) (codes "fpsed")

  abbrev pub after_remove : ProcessingConfig → Bool → Graph → Graph
  after_remove config overlay_present graph =
      fps_part config.fps (
        overlay_part config.watermark.mode config.watermark overlay_present
          (crop_part config graph))

  abbrev pub finished_graph : ProcessingConfig → Bool → Option Graph → Option (Text × Text)
  finished_graph config overlay_present none = none
  finished_graph config overlay_present (some graph) =
      let (parts, label) = after_remove config overlay_present graph in
      some (join (codes ";") parts, label)

  -- `_build_filter_complex`: the graph and the label of its result
  unfoldable pub build_filter_complex : ProcessingConfig → Bool → Option (Text × Text)
  unfolding build_crop_filter build_remove_region_filter build_overlay_filter join decimal
  build_filter_complex config overlay_present =
      finished_graph config overlay_present (remove_part config.watermark.mode config.watermark)
