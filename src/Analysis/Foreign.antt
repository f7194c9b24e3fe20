-- ===== src/Analysis/Foreign.antt =====
-- backend/app/json_validation/foreign_formats.py. `repr_of` stands for Python's text of a number with
-- a fraction, an array or an object. An exception that is no `AppError` is `unknown_error`.
pub mod Shape
use ai_video_clip_processing.Base.{
  ℕ, zero, suc, ◌+◌, ◌==◌, leb, Bool, true, false, not, ◌&&◌, ◌||◌, Option, none, some, List, [],
  ◌∷◌, ◌++◌, if◌then◌else◌, Text, text_eq, codes, join, ℤ, pos, negsuc, is_some, length, all, any,
  default_to,
}
use ai_video_clip_processing.Timecode.Decimal.{decimal}
use ai_video_clip_processing.Errors.{Result, ok, err, unknown_error, ◌>>=◌}
use ai_video_clip_processing.Schemas.Json.{
  Json, null, bool, int, float, str, arr, obj, Items, nil, cons, Fields, end, field, get_field,
}

-- the digits before an exponent are all zeros; a number that underflows counts as not zero
unfoldable pub is_zero_float : Text → Bool
is_zero_float [] = true
is_zero_float (c ∷ s) =
    let rest = is_zero_float s in
    if c == b'e' || c == b'E' then true else if leb b'1' c && leb c b'9' then false else rest

-- `bool(value)`
unfoldable pub truthy : Json → Bool
unfolding is_zero_float
truthy (null) = false
truthy (bool b) = b
truthy (int (pos zero)) = false
truthy (int _) = true
truthy (float s) = not (is_zero_float s)
truthy (str []) = false
truthy (str (_ ∷ _)) = true
truthy (arr nil) = false
truthy (arr (cons _ _)) = true
truthy (obj end) = false
truthy (obj (field _ _ _)) = true

-- `fields.get(key)`
abbrev pub get : Text → Fields → Json
get key fields = default_to null (get_field key fields)

-- `value or default`
abbrev or_json : Json → Json → Json
or_json value default = if truthy value then value else default

-- `value == "..."`
abbrev pub is_text : Text → Json → Bool
is_text t (str s) = text_eq s t
is_text t (null) = false
is_text t _ = false

-- `.get` of a value that should be an object
abbrev as_fields : Json → Result Fields
as_fields (obj fields) = ok fields
as_fields (null) = err unknown_error
as_fields _ = err unknown_error

abbrev pub looks_like_processing_steps_document : Fields → Bool
looks_like_processing_steps_document data' =
    not (is_some (get_field (codes "schema_version") data'))
    && is_array (get (codes "processing_steps") data')
  where
    is_array : Json → Bool
    is_array (arr _) = true
    is_array (null) = false
    is_array _ = false

-- A clip in the making. An absent `context_warning` is the empty text, which no note is.
pub record ForeignClip : Type 0 where
  pub clip_id : Text
  pub rank : ℕ
  pub start_time : Json
  pub end_time : Json
  pub context_warning : Text

abbrev not_acted_on : Text
not_acted_on =
    codes " This was NOT acted on automatically -- if you own this "
    ++ (codes "source and want it removed, configure it yourself under Step 4 -> Watermark -> "
        ++ codes "Authorized overlay/remove.")

abbrev pub steps_of : Json → Items
steps_of (arr items) = items
steps_of (null) = nil
steps_of _ = nil

-- The state of the loop: the clips so far, and the notes since the last of them.
pub record Translation : Type 0 where
  pub clips : List ForeignClip
  pub warnings : List Text

-- the notes behind the last clip go to that clip
unfoldable pub add_to_last : Text → List ForeignClip → List ForeignClip
add_to_last text [] = []
add_to_last text (c ∷ []) =
    record c {
      context_warning =
          (if text_eq c.context_warning [] then [] else c.context_warning ++ codes " ") ++ text;
    }
    ∷ []
add_to_last text (c ∷ d ∷ rest) = c ∷ add_to_last text (d ∷ rest)

abbrev pub all_clips : Translation → List ForeignClip
all_clips t = leftover t.warnings
  where
    leftover : List Text → List ForeignClip
    leftover [] = t.clips
    leftover (w ∷ ws) = add_to_last (join (codes " ") (w ∷ ws)) t.clips

abbrev text_or_null : Text → Json
text_or_null [] = null
text_or_null (c ∷ s) = str (c ∷ s)

-- a clip with `_PLACEHOLDER_METADATA`
unfoldable pub clip_json : ForeignClip → Json
clip_json c = obj (
    field (codes "clip_id") (str c.clip_id) (
      field (codes "rank") (int (pos c.rank)) (
        field (codes "start_time") c.start_time (
          field (codes "end_time") c.end_time (
            field (codes "duration_seconds") (int (pos 0)) (
              field (codes "context_warning") (text_or_null c.context_warning) (
                field (codes "viral_score") (int (pos 0)) (
                  field (codes "category") (str (codes "untitled")) (
                    field (codes "speaker") (str []) (
                      field (codes "hook") (str []) (
                        field (codes "title_options") (obj end) (
                          field (codes "caption") (str []) (
                            field (codes "hashtags") (arr nil) (
                              field (codes "reason") (str []) (
                                field (codes "payoff") (str [])
                                  (field (codes "copyright_warning") null end))))))))))))))))

unfoldable pub clip_items : List ForeignClip → Items
unfolding clip_json
clip_items [] = nil
clip_items (c ∷ rest) = cons (clip_json c) (clip_items rest)

unfoldable pub native_document : List ForeignClip → Fields
unfolding clip_items
native_document clips = field (codes "schema_version") (str (codes "1.0")) (
    field (codes "analysis")
      (obj (
        field (codes "source_type") (str (codes "video")) (
          field (codes "language") (str (codes "unknown")) (
            field (codes "total_clips_found") (int (pos (length clips)))
              (field (codes "analysis_status") (str (codes "complete")) end)))))
      (field (codes "clips") (arr (clip_items clips)) end))

module _ (repr_of : Json → Text) where
  -- `f"{value}"`
  unfoldable pub str_of : Json → Text
  str_of (null) = codes "None"
  str_of (bool true) = codes "True"
  str_of (bool false) = codes "False"
  str_of (int (pos n)) = decimal n
  str_of (int (negsuc n)) = b'-' ∷ decimal (suc n)
  str_of (str s) = s
  str_of j = repr_of j

  abbrev region_text : Fields → Text
  region_text r =
      codes " Suggested source-pixel region: x="
      ++ (str_of (get (codes "x") r)
          ++ (codes ", y="
              ++ (str_of (get (codes "y") r)
                  ++ (codes ", w="
                      ++ (str_of (get (codes "width") r)
                          ++ (codes ", h=" ++ (str_of (get (codes "height") r) ++ codes ".")))))))

  -- the text of `regions[0]`, for a value that is true: an object has no key 0, and a number no index
  unfoldable pub first_region : Json → Result Text
  unfolding str_of
  first_region (arr (cons (obj r) _)) = ok (region_text r)
  first_region (arr _) = ok []
  first_region (str _) = ok []
  first_region (null) = err unknown_error
  first_region _ = err unknown_error

  -- `_describe_non_trim_step` on the parameters of a watermark step
  unfoldable pub describe_watermark : Fields → Result (Option Text)
  unfolding truthy first_region
  describe_watermark params =
      let message =
        or_json (get (codes "fallback_message") params)
          (str (codes "Source tool flagged a possible watermark/overlay.")) in
      let regions = get (codes "known_regions") params in
      let region = if truthy regions then first_region regions else ok [] in
      let note = λ (text : Text). some (str_of message ++ (text ++ not_acted_on)) in
      if truthy (get (codes "detect_overlay") params)
      then (region >>= λ text. ok (note text))
      else ok none

  unfoldable pub describe_non_trim_step : Fields → Result (Option Text)
  unfolding truthy describe_watermark
  describe_non_trim_step step =
      let action = get (codes "action") step in
      let watermark =
        as_fields (or_json (get (codes "parameters") step) (obj end)) >>= describe_watermark in
      if is_text (codes "handle_watermark") action
      then watermark
      else ok (
          some (
            codes "Source tool step '"
            ++ (str_of action ++ codes "' was ignored (not a recognized trim instruction).")))

  abbrev with_note : Translation → Option Text → Translation
  with_note t none = t
  with_note t (some []) = t
  with_note t (some (c ∷ s)) = record t { warnings = t.warnings ++ (c ∷ s) ∷ [] }

  -- the clip of a trim step with its times; `step.get("step", len(clips) + 1)`
  abbrev with_clip : Fields → Json → Json → Translation → Translation
  with_clip step start_time end_time t =
      let number = length t.clips + 1 in
      let step_number = default_to (int (pos number)) (get_field (codes "step") step) in
      record {
        clips =
            t.clips
            ++ record {
              clip_id = codes "step_" ++ str_of step_number;
              rank = number;
              start_time = start_time;
              end_time = end_time;
              context_warning = join (codes " ") t.warnings;
            }
              ∷ [];
        warnings = [];
      }

  unfoldable pub trim_step : Fields → Translation → Fields → Translation
  unfolding truthy
  trim_step step t params =
      let start_time = get (codes "start_time") params in
      let end_time = get (codes "end_time") params in
      if truthy start_time && truthy end_time then with_clip step start_time end_time t else t

  -- one round of the loop
  unfoldable pub translate_step : Json → Translation → Result Translation
  unfolding trim_step describe_non_trim_step
  translate_step (obj step) t =
      let trim = as_fields (or_json (get (codes "parameters") step) (obj end)) >>= λ params.
      ok (trim_step step t params) in
      let note = describe_non_trim_step step >>= λ text. ok (with_note t text) in
      if is_text (codes "trim") (get (codes "action") step) then trim else note
  translate_step (null) t = ok t
  translate_step _ t = ok t

  unfoldable pub translate_steps : Items → Translation → Result Translation
  unfolding translate_step
  translate_steps nil t = ok t
  translate_steps (cons step rest) t = translate_step step t >>= λ t'. translate_steps rest t'

  -- `_translate_processing_steps`
  unfoldable pub translate_processing_steps : Fields → Result Fields
  unfolding translate_steps add_to_last native_document
  translate_processing_steps data' = do
    t ←
        translate_steps (steps_of (get (codes "processing_steps") data'))
          (record { clips = []; warnings = [] })
    ok (native_document (all_clips t))

  unfoldable pub translate_if_foreign : Fields → Result (Option Fields)
  unfolding translate_processing_steps
  translate_if_foreign data' =
      let translated = translate_processing_steps data' >>= λ doc. ok (some doc) in
      if looks_like_processing_steps_document data' then translated else ok none
