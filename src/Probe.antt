-- ===== src/Probe.antt =====
-- backend/app/video_metadata/probe.py and `run_ffprobe` of backend/app/ffmpeg_utils/runner.py. What
-- ffprobe does, `json.loads`, `float` and `int` are parts of the record `Ffprobe`, and `repr_of` is as in
-- `Analysis.Foreign`: a name that is no text is kept as Python's text of it. A number that is negative,
-- which ffprobe prints for none of these values, counts as 0.
pub mod Streams
use ai_video_clip_processing.Base.{
  ℕ, ◌*◌, ◌==◌, Bool, true, false, not, ◌||◌, Option, none, some, List, [], ◌∷◌, ◌++◌,
  if◌then◌else◌, Text, text_eq, codes, any, select, ℤ, pos, negsuc,
}
use ai_video_clip_processing.Errors.{
  AppError, Result, ok, err, video_corrupted, ffprobe_failed, no_video_stream, unknown_error, ◌>>=◌,
}
use ai_video_clip_processing.Schemas.Json.{
  Json, null, bool, int, float, str, arr, obj, Items, nil, cons, Fields, end, field, get_field,
}
use ai_video_clip_processing.Analysis.Foreign.{truthy, get, is_text, str_of}
use ai_video_clip_processing.Jobs.Models.{VideoMetadata}

-- how the process ends
pub data Ending : Type 0 where
  timed_out : Ending
  exited : (returncode : ℤ) → (stdout : Text) → Ending

pub record Ffprobe : Type 0 where
  pub exists : Bool
  pub st_size : ℕ
  pub ending : Ending
  pub loads : Text → Option Json
  pub microseconds : Json → Option ℕ  -- `float(value)`, where `none` is an exception
  pub int_of : Json → Option ℤ  -- `int(value)`
  pub repr_of : Json → Text
  pub float_of : Text → Option (ℕ × ℕ)  -- `float(text)` as a fraction

-- `run_ffprobe`: the text that it printed
abbrev pub run_ffprobe : Ending → Result Text
run_ffprobe timed_out = err ffprobe_failed
run_ffprobe (exited (pos n) stdout) = if n == 0 then ok stdout else err ffprobe_failed
run_ffprobe (exited (negsuc n) stdout) = err ffprobe_failed

-- `except FfprobeFailedError`
abbrev as_corrupted : Result Text → Result Text
as_corrupted (ok stdout) = ok stdout
as_corrupted (err ffprobe_failed) = err video_corrupted
as_corrupted (err e) = err e

-- `rate.split("/", 1)`, where there is a slash
unfoldable pub split_rate : Text → Text → Option (Text × Text)
split_rate word [] = none
split_rate word (c ∷ s) =
    let rest = split_rate (word ++ (c ∷ [])) s in if c == b'/' then some (word, s) else rest

-- `num_f / den_f if den_f else 0.0`
abbrev divided : ℕ × ℕ → ℕ × ℕ → ℕ × ℕ
divided (a, b) (c, d) = if c == 0 then (0, 1) else (a * d, b * c)

abbrev or_zero : Option (ℕ × ℕ) → ℕ × ℕ
or_zero none = (0, 1)
or_zero (some x) = x

abbrev quotient : Option (ℕ × ℕ) → Option (ℕ × ℕ) → ℕ × ℕ
quotient (some x) (some y) = divided x y
quotient none y = (0, 1)
quotient (some x) none = (0, 1)

-- `_parse_fps`
unfoldable pub parse_fps : (Text → Option (ℕ × ℕ)) → Text → ℕ × ℕ
unfolding split_rate text_eq
parse_fps float_of rate =
    if text_eq rate [] || text_eq rate (codes "0/0") then (0, 1) else by_slash (split_rate [] rate)
  where
    by_slash : Option (Text × Text) → ℕ × ℕ
    by_slash none = or_zero (float_of rate)
    by_slash (some (num, den)) = quotient (float_of num) (float_of den)

-- `.get` of a value that is no object is an `AttributeError`
abbrev pub as_fields : Json → Result Fields
as_fields (obj fields) = ok fields
as_fields (null) = err unknown_error
as_fields _ = err unknown_error

abbrev pub or_else : Json → Option Json → Json
or_else default none = default
or_else default (some value) = value

-- the objects of `streams`, each of which is asked for its type
unfoldable pub streams_of : Json → Result (List Fields)
streams_of (arr nil) = ok []
streams_of (arr (cons s items)) = do
  fields ← as_fields s
  rest ← streams_of (arr items)
  ok (fields ∷ rest)
streams_of (obj end) = ok []
streams_of (str []) = ok []
streams_of (null) = err unknown_error
streams_of _ = err unknown_error

-- `s.get("codec_type") == ...`
abbrev pub is_stream : Text → Fields → Bool
is_stream kind s = is_text kind (get (codes "codec_type") s)

abbrev pub first_stream : List Fields → Result Fields
first_stream [] = err no_video_stream
first_stream (s ∷ _) = ok s

-- `fmt.get("duration") or v.get("duration")`, which `None` ends
abbrev pub duration_of : Ffprobe → Json → Result ℕ
duration_of probe (null) = err video_corrupted
duration_of probe value = by_float (probe.microseconds value)
  where
    by_float : Option ℕ → Result ℕ
    by_float none = err unknown_error
    by_float (some n) = ok n

abbrev pub either : Json → Json → Json
either a b = if truthy a then a else b

-- `int(value)` of a size
abbrev natural : Option ℤ → Result ℕ
natural none = err unknown_error
natural (some (pos n)) = ok n
natural (some (negsuc n)) = ok 0

-- `int(value or default)`
abbrev pub int_or : Ffprobe → ℕ → Json → Result ℕ
int_or probe default value = if truthy value then natural (probe.int_of value) else ok default

-- `_parse_fps` of a value; `"/" in rate` of one that is no text is a `TypeError`
abbrev pub fps_of : Ffprobe → Json → Result (ℕ × ℕ)
fps_of probe (str rate) = ok (parse_fps probe.float_of rate)
fps_of probe (null) = ok (0, 1)
fps_of probe value = if truthy value then err unknown_error else ok (0, 1)

abbrev pub optional_text : Ffprobe → Json → Option Text
optional_text probe (null) = none
optional_text probe value = some (str_of probe.repr_of value)

-- `audio_streams[0].get("codec_name") if audio_streams else None`
abbrev pub audio_codec_of : Ffprobe → List Fields → Option Text
audio_codec_of probe [] = none
audio_codec_of probe (s ∷ _) = optional_text probe (get (codes "codec_name") s)

abbrev pub is_present : List Fields → Bool
is_present [] = false
is_present (_ ∷ _) = true

-- the numbers of a video
pub record Measures : Type 0 where
  pub duration_seconds : ℕ
  pub width : ℕ
  pub height : ℕ
  pub fps : ℕ × ℕ
  pub size_bytes : ℕ

abbrev pub measures_of : Ffprobe → Fields → Fields → Result Measures
measures_of probe v fmt = do
  duration ← duration_of probe (either (get (codes "duration") fmt) (get (codes "duration") v))
  width ← int_or probe 0 (get (codes "width") v)
  height ← int_or probe 0 (get (codes "height") v)
  fps ← fps_of probe (or_else (str (codes "0/0")) (get_field (codes "r_frame_rate") v))
  size_bytes ← int_or probe probe.st_size (get (codes "size") fmt)
  ok (record {
    duration_seconds = duration;
    width = width;
    height = height;
    fps = fps;
    size_bytes = size_bytes;
  })

-- the `VideoMetadata` of a video stream and the audio streams
abbrev pub metadata_of : Ffprobe → Fields → List Fields → Measures → VideoMetadata
metadata_of probe v audio_streams m = record {
  duration_seconds = m.duration_seconds;
  width = m.width;
  height = m.height;
  fps = m.fps;
  video_codec =
      str_of probe.repr_of (or_else (str (codes "unknown")) (get_field (codes "codec_name") v));
  audio_codec = audio_codec_of probe audio_streams;
  audio_present = is_present audio_streams;
  size_bytes = m.size_bytes;
}

abbrev decoded : Option Json → Result Json
decoded none = err ffprobe_failed
decoded (some value) = ok value

-- the streams and the format that ffprobe printed
abbrev pub printed : Ffprobe → Result (List Fields × Fields)
printed probe = do
  stdout ← as_corrupted (run_ffprobe probe.ending)
  value ← decoded (probe.loads stdout)
  data' ← as_fields value
  streams ← streams_of (or_else (arr nil) (get_field (codes "streams") data'))
  ok (streams, data')

-- what is made of them
abbrev pub described : Ffprobe → List Fields × Fields → Result VideoMetadata
described probe (streams, data') = do
  v ← first_stream (select (is_stream (codes "video")) streams)
  fmt ← as_fields (or_else (obj end) (get_field (codes "format") data'))
  measures ← measures_of probe v fmt
  ok (metadata_of probe v (select (is_stream (codes "audio")) streams) measures)

-- `probe_video`
unfoldable pub probe_video : Ffprobe → Result VideoMetadata
unfolding streams_of parse_fps truthy get_field str_of
probe_video probe =
    if not probe.exists || probe.st_size == 0
    then err video_corrupted
    else printed probe >>= described probe
