-- ===== src/Probe/Streams.antt =====
-- What a video that `probe_video` gives says of the streams of its file.
use ai_video_clip_processing.Base.{
  ℕ, ◌≡◌, ◌⊎◌, inl, inr, refl, subst, ◌∙◌, Bool, true, false, not, ◌||◌, ◌==◌, Option, none, some,
  is_some, List, [], ◌∷◌, arith, Text, codes, select, if◌then◌else◌, default_to,
}
use ai_video_clip_processing.Errors.{
  AppError, Result, ok, err, ◌>>=◌, bind-ok, video_corrupted, Result-cases,
}
use ai_video_clip_processing.Schemas.Json.{
  Json, null, bool, int, float, str, arr, obj, Fields, end, get_field,
}
use ai_video_clip_processing.Analysis.Foreign.{truthy, get, is_text, str_of}
use ai_video_clip_processing.Jobs.Models.{VideoMetadata}
use ai_video_clip_processing.Probe.{
  Ffprobe, probe_video, printed, described, is_stream, first_stream, metadata_of, Measures,
  measures_of, as_fields, or_else, optional_text, duration_of, either,
}

-- The name of a codec as ffprobe gives it, where a value that is no text is kept as some text of it.
abbrev pub IsCodec : Option Json → Option Text → Type 0
IsCodec none codec = codec ≡ none
IsCodec (some (null)) codec = codec ≡ none
IsCodec (some (str name)) codec = codec ≡ some name
IsCodec (some value) codec = is_some codec ≡ true

-- The streams of one type among all, in their order.
abbrev pub of_type : Text → List Fields → List Fields
of_type kind [] = []
of_type kind (s ∷ streams) =
    let rest = of_type kind streams in
    if is_text kind (get (codes "codec_type") s) then s ∷ rest else rest

-- What is said of the audio: nothing without an audio stream, and else the codec of the first one.
abbrev pub IsAudio : List Fields → VideoMetadata → Type 0
IsAudio [] m = (m.audio_present ≡ false) × (m.audio_codec ≡ none)
IsAudio (s ∷ _) m =
    (m.audio_present ≡ true) × IsCodec (get_field (codes "codec_name") s) m.audio_codec

-- The codec of a video stream, "unknown" where ffprobe gives none.
abbrev pub IsVideoCodec : Option Json → Text → Type 0
IsVideoCodec none codec = codec ≡ codes "unknown"
IsVideoCodec (some (str name)) codec = codec ≡ name
IsVideoCodec (some (null)) codec = Unit
IsVideoCodec (some value) codec = Unit

-- The length: `float` of the one of the format where that is a value that is true, and else of the one
-- of the stream.
abbrev pub IsDuration : Ffprobe → (of_format of_stream : Json) → ℕ → Type 0
IsDuration probe of_format of_stream n =
    probe.microseconds (if truthy of_format then of_format else of_stream) ≡ some n

-- What a video says of the streams and the rest of what ffprobe printed.
pub record Describes (probe : Ffprobe) (streams : List Fields) (data' : Fields)
    (metadata : VideoMetadata) : Type 0 where
  pub v : Fields
  pub rest : List Fields
  pub fmt : Fields
  pub first_video : of_type (codes "video") streams ≡ v ∷ rest
  pub audio : IsAudio (of_type (codes "audio") streams) metadata
  pub video_codec : IsVideoCodec (get_field (codes "codec_name") v) metadata.video_codec
  pub format :
      (get_field (codes "format") data' ≡ some (obj fmt))
      ⊎ ((get_field (codes "format") data' ≡ none) × (fmt ≡ end))
  pub duration :
      IsDuration probe
        (get (codes "duration") fmt)
        (get (codes "duration") v)
        metadata.duration_seconds

of_type-select :
    (kind : Text) (streams : List Fields) → of_type kind streams ≡ select (is_stream kind) streams
of_type-select kind [] = refl
of_type-select kind (s ∷ streams) = ground (arith, of_type-select kind streams)

first_stream-head :
    (streams : List Fields) (v : Fields)
    → first_stream streams ≡ ok v
    → (rest : List Fields) × (streams ≡ v ∷ rest)
first_stream-head [] v h = absurd (cc)
first_stream-head (s ∷ streams) v h = (streams, ground (arith, h))

format-cases :
    (value : Option Json) (fmt : Fields)
    → as_fields (or_else (obj end) value) ≡ ok fmt
    → (value ≡ some (obj fmt)) ⊎ ((value ≡ none) × (fmt ≡ end))
format-cases none fmt h = inr (refl, ground (arith, h))
format-cases (some (obj fields)) fmt h = inl (ground (arith, h))
format-cases (some (null)) fmt h = absurd (cc)
format-cases (some (bool b)) fmt h = absurd (cc)
format-cases (some (int n)) fmt h = absurd (cc)
format-cases (some (float t)) fmt h = absurd (cc)
format-cases (some (str t)) fmt h = absurd (cc)
format-cases (some (arr items)) fmt h = absurd (cc)

module _ (probe : Ffprobe) where
  optional_text-IsCodec :
      (value : Option Json) → IsCodec value (optional_text probe (default_to null value))
  unfolding str_of
  optional_text-IsCodec none = refl
  optional_text-IsCodec (some (null)) = refl
  optional_text-IsCodec (some (bool b)) = refl
  optional_text-IsCodec (some (int n)) = refl
  optional_text-IsCodec (some (float t)) = refl
  optional_text-IsCodec (some (str t)) = refl
  optional_text-IsCodec (some (arr items)) = refl
  optional_text-IsCodec (some (obj fields)) = refl

  named_video-IsVideoCodec :
      (value : Option Json)
      → IsVideoCodec value (str_of probe.repr_of (or_else (str (codes "unknown")) value))
  unfolding str_of
  named_video-IsVideoCodec none = refl
  named_video-IsVideoCodec (some (null)) = tt
  named_video-IsVideoCodec (some (bool b)) = tt
  named_video-IsVideoCodec (some (int n)) = tt
  named_video-IsVideoCodec (some (float t)) = tt
  named_video-IsVideoCodec (some (str t)) = refl
  named_video-IsVideoCodec (some (arr items)) = tt
  named_video-IsVideoCodec (some (obj fields)) = tt

  metadata_of-IsAudio :
      (v : Fields) (audio : List Fields) (m : Measures)
      → IsAudio audio (metadata_of probe v audio m)
  metadata_of-IsAudio v [] m = (refl, refl)
  metadata_of-IsAudio v (s ∷ audio) m =
      (refl, optional_text-IsCodec (get_field (codes "codec_name") s))

  duration_of-float :
      (value : Json) (n : ℕ) → duration_of probe value ≡ ok n → probe.microseconds value ≡ some n
  duration_of-float (null) n h = absurd (cc)
  duration_of-float (bool b) n h = ground (arith, h)
  duration_of-float (int i) n h = ground (arith, h)
  duration_of-float (float t) n h = ground (arith, h)
  duration_of-float (str t) n h = ground (arith, h)
  duration_of-float (arr items) n h = ground (arith, h)
  duration_of-float (obj fields) n h = ground (arith, h)

  measures_of-IsDuration :
      (v fmt : Fields) (m : Measures)
      → measures_of probe v fmt ≡ ok m
      → IsDuration probe (get (codes "duration") fmt) (get (codes "duration") v) m.duration_seconds
  measures_of-IsDuration v fmt m h =
      let value = either (get (codes "duration") fmt) (get (codes "duration") v) in
      elim (Result-cases (duration_of probe value)) [
        | inl (e, d) ↦ absurd (ground (arith, h, d))
        | inr (n, d) ↦
            let same : m.duration_seconds ≡ n = ground (arith, h, d) in
            rw same (duration_of-float value n d)
      ]

  described-Describes :
      (streams : List Fields) (data' : Fields) (metadata : VideoMetadata)
      → described probe (streams, data') ≡ ok metadata
      → Describes probe streams data' metadata
  described-Describes streams data' metadata h =
      let audio = select (is_stream (codes "audio")) streams in
      let made : Fields → Measures → Result VideoMetadata =
        λ v m. ok (metadata_of probe v audio m) in
      let with_format : Fields → Fields → Result VideoMetadata =
        λ v fmt. measures_of probe v fmt >>= made v in
      let format = as_fields (or_else (obj end) (get_field (codes "format") data')) in
      let (v, e, h1) =
        bind-ok (first_stream (select (is_stream (codes "video")) streams))
          (λ v. format >>= with_format v) metadata h in
      let (fmt, f, h2) = bind-ok format (with_format v) metadata h1 in
      let (m, d, h3) = bind-ok (measures_of probe v fmt) (made v) metadata h2 in
      let same : metadata_of probe v audio m ≡ metadata = ground (arith, h3) in
      let (rest, first) = first_stream-head (select (is_stream (codes "video")) streams) v e in
      record {
        v = v;
        rest = rest;
        fmt = fmt;
        first_video = of_type-select (codes "video") streams ∙ first;
        audio =
            rw (of_type-select (codes "audio") streams)
              (subst (IsAudio audio) same (metadata_of-IsAudio v audio m));
        video_codec =
            subst
              (λ (x : VideoMetadata). IsVideoCodec (get_field (codes "codec_name") v) x.video_codec)
              same (named_video-IsVideoCodec (get_field (codes "codec_name") v));
        format = format-cases (get_field (codes "format") data') fmt f;
        duration =
            subst
              (λ (x : VideoMetadata).
                IsDuration probe (get (codes "duration") fmt) (get (codes "duration") v)
                  x.duration_seconds)
              same (measures_of-IsDuration v fmt m d);
      }

-- a guard that did not raise
guarded :
    (guard : Bool) (e : AppError) (r : Result VideoMetadata) (metadata : VideoMetadata)
    → (if guard then err e else r) ≡ ok metadata
    → (guard ≡ false) × (r ≡ ok metadata)
guarded true e r metadata h = absurd (cc)
guarded false e r metadata h = (refl, h)

-- If `probe_video` gives a video, then the file exists and is not empty, and ffprobe printed streams
-- with one of the type "video" among them. The codec of the video is the one that the first of these
-- names by a text, and "unknown" if it names none; the length is the one of the printed format, where
-- that is a value that is true, and else of that stream; and the audio is absent and has no codec
-- without a stream of the type "audio", and else is present, with the codec that the first one names
-- by a text, and with none if it names none.
pub probe_video-streams :
    (probe : Ffprobe) (metadata : VideoMetadata)
    → probe_video probe ≡ ok metadata
    → (probe.exists ≡ true)
      × ((probe.st_size == 0) ≡ false)
      × ((streams : List Fields) × (data' : Fields) × (printed probe ≡ ok (streams, data'))
          × Describes probe streams data' metadata)
unfolding probe_video
probe_video-streams probe metadata h =
    let (g, h1) =
      guarded (not probe.exists || probe.st_size == 0) video_corrupted
        (printed probe >>= described probe) metadata h in
    let ((streams, data'), p, h2) = bind-ok (printed probe) (described probe) metadata h1 in
    (
      ground (arith, g),
      ground (arith, g),
      (streams, data', p, described-Describes probe streams data' metadata h2),
    )
