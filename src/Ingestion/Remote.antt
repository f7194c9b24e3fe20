-- ===== src/Ingestion/Remote.antt =====
-- backend/app/video_ingestion/remote_source.py. `urlparse`, `urljoin`, `str.lower`, the
-- suffix of a path in lower case, the resolver of
-- hosts, the HTTP client and yt-dlp are fields of `Web`.
pub mod Guarded
use ai_video_clip_processing.Base.{
  ℕ, zero, suc, ◌+◌, ltb, ◌==◌, Bool, true, false, not, ◌&&◌, ◌||◌, Option, none, some, List, [],
  ◌∷◌, ◌++◌, if◌then◌else◌, Text, text_eq, codes, any, default_to, length,
}
use ai_video_clip_processing.Errors.{
  AppError, Result, ok, err, unsupported_video_format, video_download_failed, video_not_found,
  unknown_error, ◌>>=◌, ◌>>◌,
}
use ai_video_clip_processing.Ingestion.Host.{Address, ensure_public_host}

pub record Url : Type 0 where
  pub scheme : Text
  pub hostname : Option Text
  pub path : Text

-- the header `content-length`: absent, no number, or a number
pub data ContentLength : Type 0 where
  absent malformed : ContentLength
  bytes : ℕ → ContentLength

-- A response, with the sizes of its chunks and whether the stream then breaks off with an error of
-- the client.
pub record Response : Type 0 where
  pub status_code : ℕ
  pub location : Option Text
  pub content_length : ContentLength
  pub chunks : List ℕ
  pub breaks : Bool

-- A request of `httpx`: `none` is a timeout or another error of the client.
pub record Web : Type 0 where
  pub urlparse : Text → Url
  pub urljoin : Text → Text → Text
  pub lower : Text → Text
  pub suffix : Text → Text
  pub getaddrinfo : Text → Option (List Address)
  pub request : Text → Option Response
  pub yt_dlp : Text → Result (List Text)

-- the settings that downloads read
pub record Limits : Type 0 where
  pub max_upload_size_bytes : ℕ
  pub max_download_redirects : ℕ
  pub allowed_upload_extensions : List Text

-- `_ALLOWED_SCHEMES`
abbrev pub is_allowed_scheme : Text → Bool
is_allowed_scheme scheme = text_eq scheme (codes "http") || text_eq scheme (codes "https")

-- `_REDIRECT_STATUSES`
abbrev pub is_redirect : ℕ → Bool
is_redirect n = n == 301 || n == 302 || n == 303 || n == 307 || n == 308

-- What a download leaves: the URLs that were requested, the size of the temporary file where it was
-- opened, and the URL that it came from or the error.
pub record Download : Type 0 where
  pub requested : List Text
  pub written : Option ℕ
  pub result : Result Text

-- The loop over the chunks: what is in the file at its end, and whether it ended well.
unfoldable pub write_chunks : (limit size : ℕ) → List ℕ → Bool → ℕ × Result (Unit {0})
write_chunks limit size [] breaks = (size, if breaks then err video_download_failed else ok tt)
write_chunks limit size (chunk ∷ chunks) breaks =
    let rest = write_chunks limit (size + chunk) chunks breaks in
    if ltb limit (size + chunk) then (size, err video_download_failed) else rest

abbrev failed_download : AppError → Download
failed_download e = record { requested = []; written = none; result = err e }

abbrev with_file : Text → ℕ × Result (Unit {0}) → Download
with_file url (size, ended) = record {
  requested = [];
  written = some size;
  result = ended >> ok url;
}

-- the check of `content-length`
abbrev announced_too_large : (limit : ℕ) → ContentLength → Result Bool
announced_too_large limit (absent) = ok false
announced_too_large limit (malformed) = err unknown_error
announced_too_large limit (bytes n) = ok (ltb limit n)

abbrev by_length : Limits → Text → Response → Result Bool → Download
by_length limits url response (err e) = failed_download e
by_length limits url response (ok true) = failed_download video_download_failed
by_length limits url response (ok false) =
    with_file url (write_chunks limits.max_upload_size_bytes 0 response.chunks response.breaks)

-- a response that is no redirect
unfoldable pub receive : Limits → Text → Response → Download
unfolding write_chunks
receive limits url response =
    if response.status_code == 200
    then by_length limits url response
        (announced_too_large limits.max_upload_size_bytes response.content_length)
    else failed_download video_download_failed

abbrev pub non_empty_text : Option Text → Option Text
non_empty_text (some (c ∷ s)) = some (c ∷ s)
non_empty_text _ = none

module _ (web : Web) (limits : Limits) where
  -- the checks before a request
  unfoldable pub check_url : Text → Result (Unit {0})
  unfolding ensure_public_host
  check_url url =
      let parsed = web.urlparse url in
      let public_host = ensure_public_host web.getaddrinfo (default_to [] parsed.hostname) in
      if is_allowed_scheme parsed.scheme then public_host else err unsupported_video_format

  abbrev requesting : Text → Download → Download
  requesting url d = record d { requested = url ∷ d.requested }

  abbrev pub on_location : (Text → Download) → Text → Option Text → Download
  on_location next url none = failed_download video_download_failed
  on_location next url (some location) = next (web.urljoin url location)

  abbrev pub on_response : (Text → Download) → Text → Option Response → Download
  on_response next url none = failed_download video_download_failed
  on_response next url (some response) =
      if is_redirect response.status_code
      then on_location next url (non_empty_text response.location)
      else receive limits url response

  -- one hop, by the checks before it
  abbrev pub on_hop : (Text → Download) → Text → Result (Unit {0}) → Download
  on_hop next url (err e) = failed_download e
  on_hop next url (ok _) = requesting url (on_response next url (web.request url))

  -- the loop over the hops; at its end there were too many redirects
  unfoldable pub follow : (hops : ℕ) → Text → Download
  follow zero url = failed_download video_download_failed
  follow (suc hops) url = on_hop (follow hops) url (check_url url)

  -- after the loop: an empty file is removed, and an extension that is not allowed becomes `.mp4`
  abbrev final_name : Text → Text
  final_name url =
      let suffix = web.suffix (web.urlparse url).path in
      if any (λ e. text_eq e suffix) limits.allowed_upload_extensions
      then codes "source" ++ suffix
      else codes "source.mp4"

  abbrev pub finish_by : Download → Result Text → Option ℕ → Download
  finish_by d (err e) written = d
  finish_by d (ok url) none = record d { result = err video_download_failed }
  finish_by d (ok url) (some zero) = record d { written = none; result = err video_download_failed }
  finish_by d (ok url) (some (suc n)) = record d { result = ok (final_name url) }

  abbrev finish : Download → Download
  finish d = finish_by d d.result d.written

  -- `DirectUrlSource.obtain`
  unfoldable pub obtain_direct : Text → Download
  unfolding follow
  obtain_direct url = finish (follow (suc limits.max_download_redirects) url)

-- `_YOUTUBE_HOSTS`
abbrev pub youtube_hosts : List Text
youtube_hosts =
    codes "youtube.com"
    ∷ codes "www.youtube.com"
    ∷ codes "m.youtube.com"
    ∷ codes "youtu.be"
    ∷ codes "www.youtu.be"
    ∷ []

unfoldable pub is_youtube_url : Web → Text → Bool
is_youtube_url web url =
    let host = web.lower (default_to [] (web.urlparse url).hostname) in
    any (λ h. text_eq h host) youtube_hosts

-- `YouTubeSource.obtain`: the first of the sorted files that yt-dlp left, if it returned in time
abbrev first_file : List Text → Result Text
first_file [] = err video_not_found
first_file (name ∷ _) = ok name

unfoldable pub obtain_youtube : Web → Text → Result Text
unfolding is_youtube_url
obtain_youtube web url =
    if not (is_allowed_scheme (web.urlparse url).scheme) || not (is_youtube_url web url)
    then err unsupported_video_format
    else elim (web.yt_dlp url) [ err _ ↦ err video_download_failed | ok names ↦ first_file names ]
