-- ===== src/Ingestion/Host.antt =====
-- backend/app/video_ingestion/ssrf_guard.py. `getaddrinfo` gives the addresses of a host, or `none`
-- where it raises `gaierror`.
use ai_video_clip_processing.Base.{
  Bool, ◌||◌, Option, none, some, List, [], ◌∷◌, if◌then◌else◌, Text, any,
}
use ai_video_clip_processing.Errors.{Result, ok, err, video_download_failed}

-- an address by what `ipaddress` says of it
pub record Address : Type 0 where
  pub is_private : Bool
  pub is_loopback : Bool
  pub is_link_local : Bool
  pub is_multicast : Bool
  pub is_reserved : Bool
  pub is_unspecified : Bool

abbrev pub is_internal : Address → Bool
is_internal ip =
    ip.is_private || ip.is_loopback || ip.is_link_local || ip.is_multicast || ip.is_reserved
    || ip.is_unspecified

-- the checks on what `getaddrinfo` gives
abbrev check_infos : Option (List Address) → Result (Unit {0})
check_infos none = err video_download_failed
check_infos (some []) = err video_download_failed
check_infos (some (ip ∷ ips)) =
    if any is_internal (ip ∷ ips) then err video_download_failed else ok tt

unfoldable pub ensure_public_host : (Text → Option (List Address)) → Text → Result (Unit {0})
ensure_public_host getaddrinfo [] = err video_download_failed
ensure_public_host getaddrinfo (c ∷ s) = check_infos (getaddrinfo (c ∷ s))
