-- ===== src/Ingestion/Remote/Guarded.antt =====
-- What a direct download may do.
use ai_video_clip_processing.Base.{
  ℕ, zero, suc, ◌+◌, ◌≤◌, ◌≡◌, refl, Bool, Option, none, some, List, [], ◌∷◌, Text, arith, All,
  length, any, codes, text_eq, text_eq_iff, true, false, ◌⊎◌, Bool-cases, Option-cases, inl, inr,
}
use ai_video_clip_processing.Errors.{Result, ok, err, Result-cases}
use ai_video_clip_processing.Ingestion.Host.{Address, is_internal, ensure_public_host}
use ai_video_clip_processing.Ingestion.Remote.{
  is_allowed_scheme, Web, Limits, Download, Response, write_chunks, receive, check_url, follow,
  obtain_direct, finish_by, is_redirect, non_empty_text,
}

write_chunks-le :
    (limit size : ℕ) (chunks : List ℕ) (breaks : Bool)
    → size ≤ limit
    → (write_chunks limit size chunks breaks).0 ≤ limit
unfolding write_chunks
write_chunks-le limit size [] breaks h = h
write_chunks-le limit size (chunk ∷ chunks) breaks h =
    ground (arith, h, write_chunks-le limit (size + chunk) chunks breaks)

abbrev pub IsBounded : ℕ → Option ℕ → Type 0
IsBounded limit none = Unit
IsBounded limit (some n) = n ≤ limit

-- an address that `ipaddress` calls neither private nor any other kind that is not public
pub record IsPublic (ip : Address) : Type 0 where
  pub not_private : ip.is_private ≡ false
  pub not_loopback : ip.is_loopback ≡ false
  pub not_link_local : ip.is_link_local ≡ false
  pub not_multicast : ip.is_multicast ≡ false
  pub not_reserved : ip.is_reserved ≡ false
  pub not_unspecified : ip.is_unspecified ≡ false

-- a URL by HTTP whose host has a name, and addresses that are all public
pub record IsSafe (web : Web) (url : Text) : Type 0 where
  pub host : Text
  pub ip : Address
  pub ips : List Address
  pub by_http :
      ((web.urlparse url).scheme ≡ codes "http") ⊎ ((web.urlparse url).scheme ≡ codes "https")
  pub named : (web.urlparse url).hostname ≡ some host
  pub not_empty : 1 ≤ length host
  pub resolved : web.getaddrinfo host ≡ some (ip ∷ ips)
  pub all_public : All IsPublic (ip ∷ ips)

all-IsPublic : (ips : List Address) → any is_internal ips ≡ false → All IsPublic ips
all-IsPublic [] h = tt
all-IsPublic (ip ∷ ips) h = (
  record {
    not_private = ground (arith, h);
    not_loopback = ground (arith, h);
    not_link_local = ground (arith, h);
    not_multicast = ground (arith, h);
    not_reserved = ground (arith, h);
    not_unspecified = ground (arith, h);
  },
  all-IsPublic ips (ground (arith, h)),
)

-- a host that passes the guard
ensure_public_host-resolved :
    (getaddrinfo : Text → Option (List Address)) (host : Text)
    → ensure_public_host getaddrinfo host ≡ ok tt
    → (1 ≤ length host)
      × ((ip : Address) × (ips : List Address) × (getaddrinfo host ≡ some (ip ∷ ips))
          × All IsPublic (ip ∷ ips))
unfolding ensure_public_host
ensure_public_host-resolved getaddrinfo [] h = absurd (cc)
ensure_public_host-resolved getaddrinfo (c ∷ s) h = by_infos (getaddrinfo (c ∷ s)) refl
  where
    by_infos :
        (infos : Option (List Address))
        → getaddrinfo (c ∷ s) ≡ infos
        → (1 ≤ length (c ∷ s))
          × ((ip : Address) × (ips : List Address) × (getaddrinfo (c ∷ s) ≡ some (ip ∷ ips))
              × All IsPublic (ip ∷ ips))
    by_infos none e = absurd (ground (arith, h, e))
    by_infos (some []) e = absurd (ground (arith, h, e))
    by_infos (some (ip ∷ ips)) e =
        (omega arith, (ip, ips, e, all-IsPublic (ip ∷ ips) (ground (arith, h, e))))

-- What holds of a download whose requests are counted against a number of hops.
abbrev pub IsGuarded : Web → Limits → ℕ → Download → Type 0
IsGuarded web limits hops d =
    All (IsSafe web) d.requested
    × (length d.requested ≤ hops)
    × IsBounded limits.max_upload_size_bytes d.written

module _ (web : Web) (limits : Limits) where
  is_allowed_scheme-cases :
      (scheme : Text)
      → is_allowed_scheme scheme ≡ true
      → (scheme ≡ codes "http") ⊎ (scheme ≡ codes "https")
  is_allowed_scheme-cases scheme h = elim (Bool-cases (text_eq scheme (codes "http"))) [
    | inl e ↦ inl ((text_eq_iff scheme (codes "http")).0 e)
    | inr e ↦ inr ((text_eq_iff scheme (codes "https")).0 (ground (arith, h, e)))
  ]

  -- a URL that passes the checks before a request
  check_url-IsSafe : (url : Text) → check_url web limits url ≡ ok tt → IsSafe web url
  unfolding check_url ensure_public_host
  check_url-IsSafe url h = elim (Bool-cases (is_allowed_scheme (web.urlparse url).scheme)) [
    | inr e ↦ absurd (ground (arith, h, e))
    | inl e ↦ elim (Option-cases (web.urlparse url).hostname) [
      | inl n ↦ absurd (ground (arith, h, e, n))
      | inr (host, n) ↦
          let guard : ensure_public_host web.getaddrinfo host ≡ ok tt = ground (arith, h, e, n) in
          let (not_empty, (ip, ips, resolved, all_public)) =
            ensure_public_host-resolved web.getaddrinfo host guard in
          record {
            host = host;
            ip = ip;
            ips = ips;
            by_http = is_allowed_scheme-cases (web.urlparse url).scheme e;
            named = n;
            not_empty = not_empty;
            resolved = resolved;
            all_public = all_public;
          }
    ]
  ]

  receive-IsGuarded :
      (url : Text) (response : Response)
      → ((receive limits url response).requested ≡ [])
        × IsBounded limits.max_upload_size_bytes (receive limits url response).written
  unfolding receive
  receive-IsGuarded url response =
      ground (arith, write_chunks-le limits.max_upload_size_bytes 0 response.chunks response.breaks)

  follow-IsGuarded :
      (hops : ℕ) (url : Text) → IsGuarded web limits hops (follow web limits hops url)
  unfolding follow
  follow-IsGuarded zero url = (tt, omega arith, tt)
  follow-IsGuarded (suc hops) url = elim (Result-cases (check_url web limits url)) [
    | inl (e, k) ↦ rw k (tt, omega arith, tt)
    | inr (_, k) ↦ elim (Option-cases (web.request url)) [
      | inl n ↦ rw (k, n) ((check_url-IsSafe url k, tt), omega arith, tt)
      | inr (response, r) ↦ elim (Bool-cases (is_redirect response.status_code)) [
        | inr b ↦
            let (nothing, bounded) = receive-IsGuarded url response in
            rw (k, r, b, nothing) ((check_url-IsSafe url k, tt), omega arith, bounded)
        | inl b ↦ elim (Option-cases (non_empty_text response.location)) [
          | inl n ↦ rw (k, r, b, n) ((check_url-IsSafe url k, tt), omega arith, tt)
          | inr (location, l) ↦
              let (checked, few, bounded) = follow-IsGuarded hops (web.urljoin url location) in
              rw (k, r, b, l) ((check_url-IsSafe url k, checked), omega (arith, few), bounded)
        ]
      ]
    ]
  ]

  finish-IsGuarded :
      (hops : ℕ) (d : Download) (result : Result Text) (written : Option ℕ)
      → d.written ≡ written
      → IsGuarded web limits hops d
      → IsGuarded web limits hops (finish_by web limits d result written)
  finish-IsGuarded hops d (err e) written same g = g
  finish-IsGuarded hops d (ok url) none same g = (g.0, g.1, g.2)
  finish-IsGuarded hops d (ok url) (some zero) same g = (g.0, g.1, tt)
  finish-IsGuarded hops d (ok url) (some (suc n)) same g = (g.0, g.1, g.2)

  -- Every URL that a direct download requests, the redirects included, has the scheme http or https
  -- and a host with a name, which the resolver gives one address at least, and of its addresses none
  -- is private, loopback, link-local, multicast, reserved or unspecified; there is one request more
  -- than redirects allowed at most; and what is written never passes the size limit.
  pub obtain_direct-IsGuarded :
      (url : Text)
      → IsGuarded web limits (suc limits.max_download_redirects) (obtain_direct web limits url)
  unfolding obtain_direct
  obtain_direct-IsGuarded url =
      let d = follow web limits (suc limits.max_download_redirects) url in
      finish-IsGuarded (suc limits.max_download_redirects) d d.result d.written refl
        (follow-IsGuarded (suc limits.max_download_redirects) url)
