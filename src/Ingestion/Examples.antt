-- ===== src/Ingestion/Examples.antt =====
-- The theorems about downloads at one download and at one record.
use ai_video_clip_processing.Base.{
  ◌≡◌, refl, Bool, true, false, none, some, [], ◌∷◌, codes, text_eq,
}
use ai_video_clip_processing.Errors.{ok, err, video_not_found}
use ai_video_clip_processing.Ingestion.Host.{Address}
use ai_video_clip_processing.Ingestion.Remote.{
  absent, Response, Web, Limits, check_url, receive, obtain_direct,
}
use ai_video_clip_processing.Ingestion.Remote.Guarded.{IsGuarded, obtain_direct-IsGuarded}

abbrev public_address : Address
public_address = record {
  is_private = false;
  is_loopback = false;
  is_link_local = false;
  is_multicast = false;
  is_reserved = false;
  is_unspecified = false;
}

-- a site that redirects its start page once, and then sends nine bytes
abbrev answer : Bool → Response
answer true = record {
  status_code = 302;
  location = some (codes "v.mp4");
  content_length = absent;
  chunks = [];
  breaks = false;
}
answer false = record {
  status_code = 200;
  location = none;
  content_length = absent;
  chunks = 5 ∷ 4 ∷ [];
  breaks = false;
}

abbrev web : Web
web = record {
  urlparse =
      λ url. record { scheme = codes "https"; hostname = some (codes "example.org"); path = url };
  urljoin = λ base url. url;
  lower = λ t. t;
  suffix = λ t. codes ".mp4";
  getaddrinfo = λ host. some (public_address ∷ []);
  request = λ url. some (answer (text_eq url (codes "start")));
  yt_dlp = λ url. err video_not_found;
}

abbrev limits : Limits
limits = record {
  max_upload_size_bytes = 100;
  max_download_redirects = 5;
  allowed_upload_extensions = codes ".mp4" ∷ [];
}

obtain_direct-IsGuarded_example : IsGuarded web limits 6 (obtain_direct web limits (codes "start"))
obtain_direct-IsGuarded_example = obtain_direct-IsGuarded web limits (codes "start")

-- the redirect is followed, and both requests are made
start_obtained :
    ((obtain_direct web limits (codes "start")).requested ≡ codes "start" ∷ codes "v.mp4" ∷ [])
    × ((obtain_direct web limits (codes "start")).result ≡ ok (codes "source.mp4"))
unfolding obtain_direct text_eq check_url receive
start_obtained = (refl, refl)
