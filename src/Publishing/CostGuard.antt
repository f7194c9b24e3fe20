-- ===== src/Publishing/CostGuard.antt =====
-- backend/app/publishing/cost_guard.py: what is possible on a platform with the connected account and
-- the server's configuration.
pub mod Ready
use ai_video_clip_processing.Base.{
  ℕ, Bool, true, false, ◌||◌, not, Option, none, some, List, [], ◌∷◌, ◌++◌, if◌then◌else◌, Text,
  text_eq, codes, map, dict_get, default_to,
}
use ai_video_clip_processing.Schemas.ProcessingConfig.{is_blank}
use ai_video_clip_processing.Publishing.Rows.{
  SocialAccount, AccountStatus, connected, expired, revoked,
}

pub data CapabilityStatus : Type 0 where
  available check_required not_available : CapabilityStatus

pub record CapabilityReport : Type 0 where
  pub platform : Text
  pub official_api : Bool
  pub requires_paid_service : Bool
  pub status : CapabilityStatus
  pub notes : List Text

-- `settings`, as far as the report reads them
pub record Credentials : Type 0 where
  pub google_oauth_client_id : Text
  pub google_oauth_client_secret : Text
  pub meta_app_id : Text
  pub meta_app_secret : Text
  pub meta_login_config_id : Text
  pub public_base_url : Text

-- `not text`
abbrev pub is_unset : Text → Bool
is_unset t = is_blank (some t)

-- `not account or account.status != "CONNECTED"`
abbrev pub is_unconnected : Option SocialAccount → Bool
is_unconnected none = true
is_unconnected (some account) = elim account.account_status [
  | connected ↦ false
  | expired ↦ true
  | revoked ↦ true
]

-- a report of a platform with an official API, none of which asks for a paid service
abbrev pub report_of : Text → CapabilityStatus → Text → CapabilityReport
report_of platform status note = record {
  platform = platform;
  official_api = true;
  requires_paid_service = false;
  status = status;
  notes = note ∷ [];
}

-- `youtube_capability`
unfoldable pub youtube_capability : Credentials → Option SocialAccount → CapabilityReport
youtube_capability settings account =
    if is_unset settings.google_oauth_client_id || is_unset settings.google_oauth_client_secret
    then report_of (codes "youtube") not_available (
        codes
          "GOOGLE_OAUTH_CLIENT_ID / GOOGLE_OAUTH_CLIENT_SECRET are not configured on the server.")
    else if is_unconnected account
    then report_of (codes "youtube") not_available (codes "No connected YouTube channel.")
    else report_of (codes "youtube") available
        (codes "Subject to YouTube Data API v3 daily quota and channel upload limits.")

-- the notes on the configuration of Meta
abbrev meta_app_note : Text
meta_app_note = codes "META_APP_ID / META_APP_SECRET are not configured on the server."

abbrev meta_login_note : Text
meta_login_note =
    codes "META_LOGIN_CONFIG_ID is not configured -- create a Facebook Login for "
    ++ codes "Business configuration (User access token type) in the App Dashboard first."

-- `account.extra.get(key)` of an account that may be missing
abbrev pub page_of : Option SocialAccount → Option Text
page_of none = none
page_of (some account) = account.page_id

abbrev pub business_account_of : Option SocialAccount → Option Text
business_account_of none = none
business_account_of (some account) = account.ig_business_account_id

-- `facebook_capability`
unfoldable pub facebook_capability : Credentials → Option SocialAccount → CapabilityReport
facebook_capability settings account =
    if is_unset settings.meta_app_id || is_unset settings.meta_app_secret
    then report_of (codes "facebook") not_available meta_app_note
    else if is_unset settings.meta_login_config_id
    then report_of (codes "facebook") not_available meta_login_note
    else if is_unconnected account
    then report_of (codes "facebook") not_available (codes "No connected Facebook Page.")
    else if is_blank (page_of account)
    then report_of (codes "facebook") check_required (
        codes
          "Connected, but no Facebook Page with video-publish permission was found on this account.")
    else report_of (codes "facebook") available
        (codes "Subject to Meta Graph API rate limits and Page-level publishing permissions.")

-- `instagram_capability`
unfoldable pub instagram_capability : Credentials → Option SocialAccount → CapabilityReport
instagram_capability settings account =
    if is_unset settings.meta_app_id || is_unset settings.meta_app_secret
    then report_of (codes "instagram") not_available meta_app_note
    else if is_unset settings.meta_login_config_id
    then report_of (codes "instagram") not_available meta_login_note
    else if is_unconnected account
    then report_of (codes "instagram") not_available (codes "No connected Instagram account.")
    else if is_blank (business_account_of account)
    then report_of (codes "instagram") check_required (
        codes "Connected Facebook account has no linked Instagram professional "
        ++ codes "(Business/Creator) account -- required by Meta's Content Publishing API.")
    else if is_unset settings.public_base_url
    then report_of (codes "instagram") not_available (
        codes "Instagram's Content Publishing API requires a publicly-fetchable video URL "
        ++ codes
            "(Meta's servers pull the file); PUBLIC_BASE_URL is not configured on this server.")
    else report_of (codes "instagram") available
        (codes "Subject to Meta Graph API rate limits and Instagram Content Publishing quotas.")

-- `capability_report`
unfoldable pub capability_report : Credentials → Text → Option SocialAccount → CapabilityReport
unfolding text_eq youtube_capability facebook_capability instagram_capability
capability_report settings platform account =
    if text_eq platform (codes "youtube")
    then youtube_capability settings account
    else if text_eq platform (codes "facebook")
    then facebook_capability settings account
    else if text_eq platform (codes "instagram")
    then instagram_capability settings account
    else record {
      platform = platform;
      official_api = false;
      requires_paid_service = false;
      status = not_available;
      notes = (codes "Unknown platform '" ++ (platform ++ codes "'.")) ∷ [];
    }

-- `full_capability_report`; an account that is missing or `None` reads alike
unfoldable pub full_capability_report :
    Credentials → List (Text × Option SocialAccount) → List CapabilityReport
unfolding capability_report dict_get
full_capability_report settings accounts =
    map
      (λ platform.
        capability_report settings platform (default_to none (dict_get platform accounts)))
      (codes "youtube" ∷ codes "instagram" ∷ codes "facebook" ∷ [])
