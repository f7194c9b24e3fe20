-- ===== src/Publishing/CostGuard/Ready.antt =====
-- When a platform is reported as available.
use ai_video_clip_processing.Base.{◌≡◌, ◌↔◌, ◌⊎◌, false, Option, Text, text_eq_iff, codes, arith}
use ai_video_clip_processing.Schemas.ProcessingConfig.{is_blank}
use ai_video_clip_processing.Publishing.Rows.{SocialAccount}
use ai_video_clip_processing.Publishing.CostGuard.{
  available, Credentials, is_unset, is_unconnected, page_of, business_account_of,
  youtube_capability, facebook_capability, instagram_capability, capability_report,
}

-- the configuration that both platforms of Meta need
abbrev pub HasMetaApp : Credentials → Type 0
HasMetaApp settings =
    (is_unset settings.meta_app_id ≡ false)
    × (is_unset settings.meta_app_secret ≡ false)
    × (is_unset settings.meta_login_config_id ≡ false)

-- what each platform needs beside a connected account
abbrev pub IsReady : Credentials → Text → Option SocialAccount → Type 0
IsReady settings platform account =
    ((platform ≡ codes "youtube")
      × (is_unset settings.google_oauth_client_id ≡ false)
      × (is_unset settings.google_oauth_client_secret ≡ false))
    ⊎ (((platform ≡ codes "facebook") × HasMetaApp settings × (is_blank (page_of account) ≡ false))
        ⊎ ((platform ≡ codes "instagram")
            × HasMetaApp settings
            × (is_blank (business_account_of account) ≡ false)
            × (is_unset settings.public_base_url ≡ false)))

youtube_capability-available :
    (settings : Credentials) (account : Option SocialAccount)
    → ((youtube_capability settings account).status ≡ available) ↔ (
        (is_unconnected account ≡ false)
        × (is_unset settings.google_oauth_client_id ≡ false)
        × (is_unset settings.google_oauth_client_secret ≡ false))
unfolding youtube_capability
youtube_capability-available settings account = ground arith

facebook_capability-available :
    (settings : Credentials) (account : Option SocialAccount)
    → ((facebook_capability settings account).status ≡ available) ↔ (
        (is_unconnected account ≡ false)
        × HasMetaApp settings
        × (is_blank (page_of account) ≡ false))
unfolding facebook_capability
facebook_capability-available settings account = ground arith

instagram_capability-available :
    (settings : Credentials) (account : Option SocialAccount)
    → ((instagram_capability settings account).status ≡ available) ↔ (
        (is_unconnected account ≡ false)
        × HasMetaApp settings
        × (is_blank (business_account_of account) ≡ false)
        × (is_unset settings.public_base_url ≡ false))
unfolding instagram_capability
instagram_capability-available settings account = ground arith

-- A platform is reported as available exactly if its account is connected and the platform has what it
-- needs: YouTube the two credentials; Facebook the app, its login configuration and a page; Instagram
-- the app, its login configuration, a professional account and a public address of the server.
pub capability_report-available :
    (settings : Credentials) (platform : Text) (account : Option SocialAccount)
    → ((capability_report settings platform account).status ≡ available)
      ↔ ((is_unconnected account ≡ false) × IsReady settings platform account)
unfolding capability_report
capability_report-available settings platform account = ground (
  arith,
  text_eq_iff platform (codes "youtube"),
  text_eq_iff platform (codes "facebook"),
  text_eq_iff platform (codes "instagram"),
  youtube_capability-available settings account,
  facebook_capability-available settings account,
  instagram_capability-available settings account,
)
