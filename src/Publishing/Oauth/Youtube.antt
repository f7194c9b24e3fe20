-- ===== src/Publishing/Oauth/Youtube.antt =====
-- `handle_callback` of backend/app/publishing/oauth/youtube_oauth.py. What Google's client libraries give,
-- the credentials for the code and the list of the channels, is a part of the visit.
pub mod Saved
use ai_video_clip_processing.Base.{
  ℕ, Bool, true, false, Option, none, some, List, [], ◌∷◌, if◌then◌else◌, Text, codes, ℤ,
}
use ai_video_clip_processing.Schemas.Json.{Json, str, arr, nil, obj, end, get_field}
use ai_video_clip_processing.Analysis.Foreign.{truthy, str_of}
use ai_video_clip_processing.Publishing.Rows.{SocialAccount, connected, Db}
use ai_video_clip_processing.Publishing.Providers.Graph.{
  Called, gave, raised, broke, ◌>>=◌, get_or, fields_of,
}
use ai_video_clip_processing.Publishing.Providers.Youtube.{Credentials}
use ai_video_clip_processing.Publishing.Oauth.{OauthState, invalid_state, consume_state}
use ai_video_clip_processing.Publishing.Oauth.Grant.{present, first_of}
use ai_video_clip_processing.Publishing.Oauth.Upsert.{new_account, upsert_account}

pub record YoutubeVisit : Type 0 where
  pub now : ℕ
  pub fetched : Called Credentials  -- `fetch_token`
  pub channels : Called Json  -- `channels().list(...).execute()`

-- the credentials, and the identifier and the title of the first channel
pub record ChannelGrant : Type 0 where
  pub creds : Credentials
  pub channel_id : Text
  pub channel_title : Text

module _ (repr_of : Json → Text) (float_is : Text → ℕ → Bool) (encrypt : Text → Text) where
  abbrev first_channel : Json → Called Json
  first_channel items =
      if truthy items
      then first_of items
      else broke (codes "Google account has no YouTube channel to connect.")

  -- everything before the write to the accounts
  unfoldable pub channel_of : YoutubeVisit → Called ChannelGrant
  unfolding truthy get_field str_of
  channel_of visit = do
    creds ← visit.fetched
    answered ← visit.channels
    channels ← fields_of repr_of float_is answered
    first ← first_channel (get_or repr_of float_is (codes "items") (arr nil) channels)
    channel ← fields_of repr_of float_is first
    channel_id ← present (get_field (codes "id") channel)
    snippet ←
        fields_of repr_of float_is (get_or repr_of float_is (codes "snippet") (obj end) channel)
    gave (record {
      creds = creds;
      channel_id = str_of repr_of channel_id;
      channel_title = str_of repr_of (get_or repr_of float_is (codes "title") (str []) snippet);
    })

  -- the new refresh token, or the old one where Google gives none
  abbrev pub refresh_token_or : Option Text → Option Text → Option Text
  refresh_token_or (some (c ∷ s)) old = some (encrypt (c ∷ s))
  refresh_token_or (some []) old = old
  refresh_token_or none old = old

  -- what is written to the row of the account
  abbrev pub youtube_row : ℕ → ChannelGrant → SocialAccount → SocialAccount
  youtube_row now grant row = record row {
    platform = codes "youtube";
    account_id = grant.channel_id;
    account_name = grant.channel_title;
    access_token_encrypted = encrypt grant.creds.token;
    refresh_token_encrypted =
        refresh_token_or grant.creds.refresh_token row.refresh_token_encrypted;
    token_expires_at = grant.creds.expiry;
    account_status = connected;
    updated_at = now;
  }

  abbrev pub save_channel : ℕ → ChannelGrant → Db → SocialAccount × Db
  save_channel now grant db =
      let (row, accounts) =
        upsert_account (new_account grant.channel_id (codes "youtube") grant.channel_id now)
          (youtube_row now grant) db.social_accounts in
      (row, record db { social_accounts = accounts })

  abbrev pub by_channel : ℕ → Called ChannelGrant → Db → Called SocialAccount × Db
  by_channel now (raised e) db = (raised e, db)
  by_channel now (broke t) db = (broke t, db)
  by_channel now (gave grant) db = let (row, db') = save_channel now grant db in (gave row, db')

  abbrev pub by_state :
      YoutubeVisit → Db → Bool × List OauthState → Called SocialAccount × List OauthState × Db
  by_state visit db (false, states) = (broke invalid_state, states, db)
  by_state visit db (true, states) =
      let (called, db') = by_channel visit.now (channel_of visit) db in (called, states, db')

  -- `handle_callback`: the account, the state tokens, and the database
  unfoldable pub handle_callback :
      Text → YoutubeVisit → List OauthState → Db → Called SocialAccount × List OauthState × Db
  unfolding consume_state channel_of upsert_account new_account
  handle_callback state visit states db =
      by_state visit db (consume_state (codes "youtube") state visit.now states)
