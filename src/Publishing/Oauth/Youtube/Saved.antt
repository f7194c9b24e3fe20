-- ===== src/Publishing/Oauth/Youtube/Saved.antt =====
-- What a YouTube callback leaves in the database.
use ai_video_clip_processing.Base.{
  ℕ, ◌≡◌, ◌∙◌, refl, ap, Bool, true, false, Option, none, some, List, [], ◌∷◌, Text, codes,
  Option-cases, inl, inr,
}
use ai_video_clip_processing.Schemas.Json.{Json}
use ai_video_clip_processing.Publishing.Rows.{SocialAccount, connected, Db}
use ai_video_clip_processing.Publishing.Providers.Graph.{gave}
use ai_video_clip_processing.Publishing.Providers.Token.{get_account}
use ai_video_clip_processing.Publishing.Oauth.{OauthState, consume_state}
use ai_video_clip_processing.Publishing.Oauth.Upsert.{
  new_account, upsert_account, get_account-upsert, upsert_account-set,
}
use ai_video_clip_processing.Publishing.Oauth.Youtube.{
  YoutubeVisit, ChannelGrant, channel_of, refresh_token_or, youtube_row, save_channel, by_state,
  handle_callback,
}

-- the refresh token of a row, where there is one
abbrev pub kept_token : Option SocialAccount → Option Text
kept_token none = none
kept_token (some row) = row.refresh_token_encrypted

-- The refresh token of the row afterwards: the one that Google gives, where it is no empty text, and
-- otherwise the one that the account had before.
abbrev pub IsRefreshToken : (Text → Text) → (given before after : Option Text) → Type 0
IsRefreshToken encrypt none before after = after ≡ before
IsRefreshToken encrypt (some []) before after = after ≡ before
IsRefreshToken encrypt (some (c ∷ s)) before after = after ≡ some (encrypt (c ∷ s))

module _ (repr_of : Json → Text) (float_is : Text → ℕ → Bool) (encrypt : Text → Text) where
  refresh_token_or-IsRefreshToken :
      (given before : Option Text)
      → IsRefreshToken encrypt given before (refresh_token_or repr_of float_is encrypt given before)
  refresh_token_or-IsRefreshToken none before = refl
  refresh_token_or-IsRefreshToken (some []) before = refl
  refresh_token_or-IsRefreshToken (some (c ∷ s)) before = refl

  save_channel-refresh_token :
      (now : ℕ) (grant : ChannelGrant) (db : Db)
      → IsRefreshToken encrypt grant.creds.refresh_token
          (kept_token (get_account grant.channel_id db.social_accounts))
          (save_channel repr_of float_is encrypt now grant db).0.refresh_token_encrypted
  unfolding new_account upsert_account
  save_channel-refresh_token now grant db =
      elim (Option-cases (get_account grant.channel_id db.social_accounts)) [
        | inl n ↦ rw n (refresh_token_or-IsRefreshToken grant.creds.refresh_token none)
        | inr (row, g) ↦
            rw g (
              refresh_token_or-IsRefreshToken grant.creds.refresh_token row.refresh_token_encrypted)
      ]

  by_state-saves :
      (visit : YoutubeVisit) (db : Db) (grant : ChannelGrant) (verdict : Bool × List OauthState)
      → verdict.0 ≡ true
      → channel_of repr_of float_is encrypt visit ≡ gave grant
      → ((by_state repr_of float_is encrypt visit db verdict).0
          ≡ gave (save_channel repr_of float_is encrypt visit.now grant db).0)
        × ((by_state repr_of float_is encrypt visit db verdict).2
            ≡ (save_channel repr_of float_is encrypt visit.now grant db).1)
  by_state-saves visit db grant (false, states) ok g = absurd (cc)
  by_state-saves visit db grant (true, states) ok g = rw g (refl, refl)

  -- If `_consume_state` accepts the callback and Google gives credentials and a channel, then the account
  -- is returned, and it is the row in the database: CONNECTED, with the new access token, and with the new
  -- refresh token or, where Google gives none, with the one that the account had before.
  pub handle_callback-keeps_refresh :
      (state : Text) (visit : YoutubeVisit) (states : List OauthState) (db : Db)
      (grant : ChannelGrant)
      → (consume_state (codes "youtube") state visit.now states).0 ≡ true
      → channel_of repr_of float_is encrypt visit ≡ gave grant
      → (row : SocialAccount) × ((handle_callback repr_of float_is encrypt state visit states db).0
          ≡ gave row)
        × (get_account grant.channel_id
              (handle_callback repr_of float_is encrypt state visit states db).2.social_accounts
            ≡ some row)
        × (row.account_status ≡ connected)
        × (row.access_token_encrypted ≡ encrypt grant.creds.token)
        × IsRefreshToken encrypt grant.creds.refresh_token
            (kept_token (get_account grant.channel_id db.social_accounts))
            row.refresh_token_encrypted
  unfolding handle_callback new_account
  handle_callback-keeps_refresh state visit states db grant ok g =
      let (returned, stored) =
        by_state-saves visit db grant (consume_state (codes "youtube") state visit.now states) ok
          g in
      let fresh = new_account grant.channel_id (codes "youtube") grant.channel_id visit.now in
      let set = youtube_row repr_of float_is encrypt visit.now grant in
      (
        (save_channel repr_of float_is encrypt visit.now grant db).0,
        returned,
        ap (λ (d : Db). get_account grant.channel_id d.social_accounts) stored
            ∙ get_account-upsert fresh set (λ row. refl) db.social_accounts,
        upsert_account-set (λ row. row.account_status ≡ connected) fresh set db.social_accounts
            (λ row. refl),
        upsert_account-set (λ row. row.access_token_encrypted ≡ encrypt grant.creds.token) fresh set
            db.social_accounts (λ row. refl),
        save_channel-refresh_token visit.now grant db,
      )
