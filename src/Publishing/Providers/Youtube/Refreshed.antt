-- ===== src/Publishing/Providers/Youtube/Refreshed.antt =====
-- What the YouTube provider does with the token of an account, and what it uploads.
use ai_video_clip_processing.Base.{
  ℕ, ◌≡◌, ◌∙◌, ◌≤◌, refl, ap, Bool, true, false, Option, none, some, [], ◌∷◌, arith, Text, codes,
  length, is_some, if◌then◌else◌, Option-cases, inl, inr,
}
use ai_video_clip_processing.Schemas.Json.{Json}
use ai_video_clip_processing.Publishing.Rows.{SocialAccount, connected, expired, revoked, auth, Db}
use ai_video_clip_processing.Publishing.Metadata.{PublishMetadata}
use ai_video_clip_processing.Publishing.Providers.Graph.{Called, raised, publish_error}
use ai_video_clip_processing.Publishing.Providers.Token.{get_account}
use ai_video_clip_processing.Publishing.Providers.Token.Accounts.{get_account-put, get_account-id}
use ai_video_clip_processing.Publishing.Providers.Youtube.{
  Upload, refresh_error, GoogleClient, mark_row_expired, set_expired, credentials_of,
  build_credentials, refresh_token_if_needed, upload_of, by_title, with_credentials,
  publish_youtube,
}

-- a row that is marked is found so
mark_row_expired-found :
    (now : ℕ) (account row : SocialAccount) (db : Db)
    → get_account account.id db.social_accounts ≡ some row
    → get_account account.id (mark_row_expired now account db).1.social_accounts
      ≡ some (set_expired now row)
unfolding mark_row_expired
mark_row_expired-found now account row db g = rw g (
    get_account-put account.id (set_expired now row) row db.social_accounts
      (get_account-id account.id db.social_accounts row g) g)

module _ (decrypt : Text → Option Text) (encrypt : Text → Text) (client : GoogleClient)
    (now : ℕ) where
  -- If Google's credentials without an expiry never count as expired, then `refresh_token_if_needed` asks
  -- for no token and writes nothing: it gives the account as it was, or as REVOKED where its access token
  -- cannot be decrypted, and the database as it was.
  pub refresh_token_if_needed-idle :
      client.is_expired none ≡ false
      → (account : SocialAccount) (db : Db)
      → refresh_token_if_needed decrypt encrypt client now account db ≡ (
        if is_some (decrypt account.access_token_encrypted)
            then account
            else record account { account_status = revoked },
        db,
      )
  unfolding refresh_token_if_needed build_credentials
  refresh_token_if_needed-idle never account db =
      elim (Option-cases (decrypt account.access_token_encrypted)) [
        | inl n ↦ rw n refl
        | inr (token, d) ↦ rw (d, never) refl
      ]

  module _ (repr_of : Json → Text) (float_is : Text → ℕ → Bool) (lower : Text → Text) where
    -- with credentials that do not expire, the account is used as it is
    by_title-posts :
        (title : Text) (body : Upload) (file_exists : Bool) (name token : Text)
        (account : SocialAccount) (db : Db)
        → client.is_expired none ≡ false
        → 1 ≤ length title
        → account.account_status ≡ connected
        → decrypt account.access_token_encrypted ≡ some token
        → by_title decrypt encrypt client now repr_of float_is lower title body file_exists name
            account db
          ≡ with_credentials decrypt encrypt client now repr_of float_is lower body file_exists name
              account
              (some (credentials_of decrypt account token))
              db
    unfolding refresh_token_if_needed build_credentials
    by_title-posts [] body file_exists name token account db never titled alive d =
        absurd (omega (arith, titled))
    by_title-posts (x ∷ title) body file_exists name token account db never titled alive d =
        rw (d, never, alive, d) refl

    publish_youtube-posts :
        (metadata : PublishMetadata) (name token : Text) (account : SocialAccount) (db : Db)
        → client.is_expired none ≡ false
        → 1 ≤ length (upload_of metadata).title
        → account.account_status ≡ connected
        → decrypt account.access_token_encrypted ≡ some token
        → publish_youtube decrypt encrypt client now repr_of float_is lower metadata true name
            account db
          ≡ with_credentials decrypt encrypt client now repr_of float_is lower
              (upload_of metadata)
              true
              name
              account
              (some (credentials_of decrypt account token))
              db
    unfolding publish_youtube
    publish_youtube-posts metadata name token account db =
        by_title-posts (upload_of metadata).title (upload_of metadata) true name token account db

    -- an upload that ends in a `RefreshError`
    ends_in_refresh :
        (body : Upload) (name token : Text) (account : SocialAccount) (db : Db)
        → client.upload (credentials_of decrypt account token) body ≡ refresh_error
        → with_credentials decrypt encrypt client now repr_of float_is lower body true name account
            (some (credentials_of decrypt account token))
            db
          ≡ (
            raised (
                publish_error
                  (codes "YouTube authorization expired or was revoked -- reconnect YouTube.")
                  auth
                  none),
            (mark_row_expired now account db).1,
          )
    ends_in_refresh body name token account db u = rw u refl

    -- If Google's credentials without an expiry never count as expired, then the upload of a clip with a
    -- title, from a file that exists, for a CONNECTED account whose access token can be decrypted, that
    -- ends in a `RefreshError` raises an error of the class AUTH, and the row of the account is EXPIRED
    -- in the database.
    pub publish_youtube-expires :
        (metadata : PublishMetadata) (name token : Text) (account row : SocialAccount) (db : Db)
        → client.is_expired none ≡ false
        → 1 ≤ length (upload_of metadata).title
        → account.account_status ≡ connected
        → decrypt account.access_token_encrypted ≡ some token
        → client.upload (credentials_of decrypt account token) (upload_of metadata) ≡ refresh_error
        → get_account account.id db.social_accounts ≡ some row
        → ((message : Text) × ((publish_youtube decrypt encrypt client now repr_of float_is lower
                metadata true name account db).0
              ≡ raised (publish_error message auth none)))
          × ((row' : SocialAccount) × (get_account account.id
                  (publish_youtube decrypt encrypt client now repr_of float_is lower metadata true
                    name account db).1.social_accounts
                ≡ some row')
              × (row'.account_status ≡ expired))
    publish_youtube-expires metadata name token account row db never titled alive d u g =
        let posted =
          publish_youtube-posts metadata name token account db never titled alive d
          ∙ ends_in_refresh (upload_of metadata) name token account db u in
        (
          (
            codes "YouTube authorization expired or was revoked -- reconnect YouTube.",
            ap (λ (r : Called Text × Db). r.0) posted,
          ),
          (
            set_expired now row,
            ap (λ (r : Called Text × Db). get_account account.id r.1.social_accounts) posted
                ∙ mark_row_expired-found now account row db g,
            refl,
          ),
        )
