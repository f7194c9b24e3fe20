-- ===== src/Publishing/Providers/Youtube.antt =====
-- backend/app/publishing/youtube_provider.py. Google's client libraries are the record `GoogleClient`;
-- the scopes, the addresses and the privacy that are the same in every call are left out. `lower` stands
-- for `str.lower`. An identifier that Google gives as no text is kept as Python's text of it.
pub mod Refreshed
pub mod Uploads
use mathlib.Core.Option
use ai_video_clip_processing.Base.{
  ℕ, leb, ◌==◌, Bool, true, false, not, ◌&&◌, ◌||◌, Option, none, some, List, [], ◌∷◌, ◌++◌,
  if◌then◌else◌, Text, codes, starts_with, strip, take,
}
use ai_video_clip_processing.Schemas.Json.{Json, get_field}
use ai_video_clip_processing.Analysis.Foreign.{truthy, get, str_of}
use ai_video_clip_processing.Publishing.Rows.{
  AccountStatus, ErrorClass, transient, auth, quota, unsupported, permanent, SocialAccount,
  connected, expired, revoked, Db,
}
use ai_video_clip_processing.Publishing.Metadata.{PublishMetadata, combined_caption, or_else}
use ai_video_clip_processing.Publishing.Providers.Graph.{
  Called, gave, raised, broke, ◌>>=◌, publish_error, fields_of,
}
use ai_video_clip_processing.Publishing.Providers.Token.{mark_expired, get_account, put_account}
use ai_video_clip_processing.Publishing.Providers.Instagram.{is_open_account}

-- `google.oauth2.credentials.Credentials`, as far as it is read; `expiry` is in UTC
pub record Credentials : Type 0 where
  pub token : Text
  pub refresh_token : Option Text
  pub expiry : Option ℕ

-- the part of `body` that depends on the clip
pub record Upload : Type 0 where
  pub title : Text
  pub description : Text
  pub tags : List Text

-- how an upload ends: its response, or a `RefreshError`, an `HttpError`, a timeout or a lost
-- connection, or another exception
pub data UploadAnswer : Type 0 where
  responded : Json → UploadAnswer
  refresh_error : UploadAnswer
  http_error : (status : ℕ) → (text : Text) → UploadAnswer
  connection_error crashed : Text → UploadAnswer

pub record GoogleClient : Type 0 where
  pub is_expired : Option ℕ → Bool  -- `Credentials.expired`, by the expiry
  pub refresh : Credentials → Option Credentials  -- `none` is a `RefreshError`
  pub upload : Credentials → Upload → UploadAnswer

abbrev pub title_max_len : ℕ
title_max_len = 100

abbrev pub description_max_len : ℕ
description_max_len = 5000

-- `needle in text`
unfoldable pub contains : Text → Text → Bool
unfolding starts_with
contains needle [] = starts_with needle []
contains needle (c ∷ text) = starts_with needle (c ∷ text) || contains needle text

-- `_classify_http_error`
unfoldable pub classify_http_error : (Text → Text) → ℕ → Text → ErrorClass
unfolding contains
classify_http_error lower status text =
    let reason = lower text in
    if status == 401
    then auth
    else if status == 403
    then (if contains (codes "quota") reason
          || (contains (codes "dailylimitexceeded") reason
              || contains (codes "ratelimitexceeded") reason)
        then quota
        else if contains (codes "forbidden") reason || contains (codes "permission") reason
        then auth
        else unsupported)
    else if status == 400
    then permanent
    else if leb 500 status
    then transient
    else permanent

-- the change of a row that is EXPIRED from then on; a row that was so is not written
abbrev pub set_expired : ℕ → SocialAccount → SocialAccount
set_expired now row = record row {
  account_status = expired;
  updated_at = if is_expired_row row.account_status then row.updated_at else now;
}
  where
    is_expired_row : AccountStatus → Bool
    is_expired_row expired = true
    is_expired_row _ = false

-- `_mark_expired`
unfoldable pub mark_row_expired : ℕ → SocialAccount → Db → SocialAccount × Db
unfolding get_account put_account
mark_row_expired now account db = by_row (get_account account.id db.social_accounts)
  where
    by_row : Option SocialAccount → SocialAccount × Db
    by_row none = (mark_expired account, db)
    by_row (some row) = (
      set_expired now row,
      record db { social_accounts = put_account (set_expired now row) db.social_accounts },
    )

-- `title[:_TITLE_MAX_LEN]` and the rest of `body`
unfoldable pub upload_of : PublishMetadata → Upload
unfolding strip combined_caption
upload_of metadata = record {
  title = take title_max_len (strip (title_or (or_else metadata.title none)));
  description = take description_max_len (combined_caption metadata);
  tags = take 15 metadata.hashtags;
}
  where
    title_or : Option Text → Text
    title_or none = codes "Untitled clip"
    title_or (some title) = title

module _ (decrypt : Text → Option Text) where
  -- `decrypt_token(...) if account.refresh_token_encrypted else None`
  abbrev decrypted : Option Text → Option Text
  decrypted none = none
  decrypted (some []) = none
  decrypted (some (c ∷ s)) = decrypt (c ∷ s)

  abbrev pub credentials_of : SocialAccount → Text → Credentials
  credentials_of account token = record {
    token = token;
    refresh_token = decrypted account.refresh_token_encrypted;
    expiry = none;
  }

  -- `_build_credentials`: no expiry is passed on
  unfoldable pub build_credentials : SocialAccount → Option Credentials
  build_credentials account =
      Option.map (credentials_of account) (decrypt account.access_token_encrypted)

module _ (decrypt : Text → Option Text) (encrypt : Text → Text) (client : GoogleClient)
    (now : ℕ) where
  -- the row with the new token
  abbrev pub renewed_row : Credentials → SocialAccount → SocialAccount
  renewed_row creds row = record row {
    access_token_encrypted = encrypt creds.token;
    token_expires_at = later_of creds.expiry;
    account_status = connected;
    updated_at = now;
  }
    where
      later_of : Option ℕ → Option ℕ
      later_of none = row.token_expires_at
      later_of (some instant) = some instant

  -- the session that stores it
  abbrev pub store_credentials : Credentials → SocialAccount → Db → SocialAccount × Db
  store_credentials creds account db = by_row (get_account account.id db.social_accounts)
    where
      by_row : Option SocialAccount → SocialAccount × Db
      by_row none = (account, db)
      by_row (some row) = (
        renewed_row creds row,
        record db { social_accounts = put_account (renewed_row creds row) db.social_accounts },
      )

  abbrev pub has_refresh_token : Option Text → Bool
  has_refresh_token none = false
  has_refresh_token (some []) = false
  has_refresh_token (some (_ ∷ _)) = true

  abbrev pub by_refresh : Option Credentials → SocialAccount → Db → SocialAccount × Db
  by_refresh none account db = mark_row_expired now account db
  by_refresh (some creds) account db = store_credentials creds account db

  abbrev pub by_credentials : Option Credentials → SocialAccount → Db → SocialAccount × Db
  by_credentials none account db = (record account { account_status = revoked }, db)
  by_credentials (some creds) account db =
      if not (client.is_expired creds.expiry) || not (has_refresh_token creds.refresh_token)
      then (account, db)
      else by_refresh (client.refresh creds) account db

  -- `refresh_token_if_needed`
  unfoldable pub refresh_token_if_needed : SocialAccount → Db → SocialAccount × Db
  unfolding build_credentials mark_row_expired get_account put_account
  refresh_token_if_needed account db = by_credentials (build_credentials decrypt account) account db

  abbrev pub reauthorize : Called Text
  reauthorize = raised (publish_error (codes "YouTube account requires reauthorization.") auth none)

  module _ (repr_of : Json → Text) (float_is : Text → ℕ → Bool) (lower : Text → Text) where
    -- by the response to the upload
    abbrev pub video_id_of : Json → Called Text
    video_id_of response = do
      fields ← fields_of repr_of float_is response
      let id = get (codes "id") fields in
          if truthy id
          then gave (str_of repr_of id)
          else raised (
              publish_error (codes "YouTube upload succeeded but returned no video id.") permanent
                none)

    abbrev pub by_answer : UploadAnswer → SocialAccount → Db → Called Text × Db
    by_answer (responded response) account db = (video_id_of response, db)
    by_answer refresh_error account db = (
      raised (
          publish_error (codes "YouTube authorization expired or was revoked -- reconnect YouTube.")
            auth none),
      (mark_row_expired now account db).1,
    )
    by_answer (http_error status text) account db =
        (raised (publish_error text (classify_http_error lower status text) (some status)), db)
    by_answer (connection_error text) account db = (raised (publish_error text transient none), db)
    by_answer (crashed text) account db = (broke text, db)

    -- with the credentials of the refreshed account; `name` is that of the file
    abbrev pub with_credentials :
        Upload → Bool → Text → SocialAccount → Option Credentials → Db → Called Text × Db
    with_credentials body file_exists name account none db = (reauthorize, db)
    with_credentials body file_exists name account (some creds) db =
        if not file_exists
        then (raised (publish_error (codes "Video file not found: " ++ name) permanent none), db)
        else by_answer (client.upload creds body) account db

    -- with the account that the refresh gave
    abbrev pub post_with : Upload → Bool → Text → SocialAccount → Db → Called Text × Db
    post_with body file_exists name account db =
        if not (is_open_account account.account_status)
        then (reauthorize, db)
        else with_credentials body file_exists name account (build_credentials decrypt account) db

    abbrev pub by_title : Text → Upload → Bool → Text → SocialAccount → Db → Called Text × Db
    by_title [] body file_exists name account db =
        (raised (publish_error (codes "Clip has no usable title.") permanent none), db)
    by_title (_ ∷ _) body file_exists name account db =
        let (refreshed, db') = refresh_token_if_needed account db in
        post_with body file_exists name refreshed db'

    -- `publish`
    unfoldable pub publish_youtube :
        PublishMetadata → Bool → Text → SocialAccount → Db → Called Text × Db
    unfolding refresh_token_if_needed upload_of classify_http_error str_of truthy get_field
    publish_youtube metadata file_exists name account db =
        let body = upload_of metadata in by_title body.title body file_exists name account db
