-- ===== src/Publishing/Providers/Facebook.antt =====
-- backend/app/publishing/facebook_provider.py. An identifier that the Graph API gives as no text is
-- kept as Python's text of it.
use ai_video_clip_processing.Base.{
  ℕ, leb, Bool, not, Option, none, some, ◌++◌, if◌then◌else◌, Text, codes, ℤ,
}
use ai_video_clip_processing.Schemas.Json.{Json}
use ai_video_clip_processing.Schemas.ProcessingConfig.{is_blank}
use ai_video_clip_processing.Analysis.Foreign.{str_of}
use ai_video_clip_processing.Publishing.Rows.{
  SocialAccount, transient, auth, unsupported, permanent, Db,
}
use ai_video_clip_processing.Publishing.Providers.Graph.{
  GraphResponse, timed_out, network_error, answered, Called, gave, raised, ◌>>=◌, publish_error,
  refusal, body_of,
}
use ai_video_clip_processing.Publishing.Providers.Token.{refresh_meta_account_if_needed}
use ai_video_clip_processing.Publishing.Providers.Instagram.{is_open_account, id_of}

-- What an upload meets: the answers to the request for a new token and to the upload, and whether the
-- file is there.
pub record Facebook : Type 0 where
  pub renewal : GraphResponse
  pub upload : GraphResponse
  pub file_exists : Bool

module _ (repr_of : Json → Text) (float_is : Text → ℕ → Bool) where
  -- the upload and its response
  unfoldable pub upload_video : GraphResponse → Called Json
  unfolding refusal
  upload_video (timed_out text) =
      raised (publish_error (codes "Facebook upload timed out: " ++ text) transient none)
  upload_video (network_error text) =
      raised (publish_error (codes "Facebook upload network error: " ++ text) transient none)
  upload_video (answered status_code payload text) =
      let body = body_of repr_of float_is payload in
      let refused =
        refusal repr_of float_is (codes "Facebook publish failed: ") body status_code text in
      if leb 400 status_code then refused else gave body

  unfoldable pub post_video : GraphResponse → Called Text
  unfolding upload_video id_of str_of
  post_video response = do
    payload ← upload_video response
    video_id ←
        id_of repr_of float_is (codes "Facebook upload succeeded but returned no video id.") payload
    gave (str_of repr_of video_id)

  module _ (truncate : Text → ℤ) (decrypt : Text → Option Text) (encrypt : Text → Text) where
    abbrev reauthorize : Called Text
    reauthorize =
        raised (publish_error (codes "Facebook account requires reauthorization.") auth none)

    abbrev with_token : Facebook → Text → Option Text → Called Text
    with_token world name none = reauthorize
    with_token world name (some _) =
        if world.file_exists
        then post_video world.upload
        else raised (publish_error (codes "Video file not found: " ++ name) permanent none)

    -- with the account that the refresh gave; `name` is that of the file
    abbrev pub post_with : Facebook → Text → SocialAccount → Called Text
    post_with world name account =
        if not (is_open_account account.account_status)
        then reauthorize
        else if is_blank account.page_id
        then raised (
            publish_error
              (codes "No Facebook Page with video-publish permission is linked to this account.")
              unsupported none)
        else with_token world name (decrypt account.access_token_encrypted)

    -- `publish`
    unfoldable pub publish_facebook : ℕ → Facebook → Text → SocialAccount → Db → Called Text × Db
    unfolding refresh_meta_account_if_needed post_video
    publish_facebook now world name account db =
        let (refreshed, db') =
          refresh_meta_account_if_needed repr_of float_is truncate decrypt encrypt now world.renewal
            account db in
        (refreshed >>= post_with world name, db')
