-- ===== src/Publishing/Providers/Instagram.antt =====
-- backend/app/publishing/instagram_provider.py. An identifier that the Graph API gives as no text is
-- kept as Python's text of it.
pub mod Finished
use ai_video_clip_processing.Base.{
  ℕ, zero, suc, ◌+◌, leb, Bool, true, false, not, ◌&&◌, ◌||◌, Option, none, some, List, [], ◌∷◌,
  ◌++◌, if◌then◌else◌, Text, text_eq, codes, ℤ, default_to,
}
use ai_video_clip_processing.Schemas.Json.{Json, str, obj, Fields, end, get_field}
use ai_video_clip_processing.Schemas.ProcessingConfig.{is_blank}
use ai_video_clip_processing.Analysis.Foreign.{truthy, get, is_text, str_of}
use ai_video_clip_processing.Publishing.Rows.{
  SocialAccount, AccountStatus, connected, expired, revoked, transient, auth, unsupported,
  permanent, Db,
}
use ai_video_clip_processing.Publishing.Providers.Graph.{
  GraphResponse, timed_out, network_error, answered, Called, gave, raised, broke, ◌>>=◌,
  publish_error, fields_of, graph_request, refusal, body_of,
}
use ai_video_clip_processing.Publishing.Providers.Token.{refresh_meta_account_if_needed}

-- `_MAX_POLL_ATTEMPTS`
abbrev pub max_poll_attempts : ℕ
max_poll_attempts = 40

abbrev pub is_open_account : AccountStatus → Bool
is_open_account connected = true
is_open_account _ = false

-- What a publication meets: the answers to the request for a new token, to the creation of the
-- container, to each poll of its status, and to the publication.
pub record Instagram : Type 0 where
  pub renewal : GraphResponse
  pub creation : GraphResponse
  pub status : ℕ → GraphResponse
  pub publication : GraphResponse

module _ (repr_of : Json → Text) (float_is : Text → ℕ → Bool) where
  -- `value.get("id")`, where one that is empty raises
  unfoldable pub id_of : Text → Json → Called Json
  unfolding truthy get_field
  id_of message value = do
    fields ← fields_of repr_of float_is value
    let id = get (codes "id") fields in
        if truthy id then gave id else raised (publish_error message permanent none)

  -- by the status code of one poll
  abbrev pub by_code : Called (Unit {0}) → Json → Called (Unit {0})
  by_code rest code =
      if is_text (codes "FINISHED") code
      then gave tt
      else if is_text (codes "ERROR") code
      then raised (
          publish_error (codes "Instagram media processing failed (status_code=ERROR).") permanent
            none)
      else rest

  -- one poll: the status code of the container
  unfoldable pub status_code_of : GraphResponse → Called Json
  unfolding graph_request get_field
  status_code_of response = do
    status ← graph_request repr_of float_is response
    fields ← fields_of repr_of float_is status
    gave (get (codes "status_code") fields)

  -- the loop over the polls
  unfoldable pub poll_status : (ℕ → GraphResponse) → (rounds n : ℕ) → Called (Unit {0})
  unfolding status_code_of text_eq
  poll_status status zero n = raised (
      publish_error (codes "Instagram media container did not finish processing in time.") transient
        none)
  poll_status status (suc rounds) n =
      let rest = poll_status status rounds (suc n) in status_code_of (status n) >>= by_code rest

  -- the container of the post
  unfoldable pub create_container : Instagram → Called Json
  unfolding graph_request id_of
  create_container world =
      graph_request repr_of float_is world.creation
      >>= id_of (codes "Instagram media container creation returned no id.")

  -- its publication, by the identifier of the post
  unfoldable pub publish_container : Instagram → Called Json
  unfolding graph_request id_of
  publish_container world =
      graph_request repr_of float_is world.publication
      >>= id_of (codes "Instagram media_publish succeeded but returned no id.")

  -- the requests of a post, the text of whose identifier it gives
  unfoldable pub post_media : Instagram → Called Text
  unfolding create_container poll_status publish_container str_of
  post_media world = do
    _ ← create_container world
    _ ← poll_status world.status max_poll_attempts 0
    media_id ← publish_container world
    gave (str_of repr_of media_id)

  module _ (truncate : Text → ℤ) (decrypt : Text → Option Text) (encrypt : Text → Text) where
    abbrev reauthorize : Called Text
    reauthorize =
        raised (publish_error (codes "Instagram account requires reauthorization.") auth none)

    abbrev with_token : Called Text → Option Text → Called Text
    with_token post none = reauthorize
    with_token post (some _) = post

    -- with the account that the refresh gave
    abbrev pub post_with : Instagram → Option Text → SocialAccount → Called Text
    post_with world public_url account =
        if not (is_open_account account.account_status)
        then reauthorize
        else if is_blank account.ig_business_account_id
        then raised (
            publish_error
              (codes
                "No Instagram professional (Business/Creator) account is linked to this Facebook Page.")
              unsupported none)
        else if is_blank public_url
        then raised (
            publish_error
              (codes
                "Instagram publishing requires a publicly-fetchable video URL; PUBLIC_BASE_URL is not configured.")
              unsupported none)
        else with_token (post_media world) (decrypt account.access_token_encrypted)

    -- `publish`
    unfoldable pub publish_instagram :
        ℕ → Instagram → Option Text → SocialAccount → Db → Called Text × Db
    unfolding refresh_meta_account_if_needed post_media
    publish_instagram now world public_url account db =
        let (refreshed, db') =
          refresh_meta_account_if_needed repr_of float_is truncate decrypt encrypt now world.renewal
            account db in
        (refreshed >>= post_with world public_url, db')
