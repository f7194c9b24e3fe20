-- ===== src/Publishing/Examples/Oauth.antt =====
-- The theorems about the connection of accounts and about YouTube at one visit.
use ai_video_clip_processing.Base.{
  strip_by, drop_while, is_space, ℕ, ◌+◌, ◌*◌, ◌≡◌, ◌≤◌, refl, Bool, true, false, ◌||◌, none, some,
  [], ◌∷◌, ◌++◌, arith, Text, codes, text_eq, pos, any, In, count_if, length, is_some,
}
use ai_video_clip_processing.Schemas.Json.{
  Json, str, arr, obj, nil, cons, Fields, field, end, get_field,
}
use ai_video_clip_processing.Analysis.Foreign.{truthy, get, is_text}
use ai_video_clip_processing.Publishing.Rows.{
  SocialAccount, connected, expired, auth, Db, PublishError, transient,
}
use ai_video_clip_processing.Publishing.Examples.{queue, account}
use ai_video_clip_processing.Publishing.Metadata.{PublishMetadata}
use ai_video_clip_processing.Publishing.Providers.Graph.{
  GraphResponse, timed_out, answered, gave, raised, publish_error, graph_request,
}
use ai_video_clip_processing.Publishing.Providers.Token.{get_account}
use ai_video_clip_processing.Publishing.Providers.Youtube.{
  Credentials, UploadAnswer, responded, refresh_error, GoogleClient, refresh_token_if_needed,
  upload_of, publish_youtube,
}
use ai_video_clip_processing.Publishing.Providers.Youtube.Refreshed.{
  refresh_token_if_needed-idle, publish_youtube-expires,
}
use ai_video_clip_processing.Publishing.Providers.Youtube.Uploads.{
  IsWithinLimits, Uploaded, publish_youtube-uploads,
}
use ai_video_clip_processing.Publishing.Oauth.{
  OauthState, oauth_state_ttl_minutes, build_authorization_url, consume_state,
}
use ai_video_clip_processing.Publishing.Oauth.States.{
  asked, Run, start, ask, is_asked, is_accepted, Run-accepts,
}
use ai_video_clip_processing.Publishing.Oauth.Grant.{MetaVisit, PageGrant, grant_of}
use ai_video_clip_processing.Publishing.Oauth.Meta
use ai_video_clip_processing.Publishing.Oauth.Meta.Saved.{
  handle_callback-saves, handle_callback-blocked,
}
use ai_video_clip_processing.Publishing.Oauth.Youtube.{YoutubeVisit, ChannelGrant, channel_of}
use ai_video_clip_processing.Publishing.Oauth.Youtube
use ai_video_clip_processing.Publishing.Oauth.Youtube.Saved.{handle_callback-keeps_refresh}

abbrev repr_of : Json → Text
repr_of j = codes "?"

abbrev float_is : Text → ℕ → Bool
float_is s n = false

-- a redirect at 100, and a callback at 160
abbrev meta_state : OauthState
meta_state = record { state = codes "s"; platform = codes "meta"; created_at = 100 }

asked_once : Run (asked (codes "s") (codes "meta") 100 ∷ []) (meta_state ∷ [])
unfolding build_authorization_url
asked_once = ask (codes "s") (codes "meta") 100 start refl

meta_accepted : (consume_state (codes "meta") (codes "s") 160 (meta_state ∷ [])).0 ≡ true
unfolding consume_state text_eq
meta_accepted = refl

Run-accepts_example :
    ((instant : ℕ) × In
        (asked (codes "s") (codes "meta") instant)
        (asked (codes "s") (codes "meta") 100 ∷ [])
      × (160 ≤ instant + oauth_state_ttl_minutes * 60))
    × (count_if (is_accepted (codes "s") (codes "meta")) (asked (codes "s") (codes "meta") 100 ∷ [])
          + 1
        ≤ count_if
            (is_asked (codes "s") (codes "meta"))
            (asked (codes "s") (codes "meta") 100 ∷ []))
Run-accepts_example = Run-accepts (codes "meta") (codes "s") 160 asked_once meta_accepted

-- the answers of a visit whose last request times out
abbrev answer : Fields → GraphResponse
answer fields = answered 200 (some (obj fields)) []

abbrev token_answer : GraphResponse
token_answer = answer (field (codes "access_token") (str (codes "t")) end)

abbrev page : Fields
page = field (codes "id") (str (codes "7")) (field (codes "access_token") (str (codes "p")) end)

abbrev permission : Fields
permission =
    field (codes "permission") (str (codes "instagram_basic"))
      (field (codes "status") (str (codes "granted")) end)

abbrev ig_account : Fields
ig_account = field (codes "id") (str (codes "9")) end

abbrev linked : Fields
linked = field (codes "instagram_business_account") (obj ig_account) end

abbrev meta_visit : MetaVisit
meta_visit = record {
  now = 160;
  code_exchange = token_answer;
  long_lived = token_answer;
  pages = answer (field (codes "data") (arr (cons (obj page) nil)) end);
  permissions = answer (field (codes "data") (arr (cons (obj permission) nil)) end);
  linked = answer linked;
  username = timed_out [];
}

abbrev meta_grant : PageGrant
meta_grant = record {
  page_id = codes "7";
  page_name = [];
  page_token = codes "p";
  expires_at = none;
  granted_permissions = str (codes "instagram_basic") ∷ [];
}

meta_granted :
    grant_of repr_of float_is (λ s. pos 0) (λ t. some t) (λ t. t) meta_visit ≡ gave meta_grant
unfolding grant_of text_eq
meta_granted = refl

handle_callback-saves_example :
    (row : SocialAccount) × (get_account
        (codes "facebook" ++ (codes ":" ++ codes "7"))
        (Meta.handle_callback repr_of float_is
          (λ s. pos 0)
          (λ t. some t)
          (λ t. t)
          (codes "s")
          meta_visit
          (meta_state ∷ [])
          queue).2.social_accounts
      ≡ some row)
    × (row.account_status ≡ connected)
    × (row.access_token_encrypted ≡ codes "p")
handle_callback-saves_example =
    handle_callback-saves repr_of float_is (λ s. pos 0) (λ t. some t) (λ t. t) (codes "s")
      meta_visit (meta_state ∷ []) queue meta_grant meta_accepted meta_granted

permitted :
    any (is_text (codes "pages_read_engagement")) meta_grant.granted_permissions
      || any (is_text (codes "instagram_basic")) meta_grant.granted_permissions
    ≡ true
unfolding text_eq
permitted = refl

linked_account :
    (graph_request repr_of float_is meta_visit.linked ≡ gave (obj linked))
    × (get (codes "instagram_business_account") linked ≡ obj ig_account)
    × (truthy (get (codes "id") ig_account) ≡ true)
unfolding graph_request get_field text_eq truthy
linked_account = (refl, refl, refl)

abbrev username_error : PublishError
username_error = publish_error (codes "Meta Graph API timed out: ") transient none

username_times_out : graph_request repr_of float_is meta_visit.username ≡ raised username_error
unfolding graph_request
username_times_out = refl

handle_callback-blocked_example :
    ((Meta.handle_callback repr_of float_is
        (λ s. pos 0)
        (λ t. some t)
        (λ t. t)
        (codes "s")
        meta_visit
        (meta_state ∷ [])
        queue).0
      ≡ raised username_error)
    × ((row : SocialAccount) × (get_account
            (codes "facebook" ++ (codes ":" ++ codes "7"))
            (Meta.handle_callback repr_of float_is
              (λ s. pos 0)
              (λ t. some t)
              (λ t. t)
              (codes "s")
              meta_visit
              (meta_state ∷ [])
              queue).2.social_accounts
          ≡ some row)
        × (row.account_status ≡ connected))
handle_callback-blocked_example =
    handle_callback-blocked repr_of float_is (λ s. pos 0) (λ t. some t) (λ t. t) (codes "s")
      meta_visit (meta_state ∷ []) queue meta_grant linked ig_account username_error meta_accepted
      meta_granted permitted linked_account.0 linked_account.1 linked_account.2 username_times_out

-- a channel that was connected before, and that Google gives no new refresh token for
abbrev channel : SocialAccount
channel = record account { id = codes "c"; refresh_token_encrypted = some (codes "old") }

abbrev channel_db : Db
channel_db = record queue { social_accounts = channel ∷ [] }

abbrev youtube_state : OauthState
youtube_state = record { state = codes "s"; platform = codes "youtube"; created_at = 100 }

youtube_accepted : (consume_state (codes "youtube") (codes "s") 160 (youtube_state ∷ [])).0 ≡ true
unfolding consume_state text_eq
youtube_accepted = refl

abbrev creds : Credentials
creds = record { token = codes "new"; refresh_token = none; expiry = some 900 }

abbrev channel_item : Json
channel_item = obj (field (codes "id") (str (codes "c")) end)

abbrev youtube_visit : YoutubeVisit
youtube_visit = record {
  now = 160;
  fetched = gave creds;
  channels = gave (obj (field (codes "items") (arr (cons channel_item nil)) end));
}

abbrev channel_grant : ChannelGrant
channel_grant = record { creds = creds; channel_id = codes "c"; channel_title = [] }

channel_granted : channel_of repr_of float_is (λ t. t) youtube_visit ≡ gave channel_grant
unfolding channel_of text_eq
channel_granted = refl

handle_callback-keeps_refresh_example :
    (row : SocialAccount) × ((Youtube.handle_callback repr_of float_is
        (λ t. t)
        (codes "s")
        youtube_visit
        (youtube_state ∷ [])
        channel_db).0
      ≡ gave row)
    × (get_account
          (codes "c")
          (Youtube.handle_callback repr_of float_is
            (λ t. t)
            (codes "s")
            youtube_visit
            (youtube_state ∷ [])
            channel_db).2.social_accounts
        ≡ some row)
    × (row.account_status ≡ connected)
    × (row.access_token_encrypted ≡ codes "new")
    × (row.refresh_token_encrypted ≡ some (codes "old"))
unfolding get_account text_eq
handle_callback-keeps_refresh_example =
    handle_callback-keeps_refresh repr_of float_is (λ t. t) (codes "s") youtube_visit
      (youtube_state ∷ []) channel_db channel_grant youtube_accepted channel_granted

-- a client whose credentials expire only with an expiry, and whose uploads end in `answer`
abbrev client : UploadAnswer → GoogleClient
client answer = record { is_expired = is_some; refresh = λ c. none; upload = λ c u. answer }

refresh_token_if_needed-idle_example :
    refresh_token_if_needed (λ t. some t) (λ t. t) (client refresh_error) 200 account queue
    ≡ (account, queue)
refresh_token_if_needed-idle_example =
    refresh_token_if_needed-idle (λ t. some t) (λ t. t) (client refresh_error) 200 refl account
      queue

abbrev metadata : PublishMetadata
metadata = record { title = some (codes "A title"); caption = none; hashtags = [] }

titled : 1 ≤ length (upload_of metadata).title
unfolding upload_of strip_by drop_while is_space
titled = omega arith

account_there : get_account (codes "s") queue.social_accounts ≡ some account
unfolding get_account text_eq
account_there = refl

publish_youtube-expires_example :
    ((message : Text) × ((publish_youtube
          (λ t. some t)
          (λ t. t)
          (client refresh_error)
          200
          repr_of
          float_is
          (λ t. t)
          metadata
          true
          (codes "o")
          account
          queue).0
        ≡ raised (publish_error message auth none)))
    × ((row' : SocialAccount) × (get_account
            (codes "s")
            (publish_youtube
              (λ t. some t)
              (λ t. t)
              (client refresh_error)
              200
              repr_of
              float_is
              (λ t. t)
              metadata
              true
              (codes "o")
              account
              queue).1.social_accounts
          ≡ some row')
        × (row'.account_status ≡ expired))
publish_youtube-expires_example =
    publish_youtube-expires (λ t. some t) (λ t. t) (client refresh_error) 200 repr_of float_is
      (λ t. t) metadata (codes "o") (codes "t") account account queue refl titled refl refl refl
      account_there

abbrev posting : GoogleClient
posting = client (responded (obj (field (codes "id") (str (codes "v")) end)))

uploaded :
    (publish_youtube
      (λ t. some t)
      (λ t. t)
      posting
      200
      repr_of
      float_is
      (λ t. t)
      metadata
      true
      (codes "o")
      account
      queue).0
    ≡ gave (codes "v")
unfolding publish_youtube text_eq strip_by drop_while is_space
uploaded = refl

publish_youtube-uploads_example :
    IsWithinLimits (upload_of metadata)
    × (true ≡ true)
    × Uploaded
        (λ t. some t)
        (λ t. t)
        posting
        200
        repr_of
        float_is
        (λ t. t)
        (upload_of metadata)
        (codes "v")
publish_youtube-uploads_example =
    publish_youtube-uploads (λ t. some t) (λ t. t) posting 200 repr_of float_is (λ t. t) metadata
      true (codes "o") account queue (codes "v") uploaded
