-- ===== src/Publishing/Providers/Youtube/Uploads.antt =====
-- What the YouTube provider uploads: a post that succeeds is an upload within the limits.
use ai_video_clip_processing.Base.{
  ℕ, zero, suc, ◌≡◌, ◌≤◌, refl, Bool, true, false, not, Option, none, some, List, [], ◌∷◌, arith,
  Text, take, length, if◌then◌else◌,
}
use ai_video_clip_processing.Schemas.Json.{Json}
use ai_video_clip_processing.Publishing.Rows.{SocialAccount, Db}
use ai_video_clip_processing.Publishing.Metadata.{PublishMetadata}
use ai_video_clip_processing.Publishing.Providers.Graph.{Called, gave}
use ai_video_clip_processing.Publishing.Providers.Instagram.{is_open_account}
use ai_video_clip_processing.Publishing.Providers.Youtube.{
  Credentials, Upload, UploadAnswer, responded, refresh_error, http_error, connection_error,
  crashed, GoogleClient, title_max_len, description_max_len, build_credentials,
  refresh_token_if_needed, upload_of, reauthorize, by_answer, by_title, post_with, with_credentials,
  publish_youtube, video_id_of,
}

-- the limits of the YouTube Data API on a title, a description and the tags
pub record IsWithinLimits (body : Upload) : Type 0 where
  pub title_given : 1 ≤ length body.title
  pub title_short : length body.title ≤ title_max_len
  pub description_short : length body.description ≤ description_max_len
  pub few_tags : length body.tags ≤ 15

length-take : {A : Type 0} (n : ℕ) (xs : List A) → length (take n xs) ≤ n
length-take zero xs = omega arith
length-take (suc n) [] = omega arith
length-take (suc n) (x ∷ xs) = omega (arith, length-take n xs)

upload_of-IsWithinLimits :
    (metadata : PublishMetadata)
    → 1 ≤ length (upload_of metadata).title
    → IsWithinLimits (upload_of metadata)
unfolding upload_of
upload_of-IsWithinLimits metadata titled = record {
  title_given = titled;
  title_short = length-take title_max_len _;
  description_short = length-take description_max_len _;
  few_tags = length-take 15 metadata.hashtags;
}

module _ (decrypt : Text → Option Text) (encrypt : Text → Text) (client : GoogleClient) (now : ℕ)
    (repr_of : Json → Text) (float_is : Text → ℕ → Bool) (lower : Text → Text) where
  -- that identifier came with the response to the upload of that body
  abbrev pub Uploaded : Upload → Text → Type 0
  Uploaded body id =
      (creds : Credentials) × (response : Json) × (client.upload creds body ≡ responded response)
      × (video_id_of decrypt encrypt client now repr_of float_is lower response ≡ gave id)

  by_answer-Uploaded :
      (body : Upload) (account : SocialAccount) (creds : Credentials) (db : Db) (id : Text)
      (answer : UploadAnswer)
      → client.upload creds body ≡ answer
      → (by_answer decrypt encrypt client now repr_of float_is lower answer account db).0 ≡ gave id
      → Uploaded body id
  by_answer-Uploaded body account creds db id (responded response) u e = (creds, response, u, e)
  by_answer-Uploaded body account creds db id refresh_error u e = absurd (cc)
  by_answer-Uploaded body account creds db id (http_error status text) u e = absurd (cc)
  by_answer-Uploaded body account creds db id (connection_error text) u e = absurd (cc)
  by_answer-Uploaded body account creds db id (crashed text) u e = absurd (cc)

  with_credentials-Uploaded :
      (body : Upload) (file_exists : Bool) (name : Text) (account : SocialAccount)
      (creds : Option Credentials) (db : Db) (id : Text)
      → (with_credentials decrypt encrypt client now repr_of float_is lower body file_exists name
          account creds db).0
        ≡ gave id
      → (file_exists ≡ true) × Uploaded body id
  with_credentials-Uploaded body file_exists name account none db id e = absurd (cc)
  with_credentials-Uploaded body false name account (some creds) db id e = absurd (cc)
  with_credentials-Uploaded body true name account (some creds) db id e =
      (refl, by_answer-Uploaded body account creds db id (client.upload creds body) refl e)

  -- an account that is not open gives no identifier
  given_open :
      (is_open : Bool) (db : Db) (posted : Called Text × Db) (id : Text)
      → (if not is_open then (reauthorize decrypt encrypt client now, db) else posted).0 ≡ gave id
      → posted.0 ≡ gave id
  given_open true db posted id e = e
  given_open false db posted id e = absurd (cc)

  post_with-Uploaded :
      (body : Upload) (file_exists : Bool) (name : Text) (account : SocialAccount) (db : Db)
      (id : Text)
      → (post_with decrypt encrypt client now repr_of float_is lower body file_exists name account
          db).0
        ≡ gave id
      → (file_exists ≡ true) × Uploaded body id
  post_with-Uploaded body file_exists name account db id e =
      with_credentials-Uploaded body file_exists name account (build_credentials decrypt account) db
        id
        (given_open (is_open_account account.account_status) db
          (with_credentials decrypt encrypt client now repr_of float_is lower body file_exists name
            account (build_credentials decrypt account) db)
          id e)

  by_title-Uploaded :
      (title : Text) (body : Upload) (file_exists : Bool) (name : Text) (account : SocialAccount)
      (db : Db) (id : Text)
      → (by_title decrypt encrypt client now repr_of float_is lower title body file_exists name
          account db).0
        ≡ gave id
      → (1 ≤ length title) × (file_exists ≡ true) × Uploaded body id
  by_title-Uploaded [] body file_exists name account db id e = absurd (cc)
  by_title-Uploaded (c ∷ title) body file_exists name account db id e =
      let (exists, uploaded) =
        post_with-Uploaded body file_exists name
          (refresh_token_if_needed decrypt encrypt client now account db).0
          (refresh_token_if_needed decrypt encrypt client now account db).1 id e in
      (omega arith, exists, uploaded)

  publish_youtube-by_title :
      (metadata : PublishMetadata) (file_exists : Bool) (name : Text) (account : SocialAccount)
      (db : Db) (id : Text)
      → (publish_youtube decrypt encrypt client now repr_of float_is lower metadata file_exists name
          account db).0
        ≡ gave id
      → (by_title decrypt encrypt client now repr_of float_is lower
          (upload_of metadata).title
          (upload_of metadata)
          file_exists
          name
          account
          db).0
        ≡ gave id
  unfolding publish_youtube
  publish_youtube-by_title metadata file_exists name account db id e = e

  -- If `publish` gives an identifier, then the file exists, and it is the identifier of the response to
  -- an upload of the clip's title, description and tags, where the title has 1 to 100 characters, the
  -- description 5000 at most, and where there are 15 tags at most.
  pub publish_youtube-uploads :
      (metadata : PublishMetadata) (file_exists : Bool) (name : Text) (account : SocialAccount)
      (db : Db) (id : Text)
      → (publish_youtube decrypt encrypt client now repr_of float_is lower metadata file_exists name
          account db).0
        ≡ gave id
      → IsWithinLimits (upload_of metadata)
        × (file_exists ≡ true)
        × Uploaded (upload_of metadata) id
  publish_youtube-uploads metadata file_exists name account db id e =
      let (titled, exists, uploaded) =
        by_title-Uploaded (upload_of metadata).title (upload_of metadata) file_exists name account
          db id (publish_youtube-by_title metadata file_exists name account db id e) in
      (upload_of-IsWithinLimits metadata titled, exists, uploaded)
