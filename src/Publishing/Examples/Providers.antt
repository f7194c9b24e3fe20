-- ===== src/Publishing/Examples/Providers.antt =====
-- The theorems about the Graph API at one post, and at an account whose token has run out.
use ai_video_clip_processing.Base.{
  ℕ, zero, suc, ◌≡◌, ◌<◌, refl, Bool, false, some, [], ◌∷◌, Text, codes, text_eq, pos,
}
use ai_video_clip_processing.Schemas.Json.{Json, str, obj, field, end, get_field}
use ai_video_clip_processing.Analysis.Foreign.{str_of}
use ai_video_clip_processing.Publishing.Rows.{SocialAccount, Db}
use ai_video_clip_processing.Publishing.Examples.{queue, account}
use ai_video_clip_processing.Publishing.Providers.Graph.{GraphResponse, timed_out, answered, gave}
use ai_video_clip_processing.Publishing.Providers.Token.{
  mark_expired, refresh_meta_account_if_needed,
}
use ai_video_clip_processing.Publishing.Providers.Token.Unsaved.{
  refresh_meta_account_if_needed-unsaved,
}
use ai_video_clip_processing.Publishing.Providers.Instagram.{
  Instagram, max_poll_attempts, create_container, publish_container, post_media,
}
use ai_video_clip_processing.Publishing.Providers.Instagram.Finished.{Shows, post_media-finished}

abbrev repr_of : Json → Text
repr_of j = codes "?"

abbrev float_is : Text → ℕ → Bool
float_is s n = false

abbrev answer : Text → Text → GraphResponse
answer key value = answered 200 (some (obj (field key (str value) end))) []

-- the container is in progress at the first poll, and finished at the second
abbrev status : ℕ → GraphResponse
status zero = answer (codes "status_code") (codes "IN_PROGRESS")
status (suc n) = answer (codes "status_code") (codes "FINISHED")

abbrev world : Instagram
world = record {
  renewal = timed_out [];
  creation = answer (codes "id") (codes "c1");
  status = status;
  publication = answer (codes "id") (codes "m1");
}

world_posts : post_media repr_of float_is world ≡ gave (codes "m1")
unfolding post_media get_field text_eq
world_posts = refl

post_media-finished_example :
    (creation_id : Json) × (create_container repr_of float_is world ≡ gave creation_id)
    × ((k : ℕ) × (k < max_poll_attempts) × Shows repr_of float_is (status k) (codes "FINISHED"))
    × (id : Json) × (publish_container repr_of float_is world ≡ gave id)
    × (codes "m1" ≡ str_of repr_of id)
post_media-finished_example = post_media-finished repr_of float_is world (codes "m1") world_posts

-- an account whose token ended at 50, read at 100
abbrev ended_account : SocialAccount
ended_account = record account { token_expires_at = some 50 }

abbrev ended_db : Db
ended_db = record queue { social_accounts = ended_account ∷ [] }

account_expires :
    (refresh_meta_account_if_needed repr_of float_is
      (λ s. pos 0)
      (λ t. some t)
      (λ t. t)
      100
      (timed_out [])
      ended_account
      ended_db).0
    ≡ gave (mark_expired ended_account)
unfolding refresh_meta_account_if_needed
account_expires = refl

refresh_meta_account_if_needed-unsaved_example :
    (refresh_meta_account_if_needed repr_of float_is
      (λ s. pos 0)
      (λ t. some t)
      (λ t. t)
      100
      (timed_out [])
      ended_account
      ended_db).1
    ≡ ended_db
refresh_meta_account_if_needed-unsaved_example =
    refresh_meta_account_if_needed-unsaved repr_of float_is (λ s. pos 0) (λ t. some t) (λ t. t) 100
      (timed_out []) ended_account (mark_expired ended_account) ended_db account_expires refl
