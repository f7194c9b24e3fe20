-- ===== src/Publishing/Oauth/Meta/Saved.antt =====
-- What a Meta callback leaves in the database, whatever becomes of its Instagram part.
use ai_video_clip_processing.Base.{
  ℕ, ◌≡◌, ◌∙◌, refl, Bool, true, false, ◌||◌, Option, none, some, List, ◌++◌, Text, text_eq, codes,
  ℤ, any, Bool-cases, inl, inr,
}
use ai_video_clip_processing.Schemas.Json.{Json, obj, Fields, end, field, get_field}
use ai_video_clip_processing.Analysis.Foreign.{truthy, get, is_text}
use ai_video_clip_processing.Publishing.Rows.{SocialAccount, connected, PublishError, Db}
use ai_video_clip_processing.Publishing.Providers.Graph.{Called, gave, raised, broke, graph_request}
use ai_video_clip_processing.Publishing.Providers.Token.{get_account}
use ai_video_clip_processing.Publishing.Oauth.{OauthState, consume_state}
use ai_video_clip_processing.Publishing.Oauth.Grant.{MetaVisit, PageGrant, grant_of}
use ai_video_clip_processing.Publishing.Oauth.Upsert.{
  new_account, get_account-upsert, upsert_account-set, get_account-upsert_other,
}
use ai_video_clip_processing.Publishing.Oauth.Meta.{
  save_facebook, meta_row, by_username, by_business, by_info, by_link, by_state, link_instagram,
  handle_callback,
}

abbrev facebook_id : PageGrant → Text
facebook_id grant = codes "facebook" ++ (codes ":" ++ grant.page_id)

module _ (repr_of : Json → Text) (float_is : Text → ℕ → Bool) (truncate : Text → ℤ)
    (decrypt : Text → Option Text) (encrypt : Text → Text) where
  abbrev Keeps : PageGrant → Db → Db → Type 0
  Keeps grant db db' =
      get_account (facebook_id grant) db'.social_accounts
      ≡ get_account (facebook_id grant) db.social_accounts

  by_username-Keeps :
      (ig_id : Text) (visit : MetaVisit) (grant : PageGrant) (facebook : SocialAccount)
      (fields : Called Fields) (db : Db)
      → Keeps grant db
          (by_username repr_of float_is truncate decrypt encrypt ig_id visit grant facebook fields
            db).1
  unfolding new_account text_eq
  by_username-Keeps ig_id visit grant facebook (raised e) db = refl
  by_username-Keeps ig_id visit grant facebook (broke t) db = refl
  by_username-Keeps ig_id visit grant facebook (gave fields) db =
      get_account-upsert_other
        (new_account (codes "instagram" ++ (codes ":" ++ ig_id)) (codes "instagram") ig_id
          visit.now)
        (meta_row repr_of float_is truncate decrypt encrypt (codes "instagram") ig_id _ (some ig_id)
          visit grant)
        (λ row. refl) db.social_accounts (facebook_id grant) refl

  by_business-Keeps :
      (visit : MetaVisit) (grant : PageGrant) (facebook : SocialAccount) (fields : Called Fields)
      (db : Db)
      → Keeps grant db
          (by_business repr_of float_is truncate decrypt encrypt visit grant facebook fields db).1
  by_business-Keeps visit grant facebook (raised e) db = refl
  by_business-Keeps visit grant facebook (broke t) db = refl
  by_business-Keeps visit grant facebook (gave fields) db =
      elim (Bool-cases (truthy (get (codes "id") fields))) [
        | inl h ↦ rw h (by_username-Keeps _ visit grant facebook _ db)
        | inr h ↦ rw h refl
      ]

  by_info-Keeps :
      (visit : MetaVisit) (grant : PageGrant) (facebook : SocialAccount) (fields : Called Fields)
      (db : Db)
      → Keeps grant db
          (by_info repr_of float_is truncate decrypt encrypt visit grant facebook fields db).1
  by_info-Keeps visit grant facebook (raised e) db = refl
  by_info-Keeps visit grant facebook (broke t) db = refl
  by_info-Keeps visit grant facebook (gave fields) db =
      elim (Bool-cases (truthy (get (codes "instagram_business_account") fields))) [
        | inl h ↦ rw h (by_business-Keeps visit grant facebook _ db)
        | inr h ↦ rw h refl
      ]

  by_link-Keeps :
      (visit : MetaVisit) (grant : PageGrant) (facebook : SocialAccount) (ig_info : Called Json)
      (db : Db)
      → Keeps grant db
          (by_link repr_of float_is truncate decrypt encrypt visit grant facebook ig_info db).1
  by_link-Keeps visit grant facebook (raised e) db = refl
  by_link-Keeps visit grant facebook (broke t) db = refl
  by_link-Keeps visit grant facebook (gave ig_info) db = by_info-Keeps visit grant facebook _ db

  -- the row of the Facebook Page is the same after the Instagram part
  link_instagram-Keeps :
      (visit : MetaVisit) (grant : PageGrant) (facebook : SocialAccount) (db : Db)
      → Keeps grant db
          (link_instagram repr_of float_is truncate decrypt encrypt visit grant facebook db).1
  unfolding link_instagram
  link_instagram-Keeps visit grant facebook db =
      elim (Bool-cases (
        any (is_text (codes "pages_read_engagement")) grant.granted_permissions
        || any (is_text (codes "instagram_basic")) grant.granted_permissions)) [
          | inl h ↦ rw h (by_link-Keeps visit grant facebook _ db)
          | inr h ↦ rw h refl
        ]

  -- the row of the Page is saved with its new token
  save_facebook-row :
      (visit : MetaVisit) (grant : PageGrant) (db : Db)
      → (get_account
            (facebook_id grant)
            (save_facebook repr_of float_is truncate decrypt encrypt visit grant
              db).1.social_accounts
          ≡ some (save_facebook repr_of float_is truncate decrypt encrypt visit grant db).0)
        × ((save_facebook repr_of float_is truncate decrypt encrypt visit grant db).0.account_status
            ≡ connected)
        × ((save_facebook repr_of float_is truncate decrypt encrypt visit grant
              db).0.access_token_encrypted
            ≡ encrypt grant.page_token)
  unfolding new_account
  save_facebook-row visit grant db =
      let fresh = new_account (facebook_id grant) (codes "facebook") grant.page_id visit.now in
      let set =
        meta_row repr_of float_is truncate decrypt encrypt (codes "facebook") grant.page_id
          grant.page_name none visit grant in
      (
        get_account-upsert fresh set (λ row. refl) db.social_accounts,
        upsert_account-set (λ row. row.account_status ≡ connected) fresh set db.social_accounts
            (λ row. refl),
        upsert_account-set (λ row. row.access_token_encrypted ≡ encrypt grant.page_token) fresh set
            db.social_accounts (λ row. refl),
      )

  -- what an accepted callback with a grant leaves
  by_state-saves :
      (visit : MetaVisit) (db : Db) (grant : PageGrant) (verdict : Bool × List OauthState)
      → verdict.0 ≡ true
      → grant_of repr_of float_is truncate decrypt encrypt visit ≡ gave grant
      → get_account
          (facebook_id grant)
          (by_state repr_of float_is truncate decrypt encrypt visit db verdict).2.social_accounts
        ≡ some (save_facebook repr_of float_is truncate decrypt encrypt visit grant db).0
  by_state-saves visit db grant (false, states) ok g = absurd (cc)
  by_state-saves visit db grant (true, states) ok g =
      let (found, _, _) = save_facebook-row visit grant db in
      let (facebook, db') =
        save_facebook repr_of float_is truncate decrypt encrypt visit grant db in
      rw g (link_instagram-Keeps visit grant facebook db' ∙ found)

  -- If `_consume_state` accepts the callback and the requests up to the permissions succeed, then the
  -- row of the Facebook Page is in the database afterwards, CONNECTED and with the Page's token, whatever
  -- the two requests about Instagram meet.
  pub handle_callback-saves :
      (state : Text) (visit : MetaVisit) (states : List OauthState) (db : Db) (grant : PageGrant)
      → (consume_state (codes "meta") state visit.now states).0 ≡ true
      → grant_of repr_of float_is truncate decrypt encrypt visit ≡ gave grant
      → (row : SocialAccount) × (get_account
            (codes "facebook" ++ (codes ":" ++ grant.page_id))
            (handle_callback repr_of float_is truncate decrypt encrypt state visit states
              db).2.social_accounts
          ≡ some row)
        × (row.account_status ≡ connected)
        × (row.access_token_encrypted ≡ encrypt grant.page_token)
  unfolding handle_callback
  handle_callback-saves state visit states db grant ok g =
      let (_, status, token) = save_facebook-row visit grant db in
      (
        (save_facebook repr_of float_is truncate decrypt encrypt visit grant db).0,
        by_state-saves visit db grant (consume_state (codes "meta") state visit.now states) ok g,
        status,
        token,
      )

  -- the name of the linked account is refused
  by_info-raised :
      (visit : MetaVisit) (grant : PageGrant) (facebook : SocialAccount) (db : Db)
      (fields ig_fields : Fields) (e : PublishError)
      → get (codes "instagram_business_account") fields ≡ obj ig_fields
      → truthy (get (codes "id") ig_fields) ≡ true
      → graph_request repr_of float_is visit.username ≡ raised e
      → (by_info repr_of float_is truncate decrypt encrypt visit grant facebook (gave fields) db).0
        ≡ raised e
  unfolding truthy get_field
  by_info-raised visit grant facebook db fields end e i t u = absurd (cc)
  by_info-raised visit grant facebook db fields (field k v rest) e i t u = rw (i, t, u) refl

  -- so the callback raises
  by_state-raised :
      (visit : MetaVisit) (db : Db) (grant : PageGrant) (fields ig_fields : Fields)
      (e : PublishError) (verdict : Bool × List OauthState)
      → verdict.0 ≡ true
      → grant_of repr_of float_is truncate decrypt encrypt visit ≡ gave grant
      → any (is_text (codes "pages_read_engagement")) grant.granted_permissions
          || any (is_text (codes "instagram_basic")) grant.granted_permissions
        ≡ true
      → graph_request repr_of float_is visit.linked ≡ gave (obj fields)
      → get (codes "instagram_business_account") fields ≡ obj ig_fields
      → truthy (get (codes "id") ig_fields) ≡ true
      → graph_request repr_of float_is visit.username ≡ raised e
      → (by_state repr_of float_is truncate decrypt encrypt visit db verdict).0 ≡ raised e
  unfolding link_instagram
  by_state-raised visit db grant fields ig_fields e (false, states) ok g p l i t u = absurd (cc)
  by_state-raised visit db grant fields ig_fields e (true, states) ok g p l i t u =
      let (facebook, db') =
        save_facebook repr_of float_is truncate decrypt encrypt visit grant db in
      rw (g, p, l) (by_info-raised visit grant facebook db' fields ig_fields e i t u)

  -- If the callback is accepted, the requests up to the permissions succeed with one of the two that
  -- Instagram needs, and the Page has a linked account, then a `PublishError` at the request for that
  -- account's name is raised by `handle_callback`, although the row of the Facebook Page is CONNECTED in
  -- the database.
  pub handle_callback-blocked :
      (state : Text) (visit : MetaVisit) (states : List OauthState) (db : Db) (grant : PageGrant)
      (fields ig_fields : Fields) (e : PublishError)
      → (consume_state (codes "meta") state visit.now states).0 ≡ true
      → grant_of repr_of float_is truncate decrypt encrypt visit ≡ gave grant
      → any (is_text (codes "pages_read_engagement")) grant.granted_permissions
          || any (is_text (codes "instagram_basic")) grant.granted_permissions
        ≡ true
      → graph_request repr_of float_is visit.linked ≡ gave (obj fields)
      → get (codes "instagram_business_account") fields ≡ obj ig_fields
      → truthy (get (codes "id") ig_fields) ≡ true
      → graph_request repr_of float_is visit.username ≡ raised e
      → ((handle_callback repr_of float_is truncate decrypt encrypt state visit states db).0
          ≡ raised e)
        × ((row : SocialAccount) × (get_account
                (codes "facebook" ++ (codes ":" ++ grant.page_id))
                (handle_callback repr_of float_is truncate decrypt encrypt state visit states
                  db).2.social_accounts
              ≡ some row)
            × (row.account_status ≡ connected))
  unfolding handle_callback
  handle_callback-blocked state visit states db grant fields ig_fields e ok g p l i t u =
      let (row, found, status, _) = handle_callback-saves state visit states db grant ok g in
      (
        by_state-raised visit db grant fields ig_fields e
            (consume_state (codes "meta") state visit.now states) ok g p l i t u,
        (row, found, status),
      )
