-- ===== src/Publishing/Oauth/Meta.antt =====
-- `handle_callback` of backend/app/publishing/oauth/meta_oauth.py from the row of the Facebook Page on.
pub mod Saved
use ai_video_clip_processing.Base.{
  ℕ, ltb, leb, ◌==◌, Bool, true, false, not, ◌&&◌, ◌||◌, Option, none, some, List, [], ◌∷◌, ◌++◌,
  if◌then◌else◌, Text, text_eq, codes, text_le, join, any, ℤ, sorted, is_some,
}
use ai_video_clip_processing.Schemas.Json.{
  Json, null, bool, int, float, str, arr, obj, Items, nil, cons, Fields, end, field, get_field,
}
use ai_video_clip_processing.Analysis.Foreign.{truthy, get, is_text, str_of}
use ai_video_clip_processing.Publishing.Rows.{SocialAccount, connected, PublishError, Db}
use ai_video_clip_processing.Publishing.Providers.Graph.{
  GraphResponse, Called, gave, raised, broke, ◌>>=◌, get_or, fields_of, graph_request,
}
use ai_video_clip_processing.Publishing.Providers.Token.{new_expiry}
use ai_video_clip_processing.Publishing.Oauth.{OauthState, invalid_state, consume_state}
use ai_video_clip_processing.Publishing.Oauth.Upsert.{new_account, upsert_account}
use ai_video_clip_processing.Publishing.Oauth.Grant.{MetaVisit, PageGrant, grant_of, answer}

-- the texts of a set
unfoldable distinct : List Text → List Text
distinct [] = []
distinct (t ∷ rest) =
    let kept = distinct rest in if any (λ s. text_eq s t) rest then kept else t ∷ kept

-- `sorted(...)` and `", ".join(...)` of a set of permissions, which must be texts
abbrev texts_of : List Json → Called (List Text)
texts_of [] = gave []
texts_of (str s ∷ rest) = texts_of rest >>= (λ texts. gave (s ∷ texts))
texts_of (null ∷ rest) = broke (codes "TypeError")
texts_of (_ ∷ rest) = broke (codes "TypeError")

abbrev listed : List Text → Text
listed texts = or_none (join (codes ", ") (sorted text_le (distinct texts)))
  where
    or_none : Text → Text
    or_none [] = codes "none"
    or_none (c ∷ s) = c ∷ s

abbrev pub not_granted : Text → Text
not_granted names =
    codes "Instagram not linked: Meta did not grant 'pages_read_engagement' or "
    ++ (codes "'instagram_basic' this time (granted permissions: "
        ++ (names
            ++ (codes "). In the Facebook Login for Business configuration, confirm both "
                ++ (codes "permissions are checked and saved, then remove the app at "
                    ++ (codes "facebook.com -> Settings -> Apps and Websites and reconnect for "
                        ++ codes "a fully fresh consent.")))))

abbrev pub no_linked_account : Text
no_linked_account =
    codes "Instagram not linked: this Facebook Page has no linked Instagram professional "
    ++ (codes "(Business/Creator) account. Link one in Meta Business Suite -> your Page -> "
        ++ codes "Linked Accounts.")

module _ (repr_of : Json → Text) (float_is : Text → ℕ → Bool) (truncate : Text → ℤ)
    (decrypt : Text → Option Text) (encrypt : Text → Text) where
  -- what is written to the row of an account
  abbrev pub meta_row :
      Text → Text → Text → Option Text → MetaVisit → PageGrant → SocialAccount → SocialAccount
  meta_row platform account_id name ig_id visit grant row = record row {
    platform = platform;
    account_id = account_id;
    account_name = name;
    access_token_encrypted = encrypt grant.page_token;
    token_expires_at = grant.expires_at;
    account_status = connected;
    page_id = some grant.page_id;
    ig_business_account_id = ig_id;
    updated_at = visit.now;
  }

  -- the session that saves the row of an account
  abbrev pub save_row :
      Text → Text → Option Text → Text → MetaVisit → PageGrant → Db → SocialAccount × Db
  save_row platform account_id ig_id name visit grant db =
      let (row, accounts) =
        upsert_account
          (new_account (platform ++ (codes ":" ++ account_id)) platform account_id visit.now)
          (meta_row platform account_id name ig_id visit grant) db.social_accounts in
      (row, record db { social_accounts = accounts })

  abbrev pub save_facebook : MetaVisit → PageGrant → Db → SocialAccount × Db
  save_facebook visit grant db =
      save_row (codes "facebook") grant.page_id none grant.page_name visit grant db

  -- the Instagram account with that identifier, which the second request after Facebook names
  abbrev pub by_username :
      Text
      → MetaVisit
      → PageGrant
      → SocialAccount
      → Called Fields
      → Db
      → Called (List SocialAccount × List Text) × Db
  by_username ig_id visit grant facebook (raised e) db = (raised e, db)
  by_username ig_id visit grant facebook (broke t) db = (broke t, db)
  by_username ig_id visit grant facebook (gave fields) db =
      let name = str_of repr_of (get_or repr_of float_is (codes "username") (str []) fields) in
      let (row, db') = save_row (codes "instagram") ig_id (some ig_id) name visit grant db in
      (gave (facebook ∷ row ∷ [], []), db')

  -- the linked account, where the Page has one
  abbrev pub by_business :
      MetaVisit
      → PageGrant
      → SocialAccount
      → Called Fields
      → Db
      → Called (List SocialAccount × List Text) × Db
  by_business visit grant facebook (raised e) db = (raised e, db)
  by_business visit grant facebook (broke t) db = (broke t, db)
  by_business visit grant facebook (gave fields) db =
      let id = get (codes "id") fields in
      if truthy id
      then by_username (str_of repr_of id) visit grant facebook
          (answer repr_of float_is truncate decrypt encrypt visit.username) db
      else (gave (facebook ∷ [], no_linked_account ∷ []), db)

  abbrev pub by_info :
      MetaVisit
      → PageGrant
      → SocialAccount
      → Called Fields
      → Db
      → Called (List SocialAccount × List Text) × Db
  by_info visit grant facebook (raised e) db = (raised e, db)
  by_info visit grant facebook (broke t) db = (broke t, db)
  by_info visit grant facebook (gave fields) db =
      let ig_business = get (codes "instagram_business_account") fields in
      if truthy ig_business
      then by_business visit grant facebook (fields_of repr_of float_is ig_business) db
      else (gave (facebook ∷ [], no_linked_account ∷ []), db)

  -- by the answer that names it; a `PublishError` becomes a warning
  abbrev pub by_link :
      MetaVisit
      → PageGrant
      → SocialAccount
      → Called Json
      → Db
      → Called (List SocialAccount × List Text) × Db
  by_link visit grant facebook (raised e) db =
      (gave (facebook ∷ [], (codes "Instagram not linked: " ++ e.message) ∷ []), db)
  by_link visit grant facebook (broke t) db = (broke t, db)
  by_link visit grant facebook (gave ig_info) db =
      by_info visit grant facebook (fields_of repr_of float_is ig_info) db

  -- the accounts without Instagram, and why
  abbrev without_instagram :
      SocialAccount → Called (List Text) → Called (List SocialAccount × List Text)
  without_instagram facebook texts =
      texts >>= (λ names. gave (facebook ∷ [], not_granted (listed names) ∷ []))

  -- everything after Facebook
  unfoldable pub link_instagram :
      MetaVisit → PageGrant → SocialAccount → Db → Called (List SocialAccount × List Text) × Db
  unfolding graph_request truthy get_field str_of upsert_account new_account text_le distinct
  link_instagram visit grant facebook db =
      if any (is_text (codes "pages_read_engagement")) grant.granted_permissions
        || any (is_text (codes "instagram_basic")) grant.granted_permissions
      then by_link visit grant facebook (graph_request repr_of float_is visit.linked) db
      else (without_instagram facebook (texts_of grant.granted_permissions), db)

  abbrev pub by_grant :
      MetaVisit → Called PageGrant → Db → Called (List SocialAccount × List Text) × Db
  by_grant visit (raised e) db = (raised e, db)
  by_grant visit (broke t) db = (broke t, db)
  by_grant visit (gave grant) db =
      let (facebook, db') = save_facebook visit grant db in link_instagram visit grant facebook db'

  -- by the verdict on the state of the callback
  abbrev pub by_state :
      MetaVisit
      → Db
      → Bool × List OauthState
      → Called (List SocialAccount × List Text) × List OauthState × Db
  by_state visit db (false, states) = (broke invalid_state, states, db)
  by_state visit db (true, states) =
      let (called, db') =
        by_grant visit (grant_of repr_of float_is truncate decrypt encrypt visit) db in
      (called, states, db')

  -- `handle_callback`: the accounts and the warnings, the state tokens, and the database
  unfoldable pub handle_callback :
      Text
      → MetaVisit
      → List OauthState
      → Db
      → Called (List SocialAccount × List Text) × List OauthState × Db
  unfolding consume_state grant_of link_instagram
  handle_callback state visit states db =
      by_state visit db (consume_state (codes "meta") state visit.now states)
