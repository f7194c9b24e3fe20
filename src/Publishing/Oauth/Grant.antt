-- ===== src/Publishing/Oauth/Grant.antt =====
-- `handle_callback` of backend/app/publishing/oauth/meta_oauth.py up to the row of the Facebook Page.
-- An identifier or a name that the Graph API gives as no text is kept as Python's text of it.
use ai_video_clip_processing.Base.{
  ℕ, Bool, true, false, Option, none, some, List, [], ◌∷◌, ◌++◌, if◌then◌else◌, Text, codes, ℤ,
}
use ai_video_clip_processing.Schemas.Json.{
  Json, null, str, arr, obj, Items, nil, cons, Fields, end, field, get_field,
}
use ai_video_clip_processing.Analysis.Foreign.{truthy, get, is_text, str_of}
use ai_video_clip_processing.Publishing.Providers.Graph.{
  GraphResponse, Called, gave, broke, ◌>>=◌, get_or, fields_of, graph_request,
}
use ai_video_clip_processing.Publishing.Providers.Token.{new_expiry}

-- what a callback meets: the clock, and the answers to its requests, in their order
pub record MetaVisit : Type 0 where
  pub now : ℕ
  pub code_exchange : GraphResponse
  pub long_lived : GraphResponse
  pub pages : GraphResponse
  pub permissions : GraphResponse
  pub linked : GraphResponse
  pub username : GraphResponse

-- what is known when the row of the Facebook Page is saved
pub record PageGrant : Type 0 where
  pub page_id : Text
  pub page_name : Text
  pub page_token : Text
  pub expires_at : Option ℕ
  pub granted_permissions : List Json

-- `page["id"]` and the like, where a missing key is a `KeyError`
abbrev pub present : Option Json → Called Json
present none = broke (codes "KeyError")
present (some value) = gave value

-- `pages[0]`, for a value that is true
abbrev pub first_of : Json → Called Json
first_of (arr (cons value _)) = gave value
first_of (str (c ∷ _)) = gave (str (c ∷ []))
first_of (null) = broke (codes "TypeError")
first_of _ = broke (codes "TypeError")

-- what `encrypt_token` takes
abbrev token_text : Json → Called Text
token_text (str s) = gave s
token_text (null) = broke (codes "AttributeError")
token_text _ = broke (codes "AttributeError")

-- a member of a set must have a hash
abbrev hashable : Json → Called Json
hashable (arr _) = broke (codes "TypeError")
hashable (obj _) = broke (codes "TypeError")
hashable (null) = gave null
hashable value = gave value

-- `for p in data`; an object and a text that are not empty give texts, which have no `get`
abbrev items_of : Json → Called Items
items_of (arr items) = gave items
items_of (obj end) = gave nil
items_of (str []) = gave nil
items_of (obj (field _ _ _)) = broke (codes "AttributeError")
items_of (str (_ ∷ _)) = broke (codes "AttributeError")
items_of (null) = broke (codes "TypeError")
items_of _ = broke (codes "TypeError")

module _ (repr_of : Json → Text) (float_is : Text → ℕ → Bool) (truncate : Text → ℤ)
    (decrypt : Text → Option Text) (encrypt : Text → Text) where
  -- the fields of the answer to a request
  abbrev pub answer : GraphResponse → Called Fields
  answer response = graph_request repr_of float_is response >>= fields_of repr_of float_is

  -- the names of the permissions with the status "granted"
  abbrev granted : Items → Called (List Json)
  granted nil = gave []
  granted (cons p items) =
      let rest = granted items in
      do
        fields ← fields_of repr_of float_is p
        with_names (is_text (codes "granted") (get (codes "status") fields)) fields rest
    where
      with_names : Bool → Fields → Called (List Json) → Called (List Json)
      with_names false fields rest = rest
      with_names true fields rest = do
        permission ← present (get_field (codes "permission") fields)
        name ← hashable permission
        names ← rest
        gave (name ∷ names)

  -- the token for the code of the callback
  abbrev short_lived_token : MetaVisit → Called Json
  short_lived_token visit = do
    token_response ← answer visit.code_exchange
    let token = get (codes "access_token") token_response in
        if truthy token
        then gave token
        else broke (codes "Meta did not return an access token for this authorization code.")

  -- the first of the Pages
  abbrev first_page : Fields → Called Json
  first_page pages_response =
      let pages = get_or repr_of float_is (codes "data") (arr nil) pages_response in
      if truthy pages
      then first_of pages
      else broke (
          codes "This Facebook account has no Pages you manage -- a Page is required for "
          ++ codes "publishing.")

  -- everything before the first write to the accounts
  unfoldable pub grant_of : MetaVisit → Called PageGrant
  unfolding graph_request truthy get_field str_of
  grant_of visit = do
    short ← short_lived_token visit
    long_lived ← answer visit.long_lived
    let user_token = get_or repr_of float_is (codes "access_token") short long_lived
    let expires_in = get (codes "expires_in") long_lived
    expires_at ← new_expiry repr_of float_is truncate decrypt encrypt visit.now expires_in none
    pages_response ← answer visit.pages
    page ← first_page pages_response
    fields ← fields_of repr_of float_is page
    page_id ← present (get_field (codes "id") fields)
    let page_name = get_or repr_of float_is (codes "name") (str []) fields
    permissions_response ← answer visit.permissions
    items ← items_of (get_or repr_of float_is (codes "data") (arr nil) permissions_response)
    names ← granted items
    page_token ← token_text (get_or repr_of float_is (codes "access_token") user_token fields)
    gave (record {
      page_id = str_of repr_of page_id;
      page_name = str_of repr_of page_name;
      page_token = page_token;
      expires_at = expires_at;
      granted_permissions = names;
    })
