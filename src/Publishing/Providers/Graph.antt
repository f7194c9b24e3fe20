-- ===== src/Publishing/Providers/Graph.antt =====
-- backend/app/publishing/meta_base.py: requests to the Graph API, the class of an error, and the token
-- of an account. `repr_of` is Python's text of a value that is neither a text, an integer, a Boolean
-- nor `None`, and `float_is` compares a number with a fraction or an exponent with a whole number.
use ai_video_clip_processing.Base.{
  ℕ, leb, ◌==◌, Bool, true, false, Option, none, some, List, [], ◌∷◌, ◌++◌, if◌then◌else◌, Text,
  codes, any, pos, take,
}
use ai_video_clip_processing.Schemas.Json.{
  Json, null, bool, int, float, str, arr, obj, Fields, end, get_field,
}
use ai_video_clip_processing.Publishing.Rows.{
  ErrorClass, transient, auth, quota, unsupported, permanent, PublishError,
}
use ai_video_clip_processing.Analysis.Foreign.{str_of}

-- `_AUTH_CODES` and `_QUOTA_CODES`
abbrev pub auth_codes : List ℕ
auth_codes = 190 ∷ []

abbrev pub quota_codes : List ℕ
quota_codes = 4 ∷ 17 ∷ 32 ∷ 613 ∷ []

-- What a request meets: a timeout or an error of the client, with its text, or a response, whose body
-- may be no JSON.
pub data GraphResponse : Type 0 where
  timed_out network_error : Text → GraphResponse
  answered : (status_code : ℕ) → Option Json → (text : Text) → GraphResponse

-- A call that returns, raises a `PublishError`, or another exception by its text.
pub data Called {ℓ} (A : Type ℓ) : Type ℓ where
  gave : A → Called A
  raised : PublishError → Called A
  broke : Text → Called A

infixl 5 ◌>>=◌
abbrev pub ◌>>=◌ {ℓ κ} : {A : Type ℓ} {B : Type κ} → Called A → (A → Called B) → Called B
gave a >>= f = f a
raised e >>= f = raised e
broke t >>= f = broke t

abbrev pub publish_error : Text → ErrorClass → Option ℕ → PublishError
publish_error message error_class http_status = record {
  message = message;
  error_class = error_class;
  http_status = http_status;
}

module _ (repr_of : Json → Text) (float_is : Text → ℕ → Bool) where
  -- `code in codes`, for a value that has a hash
  unfoldable pub code_in : List ℕ → Json → Bool
  code_in ns (int (pos n)) = any (λ k. k == n) ns
  code_in ns (bool true) = any (λ k. k == 1) ns
  code_in ns (float s) = any (λ k. float_is s k) ns
  code_in ns (null) = false
  code_in ns _ = false

  -- the class by the code and the HTTP status; a code without a hash is a `TypeError`
  unfoldable pub class_of : Json → ℕ → Called ErrorClass
  unfolding code_in
  class_of (arr _) http_status = broke (codes "unhashable type: 'list'")
  class_of (obj _) http_status = broke (codes "unhashable type: 'dict'")
  class_of code http_status = gave (
      if code_in auth_codes code
      then auth
      else if code_in quota_codes code
      then quota
      else if leb 500 http_status
      then transient
      else if http_status == 403
      then unsupported
      else permanent)

  -- `data.get(key, default)`
  abbrev pub get_or : Text → Json → Fields → Json
  get_or key default fields = with_default (get_field key fields)
    where
      with_default : Option Json → Json
      with_default none = default
      with_default (some value) = value

  -- `type(value).__name__`
  abbrev type_name : Json → Text
  type_name (null) = codes "NoneType"
  type_name (bool _) = codes "bool"
  type_name (int _) = codes "int"
  type_name (float _) = codes "float"
  type_name (str _) = codes "str"
  type_name (arr _) = codes "list"
  type_name (obj _) = codes "dict"

  -- `.get` of a value that is no object is an `AttributeError`
  abbrev pub fields_of : Json → Called Fields
  fields_of (obj fields) = gave fields
  fields_of (null) =
      broke (codes "'" ++ (type_name null ++ codes "' object has no attribute 'get'"))
  fields_of value =
      broke (codes "'" ++ (type_name value ++ codes "' object has no attribute 'get'"))

  -- `classify_graph_error`
  unfoldable pub classify_graph_error : Json → ℕ → Called ErrorClass
  unfolding class_of get_field
  classify_graph_error (obj payload) http_status = do
    error ← fields_of (get_or (codes "error") (obj end) payload)
    class_of (get_or (codes "code") null error) http_status
  classify_graph_error (null) http_status = class_of null http_status
  classify_graph_error _ http_status = class_of null http_status

  -- `response.json()`, or `{}`
  abbrev pub body_of : Option Json → Json
  body_of none = obj end
  body_of (some payload) = payload

  -- the error of a response with a status from 400 on, under the head of its message
  unfoldable pub refusal : Text → Json → ℕ → Text → Called Json
  unfolding classify_graph_error str_of get_field
  refusal head payload status_code text = do
    fields ← fields_of payload
    error ← fields_of (get_or (codes "error") (obj end) fields)
    let message = get_or (codes "message") (str (take 500 text)) error
    error_class ← classify_graph_error payload status_code
    raised (publish_error (head ++ str_of repr_of message) error_class (some status_code))

  -- `graph_request`, by the response that the request meets
  unfoldable pub graph_request : GraphResponse → Called Json
  unfolding refusal
  graph_request (timed_out text) =
      raised (publish_error (codes "Meta Graph API timed out: " ++ text) transient none)
  graph_request (network_error text) =
      raised (publish_error (codes "Meta Graph API network error: " ++ text) transient none)
  graph_request (answered status_code payload text) =
      let refused = refusal (codes "Meta Graph API error: ") (body_of payload) status_code text in
      if leb 400 status_code then refused else gave (body_of payload)
