-- ===== src/Publishing/Providers/Token.antt =====
-- `refresh_meta_account_if_needed` of backend/app/publishing/meta_base.py. `decrypt` and `encrypt` stand
-- for those of token_crypto.py, and `truncate` for `int` of a number with a fraction.
pub mod Accounts
pub mod Unsaved
use ai_video_clip_processing.Base.{
  ℕ, suc, ◌+◌, ◌-◌, ◌*◌, leb, ltb, Bool, true, false, Option, none, some, List, [], ◌∷◌,
  if◌then◌else◌, Text, text_eq, codes, any, ℤ, pos, negsuc, default_to,
}
use ai_video_clip_processing.Schemas.Json.{
  Json, null, bool, int, float, str, arr, obj, Fields, get_field,
}
use ai_video_clip_processing.Analysis.Foreign.{truthy, get}
use ai_video_clip_processing.Clip.Progress.{read_int}
use ai_video_clip_processing.Publishing.Rows.{SocialAccount, connected, expired, Db}
use ai_video_clip_processing.Publishing.Providers.Graph.{
  GraphResponse, Called, gave, raised, broke, ◌>>=◌, fields_of, graph_request,
}

-- an account whose token can no longer be used
abbrev pub mark_expired : SocialAccount → SocialAccount
mark_expired account = record account { account_status = expired }

-- `session.get(SocialAccount, id)`, and the same row changed
unfoldable pub get_account : Text → List SocialAccount → Option SocialAccount
get_account id [] = none
get_account id (a ∷ rest) = if text_eq a.id id then some a else get_account id rest

unfoldable pub put_account : SocialAccount → List SocialAccount → List SocialAccount
put_account account [] = []
put_account account (a ∷ rest) =
    if text_eq a.id account.id then account ∷ rest else a ∷ put_account account rest

module _ (repr_of : Json → Text) (float_is : Text → ℕ → Bool) (truncate : Text → ℤ)
    (decrypt : Text → Option Text) (encrypt : Text → Text) where
  -- `int(value)`; `none` is an exception
  unfoldable pub int_of : Json → Option ℤ
  unfolding read_int
  int_of (int i) = some i
  int_of (bool b) = some (pos (if b then 1 else 0))
  int_of (float s) = some (truncate s)
  int_of (str s) = read_int s
  int_of (null) = none
  int_of _ = none

  -- `now + timedelta(seconds=n)`
  abbrev later_by : ℕ → ℤ → ℕ
  later_by now (pos n) = now + n
  later_by now (negsuc n) = now - suc n

  -- the new date, where there is one
  abbrev pub new_expiry : ℕ → Json → Option ℕ → Called (Option ℕ)
  new_expiry now expires_in old =
      let set = dated (int_of expires_in) in if truthy expires_in then set else gave old
    where
      dated : Option ℤ → Called (Option ℕ)
      dated none = broke (codes "int")
      dated (some n) = gave (some (later_by now n))

  -- the row with the new token
  abbrev pub saved : ℕ → Text → Db → Called (Option ℕ) → SocialAccount → Called SocialAccount × Db
  saved now token db (gave expiry) row =
      let row' : SocialAccount = record row {
        access_token_encrypted = encrypt token;
        token_expires_at = expiry;
        account_status = connected;
        updated_at = now;
      } in
      (gave row', record db { social_accounts = put_account row' db.social_accounts })
  saved now token db (raised e) row = (raised e, db)
  saved now token db (broke t) row = (broke t, db)

  -- the session that stores the new token
  unfoldable pub store_token : ℕ → Text → Json → SocialAccount → Db → Called SocialAccount × Db
  unfolding get_account put_account int_of truthy
  store_token now token expires_in account db = by_row (get_account account.id db.social_accounts)
    where
      by_row : Option SocialAccount → Called SocialAccount × Db
      by_row none = (gave account, db)
      by_row (some row) = saved now token db (new_expiry now expires_in row.token_expires_at) row

  -- by the new token of the payload; one that is no text raises in `encrypt`
  abbrev pub by_token : ℕ → Json → Json → SocialAccount → Db → Called SocialAccount × Db
  by_token now (str (c ∷ s)) expires_in account db = store_token now (c ∷ s) expires_in account db
  by_token now (null) expires_in account db = (gave (mark_expired account), db)
  by_token now token expires_in account db =
      if truthy token then (broke (codes "encode"), db) else (gave (mark_expired account), db)

  abbrev pub by_payload : ℕ → Called Fields → SocialAccount → Db → Called SocialAccount × Db
  by_payload now (gave payload) account db =
      by_token now (get (codes "access_token") payload) (get (codes "expires_in") payload) account
        db
  by_payload now (raised _) account db = (gave (mark_expired account), db)
  by_payload now (broke t) account db = (broke t, db)

  -- by the answer to the request for a new token; a `PublishError` is caught
  abbrev pub by_exchange : ℕ → Called Json → SocialAccount → Db → Called SocialAccount × Db
  by_exchange now (gave payload) account db =
      by_payload now (fields_of repr_of float_is payload) account db
  by_exchange now (raised _) account db = (gave (mark_expired account), db)
  by_exchange now (broke t) account db = (broke t, db)

  abbrev pub exchange :
      ℕ → ℕ → Option Text → GraphResponse → SocialAccount → Db → Called SocialAccount × Db
  exchange now expires_at none response account db = (gave (mark_expired account), db)
  exchange now expires_at (some _) response account db =
      let exchanged = by_exchange now (graph_request repr_of float_is response) account db in
      if leb expires_at now then (gave (mark_expired account), db) else exchanged

  -- within seven days of the end of the token, or after it
  abbrev due_for_refresh : ℕ → ℕ → Bool
  due_for_refresh now expires_at = leb expires_at (now + 7 * 86400)

  abbrev pub by_expiry :
      ℕ → Option ℕ → GraphResponse → SocialAccount → Db → Called SocialAccount × Db
  by_expiry now none response account db = (gave account, db)
  by_expiry now (some expires_at) response account db =
      let exchanged =
        exchange now expires_at (decrypt account.access_token_encrypted) response account db in
      if due_for_refresh now expires_at then exchanged else (gave account, db)

  -- `refresh_meta_account_if_needed`, with what its request would meet
  unfoldable pub refresh_meta_account_if_needed :
      ℕ → GraphResponse → SocialAccount → Db → Called SocialAccount × Db
  unfolding store_token graph_request truthy get_field
  refresh_meta_account_if_needed now response account db =
      by_expiry now account.token_expires_at response account db
