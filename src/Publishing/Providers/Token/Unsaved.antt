-- ===== src/Publishing/Providers/Token/Unsaved.antt =====
-- That the refresh of a token keeps an expired account to itself.
use ai_video_clip_processing.Base.{
  ℕ, leb, ◌+◌, ◌*◌, ◌≡◌, refl, Bool, Option, none, some, [], ◌∷◌, Text, arith, ℤ, Bool-cases,
  Option-cases, inl, inr,
}
use ai_video_clip_processing.Schemas.Json.{Json, null, bool, int, float, str, arr, obj, Fields}
use ai_video_clip_processing.Publishing.Rows.{SocialAccount, expired, Db}
use ai_video_clip_processing.Publishing.Providers.Graph.{
  GraphResponse, Called, gave, raised, broke, graph_request, fields_of,
}
use ai_video_clip_processing.Publishing.Providers.Token.{
  get_account, new_expiry, saved, store_token, by_token, by_payload, by_exchange, by_expiry,
  exchange, refresh_meta_account_if_needed,
}

-- an account that is given as EXPIRED is not written to the database
unfoldable Unsaved : Called SocialAccount × Db → Db → Type 0
Unsaved (called, db') db =
    (account : SocialAccount) → called ≡ gave account → account.account_status ≡ expired → db' ≡ db

module _ (repr_of : Json → Text) (float_is : Text → ℕ → Bool) (truncate : Text → ℤ)
    (decrypt : Text → Option Text) (encrypt : Text → Text) where
  saved-Unsaved :
      (now : ℕ) (token : Text) (db : Db) (expiry : Called (Option ℕ)) (row : SocialAccount)
      → Unsaved (saved repr_of float_is truncate decrypt encrypt now token db expiry row) db
  unfolding Unsaved
  saved-Unsaved now token db (gave expiry) row account e x = absurd (ground (arith, e, x))
  saved-Unsaved now token db (raised p) row account e x = refl
  saved-Unsaved now token db (broke t) row account e x = refl

  store_token-Unsaved :
      (now : ℕ) (token : Text) (expires_in : Json) (account : SocialAccount) (db : Db)
      → Unsaved
          (store_token repr_of float_is truncate decrypt encrypt now token expires_in account db)
          db
  unfolding store_token Unsaved
  store_token-Unsaved now token expires_in account db =
      elim (Option-cases (get_account account.id db.social_accounts)) [
        | inl n ↦ rw n (λ a e x. refl)
        | inr (row, k) ↦ rw k (
            saved-Unsaved now token db
              (new_expiry repr_of float_is truncate decrypt encrypt now expires_in
                row.token_expires_at)
              row)
      ]

  by_token-Unsaved :
      (now : ℕ) (token expires_in : Json) (account : SocialAccount) (db : Db)
      → Unsaved
          (by_token repr_of float_is truncate decrypt encrypt now token expires_in account db)
          db
  unfolding Unsaved
  by_token-Unsaved now (str (c ∷ s)) expires_in account db =
      store_token-Unsaved now (c ∷ s) expires_in account db
  by_token-Unsaved now (str []) expires_in account db = λ a e x. ground (arith, e, x)
  by_token-Unsaved now (null) expires_in account db = λ a e x. refl
  by_token-Unsaved now (bool b) expires_in account db = λ a e x. ground (arith, e, x)
  by_token-Unsaved now (int i) expires_in account db = λ a e x. ground (arith, e, x)
  by_token-Unsaved now (float t) expires_in account db = λ a e x. ground (arith, e, x)
  by_token-Unsaved now (arr t) expires_in account db = λ a e x. ground (arith, e, x)
  by_token-Unsaved now (obj t) expires_in account db = λ a e x. ground (arith, e, x)

  by_payload-Unsaved :
      (now : ℕ) (payload : Called Fields) (account : SocialAccount) (db : Db)
      → Unsaved (by_payload repr_of float_is truncate decrypt encrypt now payload account db) db
  unfolding Unsaved
  by_payload-Unsaved now (gave payload) account db = by_token-Unsaved now _ _ account db
  by_payload-Unsaved now (raised p) account db = λ a e x. refl
  by_payload-Unsaved now (broke t) account db = λ a e x. refl

  by_exchange-Unsaved :
      (now : ℕ) (answer : Called Json) (account : SocialAccount) (db : Db)
      → Unsaved (by_exchange repr_of float_is truncate decrypt encrypt now answer account db) db
  unfolding Unsaved
  by_exchange-Unsaved now (gave payload) account db =
      by_payload-Unsaved now (fields_of repr_of float_is payload) account db
  by_exchange-Unsaved now (raised p) account db = λ a e x. refl
  by_exchange-Unsaved now (broke t) account db = λ a e x. refl

  exchange-Unsaved :
      (now expires_at : ℕ) (token : Option Text) (response : GraphResponse)
      (account : SocialAccount) (db : Db)
      → Unsaved
          (exchange repr_of float_is truncate decrypt encrypt now expires_at token response account
            db)
          db
  unfolding Unsaved
  exchange-Unsaved now expires_at none response account db = λ a e x. refl
  exchange-Unsaved now expires_at (some token) response account db =
      elim (Bool-cases (leb expires_at now)) [
        | inl h ↦ rw h (λ a e x. refl)
        | inr h ↦
            rw h (by_exchange-Unsaved now (graph_request repr_of float_is response) account db)
      ]

  by_expiry-Unsaved :
      (now : ℕ) (expires_at : Option ℕ) (response : GraphResponse) (account : SocialAccount)
      (db : Db)
      → Unsaved
          (by_expiry repr_of float_is truncate decrypt encrypt now expires_at response account db)
          db
  unfolding Unsaved
  by_expiry-Unsaved now none response account db = λ a e x. refl
  by_expiry-Unsaved now (some expires_at) response account db =
      elim (Bool-cases (leb expires_at (now + 7 * 86400))) [
        | inl h ↦ rw h (
            exchange-Unsaved now expires_at (decrypt account.access_token_encrypted) response
              account db)
        | inr h ↦ rw h (λ a e x. refl)
      ]

  -- Where the refresh of a token gives an account that is EXPIRED, the database is as it was: the
  -- account that the next reader finds there still has its old status.
  pub refresh_meta_account_if_needed-unsaved :
      (now : ℕ) (response : GraphResponse) (account account' : SocialAccount) (db : Db)
      → (refresh_meta_account_if_needed repr_of float_is truncate decrypt encrypt now response
          account db).0
        ≡ gave account'
      → account'.account_status ≡ expired
      → (refresh_meta_account_if_needed repr_of float_is truncate decrypt encrypt now response
          account db).1
        ≡ db
  unfolding refresh_meta_account_if_needed Unsaved
  refresh_meta_account_if_needed-unsaved now response account account' db =
      by_expiry-Unsaved now account.token_expires_at response account db account'
