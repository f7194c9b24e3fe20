-- ===== src/Publishing/Oauth/Upsert.antt =====
-- `session.get(SocialAccount, id) or SocialAccount(...)` in the callbacks of backend/app/publishing/oauth:
-- the row of an account, found or made, changed, and added to the session.
use ai_video_clip_processing.Base.{
  ℕ, ◌≡◌, ◌∙◌, false, Option, none, some, List, [], ◌∷◌, ◌++◌, Text, text_eq, Option-cases, inl,
  inr,
}
use ai_video_clip_processing.Publishing.Rows.{SocialAccount, connected}
use ai_video_clip_processing.Publishing.Providers.Token.{get_account, put_account}
use ai_video_clip_processing.Publishing.Providers.Token.Accounts.{
  get_account-id, get_account-put, get_account-put_other, get_account-append,
  get_account-append_other,
}

-- `SocialAccount(id=..., platform=..., account_id=...)` with the defaults of its columns
unfoldable pub new_account : Text → Text → Text → ℕ → SocialAccount
new_account id platform account_id now = record {
  id = id;
  platform = platform;
  account_id = account_id;
  account_name = [];
  access_token_encrypted = [];
  refresh_token_encrypted = none;
  token_expires_at = none;
  account_status = connected;
  page_id = none;
  ig_business_account_id = none;
  updated_at = now;
}

-- the row that the session commits, and the table
unfoldable pub upsert_account :
    SocialAccount
    → (SocialAccount → SocialAccount)
    → List SocialAccount
    → SocialAccount × List SocialAccount
unfolding get_account put_account
upsert_account fresh set accounts = by_row (get_account fresh.id accounts)
  where
    by_row : Option SocialAccount → SocialAccount × List SocialAccount
    by_row none = (set fresh, accounts ++ (set fresh ∷ []))
    by_row (some row) = (set row, put_account (set row) accounts)

module _ (fresh : SocialAccount) (set : SocialAccount → SocialAccount)
    (keeps : (row : SocialAccount) → (set row).id ≡ row.id) (accounts : List SocialAccount) where
  -- the row that is committed is found under its identifier
  pub get_account-upsert :
      get_account fresh.id (upsert_account fresh set accounts).1
      ≡ some (upsert_account fresh set accounts).0
  unfolding upsert_account
  get_account-upsert = elim (Option-cases (get_account fresh.id accounts)) [
    | inl n ↦ rw n (get_account-append fresh.id (set fresh) accounts (keeps fresh) n)
    | inr (row, g) ↦ rw g (
        get_account-put fresh.id (set row) row accounts
          (keeps row ∙ get_account-id fresh.id accounts row g) g)
  ]

  -- and every other account stays as it was
  pub get_account-upsert_other :
      (id : Text)
      → text_eq fresh.id id ≡ false
      → get_account id (upsert_account fresh set accounts).1 ≡ get_account id accounts
  unfolding upsert_account
  get_account-upsert_other id h = elim (Option-cases (get_account fresh.id accounts)) [
    | inl n ↦ rw n (get_account-append_other (set fresh) id accounts (rw (keeps fresh) h))
    | inr (row, g) ↦ rw g (
        get_account-put_other (set row) id accounts
          (rw (keeps row, get_account-id fresh.id accounts row g) h))
  ]

-- whatever the row was, it has what was written to it
pub upsert_account-set :
    (P : SocialAccount → Type 0) (fresh : SocialAccount) (set : SocialAccount → SocialAccount)
    (accounts : List SocialAccount)
    → ((row : SocialAccount) → P (set row))
    → P (upsert_account fresh set accounts).0
unfolding upsert_account
upsert_account-set P fresh set accounts h = elim (Option-cases (get_account fresh.id accounts)) [
  | inl n ↦ rw n (h fresh)
  | inr (row, g) ↦ rw g (h row)
]
