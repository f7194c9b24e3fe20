-- ===== src/Publishing/Providers/Token/Accounts.antt =====
-- The table of the accounts: what a row that is added or written leaves to be found.
use ai_video_clip_processing.Base.{
  ◌≡◌, refl, false, none, some, List, [], ◌∷◌, ◌++◌, arith, Text, text_eq, text_eq_iff,
  text_eq_self,
}
use ai_video_clip_processing.Publishing.Rows.{SocialAccount}
use ai_video_clip_processing.Publishing.Providers.Token.{get_account, put_account}

pub get_account-id :
    (id : Text) (accounts : List SocialAccount) (row : SocialAccount)
    → get_account id accounts ≡ some row
    → row.id ≡ id
unfolding get_account
get_account-id id [] row h = absurd (cc)
get_account-id id (a ∷ rest) row h = ground (arith, text_eq_iff a.id id, get_account-id id rest row)

pub get_account-put :
    (id : Text) (new row : SocialAccount) (accounts : List SocialAccount)
    → new.id ≡ id
    → get_account id accounts ≡ some row
    → get_account id (put_account new accounts) ≡ some new
unfolding get_account put_account
get_account-put id new row [] e h = absurd (cc)
get_account-put id new row (a ∷ rest) e h = ground (
  arith,
  e,
  text_eq_self id,
  text_eq_iff a.id new.id,
  text_eq_iff a.id id,
  text_eq_iff new.id id,
  get_account-put id new row rest e,
)

pub get_account-put_other :
    (new : SocialAccount) (id : Text) (accounts : List SocialAccount)
    → text_eq new.id id ≡ false
    → get_account id (put_account new accounts) ≡ get_account id accounts
unfolding get_account put_account
get_account-put_other new id [] h = refl
get_account-put_other new id (a ∷ rest) h = ground (
  arith,
  text_eq_iff a.id id,
  text_eq_iff a.id new.id,
  text_eq_iff new.id id,
  get_account-put_other new id rest,
)

pub get_account-append :
    (id : Text) (new : SocialAccount) (accounts : List SocialAccount)
    → new.id ≡ id
    → get_account id accounts ≡ none
    → get_account id (accounts ++ (new ∷ [])) ≡ some new
unfolding get_account
get_account-append id new [] e h = ground (arith, e, text_eq_iff new.id id)
get_account-append id new (a ∷ rest) e h = ground (arith, get_account-append id new rest e)

pub get_account-append_other :
    (new : SocialAccount) (id : Text) (accounts : List SocialAccount)
    → text_eq new.id id ≡ false
    → get_account id (accounts ++ (new ∷ [])) ≡ get_account id accounts
unfolding get_account
get_account-append_other new id [] h = ground (arith, h)
get_account-append_other new id (a ∷ rest) h = ground (arith, get_account-append_other new id rest)
