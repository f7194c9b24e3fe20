-- ===== src/Publishing/Oauth.antt =====
-- The state tokens of backend/app/publishing/oauth: the table `oauth_states` of backend/app/db/models.py,
-- `build_authorization_url` as far as it stores one, and `_consume_state` of meta_oauth.py and
-- youtube_oauth.py, which differ only in the platform. `state` is what `secrets.token_urlsafe` gives.
pub mod States
pub mod Upsert
pub mod Grant
pub mod Meta
pub mod Youtube
use ai_video_clip_processing.Base.{
  ℕ, ◌-◌, ◌*◌, ltb, Bool, true, false, not, Option, none, some, List, [], ◌∷◌, ◌++◌, if◌then◌else◌,
  Text, text_eq, codes,
}

pub record OauthState : Type 0 where
  pub state : Text
  pub platform : Text
  pub created_at : ℕ

-- `_OAUTH_STATE_TTL_MINUTES`
abbrev pub oauth_state_ttl_minutes : ℕ
oauth_state_ttl_minutes = 15

-- `session.get(OAuthState, state)`
unfoldable pub get_state : Text → List OauthState → Option OauthState
get_state state [] = none
get_state state (r ∷ rest) = if text_eq r.state state then some r else get_state state rest

-- `delete(OAuthState).where(OAuthState.state == state)`
unfoldable pub delete_state : Text → List OauthState → List OauthState
delete_state state [] = []
delete_state state (r ∷ rest) =
    let kept = delete_state state rest in if text_eq r.state state then kept else r ∷ kept

-- `build_authorization_url`: the commit of the new row, which the primary key may refuse
unfoldable pub build_authorization_url :
    Text → Text → ℕ → List OauthState → Option (List OauthState)
unfolding get_state
build_authorization_url platform state now rows = by_row (get_state state rows)
  where
    by_row : Option OauthState → Option (List OauthState)
    by_row none =
        some (rows ++ (record { state = state; platform = platform; created_at = now } ∷ []))
    by_row (some _) = none

-- older than the time that a callback may take
unfoldable pub is_expired : ℕ → OauthState → Bool
is_expired now r = ltb (oauth_state_ttl_minutes * 60) (now - r.created_at)

-- `_consume_state`: whether the callback is accepted, and the rows that are left
unfoldable pub consume_state : Text → Text → ℕ → List OauthState → Bool × List OauthState
unfolding get_state delete_state is_expired
consume_state platform state now rows = by_record (get_state state rows)
  where
    by_record : Option OauthState → Bool × List OauthState
    by_record none = (false, rows)
    by_record (some r) =
        if not (text_eq r.platform platform)
        then (false, rows)
        else if is_expired now r
        then (false, delete_state state rows)
        else (true, delete_state state rows)

-- the text of the `ValueError` on a callback that is refused
abbrev pub invalid_state : Text
invalid_state =
    codes "Invalid or expired OAuth state (possible CSRF attempt or a stale/replayed callback "
    ++ codes "link)."
