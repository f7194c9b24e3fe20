-- ===== src/Publishing/Oauth/States.antt =====
-- Which callbacks are accepted, over a whole run of connection attempts. Each request is one
-- transaction of the table; which identifiers are drawn is left open.
use ai_video_clip_processing.Base.{
  ℕ, ◌+◌, ◌*◌, ◌≤◌, ◌≡◌, refl, Bool, true, false, ◌&&◌, some, List, [], ◌∷◌, ◌++◌, arith,
  if◌then◌else◌, Text, text_eq, text_eq_iff, text_eq_self, In, All, All-at, All-append, count_if,
  Bool-cases, Option-cases, inl, inr,
}
use ai_video_clip_processing.Publishing.Oauth.{
  OauthState, oauth_state_ttl_minutes, get_state, delete_state, build_authorization_url, is_expired,
  consume_state,
}

-- What happened, the latest first: a redirect to a consent screen, and a callback with its verdict.
pub data Event : Type 0 where
  asked : (state platform : Text) → (instant : ℕ) → Event
  called_back : (state platform : Text) → (instant : ℕ) → (accepted : Bool) → Event

-- what the service does from an empty table, and the rows that it leaves
pub data Run : List Event → List OauthState → Type 0 where
  start : Run [] []
  ask :
      {es : List Event} {rows rows' : List OauthState} (state platform : Text) (now : ℕ)
      → Run es rows
      → build_authorization_url platform state now rows ≡ some rows'
      → Run (asked state platform now ∷ es) rows'
  call_back :
      {es : List Event} {rows : List OauthState} (state platform : Text) (now : ℕ)
      → Run es rows
      → Run
          (called_back state platform now (consume_state platform state now rows).0 ∷ es)
          (consume_state platform state now rows).1

-- a redirect for this state and platform, a callback with it that was accepted, and a row for it
abbrev pub is_asked : Text → Text → Event → Bool
is_asked state platform (asked s p _) = text_eq s state && text_eq p platform
is_asked state platform (called_back _ _ _ _) = false

abbrev pub is_accepted : Text → Text → Event → Bool
is_accepted state platform (asked _ _ _) = false
is_accepted state platform (called_back s p _ accepted) =
    accepted && (text_eq s state && text_eq p platform)

abbrev is_for : Text → Text → OauthState → Bool
is_for state platform r = text_eq r.state state && text_eq r.platform platform

-- every row stands for a redirect
abbrev Asked : List Event → OauthState → Type 0
Asked es r = In (asked r.state r.platform r.created_at) es

All-Asked :
    (e : Event) (es : List Event) (rows : List OauthState)
    → All (Asked es) rows
    → All (Asked (e ∷ es)) rows
All-Asked e es [] h = tt
All-Asked e es (r ∷ rows) h = (inr h.0, All-Asked e es rows h.1)

delete_state-All :
    (P : OauthState → Type 0) (state : Text) (rows : List OauthState)
    → All P rows
    → All P (delete_state state rows)
unfolding delete_state
delete_state-All P state [] h = tt
delete_state-All P state (r ∷ rows) h = elim (Bool-cases (text_eq r.state state)) [
  | inl e ↦ rw e (delete_state-All P state rows h.1)
  | inr e ↦ rw e (h.0, delete_state-All P state rows h.1)
]

get_state-In :
    (state : Text) (rows : List OauthState) (r : OauthState)
    → get_state state rows ≡ some r
    → In r rows × (text_eq r.state state ≡ true)
unfolding get_state
get_state-In state [] r e = absurd (cc)
get_state-In state (q ∷ rows) r e = ground (arith, get_state-In state rows r)

-- how many rows there are for a state and a platform
count_if-delete_state :
    (s p state : Text) (rows : List OauthState)
    → count_if (is_for s p) (delete_state state rows) ≤ count_if (is_for s p) rows
unfolding delete_state
count_if-delete_state s p state [] = omega arith
count_if-delete_state s p state (r ∷ rows) = ground (arith, count_if-delete_state s p state rows)

-- a row that is found is one more than what its deletion leaves
count_if-delete_found :
    (s p : Text) (rows : List OauthState) (r : OauthState)
    → get_state s rows ≡ some r
    → text_eq r.platform p ≡ true
    → count_if (is_for s p) (delete_state s rows) + 1 ≤ count_if (is_for s p) rows
unfolding get_state delete_state
count_if-delete_found s p [] r e h = absurd (cc)
count_if-delete_found s p (q ∷ rows) r e h =
    ground (arith, count_if-delete_state s p s rows, count_if-delete_found s p rows r)

-- what an accepted callback found
consume_state-found :
    (platform state : Text) (now : ℕ) (rows : List OauthState)
    → (consume_state platform state now rows).0 ≡ true
    → (r : OauthState) × (get_state state rows ≡ some r)
      × (text_eq r.platform platform ≡ true)
      × (is_expired now r ≡ false)
unfolding consume_state
consume_state-found platform state now rows e = elim (Option-cases (get_state state rows)) [
  | inl n ↦ absurd (ground (arith, e, n))
  | inr (r, g) ↦ (r, g, ground (arith, e, g), ground (arith, e, g))
]

consume_state-All :
    (P : OauthState → Type 0) (platform state : Text) (now : ℕ) (rows : List OauthState)
    → All P rows
    → All P (consume_state platform state now rows).1
unfolding consume_state
consume_state-All P platform state now rows h =
    let kept = delete_state-All P state rows h in
    elim (Option-cases (get_state state rows)) [
      | inl n ↦ rw n h
      | inr (r, g) ↦ rw g (elim (Bool-cases (text_eq r.platform platform)) [
        | inl p ↦
            rw p (elim (Bool-cases (is_expired now r)) [ inl x ↦ rw x kept | inr x ↦ rw x kept ])
        | inr p ↦ rw p h
      ])
    ]

-- an accepted callback uses up a row for its state and platform
consume_state-count :
    (s p platform state : Text) (now : ℕ) (rows : List OauthState)
    → (if (consume_state platform state now rows).0 && (text_eq state s && text_eq platform p)
          then 1
          else 0)
        + count_if (is_for s p) (consume_state platform state now rows).1
      ≤ count_if (is_for s p) rows
unfolding consume_state
consume_state-count s p platform state now rows = elim (Option-cases (get_state state rows)) [
  | inl n ↦ ground (arith, n)
  | inr (r, g) ↦ ground (
    arith,
    g,
    text_eq_iff state s,
    text_eq_iff platform p,
    count_if-delete_state s p state rows,
    count_if-delete_found s p rows r,
  )
]

-- the row that a redirect stores
build_authorization_url-rows :
    (platform state : Text) (now : ℕ) (rows rows' : List OauthState)
    → build_authorization_url platform state now rows ≡ some rows'
    → rows' ≡ rows ++ (record { state = state; platform = platform; created_at = now } ∷ [])
unfolding build_authorization_url
build_authorization_url-rows platform state now rows rows' e = ground (arith, e)

count_if-append_row :
    (s p : Text) (r : OauthState) (rows : List OauthState)
    → count_if (is_for s p) (rows ++ (r ∷ []))
      ≡ count_if (is_for s p) rows + (if is_for s p r then 1 else 0)
count_if-append_row s p r [] = ground arith
count_if-append_row s p r (q ∷ rows) = ground (arith, count_if-append_row s p r rows)

Run-Asked : {es : List Event} {rows : List OauthState} → Run es rows → All (Asked es) rows
Run-Asked start = tt
Run-Asked {es = e ∷ es} (ask {rows = rows} {rows' = rows'} state platform now run b) =
    rw (build_authorization_url-rows platform state now rows rows' b)
      (All-append (Asked (e ∷ es)) rows _ (All-Asked e es rows (Run-Asked run)) (inl refl, tt))
Run-Asked {es = e ∷ es} (call_back {rows = rows} state platform now run) =
    consume_state-All (Asked (e ∷ es)) platform state now rows (All-Asked e es rows (Run-Asked run))

Run-count :
    (s p : Text) {es : List Event} {rows : List OauthState}
    → Run es rows
    → count_if (is_accepted s p) es + count_if (is_for s p) rows ≤ count_if (is_asked s p) es
Run-count s p start = omega arith
Run-count s p (ask {rows = rows} {rows' = rows'} state platform now run b) =
    rw
      (
        build_authorization_url-rows platform state now rows rows' b,
        count_if-append_row s p (record { state = state; platform = platform; created_at = now })
            rows,
      )
      (ground (arith, Run-count s p run))
Run-count s p (call_back {rows = rows} state platform now run) =
    ground (arith, Run-count s p run, consume_state-count s p platform state now rows)

-- a row of that state and platform that is not too old stands for a redirect that is not too long ago
asked_recently :
    (platform state : Text) (now : ℕ) (es : List Event) (rows : List OauthState) (r : OauthState)
    → All (Asked es) rows
    → get_state state rows ≡ some r
    → text_eq r.platform platform ≡ true
    → is_expired now r ≡ false
    → (instant : ℕ) × In (asked state platform instant) es
      × (now ≤ instant + oauth_state_ttl_minutes * 60)
unfolding is_expired
asked_recently platform state now es rows r h g p x =
    let (found, same) = get_state-In state rows r g in
    (
      r.created_at,
      rw (← (text_eq_iff r.state state).0 same, ← (text_eq_iff r.platform platform).0 p)
          (All-at (Asked es) r rows h found),
      ground (arith, x),
    )

-- In every run from an empty table, if `_consume_state` accepts a callback, then a redirect with its
-- state and for its platform was made at most fifteen minutes before; and the callbacks with this
-- state and platform that were accepted before are fewer than those redirects, so that each redirect
-- serves for one callback at most.
pub Run-accepts :
    {es : List Event} {rows : List OauthState} (platform state : Text) (now : ℕ)
    → Run es rows
    → (consume_state platform state now rows).0 ≡ true
    → ((instant : ℕ) × In (asked state platform instant) es
        × (now ≤ instant + oauth_state_ttl_minutes * 60))
      × (count_if (is_accepted state platform) es + 1 ≤ count_if (is_asked state platform) es)
Run-accepts {es} {rows} platform state now run e =
    let (r, g, p, x) = consume_state-found platform state now rows e in
    (
      asked_recently platform state now es rows r (Run-Asked run) g p x,
      ground (
        arith,
        e,
        text_eq_self state,
        text_eq_self platform,
        Run-count state platform (call_back state platform now run),
      ),
    )
