-- ===== src/Routes/Queue/Latest.antt =====
-- Which account the report on a platform is about, and which the worker takes.
use ai_video_clip_processing.Base.{
  ◌≡◌, refl, ap, subst, Bool, true, ◌&&◌, Option, none, some, List, [], ◌∷◌, ◌++◌, arith, Text,
  text_eq, text_eq_iff, codes, In, In-of_select, In-of_sorted, sorted, select, dict_get, dict_set,
  get-set, default_to, List-cases, inl, inr,
}
use ai_video_clip_processing.Publishing.Rows.{SocialAccount, connected, Db}
use ai_video_clip_processing.Publishing.CostGuard.{
  Credentials, CapabilityReport, CapabilityStatus, not_available, is_unconnected,
  youtube_capability, full_capability_report,
}
use ai_video_clip_processing.Publishing.Worker.{
  first, later_update, is_connected, get_connected_account,
}
use ai_video_clip_processing.Routes.Queue.{latest_by_platform, get_capabilities}

latest-append :
    (latest : List (Text × Option SocialAccount)) (rows : List SocialAccount) (b : SocialAccount)
    → latest_by_platform latest (rows ++ (b ∷ []))
      ≡ dict_set b.platform (some b) (latest_by_platform latest rows)
unfolding latest_by_platform
latest-append latest [] b = refl
latest-append latest (a ∷ rows) b = latest-append (dict_set a.platform (some a) latest) rows b

-- the platform's account in the report is the last row
latest-last :
    (rows : List SocialAccount) (b : SocialAccount) (platform : Text)
    → b.platform ≡ platform
    → default_to none (dict_get platform (latest_by_platform [] (rows ++ (b ∷ [])))) ≡ some b
latest-last rows b platform p = ground (
  arith,
  p,
  latest-append [] rows b,
  get-set platform b.platform (some b) (latest_by_platform [] rows),
  text_eq_iff b.platform platform,
)

youtube_capability-unconnected :
    (settings : Credentials) (account : Option SocialAccount)
    → is_unconnected account ≡ true
    → (youtube_capability settings account).status ≡ not_available
unfolding youtube_capability
youtube_capability-unconnected settings account h = ground (arith, h)

-- an account that is connected is found
first-found :
    (test : SocialAccount → Bool) (a : SocialAccount) (rows : List SocialAccount)
    → In a rows
    → test a ≡ true
    → (account : SocialAccount) × (first (sorted later_update (select test rows)) ≡ some account)
first-found test a rows k t =
    let there = In-of_sorted later_update a (select test rows) (In-of_select test a rows k t) in
    elim (List-cases (sorted later_update (select test rows))) [
      | inl e ↦ absurd (subst (In a) e there)
      | inr (x, xs, e) ↦ (x, ap first e)
    ]

-- what the request for the report on YouTube is answered with
abbrev pub youtube_status : List CapabilityReport → Option CapabilityStatus
youtube_status [] = none
youtube_status (r ∷ _) = some r.status

-- If the last row of the accounts is one of YouTube that is not CONNECTED, then `get_capabilities` reports
-- YouTube as NOT_AVAILABLE, although the worker finds an account for it wherever any other one of
-- YouTube is CONNECTED.
pub get_capabilities-hides :
    (settings : Credentials) (db : Db) (rows : List SocialAccount) (a b : SocialAccount)
    → db.social_accounts ≡ rows ++ (b ∷ [])
    → b.platform ≡ codes "youtube"
    → is_unconnected (some b) ≡ true
    → In a db.social_accounts
    → a.platform ≡ codes "youtube"
    → a.account_status ≡ connected
    → (youtube_status (get_capabilities settings db) ≡ some not_available)
      × ((account : SocialAccount) × (get_connected_account (codes "youtube") db ≡ some account))
unfolding get_capabilities get_connected_account full_capability_report
get_capabilities-hides settings db rows a b e p u k q c = (
  ap some (
      rw (e, latest-last rows b (codes "youtube") p)
        (youtube_capability-unconnected settings (some b) u)),
  first-found (λ x. text_eq x.platform (codes "youtube") && is_connected x.account_status) a
      db.social_accounts k (ground (arith, q, c, text_eq_iff a.platform (codes "youtube"))),
)
