-- ===== src/Publishing/Providers/Instagram/Finished.antt =====
-- When a post on Instagram is published: only after its container has finished.
use ai_video_clip_processing.Base.{
  ℕ, zero, suc, ◌+◌, ◌<◌, ◌≡◌, refl, subst, Bool, true, Text, codes, arith, Bool-cases, inl, inr,
  ◌⊎◌,
}
use ai_video_clip_processing.Schemas.Json.{Json}
use ai_video_clip_processing.Analysis.Foreign.{is_text, str_of}
use ai_video_clip_processing.Publishing.Providers.Graph.{
  GraphResponse, Called, gave, raised, broke, ◌>>=◌,
}
use ai_video_clip_processing.Publishing.Providers.Instagram.{
  Instagram, max_poll_attempts, status_code_of, poll_status, create_container, publish_container,
  post_media,
}
use ai_video_clip_processing.Publishing.Rows.{PublishError}

Called-cases :
    {A : Type 0} (c : Called A)
    → ((a : A) × (c ≡ gave a))
      ⊎ (((e : PublishError) × (c ≡ raised e)) ⊎ ((t : Text) × (c ≡ broke t)))
Called-cases (gave a) = inl (a, refl)
Called-cases (raised e) = inr (inl (e, refl))
Called-cases (broke t) = inr (inr (t, refl))

bind-gave :
    {A B : Type 0} (c : Called A) (f : A → Called B) (b : B)
    → (c >>= f) ≡ gave b
    → (a : A) × (c ≡ gave a) × (f a ≡ gave b)
bind-gave (gave a) f b e = (a, refl, e)
bind-gave (raised x) f b e = absurd (cc)
bind-gave (broke t) f b e = absurd (cc)

module _ (repr_of : Json → Text) (float_is : Text → ℕ → Bool) where
  -- the poll shows that status code
  abbrev pub Shows : GraphResponse → Text → Type 0
  Shows response code =
      (shown : Json) × (status_code_of repr_of float_is response ≡ gave shown)
      × (is_text code shown ≡ true)

  poll_status-finished :
      (status : ℕ → GraphResponse) (rounds n : ℕ)
      → poll_status repr_of float_is status rounds n ≡ gave tt
      → (k : ℕ) × (k < rounds) × Shows (status (n + k)) (codes "FINISHED")
  unfolding poll_status
  poll_status-finished status zero n e = absurd (cc)
  poll_status-finished status (suc rounds) n e =
      elim (Called-cases (status_code_of repr_of float_is (status n))) [
        | inl (shown, s) ↦ elim (Bool-cases (is_text (codes "FINISHED") shown)) [
          | inl f ↦ (
            0,
            omega arith,
            subst (λ m. Shows (status m) (codes "FINISHED")) (omega arith) (shown, s, f),
          )
          | inr f ↦ elim (Bool-cases (is_text (codes "ERROR") shown)) [
            | inl b ↦ absurd (ground (arith, e, s, f, b))
            | inr b ↦
                let (k, h, shows) =
                  poll_status-finished status rounds (suc n) (ground (arith, e, s, f, b)) in
                (
                  suc k,
                  omega (arith, h),
                  subst (λ m. Shows (status m) (codes "FINISHED")) (omega arith) shows,
                )
          ]
        ]
        | inr (inl (x, s)) ↦ absurd (ground (arith, e, s))
        | inr (inr (t, s)) ↦ absurd (ground (arith, e, s))
      ]

  from_zero :
      (status : ℕ → GraphResponse) (k : ℕ)
      → Shows (status (0 + k)) (codes "FINISHED")
      → Shows (status k) (codes "FINISHED")
  from_zero status k = subst (λ m. Shows (status m) (codes "FINISHED")) (omega arith)

  -- If a post returns an identifier, then its container was created, one of the forty polls showed it
  -- FINISHED, and it is the text of the identifier that its publication gave.
  pub post_media-finished :
      (world : Instagram) (media_id : Text)
      → post_media repr_of float_is world ≡ gave media_id
      → (creation_id : Json) × (create_container repr_of float_is world ≡ gave creation_id)
        × ((k : ℕ) × (k < max_poll_attempts) × Shows (world.status k) (codes "FINISHED"))
        × (id : Json) × (publish_container repr_of float_is world ≡ gave id)
        × (media_id ≡ str_of repr_of id)
  unfolding post_media
  post_media-finished world media_id e =
      let last : Json → Called Text = λ id. gave (str_of repr_of id) in
      let then_publish : Unit {0} → Called Text =
        λ _. publish_container repr_of float_is world >>= last in
      let then_poll : Json → Called Text =
        λ _. poll_status repr_of float_is world.status max_poll_attempts 0 >>= then_publish in
      let (creation_id, c, e1) =
        bind-gave (create_container repr_of float_is world) then_poll media_id e in
      let (done, p, e2) =
        bind-gave (poll_status repr_of float_is world.status max_poll_attempts 0) then_publish
          media_id e1 in
      let (id, i, e3) = bind-gave (publish_container repr_of float_is world) last media_id e2 in
      let (k, h, shows) = poll_status-finished world.status max_poll_attempts 0 p in
      (creation_id, c, (k, h, from_zero world.status k shows), id, i, cc)
