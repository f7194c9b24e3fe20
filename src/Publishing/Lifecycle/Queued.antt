-- ===== src/Publishing/Lifecycle/Queued.antt =====
-- What queueing clips does to the items that are there, and what the new items are.
use ai_video_clip_processing.Base.{
  ℕ, ◌≡◌, ◌∙◌, refl, Bool, false, List, [], ◌∷◌, ◌++◌, Text, Bool-cases, inl, inr, All, All-append,
}
use ai_video_clip_processing.Publishing.Rows.{Db, key_taken}
use ai_video_clip_processing.Publishing.Machine.{enqueues, unmoved, IsBorn, append-Evolves}
use ai_video_clip_processing.Publishing.Lifecycle.Moved.{Later}
use ai_video_clip_processing.Publishing.Enqueue.{
  Session, Plan, add_item, new_item, add_platforms, add_plans, start_session, enqueue_plans,
}

-- the rows of a session that were committed before, and those that it adds
abbrev Adds : Session → Session → Type 0
Adds s s' = (s'.committed ≡ s.committed) × All (IsBorn (enqueues ∷ [])) s'.flushed

module _ (uuid : ℕ → Text) where
  add_item-Adds :
      (job_id platform : Text) (plan : Plan) (s : Session)
      → All (IsBorn (enqueues ∷ [])) s.flushed
      → Adds s (add_item (new_item uuid job_id plan platform s.drawn) s).1
  unfolding add_item new_item
  add_item-Adds job_id platform plan s b =
      let item = new_item uuid job_id plan platform s.drawn in
      elim (Bool-cases (key_taken item.idempotency_key (s.committed ++ s.flushed))) [
        | inl h ↦ rw h (refl, tt)
        | inr h ↦ rw h (
          refl,
          All-append (IsBorn (enqueues ∷ [])) s.flushed (item ∷ []) b ((refl, unmoved _), tt),
        )
      ]

  add_platforms-Adds :
      (job_id : Text) (plan : Plan) (enabled : List Text) (created : Bool) (s : Session)
      → All (IsBorn (enqueues ∷ [])) s.flushed
      → Adds s (add_platforms uuid job_id plan enabled created s).1
  unfolding add_platforms
  add_platforms-Adds job_id plan [] created s b = (refl, b)
  add_platforms-Adds job_id plan (p ∷ rest) created s b =
      let (same, b') = add_item-Adds job_id p plan s b in
      let (same', b'') =
        add_platforms-Adds job_id plan rest _ (add_item (new_item uuid job_id plan p s.drawn) s).1
          b' in
      (same' ∙ same, b'')

  add_plans-Adds :
      (job_id : Text) (enabled : List Text) (plans : List Plan) (s : Session)
      → All (IsBorn (enqueues ∷ [])) s.flushed
      → Adds s (add_plans uuid job_id enabled plans s).1
  unfolding add_plans
  add_plans-Adds job_id enabled [] s b = (refl, b)
  add_plans-Adds job_id enabled (plan ∷ plans) s b =
      let (same, b') = add_platforms-Adds job_id plan enabled false s b in
      let (same', b'') =
        add_plans-Adds job_id enabled plans (add_platforms uuid job_id plan enabled false s).1 b' in
      (same' ∙ same, b'')

  pub enqueue_plans-Later :
      (job_id : Text) (enabled : List Text) (plans : List Plan) (blocked : List (Text × Text))
      (drawn : ℕ) (db : Db)
      → Later (enqueues ∷ []) db (enqueue_plans uuid job_id enabled plans blocked drawn db).1
  unfolding enqueue_plans
  enqueue_plans-Later job_id enabled plans blocked drawn db =
      let (same, born) = add_plans-Adds job_id enabled plans (start_session db drawn) tt in
      rw same (append-Evolves (enqueues ∷ []) db.publishing_queue _ born)
