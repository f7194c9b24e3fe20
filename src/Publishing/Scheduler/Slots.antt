-- ===== src/Publishing/Scheduler/Slots.antt =====
-- The dates that `assign_slots` and `reschedule_from_now` give.
use ai_video_clip_processing.Base.{
  ℕ, suc, ◌+◌, ◌*◌, ◌≡◌, ◌≤◌, ◌∙◌, refl, ap, false≢true, true, false, none, some, List, [], ◌∷◌,
  ◌++◌, arith, map, Text, text_eq, text_eq_self, any, length, Bool-cases, inl, inr,
}
use ai_video_clip_processing.Schemas.Validated.{ValidatedClip}
use ai_video_clip_processing.Publishing.Scheduler.{
  slot, slots_from, assign_slots, reschedule_from_now,
}

-- a key that stands nowhere has no date
pub slots_from-absent :
    (start interval i : ℕ) (keys : List Text) (key : Text)
    → any (λ k. text_eq k key) keys ≡ false
    → slots_from start interval i keys key ≡ none
unfolding slots_from
slots_from-absent start interval i [] key h = refl
slots_from-absent start interval i (k ∷ ks) key h =
    ground (arith, slots_from-absent start interval (suc i) ks key)

any-clip_id :
    (key : Text) (clips : List ValidatedClip)
    → any (λ k. text_eq k key) (map (λ c. c.clip_id) clips) ≡ any (λ c. text_eq c.clip_id key) clips
any-clip_id key [] = refl
any-clip_id key (c ∷ clips) = ground (arith, any-clip_id key clips)

-- The last place of a key gives its date.
slots_from-at :
    (start interval i : ℕ) (before : List ValidatedClip) (clip : ValidatedClip)
    (after : List ValidatedClip)
    → any (λ c. text_eq c.clip_id clip.clip_id) after ≡ false
    → slots_from start interval i (map (λ c. c.clip_id) (before ++ clip ∷ after)) clip.clip_id
      ≡ some (slot start interval (i + length before))
unfolding slots_from
slots_from-at start interval i [] clip after h =
    let absent =
      slots_from-absent start interval (suc i) (map (λ c. c.clip_id) after) clip.clip_id
        (any-clip_id clip.clip_id after ∙ h) in
    rw (absent, text_eq_self clip.clip_id) (ground arith)
slots_from-at start interval i (k ∷ before) clip after h =
    rw (slots_from-at start interval (suc i) before clip after h)
      (ap (λ (n : ℕ). some (slot start interval n)) (omega arith))

slots_from-later :
    (start interval i : ℕ) (keys : List Text) (key : Text)
    → any (λ k. text_eq k key) keys ≡ true
    → (date : ℕ) × (slots_from start interval i keys key ≡ some date) × (start ≤ date)
unfolding slots_from
slots_from-later start interval i [] key h = absurd (false≢true h)
slots_from-later start interval i (k ∷ ks) key h = elim (Bool-cases (any (λ q. text_eq q key) ks)) [
  | inl e ↦
      let (date, at, later) = slots_from-later start interval (suc i) ks key e in
      (date, rw at, later)
  | inr e ↦
      let absent = slots_from-absent start interval (suc i) ks key e in
      (slot start interval i, rw absent (ground arith), omega arith)
]

-- A clip whose identifier comes up no more behind it has the date `start_at` plus one interval for
-- each clip before it.
pub assign_slots-spaced :
    (before : List ValidatedClip) (clip : ValidatedClip) (after : List ValidatedClip)
    (start_at interval_minutes : ℕ)
    → any (λ c. text_eq c.clip_id clip.clip_id) after ≡ false
    → assign_slots (before ++ clip ∷ after) start_at interval_minutes clip.clip_id
      ≡ some (start_at + 60 * (interval_minutes * length before))
unfolding assign_slots
assign_slots-spaced before clip after start_at interval_minutes h =
    slots_from-at start_at interval_minutes 0 before clip after h
    ∙ ap (λ (n : ℕ). some (slot start_at interval_minutes n)) (omega arith)

-- Every key that is passed in has a date, and none before `now`.
pub reschedule_from_now-later :
    (keys : List Text) (now interval_minutes : ℕ) (key : Text)
    → any (λ k. text_eq k key) keys ≡ true
    → (date : ℕ) × (reschedule_from_now keys now interval_minutes key ≡ some date) × (now ≤ date)
unfolding reschedule_from_now
reschedule_from_now-later keys now interval_minutes key h =
    slots_from-later now interval_minutes 0 keys key h
