-- ===== src/Publishing/Scheduler.antt =====
-- backend/app/publishing/queue_scheduler.py and backend/app/publishing/metadata.py.
pub mod Order
pub mod Slots
use ai_video_clip_processing.Base.{
  ℕ, suc, ◌+◌, ◌*◌, Bool, true, false, Option, none, some, List, [], ◌∷◌, map, if◌then◌else◌, Text,
  text_eq, lebℤ, sorted,
}
use ai_video_clip_processing.Schemas.Validated.{ValidatedClip}

-- `(c.rank, -c.viral_score) <= (d.rank, -d.viral_score)`
abbrev pub clip_le : ValidatedClip → ValidatedClip → Bool
clip_le c d =
    if lebℤ c.rank d.rank
    then (if lebℤ d.rank c.rank then lebℤ d.viral_score c.viral_score else true)
    else false

unfoldable pub order_clips : List ValidatedClip → List ValidatedClip
order_clips clips = sorted clip_le clips

-- `start + timedelta(minutes=interval_minutes * i)`
abbrev pub slot : ℕ → ℕ → ℕ → ℕ
slot start interval_minutes i = start + 60 * (interval_minutes * i)

-- The dict from a key to its date: of two equal keys the later one counts.
unfoldable pub slots_from : ℕ → ℕ → ℕ → List Text → Text → Option ℕ
slots_from start interval_minutes i [] key = none
slots_from start interval_minutes i (k ∷ ks) key =
    let later = slots_from start interval_minutes (suc i) ks key in
    elim later [
      | some date ↦ some date
      | none ↦ if text_eq k key then some (slot start interval_minutes i) else none
    ]

-- `assign_slots(ordered_clips, start_at=..., interval_minutes=...)`
unfoldable pub assign_slots : List ValidatedClip → ℕ → ℕ → Text → Option ℕ
unfolding slots_from
assign_slots ordered_clips start_at interval_minutes =
    slots_from start_at interval_minutes 0 (map (λ c. c.clip_id) ordered_clips)

-- `reschedule_from_now(pending_ids_in_order, now=..., interval_minutes=...)`
unfoldable pub reschedule_from_now : List Text → ℕ → ℕ → Text → Option ℕ
unfolding slots_from
reschedule_from_now pending_ids_in_order now interval_minutes =
    slots_from now interval_minutes 0 pending_ids_in_order
