-- ===== src/Publishing/Scheduler/Order.antt =====
-- The order in which clips are scheduled.
use ai_video_clip_processing.Base.{
  ◌≡◌, Bool, true, false, List, arith, ℤ, pos, negsuc, lebℤ, count_if, count_if-sorted,
  sorted-Ascending, Ascending,
}
use ai_video_clip_processing.Schemas.Validated.{ValidatedClip}
use ai_video_clip_processing.Publishing.Scheduler.{clip_le, order_clips}

lebℤ_total : (a b : ℤ) → lebℤ a b ≡ false → lebℤ b a ≡ true
lebℤ_total (pos a) (pos b) h = ground arith
lebℤ_total (pos a) (negsuc b) h = ground arith
lebℤ_total (negsuc a) (pos b) h = ground arith
lebℤ_total (negsuc a) (negsuc b) h = ground arith

lebℤ_trans : (a b c : ℤ) → lebℤ a b ≡ true → lebℤ b c ≡ true → lebℤ a c ≡ true
lebℤ_trans (pos a) (pos b) (pos c) h k = ground arith
lebℤ_trans (negsuc a) (negsuc b) (negsuc c) h k = ground arith
lebℤ_trans a b c h k = ground arith

clip_le_total : (c d : ValidatedClip) → clip_le c d ≡ false → clip_le d c ≡ true
clip_le_total c d h =
    ground (arith, lebℤ_total c.rank d.rank, lebℤ_total d.viral_score c.viral_score)

clip_le_trans :
    (c d e : ValidatedClip) → clip_le c d ≡ true → clip_le d e ≡ true → clip_le c e ≡ true
clip_le_trans c d e h k = ground (
  arith,
  lebℤ_trans c.rank d.rank e.rank,
  lebℤ_trans e.rank d.rank c.rank,
  lebℤ_trans e.rank c.rank d.rank,
  lebℤ_trans d.rank e.rank c.rank,
  lebℤ_trans e.viral_score d.viral_score c.viral_score,
)

-- The clips come by rising rank, those of one rank by falling score, and each as often as before.
pub order_clips-sorts :
    (clips : List ValidatedClip)
    → Ascending clip_le (order_clips clips)
      × ((test : ValidatedClip → Bool) → count_if test (order_clips clips) ≡ count_if test clips)
unfolding order_clips
order_clips-sorts clips = (
  sorted-Ascending clip_le clip_le_total clip_le_trans clips,
  λ test. count_if-sorted clip_le test clips,
)
