-- ===== src/Base/Int.antt =====
-- Python's `int` where the program meets negative values.
use Prim.Native.Nat.{ℕ}
use mathlib.Core.Bool.{Bool, true, false}
use ai_video_clip_processing.Base.Tests.{leb}

-- `negsuc n` is -(n + 1).
pub data ℤ : Type 0 where
  pos : ℕ → ℤ
  negsuc : ℕ → ℤ

-- `a <= b`
abbrev pub lebℤ : ℤ → ℤ → Bool
lebℤ (pos a) (pos b) = leb a b
lebℤ (pos _) (negsuc _) = false
lebℤ (negsuc _) (pos _) = true
lebℤ (negsuc a) (negsuc b) = leb b a

-- `max(0, a)`
abbrev pub clamp_zero : ℤ → ℕ
clamp_zero (pos a) = a
clamp_zero (negsuc _) = 0
