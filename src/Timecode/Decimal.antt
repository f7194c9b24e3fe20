-- ===== src/Timecode/Decimal.antt =====
-- `str(n)` and `f"{n:02d}"`.
use ai_video_clip_processing.Base.{ℕ, zero, suc, ◌+◌, ◌/◌, ◌%◌, ltb, ◌∷◌, [], if◌then◌else◌, Text}

-- The digits of `n` before a text. The fuel `n` is enough, since each round takes a tenth.
unfoldable pub digits_before : (fuel n : ℕ) → Text → Text
digits_before zero n s = (b'0' + n % 10) ∷ s
digits_before (suc fuel) n s =
    let more = digits_before fuel (n / 10) ((b'0' + n % 10) ∷ s) in
    if ltb n 10 then (b'0' + n % 10) ∷ s else more

unfoldable pub decimal : ℕ → Text
unfolding digits_before
decimal n = digits_before n n []

unfoldable pub pad2 : ℕ → Text
unfolding decimal
pad2 n = if ltb n 10 then b'0' ∷ decimal n else decimal n
