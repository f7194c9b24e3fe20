-- ===== src/Timecode.antt =====
-- backend/app/clip_processing/timecode.py. CPython's limit on the digits that `int` reads is left
-- out.
pub mod Decimal
pub mod RoundTrip
use ai_video_clip_processing.Base.{
  ℕ, zero, suc, ◌+◌, ◌-◌, ◌*◌, ◌/◌, ◌%◌, ◌==◌, leb, ltb, Bool, true, false, ◌&&◌, Option, none,
  some, List, [], ◌∷◌, ◌++◌, if◌then◌else◌, Text, strip, is_some,
}
use ai_video_clip_processing.Errors.{Result, ok, err, invalid_timestamp, ◌>>=◌}
use Decimal.{pad2}

-- The zeros of the scripts that have decimal digits: a `\d` is one of the ten code points from there.
unfoldable pub other_zeros : List ℕ
other_zeros =
    1632 ∷ 1776 ∷ 1984 ∷ 2406 ∷ 2534 ∷ 2662 ∷ 2790 ∷ 2918 ∷ 3046 ∷ 3174 ∷ 3302 ∷ 3430 ∷ 3558 ∷ 3664
    ∷ 3792 ∷ 3872 ∷ 4160 ∷ 4240 ∷ 6112 ∷ 6160 ∷ 6470 ∷ 6608 ∷ 6784 ∷ 6800 ∷ 6992 ∷ 7088 ∷ 7232
    ∷ 7248 ∷ 42528 ∷ 43216 ∷ 43264 ∷ 43472 ∷ 43504 ∷ 43600 ∷ 44016 ∷ 65296 ∷ 66720 ∷ 68912 ∷ 69734
    ∷ 69872 ∷ 69942 ∷ 70096 ∷ 70384 ∷ 70736 ∷ 70864 ∷ 71248 ∷ 71360 ∷ 71472 ∷ 71904 ∷ 72016 ∷ 72784
    ∷ 73040 ∷ 73120 ∷ 73552 ∷ 92768 ∷ 92864 ∷ 93008 ∷ 120782 ∷ 120792 ∷ 120802 ∷ 120812 ∷ 120822
    ∷ 123200 ∷ 123632 ∷ 124144 ∷ 125264 ∷ 130032 ∷ []

decimal_zeros : List ℕ
decimal_zeros = b'0' ∷ other_zeros

digit_from : List ℕ → ℕ → Option ℕ
digit_from [] c = none
digit_from (z ∷ zs) c =
    let others = digit_from zs c in if leb z c && ltb c (z + 10) then some (c - z) else others

-- the value of a `\d`
unfoldable pub digit_value : ℕ → Option ℕ
unfolding digit_from decimal_zeros
digit_value c = digit_from decimal_zeros c

-- `[0-5]`
abbrev pub is_low_digit : ℕ → Bool
is_low_digit c = leb b'0' c && leb c b'5'

-- the end of a pattern that closes with `$`
unfoldable pub at_end : Text → Bool
at_end [] = true
at_end (c ∷ []) = c == 10
at_end (_ ∷ _ ∷ _) = false

abbrev two_digits : ℕ → Option ℕ → ℕ
two_digits tens none = 0
two_digits tens (some ones) = 10 * (tens - b'0') + ones

-- `:([0-5]\d):([0-5]\d)$` behind the hours
unfoldable pub match_tail : ℕ → Text → Result ℕ
unfolding at_end
match_tail hours (c ∷ m ∷ n ∷ d ∷ s ∷ t ∷ rest) =
    if c == b':'
      && is_low_digit m
      && is_some (digit_value n)
      && d == b':'
      && is_low_digit s
      && is_some (digit_value t)
      && at_end rest
    then ok (hours * 3600 + two_digits m (digit_value n) * 60 + two_digits s (digit_value t))
    else err invalid_timestamp
match_tail hours _ = err invalid_timestamp

-- `(\d{2,})` with its value, after `count` digits of it; a digit is no colon, so the longest run is
-- the only one after which the pattern can go on
unfoldable pub match_hours : (hours count : ℕ) → Text → Result ℕ
unfolding match_tail
match_hours hours count [] = err invalid_timestamp
match_hours hours count (c ∷ s) = elim (digit_value c) [
  | some d ↦ match_hours (hours * 10 + d) (suc count) s
  | none ↦ if leb 2 count then match_tail hours (c ∷ s) else err invalid_timestamp
]

-- `parse_timecode` of a text
unfoldable pub parse_timecode : Text → Result ℕ
unfolding match_hours
parse_timecode value = match_hours 0 0 (strip value)

-- `round`, which takes a half to the even neighbour, of microseconds to seconds
unfoldable pub round_seconds : ℕ → ℕ
round_seconds us =
    let whole = us / 1000000 in
    let part = us % 1000000 in
    if ltb part 500000
    then whole
    else if ltb 500000 part
    then whole + 1
    else (if whole % 2 == 0 then whole else whole + 1)

-- the f-string of `format_timecode`
unfoldable pub format_seconds : ℕ → Text
format_seconds total =
    pad2 (total / 3600) ++ (b':' ∷ (pad2 (total % 3600 / 60) ++ (b':' ∷ pad2 (total % 3600 % 60))))

-- `format_timecode` of microseconds
unfoldable pub format_timecode : ℕ → Text
unfolding round_seconds format_seconds
format_timecode us = format_seconds (round_seconds us)

-- `validate_clip_range`: start, end and duration
unfoldable pub validate_clip_range : Text → Text → Result (ℕ × ℕ × ℕ)
unfolding parse_timecode
validate_clip_range start_time end_time = do
  start_seconds ← parse_timecode start_time
  end_seconds ← parse_timecode end_time
  if leb end_seconds start_seconds
      then err invalid_timestamp
      else ok (start_seconds, end_seconds, end_seconds - start_seconds)
