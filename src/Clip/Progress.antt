-- ===== src/Clip/Progress.antt =====
-- `run_ffmpeg_with_progress` of backend/app/ffmpeg_utils/runner.py. What the process prints on its
-- standard output is the list of its lines, decoded, and a percentage is in millionths.
pub mod Reports
use mathlib.Core.Option
use ai_video_clip_processing.Base.{
  ℕ, zero, suc, ◌+◌, ◌*◌, ◌/◌, min, ltb, ◌==◌, Bool, true, false, ◌&&◌, Option, none, some, List,
  [], ◌∷◌, if◌then◌else◌, Text, text_eq, codes, strip, ℤ, pos, negsuc,
}
use ai_video_clip_processing.Errors.{Result, ok, err, ffmpeg_failed}
use ai_video_clip_processing.Timecode.{digit_value}

-- The rest of a number in decimal digits, of which `n` is what stands before; a `_` may stand between
-- two digits.
unfoldable pub read_digits : ℕ → Bool → Text → Option ℕ
unfolding digit_value
read_digits n after_digit [] = if after_digit then some n else none
read_digits n after_digit (c ∷ s) = elim (digit_value c) [
  | some d ↦ read_digits (10 * n + d) true s
  | none ↦ elim (c == b'_' && after_digit) [ true ↦ read_digits n false s | false ↦ none ]
]

abbrev to_minus : ℕ → ℤ
to_minus zero = pos 0
to_minus (suc n) = negsuc n

-- a number after its white space
unfoldable pub read_signed : Text → Option ℤ
unfolding read_digits
read_signed [] = none
read_signed (c ∷ s) =
    if c == b'-'
    then Option.map to_minus (read_digits 0 false s)
    else if c == b'+'
    then Option.map pos (read_digits 0 false s)
    else Option.map pos (read_digits 0 false (c ∷ s))

-- `int(text)`
unfoldable pub read_int : Text → Option ℤ
unfolding read_signed strip
read_int s = read_signed (strip s)

-- the text before the first `=` and the text after it
unfoldable pub split_line : Text → Option (Text × Text)
split_line [] = none
split_line (c ∷ s) =
    let rest = split_line s in
    if c == b'=' then some ([], s) else Option.map (λ (key, value). (c ∷ key, value)) rest

-- `out_seconds / total_duration_seconds * 100`, kept between 0 and 100
abbrev pub percentage : ℕ → ℤ → ℕ
percentage total (pos n) = min (100 * 1000000) (n * 100 / total)
percentage total (negsuc n) = 0

-- what one key and its value report
unfoldable pub report : ℕ → Text → Text → Option ℕ
unfolding text_eq read_int
report total key value =
    if text_eq key (codes "out_time_ms") && ltb 0 total
    then Option.map (percentage total) (read_int value)
    else if text_eq key (codes "progress") && text_eq value (codes "end")
    then some (100 * 1000000)
    else none

abbrev report_pair : ℕ → Option (Text × Text) → Option ℕ
report_pair total none = none
report_pair total (some (key, value)) = report total key value

-- What one line reports. Only two keys do, and both are words, so that a key which is no word needs
-- no test of its own.
unfoldable pub report_line : ℕ → Text → Option ℕ
unfolding report split_line strip
report_line total line = report_pair total (split_line (strip line))

abbrev pub put : Option ℕ → List ℕ → List ℕ
put none reports = reports
put (some pct) reports = pct ∷ reports

-- `_read_stdout_progress`: what `on_progress` is called with, in order
unfoldable pub read_stdout_progress : ℕ → List Text → List ℕ
unfolding report_line
read_stdout_progress total [] = []
read_stdout_progress total (line ∷ lines) =
    put (report_line total line) (read_stdout_progress total lines)

-- How a process ends: by the timeout or with a return code.
pub record Process : Type 0 where
  pub lines : List Text
  pub returncode : Option ℤ

abbrev pub ending : Option ℤ → Result (Unit {0})
ending (some (pos zero)) = ok tt
ending _ = err ffmpeg_failed

-- `run_ffmpeg_with_progress`: the reports and how the call ends
unfoldable pub run_ffmpeg_with_progress : ℕ → Process → List ℕ × Result (Unit {0})
unfolding read_stdout_progress
run_ffmpeg_with_progress total process =
    (read_stdout_progress total process.lines, ending process.returncode)
