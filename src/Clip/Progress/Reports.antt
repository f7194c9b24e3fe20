-- ===== src/Clip/Progress/Reports.antt =====
-- What the reader of ffmpeg's output reports.
use mathlib.Core.Option
use ai_video_clip_processing.Base.{
  ℕ, ◌*◌, ◌≤◌, ltb, ◌≡◌, refl, ap, ◌∙◌, Bool, true, false, ◌&&◌, Option, none, some, List, [], ◌∷◌,
  ◌++◌, if◌then◌else◌, Text, text_eq, codes, strip, strip_by, drop_while, is_space, ℤ, pos, negsuc,
  All, inl, inr, arith, Bool-cases, Option-cases,
}
use ai_video_clip_processing.Clip.Progress.{
  percentage, report, report_line, split_line, put, read_stdout_progress, read_int,
}

-- at most a hundred percent
abbrev pub IsPercentage : ℕ → Type 0
IsPercentage pct = pct ≤ 100 * 1000000

percentage-IsPercentage : (total : ℕ) (i : ℤ) → IsPercentage (percentage total i)
percentage-IsPercentage total (pos n) = omega arith
percentage-IsPercentage total (negsuc n) = omega arith

abbrev AtMost : Option ℕ → Type 0
AtMost none = Unit
AtMost (some pct) = IsPercentage pct

read-AtMost : (total : ℕ) (read : Option ℤ) → AtMost (Option.map (percentage total) read)
read-AtMost total none = tt
read-AtMost total (some i) = percentage-IsPercentage total i

put-All :
    (o : Option ℕ) (reports : List ℕ)
    → AtMost o
    → All IsPercentage reports
    → All IsPercentage (put o reports)
put-All none reports h k = k
put-All (some pct) reports h k = (h, k)

end-AtMost : (b : Bool) → AtMost (if b then some (100 * 1000000) else none)
end-AtMost true = omega arith
end-AtMost false = tt

report-AtMost : (total : ℕ) (key value : Text) → AtMost (report total key value)
unfolding report
report-AtMost total key value =
    elim (Bool-cases (text_eq key (codes "out_time_ms") && ltb 0 total)) [
      | inl h ↦ rw h (read-AtMost total (read_int value))
      | inr h ↦ rw h (end-AtMost (text_eq key (codes "progress") && text_eq value (codes "end")))
    ]

report_line-AtMost : (total : ℕ) (line : Text) → AtMost (report_line total line)
unfolding report_line
report_line-AtMost total line = elim (Option-cases (split_line (strip line))) [
  | inl h ↦ rw h tt
  | inr ((key, value), h) ↦ rw h (report-AtMost total key value)
]

reports-All : (total : ℕ) (lines : List Text) → All IsPercentage (read_stdout_progress total lines)
unfolding read_stdout_progress
reports-All total [] = tt
reports-All total (line ∷ lines) =
    put-All (report_line total line) (read_stdout_progress total lines)
      (report_line-AtMost total line) (reports-All total lines)

put-append :
    (o : Option ℕ) (reports more : List ℕ) → put o (reports ++ more) ≡ put o reports ++ more
put-append none reports more = refl
put-append (some pct) reports more = refl

reports-append :
    (total : ℕ) (lines more : List Text)
    → read_stdout_progress total (lines ++ more)
      ≡ read_stdout_progress total lines ++ read_stdout_progress total more
unfolding read_stdout_progress
reports-append total [] more = refl
reports-append total (line ∷ lines) more =
    ap (put (report_line total line)) (reports-append total lines more)
    ∙ put-append (report_line total line) (read_stdout_progress total lines)
        (read_stdout_progress total more)

end_line : (total : ℕ) → report_line total (codes "progress=end") ≡ some (100 * 1000000)
unfolding report_line report split_line strip strip_by drop_while is_space text_eq
end_line total = refl

-- Whatever ffmpeg prints, each report is at most a hundred percent, and a hundred percent is what is
-- reported last once ffmpeg has printed `progress=end` as its last line.
pub read_stdout_progress-bounded :
    (total : ℕ) (lines : List Text)
    → All IsPercentage (read_stdout_progress total lines)
      × (read_stdout_progress total (lines ++ codes "progress=end" ∷ [])
          ≡ read_stdout_progress total lines ++ 100 * 1000000 ∷ [])
unfolding read_stdout_progress
read_stdout_progress-bounded total lines = (
  reports-All total lines,
  reports-append total lines (codes "progress=end" ∷ [])
      ∙ ap (λ o. read_stdout_progress total lines ++ put o []) (end_line total),
)
