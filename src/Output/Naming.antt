-- ===== src/Output/Naming.antt =====
-- backend/app/output/naming.py.
pub mod Safe
use ai_video_clip_processing.Base.{
  ℕ, Bool, true, false, ◌||◌, ◌==◌, min, List, [], ◌∷◌, ◌++◌, if◌then◌else◌, Text, codes, strip,
  strip_by, take, ℤ, clamp_zero,
}
use ai_video_clip_processing.Storage.Paths.{is_id_char}
use ai_video_clip_processing.Timecode.Decimal.{decimal, pad2}

-- `_SAFE_RE.sub("_", text)`: one `_` for each longest run of other characters; the flag says that
-- the run goes on
unfoldable pub collapse : Bool → Text → Text
collapse in_run [] = []
collapse in_run (c ∷ s) =
    let kept = collapse false s in
    let dropped = collapse true s in
    if is_id_char c then c ∷ kept else if in_run then dropped else b'_' ∷ dropped

-- `cleaned or "clip"`
abbrev pub or_clip : Text → Text
or_clip [] = codes "clip"
or_clip (c ∷ s) = c ∷ s

unfoldable pub sanitize_component : Text → ℕ → Text
unfolding collapse strip strip_by
sanitize_component value max_len =
    take max_len (or_clip (strip_by (λ c. c == b'_' || c == b'.') (collapse false (strip value))))

unfoldable pub clip_output_basename : Text → ℤ → ℤ → Text
unfolding sanitize_component decimal pad2
clip_output_basename clip_id rank viral_score =
    sanitize_component clip_id 64
    ++ (codes "_rank_"
        ++ (pad2 (clamp_zero rank)
            ++ (codes "_score_" ++ decimal (min 100 (clamp_zero viral_score)))))
