-- ===== src/Output/Naming/Safe.antt =====
-- The characters of a clip's file name.
use mathlib.Core.List.{reverse_aux}
use ai_video_clip_processing.Base.{
  ℕ, zero, suc, ◌+◌, ◌%◌, ◌/◌, ◌≡◌, refl, Bool, true, false, ◌&&◌, min, [], ◌∷◌, ◌++◌, Text, codes,
  strip, strip_by, drop_while, take, all, reverse, ℤ, clamp_zero, arith,
}
use ai_video_clip_processing.Storage.Paths.{is_id_char}
use ai_video_clip_processing.Timecode.Decimal.{digits_before, decimal, pad2}
use ai_video_clip_processing.Output.Naming.{
  collapse, or_clip, sanitize_component, clip_output_basename,
}

-- every character may stand in an identifier
abbrev pub is_safe : Text → Bool
is_safe = all is_id_char

is_safe-append : (s t : Text) → is_safe (s ++ t) ≡ (is_safe s && is_safe t)
is_safe-append [] t = refl
is_safe-append (c ∷ s) t = ground (arith, is_safe-append s t)

is_safe-drop_while :
    (test : ℕ → Bool) (s : Text) → is_safe s ≡ true → is_safe (drop_while test s) ≡ true
unfolding drop_while
is_safe-drop_while test [] h = refl
is_safe-drop_while test (c ∷ s) h = ground (arith, is_safe-drop_while test s)

is_safe-reverse_aux :
    (s t : Text) → is_safe s ≡ true → is_safe t ≡ true → is_safe (reverse_aux s t) ≡ true
is_safe-reverse_aux [] t h k = k
is_safe-reverse_aux (c ∷ s) t h k = ground (arith, h, k, is_safe-reverse_aux s (c ∷ t))

is_safe-strip_by :
    (test : ℕ → Bool) (s : Text) → is_safe s ≡ true → is_safe (strip_by test s) ≡ true
unfolding strip_by
is_safe-strip_by test s h =
    is_safe-reverse_aux _ []
      (is_safe-drop_while test (reverse (drop_while test s))
        (is_safe-reverse_aux (drop_while test s) [] (is_safe-drop_while test s h) refl))
      refl

is_safe-take : (n : ℕ) (s : Text) → is_safe s ≡ true → is_safe (take n s) ≡ true
is_safe-take zero s h = refl
is_safe-take (suc n) [] h = refl
is_safe-take (suc n) (c ∷ s) h = ground (arith, is_safe-take n s)

underscore_safe : is_id_char b'_' ≡ true
unfolding is_id_char
underscore_safe = refl

is_safe-collapse : (b : Bool) (s : Text) → is_safe (collapse b s) ≡ true
unfolding collapse
is_safe-collapse b [] = refl
is_safe-collapse b (c ∷ s) =
    ground (arith, underscore_safe, is_safe-collapse false s, is_safe-collapse true s)

digit_safe : (d : ℕ) → is_id_char (b'0' + d % 10) ≡ true
unfolding is_id_char
digit_safe d = ground arith

is_safe-digits_before :
    (fuel n : ℕ) (s : Text) → is_safe s ≡ true → is_safe (digits_before fuel n s) ≡ true
unfolding digits_before
is_safe-digits_before zero n s h = ground (arith, digit_safe n)
is_safe-digits_before (suc fuel) n s h =
    ground (arith, digit_safe n, is_safe-digits_before fuel (n / 10) ((b'0' + n % 10) ∷ s))

is_safe-decimal : (n : ℕ) → is_safe (decimal n) ≡ true
unfolding decimal
is_safe-decimal n = is_safe-digits_before n n [] refl

is_safe-pad2 : (n : ℕ) → is_safe (pad2 n) ≡ true
unfolding pad2
is_safe-pad2 n = ground (arith, digit_safe 0, is_safe-decimal n)

is_safe-or_clip : (s : Text) → is_safe s ≡ true → is_safe (or_clip s) ≡ true
unfolding is_id_char
is_safe-or_clip [] h = refl
is_safe-or_clip (c ∷ s) h = h

is_safe-sanitize_component :
    (value : Text) (max_len : ℕ) → is_safe (sanitize_component value max_len) ≡ true
unfolding sanitize_component
is_safe-sanitize_component value max_len = is_safe-take max_len _ (
    is_safe-or_clip _
      (is_safe-strip_by _ (collapse false (strip value)) (is_safe-collapse false (strip value))))

rank_safe : is_safe (codes "_rank_") ≡ true
unfolding is_id_char
rank_safe = refl

score_safe : is_safe (codes "_score_") ≡ true
unfolding is_id_char
score_safe = refl

-- Whatever the clip's identifier, its rank and its score, the name of its file is made of ASCII
-- letters, digits, `_` and `-` alone: it holds no separator, no dot and no null.
pub is_safe-clip_output_basename :
    (clip_id : Text) (rank viral_score : ℤ)
    → is_safe (clip_output_basename clip_id rank viral_score) ≡ true
unfolding clip_output_basename
is_safe-clip_output_basename clip_id rank viral_score =
    let score = decimal (min 100 (clamp_zero viral_score)) in
    let name = pad2 (clamp_zero rank) in
    ground (
      arith,
      is_safe-append (sanitize_component clip_id 64)
          (codes "_rank_" ++ (name ++ (codes "_score_" ++ score))),
      is_safe-append (codes "_rank_") (name ++ (codes "_score_" ++ score)),
      is_safe-append name (codes "_score_" ++ score),
      is_safe-append (codes "_score_") score,
      is_safe-sanitize_component clip_id 64,
      rank_safe,
      score_safe,
      is_safe-pad2 (clamp_zero rank),
      is_safe-decimal (min 100 (clamp_zero viral_score)),
    )
