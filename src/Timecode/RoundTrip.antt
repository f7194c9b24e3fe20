-- ===== src/Timecode/RoundTrip.antt =====
-- A time that was printed is read back.
use ai_video_clip_processing.Base.{
  is_space, strip, strip-solid, reverse, reverse-append, ap, ℕ, zero, suc, ◌+◌, ◌*◌, ◌/◌, ◌%◌, ◌≡◌,
  ◌<◌, ◌≤◌, refl, ap₂, ◌∙◌, none, false, some, List, [], ◌∷◌, ◌++◌, arith, if◌then◌else◌, ltb, Text,
  append_assoc, Bool-cases, inl, inr,
}
use ai_video_clip_processing.Errors.{ok}
use ai_video_clip_processing.Timecode.{
  digit_from, other_zeros, digit_value, match_hours, match_tail, parse_timecode, format_seconds,
}
use ai_video_clip_processing.Timecode.Decimal.{digits_before, pad2}

digit_from-first : (z : ℕ) (zs : List ℕ) (d : ℕ) → d < 10 → digit_from (z ∷ zs) (z + d) ≡ some d
unfolding digit_from
digit_from-first z zs d h = ground arith

digit_value-ascii : (d : ℕ) → d < 10 → digit_value (b'0' + d) ≡ some d
unfolding digit_value
digit_value-ascii d h = digit_from-first b'0' _ d h

-- how many digits `digits_before` writes
abbrev digit_count : (fuel n : ℕ) → ℕ
digit_count zero n = 1
digit_count (suc fuel) n =
    let more = suc (digit_count fuel (n / 10)) in if ltb n 10 then 1 else more

match_step :
    (c d hours count : ℕ) (s : Text)
    → digit_value c ≡ some d
    → match_hours hours count (c ∷ s) ≡ match_hours (hours * 10 + d) (suc count) s
unfolding match_hours
match_step c d hours count s e = ground (arith, e)

match_hours-digits :
    (fuel n count : ℕ) (s : Text)
    → n ≤ fuel
    → match_hours 0 count (digits_before fuel n s) ≡ match_hours n (count + digit_count fuel n) s
unfolding digits_before
match_hours-digits zero n count s h =
    match_step _ (n % 10) 0 count s (digit_value-ascii (n % 10) (omega arith))
    ∙ ap₂ (λ (m k : ℕ). match_hours m k s) (omega arith) (omega arith)
match_hours-digits (suc fuel) n count s h = elim (Bool-cases (ltb n 10)) [
  | inl e ↦ rw e (
      match_step _ (n % 10) 0 count s (digit_value-ascii (n % 10) (omega arith))
      ∙ ap₂ (λ (m k : ℕ). match_hours m k s) (ground arith) (omega arith))
  | inr e ↦ rw e (
      match_hours-digits fuel (n / 10) count ((b'0' + n % 10) ∷ s) (omega arith)
      ∙ match_step _ (n % 10) (n / 10) (count + digit_count fuel (n / 10)) s
          (digit_value-ascii (n % 10) (omega arith))
      ∙ ap₂ (λ (m k : ℕ). match_hours m k s) (omega arith) (omega arith))
]

colon_no_digit : digit_value b':' ≡ none
unfolding digit_value other_zeros
colon_no_digit = refl

match_colon : (n k : ℕ) (s : Text) → 2 ≤ k → match_hours n k (b':' ∷ s) ≡ match_tail n (b':' ∷ s)
unfolding match_hours
match_colon n k s h = ground (arith, colon_no_digit)

digit_count-pos : (fuel n : ℕ) → 1 ≤ digit_count fuel n
digit_count-pos zero n = omega arith
digit_count-pos (suc fuel) n = ground (arith, digit_count-pos fuel (n / 10))

digit_count-two : (fuel n : ℕ) → n ≤ fuel → 10 ≤ n → 2 ≤ digit_count fuel n
digit_count-two zero n h k = absurd (omega arith)
digit_count-two (suc fuel) n h k = ground (arith, digit_count-pos fuel (n / 10))

digits_before-append :
    (fuel n : ℕ) (s t : Text) → digits_before fuel n s ++ t ≡ digits_before fuel n (s ++ t)
unfolding digits_before
digits_before-append zero n s t = refl
digits_before-append (suc fuel) n s t =
    ground (arith, digits_before-append fuel (n / 10) ((b'0' + n % 10) ∷ s) t)

-- hours of two or more digits, before the rest of a time
match_hours-pad2 :
    (n : ℕ) (s : Text) → match_hours 0 0 (pad2 n ++ (b':' ∷ s)) ≡ match_tail n (b':' ∷ s)
unfolding pad2
match_hours-pad2 n s =
    let printed = digits_before-append n n [] (b':' ∷ s) in
    elim (Bool-cases (ltb n 10)) [
      | inl e ↦
          rw (e, printed)
            (match_step b'0' 0 0 0 _ (digit_value-ascii 0 (omega arith))
              ∙ match_hours-digits n n 1 (b':' ∷ s) (omega arith)
              ∙ match_colon n _ s (omega (arith, digit_count-pos n n)))
      | inr e ↦
          rw (e, printed)
            (match_hours-digits n n 0 (b':' ∷ s) (omega arith)
              ∙ match_colon n _ s (omega (arith, digit_count-two n n (omega arith) (ground arith))))
    ]

digits_before-one : (fuel n : ℕ) (s : Text) → n < 10 → digits_before fuel n s ≡ (b'0' + n) ∷ s
unfolding digits_before
digits_before-one zero n s h = ground arith
digits_before-one (suc fuel) n s h = ground arith

digits_before-two :
    (n : ℕ) → 10 ≤ n → n < 60 → digits_before n n [] ≡ (b'0' + n / 10) ∷ (b'0' + n % 10) ∷ []
digits_before-two zero h k = absurd (omega arith)
digits_before-two (suc n) h k =
    let one = digits_before-one n (suc n / 10) ((b'0' + suc n % 10) ∷ []) (omega arith) in
    unfold digits_before in ground (arith, one)

pad2-small : (n : ℕ) → n < 60 → pad2 n ≡ (b'0' + n / 10) ∷ (b'0' + n % 10) ∷ []
unfolding pad2
pad2-small n h = elim (Bool-cases (ltb n 10)) [
  | inl e ↦ rw (e, digits_before-one n n [] (ground arith)) (ground arith)
  | inr e ↦ rw e (digits_before-two n (ground arith) h)
]

match_tail-digits :
    (hours m s : ℕ)
    → m < 60
    → s < 60
    → match_tail hours (b':' ∷ (pad2 m ++ (b':' ∷ pad2 s))) ≡ ok (hours * 3600 + m * 60 + s)
unfolding match_tail
match_tail-digits hours m s h k =
    let one_m = digit_value-ascii (m % 10) (omega arith) in
    let one_s = digit_value-ascii (s % 10) (omega arith) in
    rw (pad2-small m h, pad2-small s k, one_m, one_s) (ground arith)

digit_no_space : (d : ℕ) → d < 10 → is_space (b'0' + d) ≡ false
unfolding is_space
digit_no_space d h = ground arith

reverse-last : (xs : Text) (x y : ℕ) → reverse (xs ++ (x ∷ y ∷ [])) ≡ y ∷ x ∷ reverse xs
reverse-last xs x y = reverse-append xs (x ∷ y ∷ [])

digits_before-head :
    (fuel n : ℕ) (s : Text)
    → (a : ℕ) × (t : Text) × (digits_before fuel n s ≡ (b'0' + a) ∷ t) × (a < 10)
unfolding digits_before
digits_before-head zero n s = (n % 10, s, refl, omega arith)
digits_before-head (suc fuel) n s = elim (Bool-cases (ltb n 10)) [
  | inl e ↦ (n % 10, s, rw e, omega arith)
  | inr e ↦ rw e (digits_before-head fuel (n / 10) ((b'0' + n % 10) ∷ s))
]

pad2-head : (n : ℕ) → (a : ℕ) × (t : Text) × (pad2 n ≡ (b'0' + a) ∷ t) × (a < 10)
unfolding pad2
pad2-head n = elim (Bool-cases (ltb n 10)) [
  | inl e ↦ (0, digits_before n n [], rw e, omega arith)
  | inr e ↦ rw e (digits_before-head n n [])
]

-- what stands behind the first character of a printed time ends in the last digit of its seconds
reverse-printed :
    (h m s : ℕ)
    → s < 60
    → (t : Text) × (reverse (pad2 h ++ (b':' ∷ (pad2 m ++ (b':' ∷ pad2 s)))) ≡ (b'0' + s % 10) ∷ t)
reverse-printed h m s k =
    let front = pad2 h ++ (b':' ∷ (pad2 m ++ (b':' ∷ []))) in
    let split : pad2 h ++ (b':' ∷ (pad2 m ++ (b':' ∷ pad2 s)))
        ≡ front ++ ((b'0' + s / 10) ∷ (b'0' + s % 10) ∷ []) =
      rw (pad2-small s k) (simp append_assoc) in
    ((b'0' + s / 10) ∷ reverse front, rw split (reverse-last front (b'0' + s / 10) (b'0' + s % 10)))

strip-printed :
    (h m s : ℕ)
    → s < 60
    → let printed = pad2 h ++ (b':' ∷ (pad2 m ++ (b':' ∷ pad2 s))) in strip printed ≡ printed
strip-printed h m s k =
    let (a, t, e, ha) = pad2-head h in
    let (rest, r) = reverse-printed h m s k in
    rw e (
      strip-solid (b'0' + a) (b'0' + s % 10) _ rest (digit_no_space a ha)
        (digit_no_space (s % 10) (omega arith)) (rw e at r))

-- Every printed time is read back as the number of seconds that it was printed from.
pub parse-format : (n : ℕ) → parse_timecode (format_seconds n) ≡ ok n
unfolding parse_timecode format_seconds
parse-format n =
    let stripped = strip-printed (n / 3600) (n % 3600 / 60) (n % 3600 % 60) (omega arith) in
    rw (stripped, match_hours-pad2 (n / 3600) _)
      (match_tail-digits (n / 3600) (n % 3600 / 60) (n % 3600 % 60) (omega arith) (omega arith)
        ∙ ap ok (omega arith))
