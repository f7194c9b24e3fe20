-- ===== src/Storage/Paths/Own.antt =====
-- The directory of a job or an upload.
use ai_video_clip_processing.Base.{
  ℕ, suc, ◌≡◌, refl, Bool, true, false, not, ◌&&◌, [], ◌∷◌, ◌++◌, ◌==◌, if◌then◌else◌, Text,
  text_eq, text_eq_self, all, append_assoc, append-nil, arith,
}
use ai_video_clip_processing.Errors.{ok, err, not_found}
use ai_video_clip_processing.Storage.Paths.{
  FilePath, is_id_char, at_end, match_id, validate_id, components, joinpath, is_absolute, is_within,
  safe_join, job_dir,
}

-- neither `/` nor `.`
abbrev plain : ℕ → Bool
plain c = not (c == b'/') && not (c == b'.')

id_char-plain : (c : ℕ) → is_id_char c ≡ true → plain c ≡ true
unfolding is_id_char
id_char-plain c h = ground arith

match_id-plain : (n : ℕ) (s : Text) → match_id n s ≡ true → all plain s ≡ true
unfolding match_id at_end
match_id-plain n [] h = refl
match_id-plain n (c ∷ []) h = ground (arith, id_char-plain c, match_id-plain (suc n) [])
match_id-plain n (c ∷ d ∷ s) h = ground (arith, id_char-plain c, match_id-plain (suc n) (d ∷ s))

components-plain :
    (w : ℕ) (word s : Text)
    → plain w ≡ true
    → all plain s ≡ true
    → components (w ∷ word) s ≡ (w ∷ word ++ s) ∷ []
unfolding components text_eq
components-plain w word [] k h = ground (arith, append-nil word)
components-plain w word (c ∷ s) k h =
    ground (arith, components-plain w (word ++ c ∷ []) s, append_assoc word (c ∷ []) s)

-- the one component that an identifier is
components-id : (job_id : Text) → match_id 0 job_id ≡ true → components [] job_id ≡ job_id ∷ []
unfolding match_id components
components-id [] h = ground arith
components-id (c ∷ s) h = ground (arith, components-plain c [] s, match_id-plain 0 (c ∷ s))

is_within-append : (root path : FilePath) → is_within root (root ++ path) ≡ true
unfolding is_within
is_within-append [] path = refl
is_within-append (d ∷ root) path = ground (arith, text_eq_self d, is_within-append root path)

plain-relative : (s : Text) → all plain s ≡ true → is_absolute s ≡ false
plain-relative [] h = refl
plain-relative (c ∷ s) h = ground arith

joinpath-id :
    (root : FilePath) (job_id : Text)
    → match_id 0 job_id ≡ true
    → joinpath root (job_id ∷ []) ≡ root ++ job_id ∷ []
unfolding joinpath
joinpath-id root job_id h =
    ground (arith, components-id job_id h, plain-relative job_id, match_id-plain 0 job_id h)

-- Where `resolve` changes neither the root nor the path of the job below it, an identifier that
-- `validate_id` accepts gives the directory of that name right below the root, and every other one
-- gives `not_found`.
pub job_dir-own :
    (resolve : FilePath → FilePath) (jobs_dir uploads_dir : FilePath) (job_id : Text)
    → resolve jobs_dir ≡ jobs_dir
    → resolve (jobs_dir ++ job_id ∷ []) ≡ jobs_dir ++ job_id ∷ []
    → job_dir resolve jobs_dir uploads_dir job_id
      ≡ (if match_id 0 job_id then ok (jobs_dir ++ job_id ∷ []) else err not_found)
unfolding job_dir validate_id safe_join
job_dir-own resolve jobs_dir uploads_dir job_id r k =
    ground (arith, joinpath-id jobs_dir job_id, is_within-append jobs_dir (job_id ∷ []))
