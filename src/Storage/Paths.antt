-- ===== src/Storage/Paths.antt =====
-- backend/app/storage/paths.py: identifiers, and paths that must stay below a root.
pub mod Own
use ai_video_clip_processing.Base.{
  ℕ, suc, ◌≡◌, Bool, true, false, not, ◌&&◌, ◌||◌, List, [], ◌∷◌, ◌++◌, leb, ◌==◌, if◌then◌else◌,
  Text, text_eq, all, length,
}
use ai_video_clip_processing.Errors.{Result, ok, err, not_found, ◌>>=◌, ◌>>◌}

-- `[A-Za-z0-9_-]`
unfoldable pub is_id_char : ℕ → Bool
is_id_char c =
    leb b'A' c && leb c b'Z'
    || leb b'a' c && leb c b'z'
    || leb b'0' c && leb c b'9'
    || c == b'_'
    || c == b'-'

-- The end of a pattern that closes with `$`: it also stands before a last line feed.
unfoldable pub at_end : Text → Bool
at_end [] = true
at_end (c ∷ []) = c == 10
at_end (_ ∷ _ ∷ _) = false

-- `[A-Za-z0-9_-]{1,64}$`, after `n` characters of it. No character of the class is a line feed, so
-- the longest run is the only one after which `$` can stand.
unfoldable pub match_id : ℕ → Text → Bool
unfolding is_id_char at_end
match_id n [] = leb 1 n && leb n 64
match_id n (c ∷ s) =
    if is_id_char c then match_id (suc n) s else leb 1 n && leb n 64 && at_end (c ∷ s)

-- `validate_id`
unfoldable pub validate_id : Text → Result Text
unfolding match_id
validate_id value = if match_id 0 value then ok value else err not_found

-- An absolute path is the list of its components.
abbrev pub FilePath : Type 0
FilePath = List Text

-- The components of a relative path: `pathlib` drops empty ones and `.`.
unfoldable pub components : Text → Text → FilePath
components [] [] = []
components (c ∷ w) [] = if text_eq (c ∷ w) (b'.' ∷ []) then [] else (c ∷ w) ∷ []
components word (c ∷ s) =
    let rest = components [] s in
    let longer = components (word ++ c ∷ []) s in
    if c == b'/'
    then (if text_eq word [] || text_eq word (b'.' ∷ []) then rest else word ∷ rest)
    else longer

-- a part that begins with `/` replaces what stands before it
abbrev pub is_absolute : Text → Bool
is_absolute [] = false
is_absolute (c ∷ _) = c == b'/'

-- `root.joinpath(*parts)`
unfoldable pub joinpath : FilePath → List Text → FilePath
unfolding components
joinpath root [] = root
joinpath root (part ∷ parts) =
    joinpath (if is_absolute part then components [] part else root ++ components [] part) parts

-- `root == path or root in path.parents`
unfoldable pub is_within : FilePath → FilePath → Bool
is_within [] path = true
is_within (_ ∷ _) [] = false
is_within (d ∷ root) (e ∷ path) = text_eq d e && is_within root path

-- `Path.resolve` asks the file system for symbolic links: `resolve` stands for it.
module _ (resolve : FilePath → FilePath) (jobs_dir uploads_dir : FilePath) where
  unfoldable pub safe_join : FilePath → List Text → Result FilePath
  unfolding joinpath is_within
  safe_join root parts =
      let candidate = resolve (joinpath root parts) in
      if is_within (resolve root) candidate then ok candidate else err not_found

  unfoldable pub job_dir : Text → Result FilePath
  unfolding validate_id safe_join
  job_dir job_id = do validate_id job_id; safe_join jobs_dir (job_id ∷ [])

  unfoldable pub upload_dir : Text → Result FilePath
  unfolding validate_id safe_join
  upload_dir upload_id = do validate_id upload_id; safe_join uploads_dir (upload_id ∷ [])
