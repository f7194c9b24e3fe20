-- ===== src/Storage/Cleanup.antt =====
-- The quota and the clean-up of backend/app/storage/paths.py. Times and ages are seconds.
pub mod Protected
use ai_video_clip_processing.Base.{
  ℕ, ◌+◌, ltb, leb, Bool, true, false, not, ◌&&◌, ◌||◌, Option, none, some, List, [], ◌∷◌,
  if◌then◌else◌, Text, text_eq, any,
}
use ai_video_clip_processing.Errors.{Result, ok, err, storage_error}

-- An entry of a directory; `st_mtime` is `none` where `stat` raises `OSError`.
pub record Entry : Type 0 where
  pub name : Text
  pub is_dir : Bool
  pub st_mtime : Option ℕ

-- `sum(f.stat().st_size for f in ...)`
unfoldable pub total_size : List ℕ → ℕ
total_size [] = 0
total_size (size ∷ sizes) = size + total_size sizes

-- `check_storage_quota`, with the sizes of all files below the root
unfoldable pub check_storage_quota : List ℕ → (incoming_bytes limit : ℕ) → Result (Unit {0})
unfolding total_size
check_storage_quota sizes incoming_bytes limit =
    if ltb limit (total_size sizes + incoming_bytes) then err storage_error else ok tt

-- `entry.stat().st_mtime < cutoff`, where `cutoff` is `max_age` before `now`
abbrev pub is_stale : ℕ → ℕ → Option ℕ → Bool
is_stale max_age now none = false
is_stale max_age now (some st_mtime) = ltb (st_mtime + max_age) now

-- whether the loop removes an entry
abbrev pub is_removable : List Text → (max_age now : ℕ) → Entry → Bool
is_removable protected_ids max_age now entry =
    entry.is_dir
    && not (any (λ i. text_eq i entry.name) protected_ids)
    && is_stale max_age now entry.st_mtime

-- The loop over `root.iterdir()`: the names that it reports, and the entries that are left. `rmtree`
-- says whether the removal of an entry works, since its errors are ignored.
unfoldable pub clean_entries :
    (Entry → Bool) → List Text → (max_age now : ℕ) → List Entry → List Text × List Entry
clean_entries rmtree protected_ids max_age now [] = ([], [])
clean_entries rmtree protected_ids max_age now (entry ∷ entries) =
    let (removed, left) = clean_entries rmtree protected_ids max_age now entries in
    if is_removable protected_ids max_age now entry
    then (entry.name ∷ removed, if rmtree entry then left else entry ∷ left)
    else (removed, entry ∷ left)

-- `_cleanup_old_dirs`; a root that does not exist has no entries, and an age that is not positive is 0
unfoldable pub cleanup_old_dirs :
    (Entry → Bool) → List Text → (max_age now : ℕ) → List Entry → List Text × List Entry
unfolding clean_entries
cleanup_old_dirs rmtree protected_ids max_age now entries =
    if leb max_age 0 then ([], entries) else clean_entries rmtree protected_ids max_age now entries
