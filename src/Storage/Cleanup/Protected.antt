-- ===== src/Storage/Cleanup/Protected.antt =====
-- What a clean-up leaves alone, and what it reports.
use ai_video_clip_processing.Base.{
  ℕ, ◌≡◌, ◌≤◌, subst, sym, ap, ◌∙◌, inl, inr, refl, leb, Bool, true, false, List, [], ◌∷◌,
  if◌then◌else◌, Text, In, In-of_select, select, map, arith, Bool-cases,
}
use ai_video_clip_processing.Base.{text_eq, text_eq_iff, any}
use ai_video_clip_processing.Storage.Cleanup.{Entry, is_removable, clean_entries, cleanup_old_dirs}

-- The loop reports the removable entries in their order.
clean_entries-removed :
    (rmtree : Entry → Bool) (protected_ids : List Text) (max_age now : ℕ) (entries : List Entry)
    → (clean_entries rmtree protected_ids max_age now entries).0
      ≡ map (λ e. e.name) (select (is_removable protected_ids max_age now) entries)
unfolding clean_entries
clean_entries-removed rmtree protected_ids max_age now [] = refl
clean_entries-removed rmtree protected_ids max_age now (entry ∷ entries) =
    elim (Bool-cases (is_removable protected_ids max_age now entry)) [
      | inl e ↦
          rw e (ground (arith, clean_entries-removed rmtree protected_ids max_age now entries))
      | inr e ↦ rw e (clean_entries-removed rmtree protected_ids max_age now entries)
    ]

-- The loop leaves an entry that is not removable.
clean_entries-left :
    (rmtree : Entry → Bool) (protected_ids : List Text) (max_age now : ℕ) (entry : Entry)
    (entries : List Entry)
    → In entry entries
    → is_removable protected_ids max_age now entry ≡ false
    → In entry (clean_entries rmtree protected_ids max_age now entries).1
unfolding clean_entries
clean_entries-left rmtree protected_ids max_age now entry [] h k = h
clean_entries-left rmtree protected_ids max_age now entry (e ∷ entries) (inl same) k =
    let kept : is_removable protected_ids max_age now e ≡ false = rw (← same) k in
    rw kept (inl same)
clean_entries-left rmtree protected_ids max_age now entry (e ∷ entries) (inr h) k =
    let rest = clean_entries-left rmtree protected_ids max_age now entry entries h k in
    elim (Bool-cases (is_removable protected_ids max_age now e)) [
      | inl r ↦ elim (Bool-cases (rmtree e)) [
        | inl d ↦ rw (r, d) rest
        | inr d ↦ rw (r, d) (inr rest)
      ]
      | inr r ↦ rw r (inr rest)
    ]

-- The loop leaves nothing of an entry that is removable and whose tree can be removed.
clean_entries-gone :
    (rmtree : Entry → Bool) (protected_ids : List Text) (max_age now : ℕ) (entry : Entry)
    (entries : List Entry)
    → is_removable protected_ids max_age now entry ≡ true
    → rmtree entry ≡ true
    → ¬ (In entry (clean_entries rmtree protected_ids max_age now entries).1)
unfolding clean_entries
clean_entries-gone rmtree protected_ids max_age now entry [] r d k = k
clean_entries-gone rmtree protected_ids max_age now entry (e ∷ entries) r d k =
    let left = (clean_entries rmtree protected_ids max_age now entries).1 in
    let left' = (clean_entries rmtree protected_ids max_age now (e ∷ entries)).1 in
    let gone : In entry left → ⊥ =
      clean_entries-gone rmtree protected_ids max_age now entry entries r d in
    elim (Bool-cases (is_removable protected_ids max_age now e)) [
      | inl r' ↦ elim (Bool-cases (rmtree e)) [
        | inl d' ↦ let same : left' ≡ left = rw (r', d') refl in gone (subst (In entry) same k)
        | inr d' ↦
            let same : left' ≡ e ∷ left = rw (r', d') refl in
            elim (subst (In entry) same k) [
              | inl p ↦ let both : true ≡ false = sym d ∙ (ap rmtree p ∙ d') in absurd (cc)
              | inr k' ↦ gone k'
            ]
      ]
      | inr r' ↦
          let same : left' ≡ e ∷ left = rw r' refl in
          elim (subst (In entry) same k) [
            | inl p ↦
                let both : true ≡ false =
                  sym r ∙ (ap (is_removable protected_ids max_age now) p ∙ r') in
                absurd (cc)
            | inr k' ↦ gone k'
          ]
    ]

-- A clean-up reports exactly the directories that are older than the age and not protected, in their
-- order, and none for the age 0.
pub cleanup_old_dirs-removed :
    (rmtree : Entry → Bool) (protected_ids : List Text) (max_age now : ℕ) (entries : List Entry)
    → (cleanup_old_dirs rmtree protected_ids max_age now entries).0 ≡ (
        if leb max_age 0
        then []
        else map (λ e. e.name) (select (is_removable protected_ids max_age now) entries))
unfolding cleanup_old_dirs
cleanup_old_dirs-removed rmtree protected_ids max_age now entries =
    elim (Bool-cases (leb max_age 0)) [
      | inl z ↦ rw z refl
      | inr z ↦ rw z (clean_entries-removed rmtree protected_ids max_age now entries)
    ]

-- An entry that is not removable stays: a file, a protected directory, one that is young, and one whose time
-- cannot be read.
pub cleanup_old_dirs-left :
    (rmtree : Entry → Bool) (protected_ids : List Text) (max_age now : ℕ) (entry : Entry)
    (entries : List Entry)
    → In entry entries
    → is_removable protected_ids max_age now entry ≡ false
    → In entry (cleanup_old_dirs rmtree protected_ids max_age now entries).1
unfolding cleanup_old_dirs
cleanup_old_dirs-left rmtree protected_ids max_age now entry entries h k =
    elim (Bool-cases (leb max_age 0)) [
      | inl z ↦ rw z h
      | inr z ↦ rw z (clean_entries-left rmtree protected_ids max_age now entry entries h k)
    ]

clean_entries-protected :
    (rmtree : Entry → Bool) (protected_ids : List Text) (max_age now : ℕ) (entries : List Entry)
    (id : Text)
    → any (λ i. text_eq i id) protected_ids ≡ true
    → any (λ r. text_eq r id) (clean_entries rmtree protected_ids max_age now entries).0 ≡ false
unfolding clean_entries
clean_entries-protected rmtree protected_ids max_age now [] id h = refl
clean_entries-protected rmtree protected_ids max_age now (entry ∷ entries) id h = ground (
  arith,
  h,
  text_eq_iff entry.name id,
  clean_entries-protected rmtree protected_ids max_age now entries id h,
)

-- No protected name is reported as removed.
pub cleanup_old_dirs-protected :
    (rmtree : Entry → Bool) (protected_ids : List Text) (max_age now : ℕ) (entries : List Entry)
    (id : Text)
    → any (λ i. text_eq i id) protected_ids ≡ true
    → any (λ r. text_eq r id) (cleanup_old_dirs rmtree protected_ids max_age now entries).0 ≡ false
unfolding cleanup_old_dirs
cleanup_old_dirs-protected rmtree protected_ids max_age now entries id h =
    ground (arith, clean_entries-protected rmtree protected_ids max_age now entries id h)

-- A clean-up with an age leaves nothing of an entry that is removable and whose tree can be removed.
pub cleanup_old_dirs-gone :
    (rmtree : Entry → Bool) (protected_ids : List Text) (max_age now : ℕ) (entry : Entry)
    (entries : List Entry)
    → 1 ≤ max_age
    → is_removable protected_ids max_age now entry ≡ true
    → rmtree entry ≡ true
    → ¬ (In entry (cleanup_old_dirs rmtree protected_ids max_age now entries).1)
unfolding cleanup_old_dirs
cleanup_old_dirs-gone rmtree protected_ids max_age now entry entries a r d =
    let old : leb max_age 0 ≡ false = ground (arith, a) in
    rw old (clean_entries-gone rmtree protected_ids max_age now entry entries r d)

In-map : (e : Entry) (entries : List Entry) → In e entries → In e.name (map (λ x. x.name) entries)
In-map e [] h = h
In-map e (x ∷ entries) (inl same) = inl (ap (λ (y : Entry). y.name) same)
In-map e (x ∷ entries) (inr h) = inr (In-map e entries h)

-- A clean-up with an age reports an entry that is removable.
pub cleanup_old_dirs-reported :
    (rmtree : Entry → Bool) (protected_ids : List Text) (max_age now : ℕ) (entry : Entry)
    (entries : List Entry)
    → 1 ≤ max_age
    → In entry entries
    → is_removable protected_ids max_age now entry ≡ true
    → In entry.name (cleanup_old_dirs rmtree protected_ids max_age now entries).0
cleanup_old_dirs-reported rmtree protected_ids max_age now entry entries a k r =
    let old : leb max_age 0 ≡ false = ground (arith, a) in
    let test = is_removable protected_ids max_age now in
    let named = In-map entry (select test entries) (In-of_select test entry entries k r) in
    rw (cleanup_old_dirs-removed rmtree protected_ids max_age now entries, old) named
