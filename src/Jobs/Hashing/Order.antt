-- ===== src/Jobs/Hashing/Order.antt =====
-- The hash of clips does not depend on the order in which they were selected.
use mathlib.Core.List.{Permᴰ}
use ai_video_clip_processing.Base.{
  text_le, ◌≡◌, refl, Bool, true, false, List, [], ◌∷◌, Text, text_eq, text_eq_iff, arith, sorted,
  insert_by, map, ap, ap₂, subst, any, text_eq_sym, ◌∙◌,
}
use ai_video_clip_processing.Schemas.Validated.{ValidatedClip}
use ai_video_clip_processing.Schemas.Json.{Json, arr}
use ai_video_clip_processing.Publishing.Rows.{Unique}
use ai_video_clip_processing.Jobs.Hashing.{to_metadata_dict, of_items, id_le, hash_clips}

text_le_total : (s t : Text) → text_le s t ≡ false → text_le t s ≡ true
unfolding text_le
text_le_total [] t h = ground arith
text_le_total (a ∷ s) [] h = refl
text_le_total (a ∷ s) (b ∷ t) h = ground (arith, text_le_total s t)

text_le_trans : (r s t : Text) → text_le r s ≡ true → text_le s t ≡ true → text_le r t ≡ true
unfolding text_le
text_le_trans [] s t h k = refl
text_le_trans (a ∷ r) [] t h k = ground arith
text_le_trans (a ∷ r) (b ∷ s) [] h k = ground arith
text_le_trans (a ∷ r) (b ∷ s) (c ∷ t) h k = ground (arith, text_le_trans r s t)

text_le_antisym : (s t : Text) → text_le s t ≡ true → text_le t s ≡ true → s ≡ t
unfolding text_le
text_le_antisym [] [] h k = refl
text_le_antisym [] (b ∷ t) h k = ground (arith, h, k)
text_le_antisym (a ∷ s) [] h k = ground (arith, h, k)
text_le_antisym (a ∷ s) (b ∷ t) h k = ground (arith, text_le_antisym s t)

insert-insert :
    (x y : ValidatedClip) (l : List ValidatedClip)
    → text_eq x.clip_id y.clip_id ≡ false
    → insert_by id_le x (insert_by id_le y l) ≡ insert_by id_le y (insert_by id_le x l)
unfolding insert_by
insert-insert x y [] h = ground (
  arith,
  h,
  text_eq_iff x.clip_id y.clip_id,
  text_le_total x.clip_id y.clip_id,
  text_le_antisym x.clip_id y.clip_id,
)
insert-insert x y (z ∷ l) h = ground (
  arith,
  h,
  insert-insert x y l h,
  text_eq_iff x.clip_id y.clip_id,
  text_le_total x.clip_id y.clip_id,
  text_le_antisym x.clip_id y.clip_id,
  text_le_trans x.clip_id y.clip_id z.clip_id,
  text_le_trans y.clip_id x.clip_id z.clip_id,
)

any-Permᴰ :
    (test : ValidatedClip → Bool) {xs ys : List ValidatedClip}
    → Permᴰ xs ys
    → any test xs ≡ any test ys
any-Permᴰ test Permᴰ.nil = refl
any-Permᴰ test (Permᴰ.cons e p) = rw (e, any-Permᴰ test p) refl
any-Permᴰ test (Permᴰ.swap {a = a} {b = b} e f) = rw (← e, ← f) (ground arith)
any-Permᴰ test (Permᴰ.trans p q) = any-Permᴰ test p ∙ any-Permᴰ test q

abbrev Distinct : List ValidatedClip → Type 0
Distinct = Unique (λ c. c.clip_id)

Distinct-swap :
    (a b : ValidatedClip) (l : List ValidatedClip) → Distinct (a ∷ b ∷ l) → Distinct (b ∷ a ∷ l)
Distinct-swap a b l u = ground (arith, u, text_eq_sym a.clip_id b.clip_id)

Permᴰ-Distinct : {xs ys : List ValidatedClip} → Permᴰ xs ys → Distinct xs → Distinct ys
Permᴰ-Distinct Permᴰ.nil u = u
Permᴰ-Distinct (Permᴰ.cons {a = a} {b = b} {l₂ = ys} e p) u =
    (rw (← e, ← any-Permᴰ (λ c. text_eq c.clip_id a.clip_id) p) u.0, Permᴰ-Distinct p u.1)
Permᴰ-Distinct (Permᴰ.swap {a = a} {b = b} {l = l} e f) u =
    subst Distinct (ap₂ (λ (c d : ValidatedClip). c ∷ d ∷ l) f e) (Distinct-swap a b l u)
Permᴰ-Distinct (Permᴰ.trans p q) u = Permᴰ-Distinct q (Permᴰ-Distinct p u)

sorted-Permᴰ :
    {xs ys : List ValidatedClip} → Permᴰ xs ys → Distinct xs → sorted id_le xs ≡ sorted id_le ys
unfolding sorted
sorted-Permᴰ Permᴰ.nil u = refl
sorted-Permᴰ (Permᴰ.cons e p) u = rw (e, sorted-Permᴰ p u.1) refl
sorted-Permᴰ (Permᴰ.swap {a = a} {b = b} {l = l} e f) u =
    rw (← e, ← f)
      (insert-insert a b (sorted id_le l) (ground (arith, u, text_eq_sym a.clip_id b.clip_id)))
sorted-Permᴰ (Permᴰ.trans p q) u = sorted-Permᴰ p u ∙ sorted-Permᴰ q (Permᴰ-Distinct p u)

-- The hash of clips with distinct identifiers does not depend on the order in which they are given,
-- so the same choice of clips finds the job that was made for it.
pub hash_clips-Permᴰ :
    (sha256 : Text → Text) (dumps : Json → Text) (xs ys : List ValidatedClip)
    → Permᴰ xs ys
    → Unique (λ c. c.clip_id) xs
    → hash_clips sha256 dumps xs ≡ hash_clips sha256 dumps ys
unfolding hash_clips
hash_clips-Permᴰ sha256 dumps xs ys p u =
    ap (λ cs. sha256 (dumps (arr (of_items (map to_metadata_dict cs))))) (sorted-Permᴰ p u)
